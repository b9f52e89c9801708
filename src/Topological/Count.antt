-- ===== src/Topological/Count.antt =====
-- utils/sorts/topological.go: how many nodes the items make.
use mathlib.Core.List.{Memᴰ}
use mathlib.Core.List.Memᴰ
use mathlib.Core.Logic.{ite}
use minotaur.Base.{
  suc, ◌+◌, ◌≤◌, List, [], ◌∷◌, Bool, true, false, if◌then◌else◌, length, map, ◌≡◌, refl, sym, ap,
  ◌∙◌, subst, arith, Bool-cases, inl, inr,
}
use minotaur.SyncMap.{put_entry}
use minotaur.Topological.{Node, add_nodes, nodes_of, is_visited}
use minotaur.Topological.Visit.{Distinct, is_visited_mem, mem-is_visited}
use minotaur.Topological.Ends.{indices}
use minotaur.Topological.Build.{indices-put_entry, put_entry_mem}
use minotaur.Topological.Graph.{indices-connect}

length-map : {A B : Type 0} (f : A → B) (xs : List A) → length (map f xs) ≡ length xs
length-map f [] = refl
length-map f (x ∷ xs) = ap suc (length-map f xs)

module _ {I V : Type 0} (dec : Discrete I) where
  length-put_entry :
      (k : I) (node : Node I V) (nodes : List (I × Node I V))
      → length (put_entry dec k node nodes)
        ≡ (if is_visited dec k (indices dec nodes) then length nodes else suc (length nodes))
  unfolding put_entry is_visited
  length-put_entry k node [] = refl
  length-put_entry k node ((i, other) ∷ nodes) =
      let again = length-put_entry k node nodes in
      elim (dec k i)
        as (λ d. length (ite d ((i, node) ∷ nodes) ((i, other) ∷ put_entry dec k node nodes)) ≡ (
          if (if (elim d as (λ _. Bool) [ yes _ ↦ true | no _ ↦ false ])
            then true
            else is_visited dec k (indices dec nodes))
          then suc (length nodes)
          else suc (suc (length nodes)))) [
            | yes _ ↦ refl
            | no _ ↦ elim (Bool-cases (is_visited dec k (indices dec nodes))) [
              | inl v ↦ rw v (ap suc again ∙ rw v refl)
              | inr v ↦ rw v (ap suc again ∙ rw v refl)
            ]
          ]

  put_entry_seen :
      (k : I) (node : Node I V) (nodes : List (I × Node I V))
      → is_visited dec k (indices dec nodes) ≡ true
      → length (put_entry dec k node nodes) ≡ length nodes
  put_entry_seen k node nodes v = length-put_entry k node nodes ∙ rw v refl

  put_entry_new :
      (k : I) (node : Node I V) (nodes : List (I × Node I V))
      → is_visited dec k (indices dec nodes) ≡ false
      → length (put_entry dec k node nodes) ≡ suc (length nodes)
  put_entry_new k node nodes v = length-put_entry k node nodes ∙ rw v refl

module _ {I V : Type 0} (dec : Discrete I) (query_index : V → I) where
  abbrev Apart : List V → List (I × Node I V) → Type 0
  Apart slice nodes = (j : I) → Memᴰ j (map query_index slice) → ¬ Memᴰ j (indices dec nodes)

  length-add_nodes_le :
      (slice : List V) (nodes : List (I × Node I V))
      → length (add_nodes dec query_index slice nodes) ≤ length slice + length nodes
  unfolding add_nodes
  length-add_nodes_le [] nodes = omega arith
  length-add_nodes_le (item ∷ slice) nodes =
      let fresh : Node I V = record { value = item; depends_on = []; dependents = [] } in
      let rest = length-add_nodes_le slice (put_entry dec (query_index item) fresh nodes) in
      elim (Bool-cases (is_visited dec (query_index item) (indices dec nodes))) [
        | inl v ↦ omega (arith, put_entry_seen dec (query_index item) fresh nodes v)
        | inr v ↦ omega (arith, put_entry_new dec (query_index item) fresh nodes v)
      ]

  length-add_nodes :
      (slice : List V) (nodes : List (I × Node I V))
      → Distinct dec (map query_index slice)
      → Apart slice nodes
      → length (add_nodes dec query_index slice nodes) ≡ length slice + length nodes
  unfolding add_nodes
  length-add_nodes [] nodes d apart = omega arith
  length-add_nodes (item ∷ slice) nodes (out, d) apart =
      let fresh : Node I V = record { value = item; depends_on = []; dependents = [] } in
      let rest = length-add_nodes slice (put_entry dec (query_index item) fresh nodes) d (λ j m k.
        elim (indices-put_entry dec (query_index item) fresh nodes j k) [
          | inl e ↦ out (subst (λ j. Memᴰ j (map query_index slice)) e m)
          | inr k ↦ apart j (Memᴰ.tail m) k
        ]) in
      elim (Bool-cases (is_visited dec (query_index item) (indices dec nodes))) [
        | inl v ↦ absurd (
            apart (query_index item) (Memᴰ.head refl)
              (is_visited_mem dec (query_index item) (indices dec nodes) v))
        | inr v ↦ omega (arith, put_entry_new dec (query_index item) fresh nodes v)
      ]

  add_nodes-Apart :
      (slice : List V) (nodes : List (I × Node I V))
      → length (add_nodes dec query_index slice nodes) ≡ length slice + length nodes
      → Distinct dec (map query_index slice) × Apart slice nodes
  unfolding add_nodes
  add_nodes-Apart [] nodes h = (tt, λ j m. absurd (Memᴰ.not-nil m))
  add_nodes-Apart (item ∷ slice) nodes h =
      let fresh : Node I V = record { value = item; depends_on = []; dependents = [] } in
      let nodes' = put_entry dec (query_index item) fresh nodes in
      let bound = length-add_nodes_le slice nodes' in
      elim (Bool-cases (is_visited dec (query_index item) (indices dec nodes))) [
        | inl v ↦ absurd (omega (arith, put_entry_seen dec (query_index item) fresh nodes v))
        | inr v ↦
            let (d, apart) =
              add_nodes-Apart slice nodes'
                (omega (arith, put_entry_new dec (query_index item) fresh nodes v)) in
            let (now, still) = put_entry_mem dec (query_index item) fresh nodes in
            (
              (λ m. apart (query_index item) m now, d),
              λ j m k. elim (Memᴰ.cases_cons m) [
                | inl e ↦
                    let seen =
                      mem-is_visited dec (query_index item) (indices dec nodes)
                        (subst (λ j. Memᴰ j (indices dec nodes)) e k) in
                    absurd (let bad : true ≡ false = sym seen ∙ v in cc)
                | inr m ↦ apart j m (still j k)
              ],
            )
      ]

  module _ (query_depends : V → List I) (items : List V) where
    length-nodes_of :
        length (nodes_of dec query_index query_depends items)
        ≡ length (add_nodes dec query_index items [])
    unfolding nodes_of
    length-nodes_of =
        sym (length-map (λ e. e.0) (nodes_of dec query_index query_depends items))
        ∙ ap length (
            indices-connect dec query_index query_depends items
              (add_nodes dec query_index items []))
        ∙ length-map (λ e. e.0) (add_nodes dec query_index items [])

    -- There is a node for each item exactly when their indices are different.
    pub length-nodes_of_same :
        Distinct dec (map query_index items)
        → length (nodes_of dec query_index query_depends items) ≡ length items
    length-nodes_of_same d =
        length-nodes_of ∙ omega (arith, length-add_nodes items [] d (λ j m. Memᴰ.not-nil))

    pub nodes_of_repeat :
        length (nodes_of dec query_index query_depends items) ≡ length items
        → Distinct dec (map query_index items)
    nodes_of_repeat h = (add_nodes-Apart items [] (omega (arith, length-nodes_of))).0

    pub length-indices :
        length (indices dec (nodes_of dec query_index query_depends items))
        ≡ length (nodes_of dec query_index query_depends items)
    length-indices = length-map (λ e. e.0) (nodes_of dec query_index query_depends items)
