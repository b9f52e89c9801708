-- ===== src/Topological/Build.antt =====
-- utils/sorts/topological.go: the loops that build the nodes.
use mathlib.Core.List.{lookup, Memᴰ}
use mathlib.Core.List.Memᴰ
use mathlib.Core.Logic.{ite}
use minotaur.Base.{
  List, [], ◌∷◌, ◌++◌, Option, some, none, ◌≡◌, ◌≢◌, refl, sym, ap, subst, inl, inr, ◌⊎◌,
}
use minotaur.SyncMap.{put_entry}
use minotaur.Topological.{Node, add_depend}
use minotaur.Topological.Visit.{Distinct}
use minotaur.Topological.Ends.{indices}

module _ {I V : Type 0} (dec : Discrete I) where
  pub indices-put_entry :
      (k : I) (node : Node I V) (nodes : List (I × Node I V)) (j : I)
      → Memᴰ j (indices dec (put_entry dec k node nodes))
      → (j ≡ k) ⊎ Memᴰ j (indices dec nodes)
  unfolding put_entry
  indices-put_entry k node [] j h = inl (Memᴰ.eq_of_singleton h)
  indices-put_entry k node ((i, other) ∷ nodes) j h =
      elim (dec k i)
          as (λ d.
            Memᴰ j
              (indices dec (ite d ((i, node) ∷ nodes) ((i, other) ∷ put_entry dec k node nodes)))
            → (j ≡ k) ⊎ Memᴰ j (i ∷ indices dec nodes)) [
              | yes _ ↦ inr
              | no _ ↦ λ m. elim (Memᴰ.cases_cons m) [
                | inl e ↦ inr (Memᴰ.head e)
                | inr m ↦ elim (indices-put_entry k node nodes j m) [
                  | inl e ↦ inl e
                  | inr m ↦ inr (Memᴰ.tail m)
                ]
              ]
            ]
        h

  pub put_entry_mem :
      (k : I) (node : Node I V) (nodes : List (I × Node I V))
      → Memᴰ k (indices dec (put_entry dec k node nodes))
        × ((j : I) → Memᴰ j (indices dec nodes) → Memᴰ j (indices dec (put_entry dec k node nodes)))
  unfolding put_entry
  put_entry_mem k node [] = (Memᴰ.head refl, λ j m. absurd (Memᴰ.not-nil m))
  put_entry_mem k node ((i, other) ∷ nodes) =
      elim (dec k i)
        as (λ d.
          Memᴰ k (indices dec (ite d ((i, node) ∷ nodes) ((i, other) ∷ put_entry dec k node nodes)))
          × ((j : I)
              → Memᴰ j (i ∷ indices dec nodes)
              → Memᴰ j (
                  indices dec
                    (ite d ((i, node) ∷ nodes) ((i, other) ∷ put_entry dec k node nodes))))) [
                      | yes e ↦ (Memᴰ.head e, λ j m. m)
                      | no _ ↦
                          let (now, still) = put_entry_mem k node nodes in
                          (
                            Memᴰ.tail now,
                            λ j m. elim (Memᴰ.cases_cons m) [
                              | inl e ↦ Memᴰ.head e
                              | inr m ↦ Memᴰ.tail (still j m)
                            ],
                          )
                    ]

  pub put_entry-Distinct :
      (k : I) (node : Node I V) (nodes : List (I × Node I V))
      → Distinct dec (indices dec nodes)
      → Distinct dec (indices dec (put_entry dec k node nodes))
  unfolding put_entry
  put_entry-Distinct k node [] d = (Memᴰ.not-nil, tt)
  put_entry-Distinct k node ((i, other) ∷ nodes) (out, d) =
      elim (dec k i)
        as (λ d.
          Distinct dec
            (indices dec (ite d ((i, node) ∷ nodes) ((i, other) ∷ put_entry dec k node nodes)))) [
              | yes _ ↦ (out, d)
              | no n ↦ (
                λ m. elim (indices-put_entry k node nodes i m) [
                  | inl e ↦ n (sym e)
                  | inr m ↦ out m
                ],
                put_entry-Distinct k node nodes d,
              )
            ]

module _ {I V : Type 0} (dec : Discrete I) where
  abbrev pub AllNodes : (I → Node I V → Type 0) → List (I × Node I V) → Type 0
  AllNodes P [] = Unit {0}
  AllNodes P ((i, node) ∷ nodes) = P i node × AllNodes P nodes

  Found : (I → Node I V → Type 0) → I → Option (Node I V) → Type 0
  Found P i none = Unit {0}
  Found P i (some node) = P i node

  found :
      (P : I → Node I V → Type 0) (i : I) (nodes : List (I × Node I V))
      → AllNodes P nodes
      → Found P i (lookup dec i nodes)
  unfolding lookup Found
  found P i [] h = tt
  found P i ((j, other) ∷ nodes) (h, hs) =
      elim (dec i j) as (λ d. Found P i (ite d (some other) (lookup dec i nodes))) [
        | yes e ↦ subst (λ i. P i other) (sym e) h
        | no _ ↦ found P i nodes hs
      ]

  pub lookup-AllNodes :
      (P : I → Node I V → Type 0) (i : I) (node : Node I V) (nodes : List (I × Node I V))
      → AllNodes P nodes
      → lookup dec i nodes ≡ some node
      → P i node
  unfolding Found
  lookup-AllNodes P i node nodes h e = subst (Found P i) e (found P i nodes h)

  pub put_entry-AllNodes :
      (P : I → Node I V → Type 0) (k : I) (node : Node I V) (nodes : List (I × Node I V))
      → P k node
      → AllNodes P nodes
      → AllNodes P (put_entry dec k node nodes)
  unfolding put_entry
  put_entry-AllNodes P k node [] n h = (n, tt)
  put_entry-AllNodes P k node ((i, other) ∷ nodes) n (h, hs) =
      elim (dec k i)
        as (λ d. AllNodes P (ite d ((i, node) ∷ nodes) ((i, other) ∷ put_entry dec k node nodes))) [
          | yes e ↦ (subst (λ i. P i node) e n, hs)
          | no _ ↦ (h, put_entry-AllNodes P k node nodes n hs)
        ]

  -- What `add_depend` makes of the node.
  abbrev pub depending : I → Node I V → Node I V
  depending i node = record node {
    depends_on = node.depends_on ++ i ∷ [];
    dependents = node.dependents ++ i ∷ [];
  }

  all_others :
      (P Q : I → Node I V → Type 0) (depend : I)
      → ((j : I) (node : Node I V) → depend ≢ j → P j node → Q j node)
      → (nodes : List (I × Node I V)) → ¬ Memᴰ depend (indices dec nodes)
      → AllNodes P nodes
      → AllNodes Q nodes
  all_others P Q depend other [] out h = tt
  all_others P Q depend other ((j, node) ∷ nodes) out (h, hs) = (
    other j node (λ e. out (Memᴰ.head e)) h,
    all_others P Q depend other nodes (λ m. out (Memᴰ.tail m)) hs,
  )

  pub add_depend-AllNodes :
      (P Q : I → Node I V → Type 0) (depend i : I)
      → ((j : I) (node : Node I V) → depend ≢ j → P j node → Q j node)
      → ((j : I) (node : Node I V) → depend ≡ j → P j node → Q j (depending i node))
      → (nodes : List (I × Node I V)) → Distinct dec (indices dec nodes)
      → AllNodes P nodes
      → AllNodes Q (add_depend dec depend i nodes)
  unfolding add_depend
  add_depend-AllNodes P Q depend i other this [] distinct h = tt
  add_depend-AllNodes P Q depend i other this ((j, node) ∷ nodes) (out, distinct) (h, hs) =
      elim (dec depend j)
        as (λ d.
          AllNodes Q
            (ite d ((j, depending i node) ∷ nodes) ((j, node) ∷ add_depend dec depend i nodes))) [
              | yes e ↦ (
                this j node e h,
                all_others P Q depend other nodes
                    (subst (λ j. ¬ Memᴰ j (indices dec nodes)) (sym e) out) hs,
              )
              | no n ↦
                  (other j node n h, add_depend-AllNodes P Q depend i other this nodes distinct hs)
            ]

  pub indices-add_depend :
      (depend i : I) (nodes : List (I × Node I V))
      → indices dec (add_depend dec depend i nodes) ≡ indices dec nodes
  unfolding add_depend
  indices-add_depend depend i [] = refl
  indices-add_depend depend i ((j, node) ∷ nodes) =
      elim (dec depend j)
        as (λ d.
          indices dec
            (ite d ((j, depending i node) ∷ nodes) ((j, node) ∷ add_depend dec depend i nodes))
          ≡ j ∷ indices dec nodes) [
            | yes _ ↦ refl
            | no _ ↦ ap (◌∷◌ j) (indices-add_depend depend i nodes)
          ]
