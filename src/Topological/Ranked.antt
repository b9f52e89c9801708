-- ===== src/Topological/Ranked.antt =====
-- utils/sorts/topological.go: the order of the visits where no dependency is circular.
use mathlib.Core.List.{lookup, Memᴰ}
use mathlib.Core.List.Memᴰ
use minotaur.Base.{
  ℕ, zero, suc, ◌<◌, List, [], ◌∷◌, ◌++◌, true, some, map, Go, ret, ◌≡◌, refl, sym, ap, ◌∙◌, subst,
  arith, inl, inr, ◌⊎◌,
}
use minotaur.Topological.{Node, Progress, nodes_of, each_in, is_visited, visit}
use minotaur.Topological.Visit.{is_visited_mem, Distinct}
use minotaur.Topological.Build.{lookup-AllNodes}
use minotaur.Topological.Items.{IsItem, nodes_of-IsItem, nodes_of-Knows}
use minotaur.Topological.Order.{
  bind-cases, DependentsFirst, append-DependentsFirst, index_injective, visit-cases,
}

-- The items have different indices, and a rank that is lower than that of whatever depends on it.
module _ {I V : Type 0} (dec : Discrete I) (query_index : V → I) (query_depends : V → List I)
    (items : List V) (distinct : Distinct dec (map query_index items)) (rank : I → ℕ)
    (falls : (item : V) (depend : I)
      → Memᴰ item items
      → Memᴰ depend (query_depends item)
      → rank depend < rank (query_index item)) where
  abbrev graph : List (I × Node I V)
  graph = nodes_of dec query_index query_depends items

  abbrev pub Done : Progress I V → I → Type 0
  Done s i = (node : Node I V) × (lookup dec i graph ≡ some node) × Memᴰ node.value s.sorted

  -- What is marked is on the way, or sorted.
  pub record IsOrdered (way : List I) (s : Progress I V) : Type 0 where
    pub settled : (j : I) → Memᴰ j s.visited → Memᴰ j way ⊎ Done s j
    pub first : DependentsFirst query_index query_depends items s.sorted

  abbrev pub Below : List I → I → Type 0
  Below way i = (o : I) → Memᴰ o way → rank o < rank i

  pub record Orders (way js : List I) (s s' : Progress I V) : Type 0 where
    pub ordered : IsOrdered way s'
    pub grown : (v : V) → Memᴰ v s.sorted → Memᴰ v s'.sorted
    pub done : (j : I) → Memᴰ j js → Done s' j

  abbrev pub Body : (Progress I V → I → Go (Progress I V)) → Type 0
  Body body =
      (way : List I) (s s' : Progress I V) (i : I)
      → body s i ≡ ret s'
      → IsOrdered way s
      → Below way i
      → Orders way (i ∷ []) s s'

  pub each-Orders :
      (body : Progress I V → I → Go (Progress I V))
      → Body body
      → (way js : List I) (s s' : Progress I V) → each_in body s js ≡ ret s'
      → IsOrdered way s
      → ((j : I) → Memᴰ j js → Below way j)
      → Orders way js s s'
  unfolding each_in
  each-Orders body orders way [] s s' e h below =
      let same_state : s ≡ s' = cc in
      record {
        ordered = subst (IsOrdered way) same_state h;
        grown = λ v m. subst (λ s. Memᴰ v s.sorted) same_state m;
        done = λ j m. absurd (Memᴰ.not-nil m);
      }
  each-Orders body orders way (j ∷ js) s s' e h below =
      let (t, p, q) = bind-cases (body s j) (λ t. each_in body t js) s' e in
      let one = orders way s t j p h (below j (Memᴰ.head refl)) in
      let rest = each-Orders body orders way js t s' q one.ordered (λ j m. below j (Memᴰ.tail m)) in
      record {
        ordered = rest.ordered;
        grown = λ v m. rest.grown v (one.grown v m);
        done = λ k m. elim (Memᴰ.cases_cons m) [
          | inl c ↦
              let (node, at, in_) = one.done k (Memᴰ.head c) in
              (node, at, rest.grown node.value in_)
          | inr m ↦ rest.done k m
        ];
      }

  seen-Orders :
      (way : List I) (s : Progress I V) (i : I)
      → is_visited dec i s.visited ≡ true
      → IsOrdered way s
      → Below way i
      → Orders way (i ∷ []) s s
  seen-Orders way s i seen h below = record {
    ordered = h;
    grown = λ v m. m;
    done = λ j m.
        subst (Done s) (sym (Memᴰ.eq_of_singleton m))
          (elim (h.settled i (is_visited_mem dec i s.visited seen)) [
            | inl o ↦ absurd (omega (arith, below i o))
            | inr d ↦ d
          ]);
  }

  dependents_in :
      (i : I) (node : Node I V) (t : Progress I V)
      → lookup dec i graph ≡ some node
      → ((j : I) → Memᴰ j node.depends_on → Done t j)
      → (item : V) → Memᴰ item items
      → Memᴰ (query_index node.value) (query_depends item)
      → Memᴰ item t.sorted
  dependents_in i node t at done item m names =
      let (e, _, _) =
        lookup-AllNodes dec (IsItem dec query_index query_depends items) i node graph
          (nodes_of-IsItem dec query_index query_depends items) at in
      let knows =
        nodes_of-Knows dec query_index query_depends items item i node m
          (subst (λ i. Memᴰ i (query_depends item)) e names) at in
      let (other, found, sorted) = done (query_index item) knows in
      let (e', k, _) =
        lookup-AllNodes dec (IsItem dec query_index query_depends items) (query_index item) other
          graph (nodes_of-IsItem dec query_index query_depends items) found in
      subst (λ v. Memᴰ v t.sorted)
        (index_injective dec query_index query_depends items other.value item distinct k m e')
        sorted

  new-Orders :
      (way : List I) (s t : Progress I V) (i : I) (node : Node I V)
      → lookup dec i graph ≡ some node
      → Orders (i ∷ way) node.depends_on (record s { visited = i ∷ s.visited }) t
      → Orders way (i ∷ []) s (record t { sorted = t.sorted ++ node.value ∷ [] })
  new-Orders way s t i node at h =
      let h' = h.ordered in
      record {
        ordered = record {
          settled = λ j m. elim (h'.settled j m) [
            | inl o ↦ elim (Memᴰ.cases_cons o) [
              | inl e ↦ inr (
                node,
                ap (λ j. lookup dec j graph) e ∙ at,
                Memᴰ.append_right t.sorted (Memᴰ.head refl),
              )
              | inr o ↦ inl o
            ]
            | inr (other, found, k) ↦ inr (other, found, Memᴰ.append_left (node.value ∷ []) k)
          ];
          first =
              append-DependentsFirst query_index query_depends items t.sorted node.value h'.first
                (dependents_in i node t at h.done);
        };
        grown = λ v m. Memᴰ.append_left (node.value ∷ []) (h.grown v m);
        done = λ j m. (
          node,
          ap (λ j. lookup dec j graph) (Memᴰ.eq_of_singleton m) ∙ at,
          Memᴰ.append_right t.sorted (Memᴰ.head refl),
        );
      }

  dependents-Below :
      (way : List I) (i : I) (node : Node I V)
      → lookup dec i graph ≡ some node
      → Below way i
      → (j : I) → Memᴰ j node.depends_on
      → Below (i ∷ way) j
  dependents-Below way i node at below j m o k =
      let (_, _, h) =
        lookup-AllNodes dec (IsItem dec query_index query_depends items) i node graph
          (nodes_of-IsItem dec query_index query_depends items) at in
      let (item, in_, e, names) = h j m in
      let higher : rank i < rank j = subst (λ j. rank i < rank j) e (falls item i in_ names) in
      elim (Memᴰ.cases_cons k) [
        | inl e ↦ subst (λ o. rank o < rank j) (sym e) higher
        | inr k ↦ omega (arith, below o k)
      ]

  mark_IsOrdered :
      (way : List I) (s : Progress I V) (i : I)
      → IsOrdered way s
      → IsOrdered (i ∷ way) (record s { visited = i ∷ s.visited })
  mark_IsOrdered way s i h = record {
    settled = λ j m. elim (Memᴰ.cases_cons m) [
      | inl e ↦ inl (Memᴰ.head e)
      | inr m ↦ elim (h.settled j m) [ inl o ↦ inl (Memᴰ.tail o) | inr d ↦ inr d ]
    ];
    first = h.first;
  }

  pub visit-Orders : (fuel : ℕ) → Body (visit dec graph fuel)
  unfolding visit
  visit-Orders zero way s s' i e h below = absurd (cc)
  visit-Orders (suc fuel) way s s' i e h below =
      let (node, at, split) = visit-cases dec query_index query_depends graph fuel s s' i e in
      elim split [
        | inl (seen, q) ↦ subst (Orders way (i ∷ []) s) q (seen-Orders way s i seen h below)
        | inr (t, p, q) ↦ subst (Orders way (i ∷ []) s) q (
            new-Orders way s t i node at (
              each-Orders (visit dec graph fuel) (visit-Orders fuel) (i ∷ way) node.depends_on
                (record s { visited = i ∷ s.visited }) t p (mark_IsOrdered way s i h)
                (dependents-Below way i node at below)))
      ]
