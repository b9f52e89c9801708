-- ===== src/Topological/Ends.antt =====
-- utils/sorts/topological.go: the visits of a graph of nodes return, with the fuel they are given.
use mathlib.Core.List.{lookup, Memᴰ}
use mathlib.Core.List.Memᴰ
use minotaur.Base.{
  ℕ, zero, suc, ◌+◌, ◌≤◌, List, [], ◌∷◌, ◌++◌, true, false, some, length, map, Go, ret, ◌>>=◌, ◌≡◌,
  refl, sym, ap, ◌∙◌, subst, arith, Bool-cases, inl, inr, length-append,
}
use minotaur.Topological.{Node, Progress, each_in, is_visited, visit}
use minotaur.Topological.Visit.{is_visited_mem, unvisited, Distinct, unvisited_mark}

module _ {I V : Type 0} (dec : Discrete I) where
  abbrev pub indices : List (I × Node I V) → List I
  indices nodes = map (λ e. e.0) nodes

  -- The indices are different, and every dependency is a node.
  pub record IsGraph (nodes : List (I × Node I V)) : Type 0 where
    pub distinct : Distinct dec (indices nodes)
    pub closed :
        (i : I) (node : Node I V) (j : I)
        → lookup dec i nodes ≡ some node
        → Memᴰ j node.depends_on
        → Memᴰ j (indices nodes)

  pub lookup_mem :
      (i : I) (nodes : List (I × Node I V))
      → Memᴰ i (indices nodes)
      → (node : Node I V) × (lookup dec i nodes ≡ some node)
  unfolding lookup
  lookup_mem i [] h = absurd (Memᴰ.not-nil h)
  lookup_mem i ((j, node) ∷ nodes) h = elim (dec i j) [
    | yes e ↦ (node, ground arith)
    | no n ↦ elim (Memᴰ.cases_cons h) [
      | inl e ↦ absurd (n e)
      | inr m ↦ let (other, e) = lookup_mem i nodes m in (other, ground arith)
    ]
  ]

module _ {I V : Type 0} (dec : Discrete I) (nodes : List (I × Node I V))
    (graph : IsGraph dec nodes) where
  abbrev left : Progress I V → ℕ
  left s = unvisited dec s.visited (indices dec nodes)

  -- What visits leave: what is marked is sorted, and what was marked still is.
  pub record HasVisited (js : List I) (s s' : Progress I V) : Type 0 where
    pub work : left s' + length s'.sorted ≡ left s + length s.sorted
    pub falls : left s' ≤ left s
    pub now : (j : I) → Memᴰ j js → Memᴰ j s'.visited
    pub still : (j : I) → Memᴰ j s.visited → Memᴰ j s'.visited

  abbrev pub Returns : (Progress I V → I → Go (Progress I V)) → ℕ → Type 0
  Returns body fuel =
      (s : Progress I V) (i : I)
      → Memᴰ i (indices dec nodes)
      → left s ≤ fuel
      → (s' : Progress I V) × (body s i ≡ ret s') × HasVisited (i ∷ []) s s'

  pub each_ends :
      (body : Progress I V → I → Go (Progress I V)) (fuel : ℕ)
      → Returns body fuel
      → (js : List I) (s : Progress I V) → ((j : I) → Memᴰ j js → Memᴰ j (indices dec nodes))
      → left s ≤ fuel
      → (s' : Progress I V) × (each_in body s js ≡ ret s') × HasVisited js s s'
  unfolding each_in
  each_ends body fuel returns [] s inside enough = (
    s,
    refl,
    record {
      work = refl;
      falls = omega arith;
      now = λ j m. absurd (Memᴰ.not-nil m);
      still = λ j m. m;
    },
  )
  each_ends body fuel returns (i ∷ js) s inside enough =
      let (s₁, e₁, h₁) = returns s i (inside i (Memᴰ.head refl)) enough in
      let f₁ = h₁.falls in
      let (s₂, e₂, h₂) =
        each_ends body fuel returns js s₁ (λ j m. inside j (Memᴰ.tail m)) (omega arith) in
      let f₂ = h₂.falls in
      (
        s₂,
        ap (λ r. r >>= λ s'. each_in body s' js) e₁ ∙ e₂,
        record {
          work = h₂.work ∙ h₁.work;
          falls = omega arith;
          now = λ j m. elim (Memᴰ.cases_cons m) [
            | inl e ↦ h₂.still j (h₁.now j (Memᴰ.head e))
            | inr m ↦ h₂.now j m
          ];
          still = λ j m. h₂.still j (h₁.still j m);
        },
      )

  visit_seen :
      (fuel : ℕ) (s : Progress I V) (i : I)
      → Memᴰ i (indices dec nodes)
      → is_visited dec i s.visited ≡ true
      → visit dec nodes (suc fuel) s i ≡ ret s
  unfolding visit
  visit_seen fuel s i m seen =
      let (node, at) = lookup_mem dec i nodes m in rw (visit, at, seen) refl

  -- The end of a visit.
  abbrev pub put_last : V → Progress I V → Progress I V
  put_last value s' = record s' { sorted = s'.sorted ++ value ∷ [] }

  visit_new :
      (fuel : ℕ) (s : Progress I V) (i : I) (node : Node I V)
      → lookup dec i nodes ≡ some node
      → is_visited dec i s.visited ≡ false
      → visit dec nodes (suc fuel) s i ≡ (
          each_in (visit dec nodes fuel) (record s { visited = i ∷ s.visited }) node.depends_on
          >>= λ s'. ret (put_last node.value s'))
  unfolding visit
  visit_new fuel s i node at new = rw (visit, at, new) refl

  mark_left :
      (s : Progress I V) (i : I)
      → Memᴰ i (indices dec nodes)
      → is_visited dec i s.visited ≡ false
      → suc (left (record s { visited = i ∷ s.visited })) ≡ left s
  mark_left s i m new = unvisited_mark dec i s.visited (indices dec nodes) graph.distinct m new

  visit_seen_ends :
      (fuel : ℕ) (s : Progress I V) (i : I)
      → Memᴰ i (indices dec nodes)
      → is_visited dec i s.visited ≡ true
      → (s' : Progress I V) × (visit dec nodes (suc fuel) s i ≡ ret s') × HasVisited (i ∷ []) s s'
  visit_seen_ends fuel s i m seen = (
    s,
    visit_seen fuel s i m seen,
    record {
      work = refl;
      falls = omega arith;
      now = λ j k.
          subst (λ j. Memᴰ j s.visited) (sym (Memᴰ.eq_of_singleton k))
            (is_visited_mem dec i s.visited seen);
      still = λ j k. k;
    },
  )

  visit_new_ends :
      (fuel : ℕ) (s : Progress I V) (i : I)
      → Returns (visit dec nodes (suc fuel)) fuel
      → Memᴰ i (indices dec nodes)
      → is_visited dec i s.visited ≡ false
      → left s ≤ suc fuel
      → (s' : Progress I V) × (visit dec nodes (suc (suc fuel)) s i ≡ ret s')
        × HasVisited (i ∷ []) s s'
  visit_new_ends fuel s i returns m new enough =
      let marked = mark_left s i m new in
      let (node, at) = lookup_mem dec i nodes m in
      let (s', e, h) =
        each_ends (visit dec nodes (suc fuel)) fuel returns node.depends_on
          (record s { visited = i ∷ s.visited }) (λ j k. graph.closed i node j at k)
          (omega arith) in
      let f = h.falls in
      let w = h.work in
      let l = length-append s'.sorted (node.value ∷ []) in
      (
        put_last node.value s',
        visit_new (suc fuel) s i node at new ∙ ap (λ r. r >>= λ s'. ret (put_last node.value s')) e,
        record {
          work = omega (arith, l);
          falls = omega arith;
          now = λ j k. h.still j (Memᴰ.head (Memᴰ.eq_of_singleton k));
          still = λ j k. h.still j (Memᴰ.tail k);
        },
      )

  -- A visit on fuel for the nodes that are left returns.
  pub visit_ends : (fuel : ℕ) → Returns (visit dec nodes (suc fuel)) fuel
  visit_ends zero s i m enough = elim (Bool-cases (is_visited dec i s.visited)) [
    | inl seen ↦ visit_seen_ends zero s i m seen
    | inr new ↦ absurd (omega (arith, mark_left s i m new))
  ]
  visit_ends (suc fuel) s i m enough = elim (Bool-cases (is_visited dec i s.visited)) [
    | inl seen ↦ visit_seen_ends (suc fuel) s i m seen
    | inr new ↦ visit_new_ends fuel s i (visit_ends fuel) m new enough
  ]
