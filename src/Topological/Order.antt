-- ===== src/Topological/Order.antt =====
-- utils/sorts/topological.go: an order in which whatever depends on an item stands before it.
use mathlib.Core.List.{lookup, Memᴰ}
use mathlib.Core.List.Memᴰ
use minotaur.Base.{
  ℕ, suc, List, [], ◌∷◌, ◌++◌, true, some, map, Go, ret, panic, ◌>>=◌, ◌≡◌, refl, sym, ap, ◌∙◌,
  subst, Bool-cases, Option-cases, inl, inr, ◌⊎◌,
}
use minotaur.Topological.{Node, Progress, each_in, is_visited, visit}
use minotaur.Topological.Visit.{Distinct}

pub bind-cases {ℓ κ} :
    {A : Type ℓ} {B : Type κ} (r : Go A) (f : A → Go B) (b : B)
    → (r >>= f) ≡ ret b
    → (a : A) × (r ≡ ret a) × (f a ≡ ret b)
bind-cases (ret a) f b h = (a, refl, h)
bind-cases panic f b h = absurd (cc)

-- Where a list that ends with `v` holds a `y`.
append-cases :
    {V : Type 0} (out xs ys : List V) (v y : V)
    → out ++ v ∷ [] ≡ xs ++ y ∷ ys
    → ((out ≡ xs) × (v ≡ y)) ⊎ ((zs : List V) × (out ≡ xs ++ y ∷ zs))
append-cases [] [] ys v y h = inl (refl, cc)
append-cases [] (x ∷ []) ys v y h = absurd (cc)
append-cases [] (x ∷ x' ∷ xs) ys v y h = absurd (cc)
append-cases (a ∷ out) [] ys v y h = inr (out, cc)
append-cases (a ∷ out) (x ∷ xs) ys v y h = elim (append-cases out xs ys v y (cc)) [
  | inl (e, f) ↦ inl (cc, f)
  | inr (zs, e) ↦ inr (zs, cc)
]

module _ {I V : Type 0} (query_index : V → I) (query_depends : V → List I) (items : List V) where
  -- Whatever depends on an item of the list stands before it.
  abbrev pub DependentsFirst : List V → Type 0
  DependentsFirst out =
      (xs ys : List V) (y : V)
      → out ≡ xs ++ y ∷ ys
      → (item : V) → Memᴰ item items
      → Memᴰ (query_index y) (query_depends item)
      → Memᴰ item xs

  pub append-DependentsFirst :
      (out : List V) (v : V)
      → DependentsFirst out
      → ((item : V) → Memᴰ item items → Memᴰ (query_index v) (query_depends item) → Memᴰ item out)
      → DependentsFirst (out ++ v ∷ [])
  append-DependentsFirst out v h last xs ys y e item m names = elim (append-cases out xs ys v y e) [
    | inl (p, q) ↦
        subst (Memᴰ item) p
          (last item m (subst (λ y. Memᴰ (query_index y) (query_depends item)) (sym q) names))
    | inr (zs, p) ↦ h xs zs y p item m names
  ]

module _ {I V : Type 0} (dec : Discrete I) (query_index : V → I) (query_depends : V → List I) where
  pub index_injective :
      (items : List V) (a b : V)
      → Distinct dec (map query_index items)
      → Memᴰ a items
      → Memᴰ b items
      → query_index a ≡ query_index b
      → a ≡ b
  index_injective [] a b d m k e = absurd (Memᴰ.not-nil m)
  index_injective (x ∷ items) a b (out, d) m k e = elim (Memᴰ.cases_cons m) [
    | inl p ↦ elim (Memᴰ.cases_cons k) [
      | inl q ↦ p ∙ sym q
      | inr k ↦ absurd (
          out (
            subst (λ i. Memᴰ i (map query_index items)) (sym e ∙ ap query_index p)
              (Memᴰ.map query_index k)))
    ]
    | inr m ↦ elim (Memᴰ.cases_cons k) [
      | inl q ↦ absurd (
          out (
            subst (λ i. Memᴰ i (map query_index items)) (e ∙ ap query_index q)
              (Memᴰ.map query_index m)))
      | inr k ↦ index_injective items a b d m k e
    ]
  ]

  pub visit-cases :
      (nodes : List (I × Node I V)) (fuel : ℕ) (s s' : Progress I V) (i : I)
      → visit dec nodes (suc fuel) s i ≡ ret s'
      → (node : Node I V) × (lookup dec i nodes ≡ some node)
        × (((is_visited dec i s.visited ≡ true) × (s ≡ s'))
            ⊎ ((t : Progress I V) × (each_in
                    (visit dec nodes fuel)
                    (record s { visited = i ∷ s.visited })
                    node.depends_on
                  ≡ ret t)
                × (record t { sorted = t.sorted ++ node.value ∷ [] } ≡ s')))
  unfolding visit
  visit-cases nodes fuel s s' i h = elim (Option-cases (lookup dec i nodes)) [
    | inl e ↦ absurd (let h' : panic ≡ ret s' = rw (visit, e) at h in cc)
    | inr (node, e) ↦ (
      node,
      e,
      elim (Bool-cases (is_visited dec i s.visited)) [
        | inl v ↦ inl (v, let h' : ret s ≡ ret s' = rw (visit, e, v) at h in cc)
        | inr v ↦
            let (t, p, q) =
              bind-cases
                (each_in (visit dec nodes fuel) (record s { visited = i ∷ s.visited })
                  node.depends_on)
                (λ t. ret (record t { sorted = t.sorted ++ node.value ∷ [] })) s'
                (rw (visit, e, v) at h) in
            inr (t, p, cc)
      ],
    )
  ]
