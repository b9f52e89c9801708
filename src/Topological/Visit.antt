-- ===== src/Topological/Visit.antt =====
-- utils/sorts/topological.go: a visit returns.
use mathlib.Core.List.{Memᴰ}
use mathlib.Core.List.Memᴰ
use minotaur.Base.{
  ℕ, suc, List, [], ◌∷◌, true, false, if◌then◌else◌, ◌≡◌, refl, sym, ap, ◌∙◌, subst, Bool-cases,
  inl, inr, ne→same, same-cases,
}
use minotaur.Topological.{is_visited}

module _ {I : Type 0} (dec : Discrete I) where
  pub is_visited_mem : (i : I) (js : List I) → is_visited dec i js ≡ true → Memᴰ i js
  unfolding is_visited
  is_visited_mem i [] h = absurd (cc)
  is_visited_mem i (j ∷ js) h = elim (same-cases dec i j) [
    | inl (e, _) ↦ Memᴰ.head e
    | inr (_, f) ↦ Memᴰ.tail (is_visited_mem i js (rw f at h))
  ]

  pub mem-is_visited : (i : I) (js : List I) → Memᴰ i js → is_visited dec i js ≡ true
  unfolding is_visited
  mem-is_visited i [] h = absurd (Memᴰ.not-nil h)
  mem-is_visited i (j ∷ js) h = elim (same-cases dec i j) [
    | inl (_, f) ↦ rw f refl
    | inr (n, f) ↦ elim (Memᴰ.cases_cons h) [
      | inl e ↦ absurd (n e)
      | inr m ↦ rw f (mem-is_visited i js m)
    ]
  ]

  -- The indices that have not been visited.
  abbrev pub unvisited : List I → List I → ℕ
  unvisited visited [] = 0
  unvisited visited (k ∷ ks) =
      let rest = unvisited visited ks in if is_visited dec k visited then rest else suc rest

  abbrev pub Distinct : List I → Type 0
  Distinct [] = Unit {0}
  Distinct (k ∷ ks) = ¬ Memᴰ k ks × Distinct ks

  unvisited_other :
      (i : I) (visited ks : List I)
      → ¬ Memᴰ i ks
      → unvisited (i ∷ visited) ks ≡ unvisited visited ks
  unfolding is_visited
  unvisited_other i visited [] h = refl
  unvisited_other i visited (k ∷ ks) h =
      let e = ne→same dec k i (λ q. h (Memᴰ.head (sym q))) in
      let again = unvisited_other i visited ks (λ m. h (Memᴰ.tail m)) in rw (e, again) refl

  -- A key that is marked is one less that is unvisited.
  pub unvisited_mark :
      (i : I) (visited ks : List I)
      → Distinct ks
      → Memᴰ i ks
      → is_visited dec i visited ≡ false
      → suc (unvisited (i ∷ visited) ks) ≡ unvisited visited ks
  unfolding is_visited
  unvisited_mark i visited [] d m h = absurd (Memᴰ.not-nil m)
  unvisited_mark i visited (k ∷ ks) (out, d) m h = elim (same-cases dec k i) [
    | inl (e, f) ↦
        let fresh : is_visited dec k visited ≡ false = ap (λ j. is_visited dec j visited) e ∙ h in
        let other = unvisited_other i visited ks (subst (λ j. ¬ Memᴰ j ks) e out) in
        rw (f, fresh, other) refl
    | inr (n, f) ↦ elim (Memᴰ.cases_cons m) [
      | inl e ↦ absurd (n (sym e))
      | inr m ↦
          let again = unvisited_mark i visited ks d m h in
          rw f (elim (Bool-cases (is_visited dec k visited)) [
            | inl v ↦ rw v again
            | inr v ↦ rw v (ap suc again)
          ])
    ]
  ]
