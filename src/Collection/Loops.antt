-- ===== src/Collection/Loops.antt =====
-- The two loops of utils/collection/contains.go, and what they decide.
use minotaur.Base.{
  ℕ, zero, suc, List, [], ◌∷◌, ◌++◌, Bool, true, false, ◌||◌, some, if◌then◌else◌, ◌≡◌, refl, ◌↔◌,
  inl, inr, get_elem?, Bool-cases, arith,
}

-- `len(xs) == 0`
unfoldable pub is_nil {ℓ} : {A : Type ℓ} → List A → Bool
is_nil [] = true
is_nil (x ∷ xs) = false

module _ {A : Type 0} (p : A → Bool) where
  -- `for _, x := range xs { if p(x) { return true } }; return false`
  unfoldable pub any_of : List A → Bool
  any_of [] = false
  any_of (x ∷ xs) = if p x then true else any_of xs

  -- `for _, x := range xs { if !p(x) { return false } }; return true`
  unfoldable pub all_of : List A → Bool
  all_of [] = true
  all_of (x ∷ xs) = if p x then all_of xs else false

  -- An element at a position, with the property.
  abbrev pub Found : List A → Type 0
  Found xs = (i : ℕ) × (x : A) × (get_elem? xs i ≡ some x) × (p x ≡ true)

  any_of-Found : (xs : List A) → any_of xs ≡ true → Found xs
  unfolding any_of
  any_of-Found [] h = absurd (cc)
  any_of-Found (x ∷ xs) h = elim (Bool-cases (p x)) [
    | inl yes' ↦ (0, x, refl, yes')
    | inr no' ↦ let (i, y, e, q) = any_of-Found xs (rw no' at h) in (suc i, y, e, q)
  ]

  Found-any_of :
      (xs : List A) (i : ℕ) (x : A) → get_elem? xs i ≡ some x → p x ≡ true → any_of xs ≡ true
  unfolding any_of
  Found-any_of [] i x e q = absurd (cc)
  Found-any_of (y ∷ xs) zero x e q = ground arith
  Found-any_of (y ∷ xs) (suc i) x e q = ground (arith, Found-any_of xs i x e q)

  -- The loop returns true exactly if an element at some position has the property.
  pub any_of_iff : (xs : List A) → (any_of xs ≡ true) ↔ Found xs
  any_of_iff xs = (any_of-Found xs, λ f. Found-any_of xs f.0 f.1 f.2 f.3)

  -- Every element, at each position, has the property.
  abbrev pub Everywhere : List A → Type 0
  Everywhere xs = (i : ℕ) (x : A) → get_elem? xs i ≡ some x → p x ≡ true

  all_of-Everywhere : (xs : List A) → all_of xs ≡ true → Everywhere xs
  unfolding all_of
  all_of-Everywhere [] h i x e = absurd (cc)
  all_of-Everywhere (y ∷ xs) h zero x e = ground arith
  all_of-Everywhere (y ∷ xs) h (suc i) x e = all_of-Everywhere xs (ground arith) i x e

  Everywhere-all_of : (xs : List A) → Everywhere xs → all_of xs ≡ true
  unfolding all_of
  Everywhere-all_of [] h = refl
  Everywhere-all_of (x ∷ xs) h = rw (h 0 x refl) (Everywhere-all_of xs (λ i y e. h (suc i) y e))

  -- The loop returns true exactly if every element has the property.
  pub all_of_iff : (xs : List A) → (all_of xs ≡ true) ↔ Everywhere xs
  all_of_iff xs = (all_of-Everywhere xs, Everywhere-all_of xs)

  pub any_of-append : (xs ys : List A) → any_of (xs ++ ys) ≡ (any_of xs || any_of ys)
  unfolding any_of
  any_of-append [] ys = refl
  any_of-append (x ∷ xs) ys = ground (arith, any_of-append xs ys)
