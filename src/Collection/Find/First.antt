-- ===== src/Collection/Find/First.antt =====
-- utils/collection/find.go: the search for the first element with a property.
use minotaur.Base.{
  ℕ, zero, suc, ◌+◌, ◌<◌, List, [], ◌∷◌, Bool, true, false, some, ◌≡◌, refl, ap, ◌∙◌, get_elem?,
  arith, Bool-cases, inl, inr, ◌⊎◌,
}
use minotaur.Base.Int.{pos, negsuc}
use minotaur.Collection.Find.{find_from, find_in_slice, find_index_from, find_index_in_slice}

module _ {V : Type 0} (zero_value : V) (handler : V → Bool) where
  -- The element at `i` is the first one with the property.
  abbrev pub IsFirst : List V → ℕ → V → Type 0
  IsFirst slice i v =
      (get_elem? slice i ≡ some v)
      × (handler v ≡ true)
      × ((j : ℕ) (w : V) → j < i → get_elem? slice j ≡ some w → handler w ≡ false)

  abbrev pub IsMissing : List V → Type 0
  IsMissing slice = (j : ℕ) (w : V) → get_elem? slice j ≡ some w → handler w ≡ false

  find_from_lem :
      (k : ℕ) (slice : List V)
      → ((i : ℕ) × (v : V) × (find_from zero_value k slice handler ≡ (pos (k + i), v))
          × IsFirst slice i v)
        ⊎ ((find_from zero_value k slice handler ≡ (negsuc 0, zero_value)) × IsMissing slice)
  unfolding find_from
  find_from_lem k [] = inr (refl, λ j w e. absurd (cc))
  find_from_lem k (x ∷ slice) = elim (Bool-cases (handler x)) [
    | inl h ↦ inl (
      0,
      x,
      rw h (ap (λ n. (pos n, x)) (omega arith)),
      (refl, h, λ j w q e. absurd (omega arith)),
    )
    | inr h ↦ elim (find_from_lem (k + 1) slice) [
      | inl (i, v, e, first) ↦ inl (
        suc i,
        v,
        rw h (e ∙ ap (λ n. (pos n, v)) (omega arith)),
        (first.0, first.1, below h first.2),
      )
      | inr (e, missing) ↦ inr (rw h e, all h missing)
    ]
  ]
    where
      below :
          {i : ℕ}
          → handler x ≡ false
          → ((j : ℕ) (w : V) → j < i → get_elem? slice j ≡ some w → handler w ≡ false)
          → (j : ℕ) (w : V) → j < suc i
          → get_elem? (x ∷ slice) j ≡ some w
          → handler w ≡ false
      below h before zero w q e = ground arith
      below h before (suc j) w q e = before j w (omega arith) e

      all : handler x ≡ false → IsMissing slice → IsMissing (x ∷ slice)
      all h missing zero w e = ground arith
      all h missing (suc j) w e = missing j w e

  -- `FindInSlice` returns the first element with the property and its index, or -1 and the zero
  -- value if no element has it.
  pub find_in_slice_lem :
      (slice : List V)
      → ((i : ℕ) × (v : V) × (find_in_slice zero_value slice handler ≡ (pos i, v))
          × IsFirst slice i v)
        ⊎ ((find_in_slice zero_value slice handler ≡ (negsuc 0, zero_value)) × IsMissing slice)
  unfolding find_in_slice
  find_in_slice_lem slice = elim (find_from_lem 0 slice) [
    | inl (i, v, e, first) ↦ inl (i, v, e ∙ ap (λ n. (pos n, v)) (omega arith), first)
    | inr missing ↦ inr missing
  ]

  find_index_from_lem :
      (k : ℕ) (slice : List V)
      → find_index_from k slice handler ≡ (find_from zero_value k slice handler).0
  unfolding find_index_from find_from
  find_index_from_lem k [] = refl
  find_index_from_lem k (x ∷ slice) = ground (arith, find_index_from_lem (k + 1) slice)

  -- `FindIndexInSlice` returns the index that `FindInSlice` returns.
  pub find_index_in_slice-find :
      (slice : List V)
      → find_index_in_slice slice handler ≡ (find_in_slice zero_value slice handler).0
  unfolding find_in_slice find_index_in_slice
  find_index_in_slice-find slice = find_index_from_lem 0 slice
