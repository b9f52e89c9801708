-- ===== src/Collection/Contains/Laws.antt =====
-- utils/collection/contains.go: what the tests decide.
use mathlib.Core.List.{lookup}
use minotaur.Base.{
  ℕ, List, [], ◌∷◌, Bool, true, false, same, ◌||◌, some, none, if◌then◌else◌, length, ◌≡◌, refl,
  ap₂, ◌↔◌, ◌∙◌, sym, subst, ne→==, ℕ_discrete, get_elem?, arith, eq→==,
}
use minotaur.Collection.Loops.{
  is_nil, any_of, any_of_iff, all_of_iff, any_of-append, Found, Everywhere,
}
use minotaur.Collection.Contains.{
  merge_slices, equal_each, in_slice, all_in_slice, in_slices, equal_comparable_slice,
  any_value_in_map, any_value_in_maps, map_read, equal_map, equal_slice,
}

module _ {V : Type 0} (handler : V → V → Bool) where
  in_slice-any_of : (slice : List V) (v : V) → in_slice handler slice v ≡ any_of (handler v) slice
  unfolding in_slice
  in_slice-any_of [] v = refl
  in_slice-any_of (x ∷ slice) v = refl

  -- `AllInSlice` returns true exactly if the slice is not empty and every value matches an element
  -- of it at some position: so for an empty slice it returns false, also if there are no values.
  pub all_in_slice_iff :
      (slice values : List V)
      → (all_in_slice handler slice values ≡ true) ↔ (
          (is_nil slice ≡ false)
          × ((i : ℕ) (v : V) → get_elem? values i ≡ some v → Found (handler v) slice))
  unfolding all_in_slice
  all_in_slice_iff [] values = (λ h. absurd (cc), λ h. absurd (cc (h.0)))
  all_in_slice_iff (x ∷ slice) values = (
    λ h. (
      refl,
      λ i v e. (any_of_iff (handler v) (x ∷ slice)).0 (
          sym (in_slice-any_of (x ∷ slice) v)
          ∙ (all_of_iff (in_slice handler (x ∷ slice)) values).0 h i v e),
    ),
    λ h. (all_of_iff (in_slice handler (x ∷ slice)) values).1 (λ i v e.
        in_slice-any_of (x ∷ slice) v ∙ (any_of_iff (handler v) (x ∷ slice)).1 (h.1 i v e)),
  )

  or_if : (a b : Bool) → (a || b) ≡ (if a then true else b)
  or_if true b = refl
  or_if false b = refl

  -- `InSlices` finds the value in the merge of the slices exactly if it is in one of them.
  pub in_slices-any_of :
      (slices : List (List V)) (v : V)
      → in_slices handler slices v ≡ any_of (λ slice. in_slice handler slice v) slices
  unfolding in_slices
  in_slices-any_of slices v = in_slice-any_of (merge_slices slices) v ∙ go slices
    where
      go :
          (slices : List (List V))
          → any_of (handler v) (merge_slices slices)
            ≡ any_of (λ slice. in_slice handler slice v) slices
      go [] = refl
      go (slice ∷ slices) =
          any_of-append (handler v) slice (merge_slices slices)
          ∙ ap₂ ◌||◌ (sym (in_slice-any_of slice v)) (go slices)
          ∙ or_if (in_slice handler slice v) (any_of (λ slice. in_slice handler slice v) slices)

module _ {V : Type 0} (dec : Discrete V) where
  same_each : (xs : List V) → equal_each (λ x y. same dec x y) xs xs ≡ true
  unfolding equal_each
  same_each [] = refl
  same_each (x ∷ xs) = ground (arith, same_each xs)

  equal_each-eq :
      (xs ys : List V)
      → length xs ≡ length ys
      → equal_each (λ x y. same dec x y) xs ys ≡ true
      → xs ≡ ys
  unfolding equal_each
  equal_each-eq [] [] l h = refl
  equal_each-eq [] (y ∷ ys) l h = absurd (omega arith)
  equal_each-eq (x ∷ xs) [] l h = absurd (omega arith)
  equal_each-eq (x ∷ xs) (y ∷ ys) l h = ground (arith, equal_each-eq xs ys)

  -- `EqualComparableSlice` decides equality of slices.
  pub equal_comparable_slice_iff :
      (xs ys : List V) → (equal_comparable_slice dec xs ys ≡ true) ↔ (xs ≡ ys)
  unfolding equal_comparable_slice equal_slice
  equal_comparable_slice_iff xs ys = (
    to,
    λ e.
        subst (λ ys. equal_comparable_slice dec xs ys ≡ true) e
          (rw (eq→== (length xs) (length xs) refl, same_each xs)),
  )
    where
      to : equal_comparable_slice dec xs ys ≡ true → xs ≡ ys
      to h = elim (ℕ_discrete (length xs) (length ys)) [
        | yes l ↦ equal_each-eq xs ys l (rw (eq→== (length xs) (length ys) l) at h)
        | no n ↦ absurd (cc (rw (ne→== (length xs) (length ys) n) at h))
      ]

module _ {K V : Type 0} where
  -- `AnyValueInMaps` returns true exactly if there is a map and each of the maps, not any one of
  -- them, contains one of the values.
  pub any_value_in_maps_iff :
      (handler : V → V → Bool) (maps : List (List (K × V))) (values : List V)
      → (any_value_in_maps handler maps values ≡ true)
        ↔ ((is_nil maps ≡ false) × Everywhere (λ m. any_value_in_map handler m values) maps)
  unfolding any_value_in_maps
  any_value_in_maps_iff handler [] values = (λ h. absurd (cc), λ h. absurd (cc (h.0)))
  any_value_in_maps_iff handler (m ∷ maps) values = (
    λ h. (refl, (all_of_iff (λ m. any_value_in_map handler m values) (m ∷ maps)).0 h),
    λ h. (all_of_iff (λ m. any_value_in_map handler m values) (m ∷ maps)).1 h.1,
  )

  -- `EqualMap` calls two maps of one size equal if every value of the first is the zero value, no
  -- key of the first is in the second, and the handler matches the zero value with itself.
  pub equal_map_ignores_keys :
      (dec : Discrete K) (zero_value : V) (handler : V → V → Bool) (map1 map2 : List (K × V))
      → handler zero_value zero_value ≡ true
      → length map1 ≡ length map2
      → ((i : ℕ) (e : K × V)
          → get_elem? map1 i ≡ some e
          → (e.1 ≡ zero_value) × (lookup dec e.0 map2 ≡ none))
      → equal_map dec zero_value handler map1 map2 ≡ true
  unfolding equal_map map_read
  equal_map_ignores_keys dec zero_value handler map1 map2 match size apart =
      rw (eq→== (length map1) (length map2) size) (
        (all_of_iff (λ e. handler e.1 (map_read dec zero_value map2 e.0)) map1).1
          (λ i e at. let (z, missing) = apart i e at in rw (z, map_read, missing) match))
