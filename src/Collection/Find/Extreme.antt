-- ===== src/Collection/Find/Extreme.antt =====
-- utils/collection/find.go: minimum and maximum.
use minotaur.Base.{
  ℕ, zero, suc, List, [], ◌∷◌, Bool, true, false, some, if◌then◌else◌, ◌≡◌, refl, map, get_elem?,
  Bool-cases, inl, inr, ◌⊎◌, ◌∙◌, sym, ap, subst,
}
use minotaur.Base.Orders.{Ordered}
use minotaur.Collection.Find.{
  minimum_loop, maximum_loop, min2max_loop, find_minimum_in_slice, find_maximum_in_slice,
  find_min2max_in_slice, min_from_map_loop, find_min_from_map, find_max_from_map,
}

-- The value of an entry.
abbrev pub snd : {A B : Type 0} → A × B → B
snd e = e.1

module _ {V N : Type 0} (lt : N → N → Bool) (handler : V → N) (ord : Ordered lt) where
  -- An element of the slice that no element is below.
  abbrev pub IsMinimum : V → List V → Type 0
  IsMinimum v slice =
      ((i : ℕ) × (get_elem? slice i ≡ some v))
      × ((j : ℕ) (w : V) → get_elem? slice j ≡ some w → lt (handler w) (handler v) ≡ false)

  smaller : V → V → V
  smaller v result = if lt (handler v) (handler result) then v else result

  smaller-old : (v result : V) → lt (handler result) (handler (smaller v result)) ≡ false
  unfolding smaller
  smaller-old v result = elim (Bool-cases (lt (handler v) (handler result))) [
    | inl h ↦ rw h (ord.asym (handler v) (handler result) h)
    | inr h ↦ rw h (ord.irrefl (handler result))
  ]

  smaller-new : (v result : V) → lt (handler v) (handler (smaller v result)) ≡ false
  unfolding smaller
  smaller-new v result = elim (Bool-cases (lt (handler v) (handler result))) [
    | inl h ↦ rw h (ord.irrefl (handler v))
    | inr h ↦ rw h h
  ]

  smaller-one : (v result : V) → (smaller v result ≡ v) ⊎ (smaller v result ≡ result)
  unfolding smaller
  smaller-one v result = elim (Bool-cases (lt (handler v) (handler result))) [
    | inl h ↦ inl (rw h refl)
    | inr h ↦ inr (rw h refl)
  ]

  shift :
      (u v result m : V) (slice : List V) (i : ℕ)
      → (u ≡ v) ⊎ (u ≡ result)
      → get_elem? (u ∷ slice) i ≡ some m
      → (j : ℕ) × (get_elem? (result ∷ v ∷ slice) j ≡ some m)
  shift u v result m slice zero (inl q) e = (1, ap some (sym q) ∙ e)
  shift u v result m slice zero (inr q) e = (0, ap some (sym q) ∙ e)
  shift u v result m slice (suc i) q e = (suc (suc i), e)

  minimum_loop-at :
      (result : V) (slice : List V)
      → (i : ℕ) × (get_elem? (result ∷ slice) i ≡ some (minimum_loop lt handler result slice))
  unfolding minimum_loop smaller
  minimum_loop-at result [] = (0, refl)
  minimum_loop-at result (v ∷ slice) =
      let (i, e) = minimum_loop-at (smaller v result) slice in
      shift (smaller v result) v result _ slice i (smaller-one v result) e

  minimum_loop-below :
      (result : V) (slice : List V) (j : ℕ) (w : V)
      → get_elem? (result ∷ slice) j ≡ some w
      → lt (handler w) (handler (minimum_loop lt handler result slice)) ≡ false
  unfolding minimum_loop smaller
  minimum_loop-below result [] zero w e =
      subst (λ w. lt (handler w) (handler result) ≡ false) (cc) (ord.irrefl (handler result))
  minimum_loop-below result [] (suc j) w e = absurd (cc)
  minimum_loop-below result (v ∷ slice) zero w e =
      ord.trans _ (handler (smaller v result)) (handler w)
        (minimum_loop-below (smaller v result) slice 0 (smaller v result) refl)
        (subst (λ w. lt (handler w) (handler (smaller v result)) ≡ false) (cc)
          (smaller-old v result))
  minimum_loop-below result (v ∷ slice) (suc zero) w e =
      ord.trans _ (handler (smaller v result)) (handler w)
        (minimum_loop-below (smaller v result) slice 0 (smaller v result) refl)
        (subst (λ w. lt (handler w) (handler (smaller v result)) ≡ false) (cc)
          (smaller-new v result))
  minimum_loop-below result (v ∷ slice) (suc (suc j)) w e =
      minimum_loop-below (smaller v result) slice (suc j) w e

  -- `FindMinimumInSlice` returns, for a slice that is not empty, an element of it such that no
  -- element of the slice is below it.
  pub find_minimum_in_slice-IsMinimum :
      (zero_value v : V) (slice : List V)
      → IsMinimum (find_minimum_in_slice lt handler zero_value (v ∷ slice)) (v ∷ slice)
  unfolding find_minimum_in_slice
  find_minimum_in_slice-IsMinimum zero_value v slice =
      (minimum_loop-at v slice, minimum_loop-below v slice)

module _ {V N : Type 0} (lt : N → N → Bool) (handler : V → N) where
  min2max_loop-pair :
      (slice : List V) (min max : V)
      → min2max_loop lt handler min max slice
        ≡ (minimum_loop lt handler min slice, maximum_loop lt handler max slice)
  unfolding min2max_loop minimum_loop maximum_loop
  min2max_loop-pair [] min max = refl
  min2max_loop-pair (v ∷ slice) min max = min2max_loop-pair slice _ _

  -- `FindMin2MaxInSlice` returns what `FindMinimumInSlice` and `FindMaximumInSlice` return.
  pub find_min2max_in_slice-pair :
      (zero_value : V) (slice : List V)
      → find_min2max_in_slice lt handler zero_value slice ≡ (
        find_minimum_in_slice lt handler zero_value slice,
        find_maximum_in_slice lt handler zero_value slice,
      )
  unfolding find_min2max_in_slice find_minimum_in_slice find_maximum_in_slice
  find_min2max_in_slice-pair zero_value [] = refl
  find_min2max_in_slice-pair zero_value (v ∷ slice) = min2max_loop-pair slice v v

module _ {K V N : Type 0} (lt : N → N → Bool) (handler : V → N) where
  -- `FindMaxFromMap` starts from the zero value: if no value of the map is above it, it returns the
  -- zero value, in the map or not.
  pub find_max_from_map-zero :
      (zero_value : V) (m : List (K × V))
      → ((i : ℕ) (e : K × V)
          → get_elem? m i ≡ some e
          → lt (handler zero_value) (handler e.1) ≡ false)
      → find_max_from_map lt handler zero_value m ≡ zero_value
  unfolding find_max_from_map
  find_max_from_map-zero zero_value [] h = refl
  find_max_from_map-zero zero_value ((k, v) ∷ m) h =
      rw (h 0 (k, v) refl) (find_max_from_map-zero zero_value m (λ i e at. h (suc i) e at))

  min_from_map_loop-after :
      (m : List (K × V)) (result : V)
      → min_from_map_loop lt handler true result m ≡ minimum_loop lt handler result (map snd m)
  unfolding min_from_map_loop minimum_loop
  min_from_map_loop-after [] result = refl
  min_from_map_loop-after ((k, v) ∷ m) result = min_from_map_loop-after m _

  -- `FindMinFromMap` returns what `FindMinimumInSlice` returns for the values in the order in which
  -- the map is visited.
  pub find_min_from_map-slice :
      (zero_value : V) (m : List (K × V))
      → find_min_from_map lt handler zero_value m
        ≡ find_minimum_in_slice lt handler zero_value (map snd m)
  unfolding find_min_from_map find_minimum_in_slice min_from_map_loop
  find_min_from_map-slice zero_value [] = refl
  find_min_from_map-slice zero_value ((k, v) ∷ m) = min_from_map_loop-after m v
