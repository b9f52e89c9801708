-- ===== src/Collection/Find.antt =====
-- utils/collection/find.go: searches in slices and maps. `generic.Ordered` is a Boolean `lt`, and
-- `zero_value` what a named result holds before it is set. An index of type int is an integer.
pub mod First
pub mod Extreme
pub mod Looped
pub mod Combine
mod Tests
use minotaur.Base.{
  ℕ, zero, suc, ◌+◌, ◌-◌, List, [], ◌∷◌, ◌++◌, Bool, true, false, same, if◌then◌else◌, ltb, leb,
  ◌==◌, ◌&&◌, length, Go, ret, ◌>>=◌, index,
}
use minotaur.Base.Int.{ℤ, pos, negsuc}

-- For an empty slice, `len(slice) - 1` and 0 are both out of range.
module _ {V : Type 0} where
  unfoldable pub find_looped_next_in_slice : List V → ℤ → Go (ℕ × V)
  find_looped_next_in_slice slice (negsuc i) = do v ← index slice 0; ret (0, v)
  find_looped_next_in_slice slice (pos i) = do
    let next = if i + 1 == length slice then 0 else i + 1
    v ← index slice next
    ret (next, v)

  unfoldable pub find_looped_prev_in_slice : List V → ℤ → Go (ℕ × V)
  find_looped_prev_in_slice slice (negsuc i) = do
    v ← index slice (length slice - 1)
    ret (length slice - 1, v)
  find_looped_prev_in_slice slice (pos i) = do
    let prev = if i == 0 then length slice - 1 else i - 1
    v ← index slice prev
    ret (prev, v)

  -- What a call of `backtrack` appends for the combination it is called with.
  unfoldable pub emitted : ℕ → ℕ → List V → ℕ → List (List V)
  emitted min_size max_size current size =
      if leb min_size size && leb size max_size then current ∷ [] else []

  -- The loop of `backtrack` over the elements from `startIndex` on, with the calls it makes.
  unfoldable pub backtrack_loop : ℕ → ℕ → List V → ℕ → List V → List (List V)
  unfolding emitted
  backtrack_loop min_size max_size current size [] = []
  backtrack_loop min_size max_size current size (x ∷ xs) =
      (emitted min_size max_size (current ++ x ∷ []) (size + 1)
        ++ backtrack_loop min_size max_size (current ++ x ∷ []) (size + 1) xs)
      ++ backtrack_loop min_size max_size current size xs

  unfoldable pub find_combinations_in_slice_by_range : List V → ℤ → ℤ → List (List V)
  unfolding emitted backtrack_loop
  find_combinations_in_slice_by_range [] min_size max_size = []
  find_combinations_in_slice_by_range (x ∷ s) (pos min_size) (pos max_size) =
      if min_size == 0
      then []
      else if max_size == 0
      then []
      else if ltb max_size min_size
      then []
      else (emitted min_size max_size [] 0 ++ backtrack_loop min_size max_size [] 0 (x ∷ s))
  find_combinations_in_slice_by_range (x ∷ s) _ _ = []

  unfoldable pub find_first_or_default_in_slice : List V → V → V
  find_first_or_default_in_slice [] default_value = default_value
  find_first_or_default_in_slice (v ∷ slice) default_value = v

  unfoldable pub find_or_default_in_slice : List V → V → (V → Bool) → V
  find_or_default_in_slice [] default_value handler = default_value
  find_or_default_in_slice (v ∷ slice) default_value handler =
      if handler v then v else find_or_default_in_slice slice default_value handler

  -- The loops of `FindInSlice` and `FindIndexInSlice`, from the index `i` on.
  unfoldable pub find_from : V → ℕ → List V → (V → Bool) → ℤ × V
  find_from zero_value i [] handler = (negsuc 0, zero_value)
  find_from zero_value i (v ∷ slice) handler =
      if handler v then (pos i, v) else find_from zero_value (i + 1) slice handler

  unfoldable pub find_in_slice : V → List V → (V → Bool) → ℤ × V
  unfolding find_from
  find_in_slice zero_value slice handler = find_from zero_value 0 slice handler

  unfoldable pub find_index_from : ℕ → List V → (V → Bool) → ℤ
  find_index_from i [] handler = negsuc 0
  find_index_from i (v ∷ slice) handler =
      if handler v then pos i else find_index_from (i + 1) slice handler

  unfoldable pub find_index_in_slice : List V → (V → Bool) → ℤ
  unfolding find_index_from
  find_index_in_slice slice handler = find_index_from 0 slice handler

module _ {V : Type 0} (dec : Discrete V) where
  unfoldable pub find_or_default_in_comparable_slice : List V → V → V → V
  find_or_default_in_comparable_slice [] v default_value = default_value
  find_or_default_in_comparable_slice (value ∷ slice) v default_value =
      if same dec value v then value else find_or_default_in_comparable_slice slice v default_value

  unfoldable pub find_in_comparable_slice : V → List V → V → ℤ × V
  unfolding find_from
  find_in_comparable_slice zero_value slice v =
      find_from zero_value 0 slice (λ value. same dec value v)

  unfoldable pub find_index_in_comparable_slice : List V → V → ℤ
  unfolding find_index_from
  find_index_in_comparable_slice slice v = find_index_from 0 slice (λ value. same dec value v)

module _ {V N : Type 0} (lt : N → N → Bool) (handler : V → N) where
  -- The loops of the minimum and the maximum, with the result so far.
  unfoldable pub minimum_loop : V → List V → V
  minimum_loop result [] = result
  minimum_loop result (v ∷ slice) =
      minimum_loop (if lt (handler v) (handler result) then v else result) slice

  unfoldable pub maximum_loop : V → List V → V
  maximum_loop result [] = result
  maximum_loop result (v ∷ slice) =
      maximum_loop (if lt (handler result) (handler v) then v else result) slice

  unfoldable pub min2max_loop : V → V → List V → V × V
  min2max_loop min max [] = (min, max)
  min2max_loop min max (v ∷ slice) =
      min2max_loop (if lt (handler v) (handler min) then v else min)
        (if lt (handler max) (handler v) then v else max) slice

  unfoldable pub find_minimum_in_slice : V → List V → V
  unfolding minimum_loop
  find_minimum_in_slice zero_value [] = zero_value
  find_minimum_in_slice zero_value (v ∷ slice) = minimum_loop v slice

  unfoldable pub find_maximum_in_slice : V → List V → V
  unfolding maximum_loop
  find_maximum_in_slice zero_value [] = zero_value
  find_maximum_in_slice zero_value (v ∷ slice) = maximum_loop v slice

  unfoldable pub find_min2max_in_slice : V → List V → V × V
  unfolding min2max_loop
  find_min2max_in_slice zero_value [] = (zero_value, zero_value)
  find_min2max_in_slice zero_value (v ∷ slice) = min2max_loop v v slice

-- The range loop of `FindMinFromMap`, with the flag `first`.
module _ {K V N : Type 0} (lt : N → N → Bool) (handler : V → N) where
  unfoldable pub min_from_map_loop : Bool → V → List (K × V) → V
  min_from_map_loop first result [] = result
  min_from_map_loop first result ((k, v) ∷ m) =
      min_from_map_loop true
        (if first then (if lt (handler v) (handler result) then v else result) else v) m

  unfoldable pub find_min_from_map : V → List (K × V) → V
  unfolding min_from_map_loop
  find_min_from_map zero_value m = min_from_map_loop false zero_value m

  unfoldable pub find_max_from_map : V → List (K × V) → V
  find_max_from_map result [] = result
  find_max_from_map result ((k, v) ∷ m) =
      find_max_from_map (if lt (handler result) (handler v) then v else result) m

-- The loop of `FindMin2MaxFromComparableMap`, which is that of `FindMin2MaxFromMap`.
module _ {K V : Type 0} (lt : V → V → Bool) where
  unfoldable pub min2max_from_map_loop : Bool → V × V → List (K × V) → V × V
  min2max_from_map_loop first (min, max) [] = (min, max)
  min2max_from_map_loop first (min, max) ((k, v) ∷ m) =
      min2max_from_map_loop true
        (if first then (if lt v min then v else min, if lt max v then v else max) else (v, v)) m

  unfoldable pub find_min2max_from_map : V → List (K × V) → V × V
  unfolding min2max_from_map_loop
  find_min2max_from_map zero_value m = min2max_from_map_loop false (zero_value, zero_value) m

-- The searches of the comparable slices and maps: those above with the value itself as its key.
module _ {V : Type 0} (lt : V → V → Bool) where
  unfoldable pub find_minimum_in_comparable_slice : V → List V → V
  unfolding find_minimum_in_slice
  find_minimum_in_comparable_slice zero_value slice =
      find_minimum_in_slice lt (λ v. v) zero_value slice

  unfoldable pub find_maximum_in_comparable_slice : V → List V → V
  unfolding find_maximum_in_slice
  find_maximum_in_comparable_slice zero_value slice =
      find_maximum_in_slice lt (λ v. v) zero_value slice

  unfoldable pub find_min2max_in_comparable_slice : V → List V → V × V
  unfolding find_min2max_in_slice
  find_min2max_in_comparable_slice zero_value slice =
      find_min2max_in_slice lt (λ v. v) zero_value slice

module _ {K V : Type 0} (lt : V → V → Bool) where
  unfoldable pub find_min_from_comparable_map : V → List (K × V) → V
  unfolding find_min_from_map
  find_min_from_comparable_map zero_value m = find_min_from_map lt (λ v. v) zero_value m

  unfoldable pub find_max_from_comparable_map : V → List (K × V) → V
  unfolding find_max_from_map
  find_max_from_comparable_map result m = find_max_from_map lt (λ v. v) result m
