-- ===== src/Collection/Filter.antt =====
-- utils/collection/filter.go and drop.go: elements left out, in a new slice or in place. A condition
-- that is nil is `none`; a nil slice and an empty one are the same.
pub mod InPlace
pub mod Maps
mod Tests
use minotaur.Base.{
  ℕ, zero, suc, ◌+◌, List, [], ◌∷◌, ◌++◌, Bool, true, false, same, not, ◌||◌, Option, some, none,
  if◌then◌else◌, ltb, ◌==◌, length, Go, ret, ◌>>=◌, index, store, slice,
}
use minotaur.Base.Int.{ℤ, pos, negsuc}
use minotaur.Collection.Loops.{any_of, is_nil}
use minotaur.Collection.Contains.{in_slice}

-- `excludeMap[ex] = true` for the indices in range. A negative one is never met.
unfoldable pub excluded : ℕ → List ℤ → List ℕ
excluded len [] = []
excluded len (negsuc n ∷ indices) = excluded len indices
excluded len (pos n ∷ indices) =
    let rest = excluded len indices in if ltb n len then n ∷ rest else rest

-- `excludeMap[i]`
unfoldable pub is_excluded : List ℕ → ℕ → Bool
unfolding any_of
is_excluded exclude_map i = any_of (λ ex. ex == i) exclude_map

-- The keys that `DropSliceByIndices` puts into its map, less the negative ones.
unfoldable pub all_indices : List ℤ → List ℕ
all_indices [] = []
all_indices (negsuc n ∷ indices) = all_indices indices
all_indices (pos n ∷ indices) = n ∷ all_indices indices

module _ {V : Type 0} where
  -- The loop that appends what is not to go, from the index `i` on.
  unfoldable pub valid_elements : (ℕ → V → Bool) → ℕ → List V → List V
  valid_elements gone i [] = []
  valid_elements gone i (v ∷ slice) =
      let rest = valid_elements gone (i + 1) slice in if gone i v then rest else v ∷ rest

  unfoldable pub filter_out_by_indices : List V → List ℤ → List V
  unfolding is_nil excluded is_excluded valid_elements
  filter_out_by_indices slice indices =
      if is_nil slice || is_nil indices
      then slice
      else if is_nil (excluded (length slice) indices)
      then slice
      else valid_elements (λ i v. is_excluded (excluded (length slice) indices) i) 0 slice

  unfoldable pub filter_out_by_condition : List V → Option (V → Bool) → List V
  unfolding valid_elements
  filter_out_by_condition slice none = slice
  filter_out_by_condition slice (some condition) = valid_elements (λ i v. condition v) 0 slice

  -- The loops of drop.go, which append to `(*slice)[:0]`, in the array that they read.
  unfoldable pub drop_round : (ℕ → V → Bool) → ℕ → List V × ℕ → Go (List V × ℕ)
  drop_round gone read (s, write) = index s read >>= λ v.
      if gone read v then ret (s, write) else (store s write v >>= λ s'. ret (s', write + 1))

  unfoldable pub drop_loop : (ℕ → V → Bool) → ℕ → ℕ → List V × ℕ → Go (List V)
  unfolding drop_round
  drop_loop gone zero read (s, write) = slice s 0 write
  drop_loop gone (suc rounds) read state = do
    state' ← drop_round gone read state
    drop_loop gone rounds (read + 1) state'

  unfoldable pub drop_slice_by_indices : List V → List ℤ → Go (List V)
  unfolding is_nil all_indices is_excluded drop_loop
  drop_slice_by_indices slice indices =
      if is_nil indices
      then ret slice
      else drop_loop (λ i v. is_excluded (all_indices indices) i) (length slice) 0 (slice, 0)

  unfoldable pub drop_slice_by_condition : List V → Option (V → Bool) → Go (List V)
  unfolding drop_loop
  drop_slice_by_condition slice none = ret slice
  drop_slice_by_condition slice (some condition) =
      drop_loop (λ i v. condition v) (length slice) 0 (slice, 0)

  unfoldable pub drop_slice_overlapping_elements :
      List V → Option (List V) → Option (V → V → Bool) → Go (List V)
  unfolding drop_loop in_slice
  drop_slice_overlapping_elements slice (some another_slice) (some comparison_handler) =
      drop_loop (λ i v. in_slice comparison_handler another_slice v) (length slice) 0 (slice, 0)
  drop_slice_overlapping_elements slice _ _ = ret slice

-- The filters of maps, over the entries in the order in which they are visited.
module _ {K V : Type 0} where
  unfoldable pub filter_out_by_map : List (K × V) → Option (K → V → Bool) → List (K × V)
  unfolding valid_elements
  filter_out_by_map m none = m
  filter_out_by_map m (some condition) = valid_elements (λ i e. condition e.0 e.1) 0 m

  unfoldable pub filter_out_by_key : Discrete K → List (K × V) → K → List (K × V)
  unfolding valid_elements
  filter_out_by_key dec m key = valid_elements (λ i e. same dec e.0 key) 0 m

  unfoldable pub filter_out_by_value : List (K × V) → V → (V → V → Bool) → List (K × V)
  unfolding valid_elements
  filter_out_by_value m value handler = valid_elements (λ i e. handler value e.1) 0 m

  unfoldable pub filter_out_by_keys : Discrete K → List (K × V) → List K → List (K × V)
  unfolding is_nil in_slice valid_elements
  filter_out_by_keys dec m keys =
      if is_nil keys
      then m
      else valid_elements (λ i e. in_slice (λ source target. same dec source target) keys e.0) 0 m

  unfoldable pub filter_out_by_values : List (K × V) → List V → (V → V → Bool) → List (K × V)
  unfolding is_nil in_slice valid_elements
  filter_out_by_values m values handler =
      if is_nil values then m else valid_elements (λ i e. in_slice handler values e.1) 0 m
