-- ===== src/Collection/Duplicate.antt =====
-- utils/collection/duplicate.go: removing duplicates, into a new slice and in place.
pub mod Distinct
pub mod InPlace
use minotaur.Base.{
  ℕ, zero, suc, ◌+◌, List, [], ◌∷◌, ◌++◌, Bool, true, false, same, if◌then◌else◌, ltb, length, Go,
  ret, ◌>>=◌, index, store, slice,
}
use minotaur.Collection.Contains.{in_comparable_slice}
use minotaur.Collection.Loops.{any_of}

module _ {V : Type 0} (dec : Discrete V) where
  -- The loop of `DeduplicateSlice`: `m` holds the keys of its map, and `r` the result.
  unfoldable pub deduplicate_loop : List V → List V → List V → List V
  unfolding in_comparable_slice
  deduplicate_loop r m [] = r
  deduplicate_loop r m (v ∷ s) =
      let old = in_comparable_slice dec m v in
      deduplicate_loop (if old then r else r ++ v ∷ []) (if old then m else m ++ v ∷ []) s

  unfoldable pub deduplicate_slice : List V → List V
  unfolding deduplicate_loop
  deduplicate_slice s = if ltb (length s) 2 then s else deduplicate_loop [] [] s

  -- One round of the loop of `DeduplicateSliceInPlace`, on the array, the write index and the map.
  unfoldable pub in_place_round : ℕ → List V × ℕ × List V → Go (List V × ℕ × List V)
  unfolding in_comparable_slice
  in_place_round read (s, write, m) = index s read >>= λ v.
      if in_comparable_slice dec m v
      then ret (s, write, m)
      else (store s write v >>= λ s'. ret (s', write + 1, m ++ v ∷ []))

  -- `rounds` elements are left from the index `read` on.
  unfoldable pub in_place_loop : ℕ → ℕ → List V × ℕ × List V → Go (List V)
  unfolding in_place_round
  in_place_loop zero read (s, write, m) = slice s 0 write
  in_place_loop (suc rounds) read state = do
    state' ← in_place_round read state
    in_place_loop rounds (read + 1) state'

  unfoldable pub deduplicate_slice_in_place : List V → Go (List V)
  unfolding in_place_loop
  deduplicate_slice_in_place s =
      if ltb (length s) 2 then ret s else in_place_loop (length s) 0 (s, 0, [])

module _ {V : Type 0} (compare : V → V → Bool) where
  -- `compare((*s)[i], (*s)[j])` for some `j` of `seen`.
  unfoldable pub seen_before : List V → V → List ℕ → Go Bool
  seen_before s v [] = ret false
  seen_before s v (j ∷ seen) = do
    w ← index s j
    rest ← seen_before s v seen
    ret (if compare v w then true else rest)

  unfoldable pub compare_round : ℕ → List V × ℕ × List ℕ → Go (List V × ℕ × List ℕ)
  unfolding seen_before
  compare_round i (s, result, seen) = index s i >>= λ v. seen_before s v seen >>= λ old.
      if old
      then ret (s, result, seen)
      else (store s result v >>= λ s'. ret (s', result + 1, seen ++ i ∷ []))

  unfoldable pub compare_loop : ℕ → ℕ → List V × ℕ × List ℕ → Go (List V)
  unfolding compare_round
  compare_loop zero i (s, result, seen) = slice s 0 result
  compare_loop (suc rounds) i state = do
    state' ← compare_round i state
    compare_loop rounds (i + 1) state'

  unfoldable pub deduplicate_slice_in_place_with_compare : List V → Go (List V)
  unfolding compare_loop
  deduplicate_slice_in_place_with_compare s =
      if ltb (length s) 2 then ret s else compare_loop (length s) 0 (s, 0, [])

  -- `DeduplicateSliceWithCompare` compares with the result so far.
  unfoldable pub with_compare_loop : List V → List V → List V
  unfolding any_of
  with_compare_loop result [] = result
  with_compare_loop result (v ∷ s) =
      with_compare_loop (if any_of (compare v) result then result else result ++ v ∷ []) s

  unfoldable pub deduplicate_slice_with_compare : List V → List V
  unfolding with_compare_loop
  deduplicate_slice_with_compare s = if ltb (length s) 2 then s else with_compare_loop [] s
