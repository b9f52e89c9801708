-- ===== src/Collection/Filter/InPlace.antt =====
-- utils/collection/drop.go and filter.go: what is dropped in place is what is filtered out.
use minotaur.Base.{
  ℕ, zero, suc, ◌+◌, ◌<◌, List, [], ◌∷◌, ◌++◌, Bool, true, false, Option, some, none, if◌then◌else◌,
  length, ret, index, store, slice, ◌≡◌, refl, ap, ◌∙◌, sym, append-nil, append_assoc, arith,
  Bool-cases, inl, inr, length-append, index-append, slice-append, Extends, extends,
}
use minotaur.Base.Int.{ℤ, pos, negsuc}
use minotaur.Collection.Loops.{any_of, is_nil}
use minotaur.Collection.Filter.{
  excluded, is_excluded, all_indices, valid_elements, filter_out_by_indices,
  filter_out_by_condition, drop_round, drop_loop, drop_slice_by_indices, drop_slice_by_condition,
}

module _ {V : Type 0} (gone : ℕ → V → Bool) where
  module _ (read : ℕ) (arr : List V) (w : ℕ) (v : V) (at : index arr read ≡ ret v) where
    round_gone : gone read v ≡ true → drop_round gone read (arr, w) ≡ ret (arr, w)
    unfolding drop_round
    round_gone q = rw (at, q)

    round_kept :
        (arr' : List V)
        → gone read v ≡ false
        → store arr w v ≡ ret arr'
        → drop_round gone read (arr, w) ≡ ret (arr', w + 1)
    unfolding drop_round
    round_kept arr' q put = rw (at, q, put) refl

  -- The array is the result so far, `mid` that is no longer needed, and what is yet to be read.
  drop_loop-valid :
      (s out mid : List V) (rounds read : ℕ) (arr : List V)
      → arr ≡ out ++ (mid ++ s)
      → rounds ≡ length s
      → read ≡ length out + length mid
      → drop_loop gone rounds read (arr, length out) ≡ ret (out ++ valid_elements gone read s)
  unfolding drop_loop valid_elements Extends
  drop_loop-valid [] out mid zero read arr e n r =
      rw (e, append-nil out) (slice-append out (mid ++ []))
  drop_loop-valid [] out mid (suc rounds) read arr e n r = absurd (omega arith)
  drop_loop-valid (v ∷ s) out mid zero read arr e n r = absurd (omega arith)
  drop_loop-valid (v ∷ s) out mid (suc rounds) read arr e n r = elim (Bool-cases (gone read v)) [
    | inl old ↦
        rw (round_gone read arr (length out) v at old, old)
          (drop_loop-valid s out (mid ++ v ∷ []) rounds (read + 1) arr
            (e ∙ ap (λ t. out ++ t) (sym (append_assoc mid (v ∷ []) s))) (omega arith)
            (omega (arith, length-append mid (v ∷ []))))
    | inr new ↦
        let (mid', put, same_length) = extends out mid v s in
        let arr' = (out ++ v ∷ []) ++ (mid' ++ s) in
        let count : length out + 1 ≡ length (out ++ v ∷ []) =
          omega (arith, length-append out (v ∷ [])) in
        rw (round_kept read arr (length out) v at arr' new (rw e put), new, count)
          (drop_loop-valid s (out ++ v ∷ []) mid' rounds (read + 1) arr' refl (omega arith)
              (omega arith)
            ∙ ap ret (append_assoc out (v ∷ []) (valid_elements gone (read + 1) s)))
  ]
    where
      at : index arr read ≡ ret v
      at =
          rw (e, ← append_assoc out mid (v ∷ s), r, ← length-append out mid)
            (index-append (out ++ mid) v s)

is_excluded-agree :
    (len : ℕ) (indices : List ℤ) (j : ℕ)
    → j < len
    → is_excluded (all_indices indices) j ≡ is_excluded (excluded len indices) j
unfolding is_excluded all_indices excluded any_of
is_excluded-agree len [] j h = refl
is_excluded-agree len (negsuc n ∷ indices) j h = is_excluded-agree len indices j h
is_excluded-agree len (pos n ∷ indices) j h = ground (arith, is_excluded-agree len indices j h)

module _ {V : Type 0} where
  -- `DropSliceByCondition`, which writes into the slice that it reads, never panics and leaves what
  -- `FilterOutByCondition` returns.
  pub drop_slice_by_condition-filter :
      (slice : List V) (condition : Option (V → Bool))
      → drop_slice_by_condition slice condition ≡ ret (filter_out_by_condition slice condition)
  unfolding drop_slice_by_condition filter_out_by_condition
  drop_slice_by_condition-filter slice none = refl
  drop_slice_by_condition-filter slice (some condition) =
      drop_loop-valid (λ i v. condition v) slice [] [] (length slice) 0 slice refl refl refl

  -- Two tests that agree on the indices of the slice keep the same elements.
  valid_elements-agree :
      (p q : ℕ → Bool) (i : ℕ) (slice : List V)
      → ((j : ℕ) → j < i + length slice → p j ≡ q j)
      → valid_elements (λ i v. p i) i slice ≡ valid_elements (λ i v. q i) i slice
  unfolding valid_elements
  valid_elements-agree p q i [] h = refl
  valid_elements-agree p q i (v ∷ slice) h =
      rw (h i (omega arith), valid_elements-agree p q (i + 1) slice (λ j l. h j (omega arith))) refl

  valid_elements-none :
      (i : ℕ) (slice : List V) → valid_elements (λ i v. is_excluded [] i) i slice ≡ slice
  unfolding valid_elements is_excluded any_of
  valid_elements-none i [] = refl
  valid_elements-none i (v ∷ slice) = ap (◌∷◌ v) (valid_elements-none (i + 1) slice)

  drops :
      (slice : List V) (indices : List ℤ)
      → drop_loop (λ i v. is_excluded (all_indices indices) i) (length slice) 0 (slice, 0)
        ≡ ret (valid_elements (λ i v. is_excluded (excluded (length slice) indices) i) 0 slice)
  drops slice indices =
      drop_loop-valid (λ i v. is_excluded (all_indices indices) i) slice [] [] (length slice) 0
        slice refl refl refl
      ∙ ap ret (
          valid_elements-agree (is_excluded (all_indices indices))
            (is_excluded (excluded (length slice) indices)) 0 slice
            (λ j l. is_excluded-agree (length slice) indices j (omega arith)))

  -- The shortcut of `FilterOutByIndices` for an empty map changes nothing.
  shortcut :
      (ex : List ℕ) (slice : List V)
      → (if is_nil ex then slice else valid_elements (λ i v. is_excluded ex i) 0 slice)
        ≡ valid_elements (λ i v. is_excluded ex i) 0 slice
  unfolding is_nil
  shortcut [] slice = sym (valid_elements-none 0 slice)
  shortcut (e ∷ ex) slice = refl

  -- `DropSliceByIndices`, which writes into the slice that it reads and takes indices out of range
  -- into its map, never panics and leaves what `FilterOutByIndices` returns.
  pub drop_slice_by_indices-filter :
      (slice : List V) (indices : List ℤ)
      → drop_slice_by_indices slice indices ≡ ret (filter_out_by_indices slice indices)
  unfolding drop_slice_by_indices filter_out_by_indices is_nil
  drop_slice_by_indices-filter [] [] = refl
  drop_slice_by_indices-filter [] (n ∷ indices) = drops [] (n ∷ indices)
  drop_slice_by_indices-filter (v ∷ slice) [] = refl
  drop_slice_by_indices-filter (v ∷ slice) (n ∷ indices) =
      drops (v ∷ slice) (n ∷ indices)
      ∙ ap ret (sym (shortcut (excluded (length (v ∷ slice)) (n ∷ indices)) (v ∷ slice)))
