-- ===== src/Collection/Duplicate/InPlace.antt =====
-- utils/collection/duplicate.go: the two functions that write into the slice that they read.
use minotaur.Base.{
  ℕ, zero, suc, ◌+◌, List, [], ◌∷◌, ◌++◌, Bool, true, false, length, ret, index, store, slice, ◌≡◌,
  refl, ap, ◌∙◌, sym, append-nil, append_assoc, arith, Bool-cases, inl, inr, dec_lt, lt→ltb, le→ltb,
  length-append, index-append, slice-append, Extends, extends,
}
use minotaur.Collection.Contains.{in_comparable_slice}
use minotaur.Collection.Duplicate.{
  deduplicate_slice, in_place_round, in_place_loop, deduplicate_slice_in_place,
  deduplicate_slice_in_place_with_compare,
}
use minotaur.Collection.Duplicate.Distinct.{fresh, loop-fresh}

module _ {V : Type 0} (dec : Discrete V) where
  -- What a round does that finds a value that it has seen, and one that it has not.
  module _ (read : ℕ) (arr : List V) (w : ℕ) (m : List V) (v : V)
      (at : index arr read ≡ ret v) where
    round_old :
        in_comparable_slice dec m v ≡ true → in_place_round dec read (arr, w, m) ≡ ret (arr, w, m)
    unfolding in_place_round
    round_old old = rw (at, old)

    round_new :
        (arr' : List V)
        → in_comparable_slice dec m v ≡ false
        → store arr w v ≡ ret arr'
        → in_place_round dec read (arr, w, m) ≡ ret (arr', w + 1, m ++ v ∷ [])
    unfolding in_place_round
    round_new arr' new put = rw (at, new, put)

  -- The array is the result so far, `mid` that is no longer needed, and what is yet to be read. The
  -- map has the values of the result.
  in_place_loop-fresh :
      (s out mid : List V) (rounds read : ℕ) (arr : List V)
      → arr ≡ out ++ (mid ++ s)
      → rounds ≡ length s
      → read ≡ length out + length mid
      → in_place_loop dec rounds read (arr, length out, out) ≡ ret (out ++ fresh dec out s)
  unfolding in_place_loop fresh Extends
  in_place_loop-fresh [] out mid zero read arr e n r =
      rw (e, append-nil out) (slice-append out (mid ++ []))
  in_place_loop-fresh [] out mid (suc rounds) read arr e n r = absurd (omega arith)
  in_place_loop-fresh (v ∷ s) out mid zero read arr e n r = absurd (omega arith)
  in_place_loop-fresh (v ∷ s) out mid (suc rounds) read arr e n r =
      elim (Bool-cases (in_comparable_slice dec out v)) [
        | inl old ↦
            rw (round_old read arr (length out) out v at old, old)
              (in_place_loop-fresh s out (mid ++ v ∷ []) rounds (read + 1) arr
                (e ∙ ap (λ t. out ++ t) (sym (append_assoc mid (v ∷ []) s))) (omega arith)
                (omega (arith, length-append mid (v ∷ []))))
        | inr new ↦
            let (mid', put, same_length) = extends out mid v s in
            let arr' = (out ++ v ∷ []) ++ (mid' ++ s) in
            let count : length out + 1 ≡ length (out ++ v ∷ []) =
              omega (arith, length-append out (v ∷ [])) in
            rw (round_new read arr (length out) out v at arr' new (rw e put), new, count)
              (in_place_loop-fresh s (out ++ v ∷ []) mid' rounds (read + 1) arr' refl (omega arith)
                  (omega arith)
                ∙ ap ret (append_assoc out (v ∷ []) (fresh dec (out ++ v ∷ []) s)))
      ]
    where
      at : index arr read ≡ ret v
      at =
          rw (e, ← append_assoc out mid (v ∷ s), r, ← length-append out mid)
            (index-append (out ++ mid) v s)

  -- `DeduplicateSliceInPlace`, which writes its result over the slice that it reads, never panics
  -- and leaves the same slice as `DeduplicateSlice` returns.
  pub in_place-deduplicate_slice :
      (s : List V) → deduplicate_slice_in_place dec s ≡ ret (deduplicate_slice dec s)
  unfolding deduplicate_slice_in_place deduplicate_slice
  in_place-deduplicate_slice s = elim (dec_lt (length s) 2) [
    | yes h ↦ rw (lt→ltb (length s) 2 h) refl
    | no h ↦
        rw (le→ltb (length s) 2 (omega arith), loop-fresh)
          (in_place_loop-fresh s [] [] (length s) 0 s refl refl refl)
  ]

-- `DeduplicateSliceInPlaceWithCompare` looks up its map of indices in the array that it writes over:
-- of the values a, a, b, c, b it keeps the second b, for every comparison that matches a with itself
-- and neither b nor c with another of the three. So b stands twice in the result, whatever the
-- comparison says of b and itself.
pub in_place_keeps_duplicates :
    {V : Type 0} (compare : V → V → Bool) (a b c : V)
    → compare a a ≡ true
    → compare b a ≡ false
    → compare c a ≡ false
    → compare c b ≡ false
    → compare b c ≡ false
    → deduplicate_slice_in_place_with_compare compare (a ∷ a ∷ b ∷ c ∷ b ∷ [])
      ≡ ret (a ∷ b ∷ c ∷ b ∷ [])
unfolding deduplicate_slice_in_place_with_compare index store slice
in_place_keeps_duplicates compare a b c aa ba ca cb bc = simp (aa, ba, ca, cb, bc)
