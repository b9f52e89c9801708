-- ===== src/Collection/Find/Looped.antt =====
-- utils/collection/find.go: walking a slice round and round.
use minotaur.Base.{
  ℕ, ◌+◌, ◌-◌, ◌<◌, List, some, length, ret, ◌>>=◌, ◌≡◌, get_elem?, arith, if◌then◌else◌, ◌==◌,
  eq→==, ne→==, index_of_get_elem?, ℕ_discrete, get_elem?_of_lt,
}
use minotaur.Base.Int.{pos}
use minotaur.Collection.Find.{find_looped_next_in_slice, find_looped_prev_in_slice}

module _ {V : Type 0} (slice : List V) where
  next_inside :
      (i : ℕ) (v : V)
      → i + 1 < length slice
      → get_elem? slice (i + 1) ≡ some v
      → find_looped_next_in_slice slice (pos i) ≡ ret (i + 1, v)
  unfolding find_looped_next_in_slice
  next_inside i v h e =
      rw (ne→== (i + 1) (length slice) (λ q. omega arith), index_of_get_elem? slice (i + 1) v e)

  next_last :
      (i : ℕ) (v : V)
      → i + 1 ≡ length slice
      → get_elem? slice 0 ≡ some v
      → find_looped_next_in_slice slice (pos i) ≡ ret (0, v)
  unfolding find_looped_next_in_slice
  next_last i v h e = rw (eq→== (i + 1) (length slice) h, index_of_get_elem? slice 0 v e)

  prev_to :
      (i p : ℕ) (v : V)
      → (if i == 0 then length slice - 1 else i - 1) ≡ p
      → get_elem? slice p ≡ some v
      → find_looped_prev_in_slice slice (pos i) ≡ ret (p, v)
  unfolding find_looped_prev_in_slice
  prev_to i p v e at = rw (e, index_of_get_elem? slice p v at)

  -- At an index in range, the next index and then the previous one of it leads back, with the
  -- element there; neither call panics.
  pub prev-next :
      (i : ℕ) (v : V)
      → get_elem? slice i ≡ some v
      → i < length slice
      → (find_looped_next_in_slice slice (pos i) >>= λ r. find_looped_prev_in_slice slice (pos r.0))
        ≡ ret (i, v)
  prev-next i v e h = elim (ℕ_discrete (i + 1) (length slice)) [
    | yes q ↦
        let (w, at) = get_elem?_of_lt slice 0 (omega arith) in
        rw (next_last i w q at) (prev_to 0 i v (ground arith) e)
    | no n ↦
        let (w, at) = get_elem?_of_lt slice (i + 1) (omega arith) in
        rw (next_inside i w (omega arith) at) (prev_to (i + 1) i v (ground arith) e)
  ]
