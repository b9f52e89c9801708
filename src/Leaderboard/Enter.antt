-- ===== src/Leaderboard/Enter.antt =====
-- utils/leaderboard/binary_search.go: the branches of `Competitor` for one who is not in the list.
use minotaur.Base.{
  ◌-◌, Bool, true, false, ◌&&◌, length, ◌≡◌, refl, Go, ret, ◌>>=◌, index, if◌then◌else◌, ltb, leb,
}
use minotaur.Base.Int.{negsuc}
use minotaur.Leaderboard.{BinarySearch, Comparison, cmp, less, even, more}
use minotaur.Leaderboard.Board.{search_and_place, enter}

module _ {K S : Type 0} (dec : Discrete K) (lt : S → S → Bool) where
  guard_more :
      {A B : Type 0} (b : Bool) (m : Go A) (f : A → Comparison) (on stay : Go B) (a : A)
      → b ≡ true
      → m ≡ ret a
      → f a ≡ more
      → (if b then (m >>= λ a. elim (f a) [ more ↦ on | _ ↦ stay ]) else on) ≡ on
  guard_more b m f on stay a e at c = rw (e, at, ◌>>=◌, c) refl

  -- The three ways of `enter`: no limit is reached, the score is not above the last, or it is.
  module _ (zero_value : S) (id : K) (score : S) (slf : BinarySearch K S) where
    abbrev pub full : Bool
    full = ltb 0 slf.rank_count && leb slf.rank_count (length slf.scores)

    pub enter_room :
        full ≡ false
        → enter dec lt zero_value id score slf
          ≡ search_and_place dec lt id zero_value (negsuc 0) score 0 (length slf.scores) slf
    unfolding enter
    enter_room e = rw e refl

    module _ (last : K × S) (e : full ≡ true)
        (at : index slf.scores (length slf.scores - 1) ≡ ret last) where
      pub enter_less :
          cmp lt slf.asc score last.1 ≡ less → enter dec lt zero_value id score slf ≡ ret slf
      unfolding enter
      enter_less c = rw (e, at, ◌>>=◌, c) refl

      pub enter_even :
          cmp lt slf.asc score last.1 ≡ even → enter dec lt zero_value id score slf ≡ ret slf
      unfolding enter
      enter_even c = rw (e, at, ◌>>=◌, c) refl

      pub enter_more :
          cmp lt slf.asc score last.1 ≡ more
          → enter dec lt zero_value id score slf
            ≡ search_and_place dec lt id zero_value (negsuc 0) score 0 (length slf.scores) slf
      unfolding enter
      enter_more c =
          guard_more full (index slf.scores (length slf.scores - 1))
            (λ last. cmp lt slf.asc score last.1)
            (search_and_place dec lt id zero_value (negsuc 0) score 0 (length slf.scores) slf)
            (ret slf) last e at c
