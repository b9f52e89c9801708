-- ===== src/Leaderboard/Round.antt =====
-- utils/leaderboard/binary_search.go: what a round of the search of `competitor` does.
use minotaur.Base.{
  ℕ, suc, ◌+◌, ◌-◌, ◌/◌, ◌<◌, ◌≤◌, List, Bool, ret, ◌>>=◌, index, ◌≡◌, refl, lt→ltb, le→ltb,
}
use minotaur.Leaderboard.{cmp, skip_even, place_loop, less, even, more}

module _ {K S : Type 0} (lt : S → S → Bool) (asc : Bool) (scores : List (K × S)) (score : S) where
  -- What a round of the inner loop does.
  module _ (count low : ℕ) (x : K × S) (at : index scores low ≡ ret x) where
    pub skip_on :
        cmp lt asc x.1 score ≡ even
        → skip_even lt asc scores score (suc count) low
          ≡ skip_even lt asc scores score count (low + 1)
    unfolding skip_even
    skip_on e = rw (at, ◌>>=◌, e) refl

    pub skip_less :
        cmp lt asc x.1 score ≡ less → skip_even lt asc scores score (suc count) low ≡ ret low
    unfolding skip_even
    skip_less e = rw (at, ◌>>=◌, e) refl

    pub skip_more :
        cmp lt asc x.1 score ≡ more → skip_even lt asc scores score (suc count) low ≡ ret low
    unfolding skip_even
    skip_more e = rw (at, ◌>>=◌, e) refl

  -- What a round of the search does.
  module _ (fuel low end : ℕ) where
    pub place_end : end ≤ low → place_loop lt (suc fuel) asc scores score low end ≡ ret low
    unfolding place_loop
    place_end h = rw (place_loop, le→ltb low end h) refl

    module _ (x : K × S) (h : low < end) (at : index scores ((low + end - 1) / 2) ≡ ret x) where
      pub place_less :
          cmp lt asc x.1 score ≡ less
          → place_loop lt (suc fuel) asc scores score low end
            ≡ place_loop lt fuel asc scores score low ((low + end - 1) / 2)
      unfolding place_loop
      place_less e = rw (place_loop, lt→ltb low end h, at, ◌>>=◌, e) refl

      pub place_more :
          cmp lt asc x.1 score ≡ more
          → place_loop lt (suc fuel) asc scores score low end
            ≡ place_loop lt fuel asc scores score ((low + end - 1) / 2 + 1) end
      unfolding place_loop
      place_more e = rw (place_loop, lt→ltb low end h, at, ◌>>=◌, e) refl

      pub place_even :
          (p : ℕ)
          → cmp lt asc x.1 score ≡ even
          → skip_even lt asc scores score
              (end - ((low + end - 1) / 2 + 1))
              ((low + end - 1) / 2 + 1)
            ≡ ret p
          → place_loop lt (suc fuel) asc scores score low end
            ≡ place_loop lt fuel asc scores score p end
      unfolding place_loop
      place_even p e skip = rw (place_loop, lt→ltb low end h, at, ◌>>=◌, e, skip) refl
