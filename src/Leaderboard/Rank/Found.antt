-- ===== src/Leaderboard/Rank/Found.antt =====
-- utils/leaderboard/binary_search.go: `GetRank` returns the rank of a competitor.
use mathlib.Core.List.{lookup}
use minotaur.Base.{
  ℕ, zero, suc, ◌+◌, ◌-◌, ◌/◌, ◌<◌, ◌≤◌, List, Bool, true, false, same, some, length, ret, ◌≡◌,
  refl, ap, ◌∙◌, get_elem?, arith, Bool-cases, inl, inr, get_elem?_of_lt, lt_of_get_elem?,
  index_of_get_elem?, dec_lt, ℕ_discrete,
}
use minotaur.Base.Orders.{Ordered}
use minotaur.Leaderboard.{BinarySearch, even, cmp, rank_loop}
use minotaur.Leaderboard.Order.{mid_bounds, worse, IsSorted, cmp-cases}
use minotaur.Leaderboard.Board.{get_rank, ok}
use minotaur.Leaderboard.Rank.{
  Stands, is_it, same-eq, scan_up_lem, scan_down_lem, rank_here, rank_less, rank_more, rank_up,
  rank_down,
}

module _ {K S : Type 0} (dec : Discrete K) (lt : S → S → Bool) (ord : Ordered lt) (asc : Bool)
    (scores : List (K × S)) (id : K) (own : S) (t : ℕ) (s : Stands dec lt ord asc scores id own t)
    (sorted : IsSorted lt asc scores) where
  -- The search from `low` to `end` with `fuel` returns `t`.
  abbrev Finds : ℕ → ℕ → ℕ → Type 0
  Finds fuel low end = rank_loop dec lt fuel asc scores id own low end ≡ ret (some t)

  -- An entry of another competitor that is behind the score is behind `t`.
  behind :
      (mid : ℕ) (x : K × S)
      → get_elem? scores mid ≡ some x
      → same dec x.0 id ≡ false
      → worse lt asc x.1 own ≡ true
      → t < mid
  behind mid x at q w = elim (dec_lt t mid) [
    | yes l ↦ l
    | no n ↦ elim (ℕ_discrete mid t) [
      | yes e ↦ let y = is_it dec lt ord asc scores id own t s mid x at e in absurd (cc)
      | no m ↦ let y = sorted mid t x (id, own) (omega arith) at s.here in absurd (cc)
    ]
  ]

  -- An entry that is before the score is before `t`.
  ahead :
      (mid : ℕ) (x : K × S)
      → get_elem? scores mid ≡ some x
      → same dec x.0 id ≡ false
      → worse lt asc own x.1 ≡ true
      → mid < t
  ahead mid x at q w = elim (dec_lt mid t) [
    | yes l ↦ l
    | no n ↦ elim (ℕ_discrete mid t) [
      | yes e ↦ let y = is_it dec lt ord asc scores id own t s mid x at e in absurd (cc)
      | no m ↦ let y = sorted t mid (id, own) x (omega arith) s.here at in absurd (cc)
    ]
  ]

  -- Among the neighbours with the same score, upwards first.
  find_even :
      (fuel low end : ℕ) (x : K × S)
      → low < end
      → end ≤ length scores
      → low ≤ t
      → t < end
      → get_elem? scores ((low + end - 1) / 2) ≡ some x
      → same dec x.0 id ≡ false
      → cmp lt asc x.1 own ≡ even
      → Finds (suc fuel) low end
  find_even fuel low end x h inside l m at q c =
      let (b₁, b₂) = mid_bounds low end h in
      let at' = index_of_get_elem? scores ((low + end - 1) / 2) x at in
      let (u, up, in_up, below_up) =
        scan_up_lem dec lt ord asc scores id own t s (end - 1 - (low + end - 1) / 2)
          ((low + end - 1) / 2 + 1) (omega arith) in
      let (d, down, in_down) =
        scan_down_lem dec lt ord asc scores id own t s ((low + end - 1) / 2 - low) low
          (omega arith) in
      elim (dec_lt ((low + end - 1) / 2) t) [
        | yes above ↦
            rank_up dec lt ord asc scores id own t fuel low end x h at' q c t
              (up ∙ ap (λ o. ret o) (in_up (omega arith) (omega arith)))
        | no n ↦
            let under : t < (low + end - 1) / 2 = not_here x at q n in
            rank_down dec lt ord asc scores id own t fuel low end x h at' q c t
              (up ∙ ap (λ o. ret o) (below_up (omega arith)))
              (down ∙ ap (λ o. ret o) (in_down l (omega arith)))
      ]
    where
      not_here :
          (x : K × S)
          → get_elem? scores ((low + end - 1) / 2) ≡ some x
          → same dec x.0 id ≡ false
          → ¬ ((low + end - 1) / 2 < t)
          → t < (low + end - 1) / 2
      not_here x at q n = elim (ℕ_discrete ((low + end - 1) / 2) t) [
        | yes e ↦
            let y = is_it dec lt ord asc scores id own t s ((low + end - 1) / 2) x at e in
            absurd (cc)
        | no m ↦ omega arith
      ]

  -- A round of the search, given that the shorter runs find `t`.
  find_step :
      (fuel : ℕ)
      → ((low end : ℕ)
          → end ≤ length scores
          → end < low + fuel
          → low ≤ t
          → t < end
          → Finds fuel low end)
      → (low end : ℕ) (x : K × S) → low < end
      → end ≤ length scores
      → end < low + suc fuel
      → low ≤ t
      → t < end
      → get_elem? scores ((low + end - 1) / 2) ≡ some x
      → Finds (suc fuel) low end
  find_step fuel again low end x h inside enough l m at =
      let (b₁, b₂) = mid_bounds low end h in
      let at' = index_of_get_elem? scores ((low + end - 1) / 2) x at in
      elim (Bool-cases (same dec x.0 id)) [
        | inl q ↦
            rank_here dec lt ord asc scores id own t fuel low end x h at' q
            ∙ ap (λ i. ret (some i)) (s.alone ((low + end - 1) / 2) x at (same-eq dec x.0 id q))
        | inr q ↦ elim (cmp-cases lt ord asc x.1 own) [
          | inl (c, w) ↦
              let y = behind ((low + end - 1) / 2) x at q w in
              rank_less dec lt ord asc scores id own t fuel low end x h at' q c
              ∙ again low ((low + end - 1) / 2) (omega arith) (omega arith) l y
          | inr (inl (c, w)) ↦ find_even fuel low end x h inside l m at q c
          | inr (inr (c, w)) ↦
              let y = ahead ((low + end - 1) / 2) x at q w in
              rank_more dec lt ord asc scores id own t fuel low end x h at' q c
              ∙ again ((low + end - 1) / 2 + 1) end inside (omega arith) (omega arith) m
        ]
      ]

  rank_loop_lem :
      (fuel low end : ℕ)
      → end ≤ length scores
      → end < low + fuel
      → low ≤ t
      → t < end
      → Finds fuel low end
  rank_loop_lem zero low end inside enough l m = absurd (omega arith)
  rank_loop_lem (suc fuel) low end inside enough l m =
      let (b₁, b₂) = mid_bounds low end (omega arith) in
      let (x, at) = get_elem?_of_lt scores ((low + end - 1) / 2) (omega arith) in
      find_step fuel (λ l e. rank_loop_lem fuel l e) low end x (omega arith) inside enough l m at

-- In a sorted list, `GetRank` of a competitor who has a score in the map, and who stands in the list
-- at one rank, with this score, returns this rank, with the fuel it is given.
pub get_rank-Stands :
    {K S : Type 0} (dec : Discrete K) (lt : S → S → Bool) (ord : Ordered lt) (id : K) (own : S)
    (t : ℕ) (slf : BinarySearch K S)
    → lookup dec id slf.competitors ≡ some own
    → Stands dec lt ord slf.asc slf.scores id own t
    → IsSorted lt slf.asc slf.scores
    → get_rank dec lt id slf ≡ ret (ok t)
unfolding get_rank
get_rank-Stands dec lt ord id own t slf known s sorted =
    let inside = lt_of_get_elem? slf.scores t (id, own) s.here in
    let run =
      rank_loop_lem dec lt ord slf.asc slf.scores id own t s sorted (length slf.scores + 1) 0
        (length slf.scores) (omega arith) (omega arith) (omega arith) inside in
    rw (get_rank, known, run) refl
