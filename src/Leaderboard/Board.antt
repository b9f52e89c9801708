-- ===== src/Leaderboard/Board.antt =====
-- utils/leaderboard/binary_search.go and its options: the methods of the leaderboard.
use mathlib.Core.List.{lookup}
use minotaur.Base.{
  ℕ, ◌+◌, ◌-◌, List, [], ◌∷◌, ◌++◌, Bool, true, false, ◌&&◌, ◌||◌, some, none, if◌then◌else◌, ltb,
  leb, ◌==◌, length, map, Go, ret, ◌>>=◌, index, slice,
}
use minotaur.Base.Int.{ℤ, pos, negsuc}
use minotaur.SyncMap.{put_entry, without}
use minotaur.Leaderboard.{
  even, more, Error, err_not_exist_competitor, err_index_err, err_nonexistent_ranking, rank_change,
  clear_before, BinarySearch, cmp, rank_loop, place_loop,
}

-- A result or an error.
pub data Result (A : Type 0) : Type 0 where
  ok : A → Result A
  failed : Error → Result A

abbrev pub get_or_default : {A : Type 0} → Result A → A → A
get_or_default (ok a) default_value = a
get_or_default (failed e) default_value = default_value

module _ {K S : Type 0} where
  unfoldable pub new_binary_search : BinarySearch K S
  new_binary_search = record {
    asc = false;
    rank_count = 100;
    competitors = [];
    scores = [];
    events = [];
  }

  unfoldable pub with_binary_search_count : ℤ → BinarySearch K S → BinarySearch K S
  with_binary_search_count (pos n) bs = record bs { rank_count = if n == 0 then 1 else n }
  with_binary_search_count (negsuc n) bs = record bs { rank_count = 1 }

  unfoldable pub with_binary_search_asc : BinarySearch K S → BinarySearch K S
  with_binary_search_asc bs = record bs { asc = true }

  unfoldable pub get_competitor_at : ℤ → BinarySearch K S → Go (Result K)
  get_competitor_at (negsuc n) slf = ret (failed err_nonexistent_ranking)
  get_competitor_at (pos rank) slf =
      if leb (length slf.scores) rank
      then ret (failed err_nonexistent_ranking)
      else (index slf.scores rank >>= λ entry. ret (ok entry.0))

  unfoldable pub get_competitor_with_range : ℤ → ℤ → BinarySearch K S → Go (Result (List K))
  get_competitor_with_range (pos start) (pos end) slf =
      if ltb start 1 || ltb end start
      then ret (failed err_nonexistent_ranking)
      else if ltb (length slf.scores) start
      then ret (failed err_nonexistent_ranking)
      else (slice slf.scores (start - 1)
            (if ltb (length slf.scores) end then length slf.scores else end)
          >>= λ part. ret (ok (map (λ entry. entry.0) part)))
  get_competitor_with_range _ _ slf = ret (failed err_nonexistent_ranking)

  unfoldable pub get_all_competitor : BinarySearch K S → List K
  get_all_competitor slf = map (λ entry. entry.0) slf.scores

  unfoldable pub clear_board : BinarySearch K S → BinarySearch K S
  clear_board slf = record slf {
    competitors = [];
    scores = [];
    events = slf.events ++ clear_before ∷ [];
  }

module _ {K S : Type 0} (dec : Discrete K) (lt : S → S → Bool) where
  unfoldable pub get_rank : K → BinarySearch K S → Go (Result ℕ)
  unfolding lookup rank_loop
  get_rank id slf = elim (lookup dec id slf.competitors) [
    | none ↦ ret (failed err_not_exist_competitor)
    | some own ↦
        rank_loop dec lt (length slf.scores + 1) slf.asc slf.scores id own 0 (length slf.scores)
        >>= λ rank. elim rank [ some i ↦ ret (ok i) | none ↦ ret (failed err_index_err) ]
  ]

  unfoldable pub get_rank_default : K → ℕ → BinarySearch K S → Go ℕ
  unfolding get_rank
  get_rank_default id default_value slf =
      get_rank id slf >>= λ rank. ret (get_or_default rank default_value)

  unfoldable pub get_score : K → BinarySearch K S → Result S
  unfolding lookup
  get_score id slf = elim (lookup dec id slf.competitors) [
    | none ↦ failed err_not_exist_competitor
    | some score ↦ ok score
  ]

  unfoldable pub get_score_default : K → S → BinarySearch K S → S
  unfolding get_score
  get_score_default id default_value slf = get_or_default (get_score id slf) default_value

  -- The end of `competitor`: the last competitor leaves a list that has grown too long.
  unfoldable pub trim : BinarySearch K S → Go (BinarySearch K S)
  unfolding without
  trim slf =
      if (slf.rank_count == 0) || leb (length slf.scores) slf.rank_count then ret slf else (do
        let count = length slf.scores - 1
        si ← index slf.scores count
        rest ← slice slf.scores 0 count
        ret (record slf {
          events = slf.events ++ rank_change si.0 (pos count) (negsuc 0) si.1 si.1 ∷ [];
          competitors = without dec si.0 slf.competitors;
          scores = rest;
        }))

  -- `competitor` after its search, which has found `low`.
  unfoldable pub place : K → S → ℤ → S → ℕ → BinarySearch K S → Go (BinarySearch K S)
  unfolding trim put_entry
  place id old_score old_rank score low slf =
      if low == length slf.scores
      then (if ltb 0 slf.rank_count && leb slf.rank_count (length slf.scores)
          then ret slf
          else ret (record slf {
            scores = slf.scores ++ (id, score) ∷ [];
            competitors = put_entry dec id score slf.competitors;
            events =
                slf.events
                ++ rank_change id old_rank (pos (length slf.scores)) old_score score ∷ [];
          }))
      else (do
        before ← slice slf.scores 0 low
        after ← slice slf.scores low (length slf.scores)
        trim (record slf {
          scores = before ++ (id, score) ∷ after;
          competitors = put_entry dec id score slf.competitors;
          events = slf.events ++ rank_change id old_rank (pos low) old_score score ∷ [];
        }))

  -- The unexported `competitor`.
  unfoldable pub search_and_place : K → S → ℤ → S → ℕ → ℕ → BinarySearch K S → Go (BinarySearch K S)
  unfolding place_loop place
  search_and_place id old_score old_rank score low end slf =
      place_loop lt (length slf.scores + 1) slf.asc slf.scores score low end >>= λ low'.
      place id old_score old_rank score low' slf

  -- `Competitor`, of one who is in the list with the score `v`, at `rank`.
  unfoldable pub move : K → S → S → ℕ → BinarySearch K S → Go (BinarySearch K S)
  unfolding search_and_place cmp without
  move id v score rank slf = do
    before ← slice slf.scores 0 rank
    after ← slice slf.scores (rank + 1) (length slf.scores)
    let left = record slf { scores = before ++ after; competitors = without dec id slf.competitors }
    elim (cmp lt slf.asc score v) [
      | more ↦ search_and_place id v (pos rank) score 0 rank left
      | _ ↦ search_and_place id v (pos rank) score rank (length left.scores) left
    ]

  -- `Competitor`, of one who is not in the list. `zero_value` is the old score that is reported.
  unfoldable pub enter : S → K → S → BinarySearch K S → Go (BinarySearch K S)
  unfolding search_and_place cmp
  enter zero_value id score slf =
      if ltb 0 slf.rank_count && leb slf.rank_count (length slf.scores)
      then (index slf.scores (length slf.scores - 1) >>= λ last.
          elim (cmp lt slf.asc score last.1) [
            | more ↦ search_and_place id zero_value (negsuc 0) score 0 (length slf.scores) slf
            | _ ↦ ret slf
          ])
      else search_and_place id zero_value (negsuc 0) score 0 (length slf.scores) slf

  unfoldable pub competitor : S → K → S → BinarySearch K S → Go (BinarySearch K S)
  unfolding lookup cmp get_rank move enter
  competitor zero_value id score slf = elim (lookup dec id slf.competitors) [
    | none ↦ enter zero_value id score slf
    | some v ↦ elim (cmp lt slf.asc v score) [
      | even ↦ ret slf
      | _ ↦ get_rank id slf >>= λ rank. elim rank [
        | ok i ↦ move id v score i slf
        | failed e ↦ ret slf
      ]
    ]
  ]

  unfoldable pub remove_competitor : K → BinarySearch K S → Go (BinarySearch K S)
  unfolding lookup get_rank without
  remove_competitor id slf = elim (lookup dec id slf.competitors) [
    | none ↦ ret slf
    | some v ↦ get_rank id slf >>= λ rank. elim rank [
      | failed e ↦ ret (record slf { competitors = without dec id slf.competitors })
      | ok i ↦ index slf.scores i >>= λ entry. slice slf.scores 0 i >>= λ before.
          slice slf.scores (i + 1) (length slf.scores) >>= λ after. ret (record slf {
            events = slf.events ++ rank_change id (pos i) (negsuc 0) entry.1 entry.1 ∷ [];
            scores = before ++ after;
            competitors = without dec id slf.competitors;
          })
    ]
  ]
