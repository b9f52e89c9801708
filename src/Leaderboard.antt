-- ===== src/Leaderboard.antt =====
-- utils/leaderboard/binary_search.go: competitors in the order of their scores, and the binary
-- searches for a rank and for a place. The field `high` of a search, which can be -1, is held as
-- `end`, one more. The searches run on fuel, one more than the length; without fuel they panic, and
-- `Rank` and `Place` show that they return. The handlers of events are outside; what they are called
-- with is the list `events`.
pub mod Board
pub mod Order
pub mod Rank
pub mod Round
pub mod Place
pub mod Insert
pub mod Enter
pub mod Keep
mod Tests
use mathlib.Core.List.{lookup}
use minotaur.Base.{
  ℕ, zero, suc, ◌+◌, ◌-◌, ◌/◌, List, [], ◌∷◌, ◌++◌, Bool, true, false, same, not, ◌&&◌, ◌||◌,
  Option, some, none, if◌then◌else◌, ltb, leb, ◌==◌, length, map, Go, ret, panic, ◌>>=◌, index,
  slice, ℕ_discrete,
}
use minotaur.Base.Int.{ℤ, pos, negsuc}
use minotaur.SyncMap.{put_entry, without}

-- The result of `Cmp`: -1, 0 and 1.
pub data Comparison : Type 0 where
  less even more : Comparison

pub data Error : Type 0 where
  err_not_exist_competitor err_index_err err_nonexistent_ranking : Error

pub data Event (K S : Type 0) : Type 0 where
  rank_change : K → ℤ → ℤ → S → S → Event K S
  clear_before : Event K S

-- `BinarySearch`. A `rank_count` of 0 is no limit.
pub record BinarySearch (K S : Type 0) : Type 0 where
  pub asc : Bool
  pub rank_count : ℕ
  pub competitors : List (K × S)
  pub scores : List (K × S)
  pub events : List (Event K S)

unfoldable pub opposite : Comparison → Comparison
opposite less = more
opposite even = even
opposite more = less

module _ {S : Type 0} (lt : S → S → Bool) where
  unfoldable pub cmp : Bool → S → S → Comparison
  unfolding opposite
  cmp asc s1 s2 =
      let result : Comparison = if lt s2 s1 then more else if lt s1 s2 then less else even in
      if asc then opposite result else result

module _ {K S : Type 0} (dec : Discrete K) where
  -- The loops of `GetRank` over `count` neighbours with the same score, upwards from `i`, and
  -- downwards to `low`.
  unfoldable pub scan_up : List (K × S) → K → ℕ → ℕ → Go (Option ℕ)
  scan_up scores id zero i = ret none
  scan_up scores id (suc count) i = do
    entry ← index scores i
    rest ← scan_up scores id count (i + 1)
    ret (if same dec entry.0 id then some i else rest)

  unfoldable pub scan_down : List (K × S) → K → ℕ → ℕ → Go (Option ℕ)
  scan_down scores id zero low = ret none
  scan_down scores id (suc count) low = do
    entry ← index scores (low + count)
    rest ← scan_down scores id count low
    ret (if same dec entry.0 id then some (low + count) else rest)

module _ {K S : Type 0} (dec : Discrete K) (lt : S → S → Bool) where
  unfoldable pub rank_loop : ℕ → Bool → List (K × S) → K → S → ℕ → ℕ → Go (Option ℕ)
  unfolding cmp scan_up scan_down
  rank_loop zero asc scores id own low end = panic
  rank_loop (suc fuel) asc scores id own low end = elim (ltb low end) [
    | false ↦ ret none
    | true ↦
        let mid = (low + end - 1) / 2 in
        index scores mid >>= λ entry. elim (same dec entry.0 id) [
          | true ↦ ret (some mid)
          | false ↦ elim (cmp lt asc entry.1 own) [
            | even ↦ scan_up dec scores id (end - 1 - mid) (mid + 1) >>= λ above. elim above [
              | some i ↦ ret (some i)
              | none ↦ scan_down dec scores id (mid - low) low >>= λ below. elim below [
                | some i ↦ ret (some i)
                | none ↦ rank_loop fuel asc scores id own low end
              ]
            ]
            | less ↦ rank_loop fuel asc scores id own low mid
            | more ↦ rank_loop fuel asc scores id own (mid + 1) end
          ]
        ]
  ]

module _ {K S : Type 0} (lt : S → S → Bool) where
  -- The inner loop of `competitor`: past the entries with the same score.
  unfoldable pub skip_even : Bool → List (K × S) → S → ℕ → ℕ → Go ℕ
  unfolding cmp
  skip_even asc scores score zero low = ret low
  skip_even asc scores score (suc count) low = index scores low >>= λ entry.
      elim (cmp lt asc entry.1 score) [
        | even ↦ skip_even asc scores score count (low + 1)
        | _ ↦ ret low
      ]

  unfoldable pub place_loop : ℕ → Bool → List (K × S) → S → ℕ → ℕ → Go ℕ
  unfolding cmp skip_even
  place_loop zero asc scores score low end = panic
  place_loop (suc fuel) asc scores score low end = elim (ltb low end) [
    | false ↦ ret low
    | true ↦
        let mid = (low + end - 1) / 2 in
        index scores mid >>= λ entry. elim (cmp lt asc entry.1 score) [
          | even ↦ skip_even asc scores score (end - (mid + 1)) (mid + 1) >>= λ low'.
              place_loop fuel asc scores score low' end
          | less ↦ place_loop fuel asc scores score low mid
          | more ↦ place_loop fuel asc scores score (mid + 1) end
        ]
  ]
