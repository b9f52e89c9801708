-- ===== src/Leaderboard/Tests.antt =====
-- The theorems on the leaderboard at a concrete one.
use mathlib.Core.List.{lookup}
use minotaur.Base.{
  ℕ, zero, suc, ◌≤◌, List, [], ◌∷◌, Bool, false, ltb, ◌≡◌, refl, get_elem?, some, arith, ret, index,
  ℕ_discrete,
}
use minotaur.Base.Orders.{Ordered}
use minotaur.Leaderboard.{BinarySearch, place_loop}
use minotaur.Leaderboard.Order.{IsSorted}
use minotaur.Leaderboard.Place.{IsFront, IsBack, place_loop-place}
use minotaur.Leaderboard.Board.{enter, get_rank, ok}
use minotaur.Leaderboard.Rank.{Stands}
use minotaur.Leaderboard.Rank.Found.{get_rank-Stands}
use minotaur.Leaderboard.Keep.{IsOrdered, enter-IsOrdered}

abbrev lt : ℕ → ℕ → Bool
lt a b = ltb a b

lt-Ordered : Ordered lt
lt-Ordered = record {
  irrefl = λ a. ground arith;
  trans = λ a b c h g. ground arith;
  asym = λ a b h. ground arith;
}

abbrev entries : List (ℕ × ℕ)
entries = (1, 30) ∷ (2, 20) ∷ (3, 20) ∷ []

entries-IsSorted : IsSorted lt false entries
entries-IsSorted zero zero x y l e f = absurd (omega arith)
entries-IsSorted zero (suc zero) x y l e f = ground arith
entries-IsSorted zero (suc (suc zero)) x y l e f = ground arith
entries-IsSorted (suc zero) (suc (suc zero)) x y l e f = ground arith
entries-IsSorted (suc zero) zero x y l e f = absurd (omega arith)
entries-IsSorted (suc zero) (suc zero) x y l e f = absurd (omega arith)
entries-IsSorted (suc (suc zero)) (suc (suc zero)) x y l e f = absurd (omega arith)
entries-IsSorted (suc (suc zero)) (suc zero) x y l e f = absurd (omega arith)
entries-IsSorted (suc (suc zero)) zero x y l e f = absurd (omega arith)
entries-IsSorted i (suc (suc (suc j))) x y l e f = absurd (cc)
entries-IsSorted (suc (suc (suc i))) j x y l e f = absurd (cc)

abbrev board : BinarySearch ℕ ℕ
board = record { asc = false; rank_count = 3; competitors = entries; scores = entries; events = [] }

place_loop-place_example :
    (p : ℕ) × (place_loop lt 4 false entries 20 0 3 ≡ ret p)
    × (p ≤ 3)
    × IsFront lt lt-Ordered false entries 20 p
    × IsBack lt lt-Ordered false entries 20 p
place_loop-place_example = place_loop-place lt lt-Ordered false entries 20 entries-IsSorted

board-IsOrdered : IsOrdered ℕ_discrete lt lt-Ordered board
board-IsOrdered = record { sorted = entries-IsSorted; bounded = λ h. omega arith }

enter-IsOrdered_example :
    (slf' : BinarySearch ℕ ℕ) × (enter ℕ_discrete lt 0 4 25 board ≡ ret slf')
    × IsOrdered ℕ_discrete lt lt-Ordered slf'
enter-IsOrdered_example = enter-IsOrdered ℕ_discrete lt lt-Ordered 0 4 25 board board-IsOrdered

finds_place : place_loop lt 4 false entries 20 0 3 ≡ ret 3
unfolding place_loop index
finds_place = refl

-- Competitor 3 shares the score 20 with competitor 2.
third-Stands : Stands ℕ_discrete lt lt-Ordered false entries 3 20 2
third-Stands = record { here = refl; alone = alone }
  where
    alone : (i : ℕ) (x : ℕ × ℕ) → get_elem? entries i ≡ some x → x.0 ≡ 3 → i ≡ 2
    alone zero x e q = ground arith
    alone (suc zero) x e q = ground arith
    alone (suc (suc zero)) x e q = refl
    alone (suc (suc (suc i))) x e q = absurd (cc)

get_rank-Stands_example : get_rank ℕ_discrete lt 3 board ≡ ret (ok 2)
unfolding lookup ℕ_discrete
get_rank-Stands_example =
    get_rank-Stands ℕ_discrete lt lt-Ordered 3 20 2 board refl third-Stands entries-IsSorted
