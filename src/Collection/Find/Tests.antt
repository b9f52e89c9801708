-- ===== src/Collection/Find/Tests.antt =====
-- The theorems on utils/collection/find.go at concrete slices and maps.
use minotaur.Base.{ℕ, ◌≤◌, List, [], ◌∷◌, Bool, ◌==◌, ltb, ◌≡◌, refl, ◌↔◌, arith}
use minotaur.Base.Int.{pos}
use minotaur.Collection.Find.{
  find_combinations_in_slice_by_range, find_in_slice, find_min2max_in_slice,
}
use minotaur.Base.Orders.{Ordered}
use minotaur.Collection.Find.Combine.{In, Sub, find_combinations_iff}

abbrev numbers : List ℕ
numbers = 4 ∷ 2 ∷ 9 ∷ []

abbrev prices : List (ℕ × ℕ)
prices = (7, 3) ∷ (8, 5) ∷ []

abbrev lt : ℕ → ℕ → Bool
lt a b = ltb a b

abbrev key : ℕ → ℕ
key a = a

lt-Ordered : Ordered lt
lt-Ordered = record {
  irrefl = λ a. ground arith;
  trans = λ a b c h g. ground arith;
  asym = λ a b h. ground arith;
}

finds_second : find_in_slice 0 numbers (λ a. a == 2) ≡ (pos 1, 2)
unfolding find_in_slice
finds_second = refl

finds_both : find_min2max_in_slice lt key 0 numbers ≡ (2, 9)
unfolding find_min2max_in_slice
finds_both = refl

find_combinations_iff_example :
    In (4 ∷ 9 ∷ []) (find_combinations_in_slice_by_range numbers (pos 2) (pos 3))
    ↔ (Sub (4 ∷ 9 ∷ []) numbers × (2 ≤ 2) × (2 ≤ 3))
find_combinations_iff_example = find_combinations_iff numbers 2 3 (4 ∷ 9 ∷ []) (omega arith)
