-- ===== src/Collection/Tests.antt =====
-- The theorems on utils/collection at concrete slices and maps.
use minotaur.Base.{ℕ, List, [], ◌∷◌, Bool, ◌==◌, ◌≡◌, refl, ℕ_discrete, ret}
use minotaur.Collection.Duplicate.{deduplicate_slice, deduplicate_slice_in_place}
use minotaur.Collection.Duplicate.InPlace.{in_place-deduplicate_slice}

abbrev eq : ℕ → ℕ → Bool
eq a b = a == b

abbrev numbers : List ℕ
numbers = 3 ∷ 1 ∷ 3 ∷ 2 ∷ 1 ∷ []

abbrev maps : List (List (ℕ × ℕ))
maps = ((1, 10) ∷ []) ∷ ((2, 20) ∷ []) ∷ []

deduplicate_runs : deduplicate_slice ℕ_discrete numbers ≡ 3 ∷ 1 ∷ 2 ∷ []
unfolding deduplicate_slice ℕ_discrete
deduplicate_runs = refl

in_place-deduplicate_slice_example :
    deduplicate_slice_in_place ℕ_discrete numbers ≡ ret (deduplicate_slice ℕ_discrete numbers)
in_place-deduplicate_slice_example = in_place-deduplicate_slice ℕ_discrete numbers
