-- ===== src/Collection/Filter/Tests.antt =====
-- The theorems on filter.go and drop.go at concrete slices and maps.
use minotaur.Base.{ℕ, List, [], ◌∷◌, ret, ◌≡◌, refl}
use minotaur.Base.Int.{ℤ, pos, negsuc}
use minotaur.Collection.Filter.{filter_out_by_indices, drop_slice_by_indices}
use minotaur.Collection.Filter.InPlace.{drop_slice_by_indices-filter}

abbrev numbers : List ℕ
numbers = 5 ∷ 6 ∷ 7 ∷ 8 ∷ []

abbrev indices : List ℤ
indices = pos 1 ∷ negsuc 0 ∷ pos 9 ∷ pos 3 ∷ []

filters : filter_out_by_indices numbers indices ≡ 5 ∷ 7 ∷ []
unfolding filter_out_by_indices
filters = refl

drop_slice_by_indices-filter_example :
    drop_slice_by_indices numbers indices ≡ ret (filter_out_by_indices numbers indices)
drop_slice_by_indices-filter_example = drop_slice_by_indices-filter numbers indices

abbrev prices : List (ℕ × ℕ)
prices = (1, 10) ∷ (2, 20) ∷ []
