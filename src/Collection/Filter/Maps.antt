-- ===== src/Collection/Filter/Maps.antt =====
-- utils/collection/filter.go: what a filtered map holds.
use mathlib.Core.List.{lookup}
use minotaur.Base.{ℕ, ◌+◌, List, [], ◌∷◌, Bool, same, none, if◌then◌else◌, ◌≡◌, refl, arith}
use minotaur.Collection.Loops.{is_nil}
use minotaur.Collection.Contains.{in_slice}
use minotaur.Collection.Filter.{valid_elements, filter_out_by_keys}

module _ {K V : Type 0} (dec : Discrete K) where
  lookup-valid_elements :
      (p : K → Bool) (i : ℕ) (m : List (K × V)) (k : K)
      → lookup dec k (valid_elements (λ i e. p e.0) i m) ≡ (if p k then none else lookup dec k m)
  unfolding lookup valid_elements
  lookup-valid_elements p i [] k = ground arith
  lookup-valid_elements p i ((j, w) ∷ m) k = ground (arith, lookup-valid_elements p (i + 1) m k)

  -- `FilterOutByKeys` returns a map in which the given keys are missing and every other key has the
  -- value that it had.
  pub lookup-filter_out_by_keys :
      (m : List (K × V)) (keys : List K) (k : K)
      → lookup dec k (filter_out_by_keys dec m keys) ≡ (
          if in_slice (λ source target. same dec source target) keys k
          then none
          else lookup dec k m)
  unfolding filter_out_by_keys in_slice is_nil
  lookup-filter_out_by_keys m [] k = refl
  lookup-filter_out_by_keys m (key ∷ keys) k =
      lookup-valid_elements (λ k. in_slice (λ source target. same dec source target) (key ∷ keys) k)
        0 m k
