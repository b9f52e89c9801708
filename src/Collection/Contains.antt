-- ===== src/Collection/Contains.antt =====
-- utils/collection/contains.go, and the merge of merge.go that it uses. A `ComparisonHandler` is a
-- function into Bool; `comparable` types have a decidable equality; `zero_value` is what a map
-- reads at a missing key.
pub mod Laws
use mathlib.Core.List.{lookup}
use minotaur.Base.{
  ℕ, List, [], ◌∷◌, ◌++◌, Bool, true, false, not, same, Option, some, none, if◌then◌else◌, ltb,
  ◌==◌, length,
}
use minotaur.Collection.Loops.{is_nil, any_of, all_of}

-- merge.go: `MergeSlices`
unfoldable pub merge_slices : {V : Type 0} → List (List V) → List V
merge_slices [] = []
merge_slices (slice ∷ slices) = slice ++ merge_slices slices

module _ {V : Type 0} (handler : V → V → Bool) where
  -- The loop of `EqualSlice`, over slices of one length.
  unfoldable pub equal_each : List V → List V → Bool
  equal_each [] ys = true
  equal_each (x ∷ xs) [] = false
  equal_each (x ∷ xs) (y ∷ ys) = if handler x y then equal_each xs ys else false

  unfoldable pub equal_slice : List V → List V → Bool
  unfolding equal_each
  equal_slice xs ys = if not (length xs == length ys) then false else equal_each xs ys

  unfoldable pub in_slice : List V → V → Bool
  unfolding is_nil any_of
  in_slice slice v = if is_nil slice then false else any_of (λ value. handler v value) slice

  unfoldable pub all_in_slice : List V → List V → Bool
  unfolding is_nil all_of in_slice
  all_in_slice slice values =
      if is_nil slice then false else all_of (λ value. in_slice slice value) values

  unfoldable pub any_in_slice : List V → List V → Bool
  unfolding is_nil any_of in_slice
  any_in_slice slice values =
      if is_nil slice then false else any_of (λ value. in_slice slice value) values

  unfoldable pub in_slices : List (List V) → V → Bool
  unfolding merge_slices in_slice
  in_slices slices v = in_slice (merge_slices slices) v

  unfoldable pub all_in_slices : List (List V) → List V → Bool
  unfolding merge_slices all_in_slice
  all_in_slices slices values = all_in_slice (merge_slices slices) values

  unfoldable pub any_in_slices : List (List V) → List V → Bool
  unfolding merge_slices any_in_slice
  any_in_slices slices values = any_in_slice (merge_slices slices) values

  unfoldable pub in_all_slices : List (List V) → V → Bool
  unfolding is_nil all_of in_slice
  in_all_slices slices v =
      if is_nil slices then false else all_of (λ slice. in_slice slice v) slices

  unfoldable pub any_in_all_slices : List (List V) → List V → Bool
  unfolding is_nil all_of any_in_slice
  any_in_all_slices slices values =
      if is_nil slices then false else all_of (λ slice. any_in_slice slice values) slices

module _ {V : Type 0} (dec : Discrete V) where
  -- The functions on comparable values compare by `==`.
  unfoldable pub equal_comparable_slice : List V → List V → Bool
  unfolding equal_slice
  equal_comparable_slice = equal_slice (λ x y. same dec x y)

  unfoldable pub in_comparable_slice : List V → V → Bool
  unfolding any_of
  in_comparable_slice slice v = any_of (λ value. same dec value v) slice

  unfoldable pub all_in_comparable_slice : List V → List V → Bool
  unfolding is_nil all_of in_comparable_slice
  all_in_comparable_slice slice values =
      if is_nil slice then false else all_of (λ value. in_comparable_slice slice value) values

  unfoldable pub any_in_comparable_slice : List V → List V → Bool
  unfolding is_nil any_of in_comparable_slice
  any_in_comparable_slice slice values =
      if is_nil slice then false else any_of (λ value. in_comparable_slice slice value) values

module _ {K V : Type 0} (dec : Discrete K) where
  unfoldable pub key_in_map : List (K × V) → K → Bool
  unfolding lookup
  key_in_map m key = elim (lookup dec key m) [ some v ↦ true | none ↦ false ]

  unfoldable pub all_key_in_map : List (K × V) → List K → Bool
  unfolding key_in_map all_of
  all_key_in_map m keys =
      if ltb (length m) (length keys) then false else all_of (λ key. key_in_map m key) keys

  unfoldable pub any_key_in_map : List (K × V) → List K → Bool
  unfolding key_in_map any_of is_nil
  any_key_in_map m keys = if is_nil m then false else any_of (λ key. key_in_map m key) keys

  unfoldable pub all_key_in_maps : List (List (K × V)) → List K → Bool
  unfolding all_key_in_map all_of is_nil
  all_key_in_maps maps keys =
      if is_nil maps then false else all_of (λ m. all_key_in_map m keys) maps

  unfoldable pub any_key_in_maps : List (List (K × V)) → List K → Bool
  unfolding any_key_in_map any_of is_nil
  any_key_in_maps maps keys =
      if is_nil maps then false else any_of (λ m. any_key_in_map m keys) maps

  unfoldable pub key_in_all_maps : List (List (K × V)) → K → Bool
  unfolding key_in_map all_of is_nil
  key_in_all_maps maps key = if is_nil maps then false else all_of (λ m. key_in_map m key) maps

  unfoldable pub any_key_in_all_maps : List (List (K × V)) → List K → Bool
  unfolding any_key_in_map all_of is_nil
  any_key_in_all_maps maps keys =
      if is_nil maps then false else all_of (λ m. any_key_in_map m keys) maps

  module _ (zero_value : V) where
    -- `m[k]`
    unfoldable pub map_read : List (K × V) → K → V
    unfolding lookup
    map_read m k = elim (lookup dec k m) [ some v ↦ v | none ↦ zero_value ]

    unfoldable pub equal_map : (V → V → Bool) → List (K × V) → List (K × V) → Bool
    unfolding all_of map_read
    equal_map handler map1 map2 =
        if not (length map1 == length map2)
        then false
        else all_of (λ e. handler e.1 (map_read map2 e.0)) map1

module _ {K V : Type 0} (handler : V → V → Bool) where
  unfoldable pub value_in_map : List (K × V) → V → Bool
  unfolding any_of is_nil
  value_in_map m value = if is_nil m then false else any_of (λ e. handler value e.1) m

  unfoldable pub all_value_in_map : List (K × V) → List V → Bool
  unfolding all_of is_nil value_in_map
  all_value_in_map m values =
      if is_nil m then false else all_of (λ value. value_in_map m value) values

  unfoldable pub any_value_in_map : List (K × V) → List V → Bool
  unfolding any_of is_nil value_in_map
  any_value_in_map m values =
      if is_nil m then false else any_of (λ value. value_in_map m value) values

  unfoldable pub all_value_in_maps : List (List (K × V)) → List V → Bool
  unfolding all_of is_nil all_value_in_map
  all_value_in_maps maps values =
      if is_nil maps then false else all_of (λ m. all_value_in_map m values) maps

  -- As the code has it: it returns false at the first map with none of the values.
  unfoldable pub any_value_in_maps : List (List (K × V)) → List V → Bool
  unfolding all_of is_nil any_value_in_map
  any_value_in_maps maps values =
      if is_nil maps then false else all_of (λ m. any_value_in_map m values) maps

-- The comparable variants on several slices, with `==` as the handler.
module _ {V : Type 0} (dec : Discrete V) where
  unfoldable pub in_comparable_slices : List (List V) → V → Bool
  unfolding in_slices
  in_comparable_slices slices v = in_slices (λ a b. same dec a b) slices v

  unfoldable pub all_in_comparable_slices : List (List V) → List V → Bool
  unfolding all_in_slices
  all_in_comparable_slices slices values = all_in_slices (λ a b. same dec a b) slices values

  unfoldable pub any_in_comparable_slices : List (List V) → List V → Bool
  unfolding any_in_slices
  any_in_comparable_slices slices values = any_in_slices (λ a b. same dec a b) slices values

  unfoldable pub in_all_comparable_slices : List (List V) → V → Bool
  unfolding in_all_slices
  in_all_comparable_slices slices v = in_all_slices (λ a b. same dec a b) slices v

  unfoldable pub any_in_all_comparable_slices : List (List V) → List V → Bool
  unfolding any_in_all_slices
  any_in_all_comparable_slices slices values = any_in_all_slices (λ a b. same dec a b) slices values

  unfoldable pub equal_comparable_map :
      {W : Type 0} → Discrete W → W → List (V × W) → List (V × W) → Bool
  unfolding equal_map
  equal_comparable_map dec_value zero_value map1 map2 =
      equal_map dec zero_value (λ a b. same dec_value a b) map1 map2
