-- ===== src/Topological/Tests.antt =====
-- utils/sorts/topological.go: runs of Topological.
use mathlib.Core.List.{Memᴰ}
use mathlib.Core.List.Memᴰ
use mathlib.Core.Logic.{◌↔◌}
use native.Mathlib.Decide.{ℕ_discrete}
use minotaur.Base.{ℕ, ◌<◌, List, [], ◌∷◌, length, ret, ◌≡◌, refl, sym, ap, subst, arith, inl, inr}
use minotaur.Topological.{Sorting, sorted_as, err_circular_dependency_detected, topological}
use minotaur.Topological.Visit.{Distinct}
use minotaur.Topological.Order.{DependentsFirst}
use minotaur.Topological.Sorts.{topological_returns, topological_error_iff, topological_sorts}

-- A field with the fields that it is computed from.
abbrev Field : Type 0
Field = ℕ × List ℕ

abbrev field_index : Field → ℕ
field_index f = f.0

abbrev field_depends : Field → List ℕ
field_depends f = f.1

abbrev chained : List Field
chained = (1, []) ∷ (2, 1 ∷ []) ∷ (3, 1 ∷ 2 ∷ []) ∷ []

abbrev circular : List Field
circular = (1, 2 ∷ []) ∷ (2, 1 ∷ []) ∷ []

abbrev repeated : List Field
repeated = (1, []) ∷ (1, []) ∷ []

chained_run :
    topological ℕ_discrete field_index field_depends chained (1 ∷ 3 ∷ 2 ∷ [])
    ≡ ret (sorted_as ((3, 1 ∷ 2 ∷ []) ∷ (2, 1 ∷ []) ∷ (1, []) ∷ []))
unfolding topological ℕ_discrete
chained_run = refl

circular_run :
    topological ℕ_discrete field_index field_depends circular (1 ∷ 2 ∷ [])
    ≡ ret (sorted_as ((2, 1 ∷ []) ∷ (1, 2 ∷ []) ∷ []))
unfolding topological ℕ_discrete
circular_run = refl

repeated_run :
    topological ℕ_discrete field_index field_depends repeated (1 ∷ [])
    ≡ ret err_circular_dependency_detected
unfolding topological ℕ_discrete
repeated_run = refl

-- Each element of the first list is in the second.
abbrev Within : List ℕ → List ℕ → Type 0
Within [] ys = Unit {0}
Within (x ∷ xs) ys = Memᴰ x ys × Within xs ys

within_mem : (xs ys : List ℕ) → Within xs ys → (j : ℕ) → Memᴰ j xs → Memᴰ j ys
within_mem [] ys h j m = absurd (Memᴰ.not-nil m)
within_mem (x ∷ xs) ys (h, hs) j m = elim (Memᴰ.cases_cons m) [
  | inl e ↦ subst (λ j. Memᴰ j ys) (sym e) h
  | inr m ↦ within_mem xs ys hs j m
]

at_0 : {A : Type 0} {x : A} {xs : List A} → Memᴰ x (x ∷ xs)
at_0 = Memᴰ.head refl

at_1 : {A : Type 0} {x y : A} {xs : List A} → Memᴰ x (y ∷ x ∷ xs)
at_1 = Memᴰ.tail at_0

at_2 : {A : Type 0} {x y z : A} {xs : List A} → Memᴰ x (y ∷ z ∷ x ∷ xs)
at_2 = Memᴰ.tail at_1

topological_returns_example :
    (r : Sorting Field) × (topological ℕ_discrete field_index field_depends circular (2 ∷ 1 ∷ [])
      ≡ ret r)
topological_returns_example =
    topological_returns ℕ_discrete field_index field_depends circular (2 ∷ 1 ∷ [])
      (within_mem (2 ∷ 1 ∷ []) (1 ∷ 2 ∷ []) (at_1, (at_0, tt)))

topological_error_iff_example :
    (topological ℕ_discrete field_index field_depends circular (2 ∷ 1 ∷ [])
      ≡ ret err_circular_dependency_detected)
    ↔ (¬ Distinct ℕ_discrete (1 ∷ 2 ∷ []))
topological_error_iff_example =
    topological_error_iff ℕ_discrete field_index field_depends circular (2 ∷ 1 ∷ [])
      (within_mem (2 ∷ 1 ∷ []) (1 ∷ 2 ∷ []) (at_1, (at_0, tt)))
      (within_mem (1 ∷ 2 ∷ []) (2 ∷ 1 ∷ []) (at_1, (at_0, tt)))

-- Each dependency has a lower number.
abbrev Falls : List Field → Type 0
Falls [] = Unit {0}
Falls (f ∷ fs) = ((depend : ℕ) → Memᴰ depend f.1 → depend < f.0) × Falls fs

Falls-mem :
    (fs : List Field)
    → Falls fs
    → (f : Field) (depend : ℕ) → Memᴰ f fs
    → Memᴰ depend (field_depends f)
    → depend < field_index f
Falls-mem [] h f depend m k = absurd (Memᴰ.not-nil m)
Falls-mem (g ∷ fs) (h, hs) f depend m k = elim (Memᴰ.cases_cons m) [
  | inl e ↦
      subst (λ n. depend < n) (sym (ap field_index e))
        (h depend (subst (λ ds. Memᴰ depend ds) (ap field_depends e) k))
  | inr m ↦ Falls-mem fs hs f depend m k
]

below_3 : (depend : ℕ) → Memᴰ depend (1 ∷ 2 ∷ []) → depend < 3
below_3 depend m = elim (Memᴰ.cases_cons m) [
  | inl e ↦ omega arith
  | inr m ↦ let e = Memᴰ.eq_of_singleton m in omega arith
]

below_2 : (depend : ℕ) → Memᴰ depend (1 ∷ []) → depend < 2
below_2 depend m = let e = Memᴰ.eq_of_singleton m in omega arith

chained-Distinct : Distinct ℕ_discrete (1 ∷ 2 ∷ 3 ∷ [])
chained-Distinct = (
  λ m. elim (Memᴰ.cases_cons m) [
    | inl e ↦ omega arith
    | inr m ↦ let e = Memᴰ.eq_of_singleton m in omega arith
  ],
  (λ m. let e = Memᴰ.eq_of_singleton m in omega arith, (Memᴰ.not-nil, tt)),
)

topological_sorts_example :
    (sorted : List Field) × (topological ℕ_discrete field_index field_depends chained
        (1 ∷ 3 ∷ 2 ∷ [])
      ≡ ret (sorted_as sorted))
    × (length sorted ≡ 3)
    × ((f : Field) → Memᴰ f chained → Memᴰ f sorted)
    × DependentsFirst field_index field_depends chained sorted
topological_sorts_example =
    topological_sorts ℕ_discrete field_index field_depends chained (1 ∷ 3 ∷ 2 ∷ []) (λ n. n)
      (within_mem (1 ∷ 3 ∷ 2 ∷ []) (1 ∷ 2 ∷ 3 ∷ []) (at_0, (at_2, (at_1, tt))))
      (within_mem (1 ∷ 2 ∷ 3 ∷ []) (1 ∷ 3 ∷ 2 ∷ []) (at_0, (at_2, (at_1, tt)))) chained-Distinct
      (Falls-mem chained (λ d m. absurd (Memᴰ.not-nil m), (below_2, (below_3, tt))))
