-- ===== src/Leaderboard/Order.antt =====
-- utils/leaderboard/binary_search.go: what `Cmp` decides, and sorted lists of scores.
use minotaur.Base.{
  ℕ, ◌<◌, ◌≤◌, List, Bool, true, false, some, if◌then◌else◌, ◌≡◌, refl, get_elem?, arith,
  Bool-cases, inl, inr, ◌⊎◌, ◌+◌, ◌-◌, ◌/◌,
}
use minotaur.Base.Orders.{Ordered}
use minotaur.Leaderboard.{less, even, more, opposite, cmp}

-- The middle of a range that is not empty lies in it.
pub mid_bounds :
    (low end : ℕ) → low < end → (low ≤ (low + end - 1) / 2) × ((low + end - 1) / 2 < end)
mid_bounds low end h = (omega arith, omega arith)

module _ {S : Type 0} (lt : S → S → Bool) (asc : Bool) where
  -- A score that stands behind another one.
  abbrev pub worse : S → S → Bool
  worse a b = if asc then lt b a else lt a b

  pub worse_trans :
      (a b c : S) → Ordered lt → worse a b ≡ false → worse b c ≡ false → worse a c ≡ false
  worse_trans a b c ord h g = elim (Bool-cases asc) [
    | inl e ↦ rw e (ord.trans a b c (rw e at h) (rw e at g))
    | inr e ↦ rw e (ord.trans c b a (rw e at g) (rw e at h))
  ]

  pub worse_asym : (a b : S) → Ordered lt → worse a b ≡ true → worse b a ≡ false
  worse_asym a b ord h = elim (Bool-cases asc) [
    | inl e ↦ rw e (ord.asym b a (rw e at h))
    | inr e ↦ rw e (ord.asym a b (rw e at h))
  ]

  -- The scores do not rise from one rank to a later one.
  abbrev pub IsSorted : {K : Type 0} → List (K × S) → Type 0
  IsSorted {K} scores =
      (i j : ℕ) (x y : K × S)
      → i < j
      → get_elem? scores i ≡ some x
      → get_elem? scores j ≡ some y
      → worse x.1 y.1 ≡ false

module _ {S : Type 0} (lt : S → S → Bool) (ord : Ordered lt) where
  pub cmp-cases :
      (asc : Bool) (a b : S)
      → ((cmp lt asc a b ≡ less) × (worse lt asc a b ≡ true))
        ⊎ ((cmp lt asc a b ≡ even) × (worse lt asc a b ≡ false))
        ⊎ ((cmp lt asc a b ≡ more) × (worse lt asc b a ≡ true))
  unfolding cmp opposite
  cmp-cases true a b = elim (Bool-cases (lt b a)) [
    | inl h ↦ inl (rw h refl, h)
    | inr h ↦ elim (Bool-cases (lt a b)) [
      | inl g ↦ inr (inr (rw (h, g) refl, g))
      | inr g ↦ inr (inl (rw (h, g) refl, h))
    ]
  ]
  cmp-cases false a b = elim (Bool-cases (lt a b)) [
    | inl h ↦ inl (rw (ord.asym a b h, h) refl, h)
    | inr h ↦ elim (Bool-cases (lt b a)) [
      | inl g ↦ inr (inr (rw g refl, g))
      | inr g ↦ inr (inl (rw (g, h) refl, h))
    ]
  ]
