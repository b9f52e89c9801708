-- ===== src/Leaderboard/Place.antt =====
-- utils/leaderboard/binary_search.go: the search of `competitor` finds the place of a score.
use minotaur.Base.{
  ℕ, zero, suc, ◌+◌, ◌-◌, ◌/◌, ◌<◌, ◌≤◌, List, Bool, true, false, some, length, ret, ◌≡◌, refl, ◌∙◌,
  sym, subst, get_elem?, arith, Bool-cases, inl, inr, get_elem?_of_lt, index_of_get_elem?,
  lt_of_get_elem?, dec_lt, ℕ_discrete,
}
use minotaur.Base.Orders.{Ordered}
use minotaur.Leaderboard.{skip_even, place_loop}
use minotaur.Leaderboard.Order.{mid_bounds, worse, worse_trans, worse_asym, IsSorted, cmp-cases}
use minotaur.Leaderboard.Round.{
  skip_on, skip_less, skip_more, place_end, place_less, place_more, place_even,
}

module _ {K S : Type 0} (lt : S → S → Bool) (ord : Ordered lt) (asc : Bool) (scores : List (K × S))
    (score : S) where
  -- No entry before `p` is behind the score.
  abbrev pub IsFront : ℕ → Type 0
  IsFront p =
      (i : ℕ) (x : K × S) → i < p → get_elem? scores i ≡ some x → worse lt asc x.1 score ≡ false

  -- Every entry from `p` on is behind the score.
  abbrev pub IsBack : ℕ → Type 0
  IsBack p =
      (i : ℕ) (x : K × S) → p ≤ i → get_elem? scores i ≡ some x → worse lt asc x.1 score ≡ true

  same_entry :
      (mid : ℕ) (x y : K × S)
      → get_elem? scores mid ≡ some x
      → get_elem? scores mid ≡ some y
      → x ≡ y
  same_entry mid x y e f = cc

  IsBack-from :
      (mid : ℕ) (x : K × S)
      → IsSorted lt asc scores
      → get_elem? scores mid ≡ some x
      → worse lt asc x.1 score ≡ true
      → IsBack mid
  IsBack-from mid x sorted at w i y le e = elim (ℕ_discrete mid i) [
    | yes q ↦
        subst (λ y. worse lt asc y.1 score ≡ true)
          (same_entry mid x y at (subst (λ k. get_elem? scores k ≡ some y) (sym q) e)) w
    | no n ↦ elim (Bool-cases (worse lt asc y.1 score)) [
      | inl t ↦ t
      | inr f ↦
          let g = worse_trans lt asc x.1 y.1 score ord (sorted mid i x y (omega arith) at e) f in
          absurd (cc)
    ]
  ]

  IsFront-to :
      (mid : ℕ) (x : K × S)
      → IsSorted lt asc scores
      → get_elem? scores mid ≡ some x
      → worse lt asc x.1 score ≡ false
      → IsFront (mid + 1)
  IsFront-to mid x sorted at w i y le e = elim (ℕ_discrete mid i) [
    | yes q ↦
        subst (λ y. worse lt asc y.1 score ≡ false)
          (same_entry mid x y at (subst (λ k. get_elem? scores k ≡ some y) (sym q) e)) w
    | no n ↦ worse_trans lt asc y.1 x.1 score ord (sorted i mid y x (omega arith) e at) w
  ]

  skip_even_lem :
      (count low end : ℕ)
      → IsSorted lt asc scores
      → low + count ≡ end
      → end ≤ length scores
      → IsFront low
      → (p : ℕ) × (skip_even lt asc scores score count low ≡ ret p)
        × (low ≤ p)
        × (p ≤ end)
        × IsFront p
  unfolding skip_even
  skip_even_lem zero low end sorted q le front = (low, refl, omega arith, omega arith, front)
  skip_even_lem (suc count) low end sorted q le front =
      let (x, at) = get_elem?_of_lt scores low (omega arith) in
      go (λ f. skip_even_lem count (low + 1) end sorted (omega arith) le f) x at
    where
      go :
          (IsFront (low + 1)
            → (p : ℕ) × (skip_even lt asc scores score count (low + 1) ≡ ret p)
              × (low + 1 ≤ p)
              × (p ≤ end)
              × IsFront p)
          → (x : K × S) → get_elem? scores low ≡ some x
          → (p : ℕ) × (skip_even lt asc scores score (suc count) low ≡ ret p)
            × (low ≤ p)
            × (p ≤ end)
            × IsFront p
      go again x at =
          let at' = index_of_get_elem? scores low x at in
          elim (cmp-cases lt ord asc x.1 score) [
            | inl (e, w) ↦ (
              low,
              skip_less lt asc scores score count low x at' e,
              omega arith,
              omega arith,
              front,
            )
            | inr (inl (e, w)) ↦
                let (p, run, l, h, f) = again (IsFront-to low x sorted at w) in
                (p, skip_on lt asc scores score count low x at' e ∙ run, omega arith, h, f)
            | inr (inr (e, w)) ↦ (
              low,
              skip_more lt asc scores score count low x at' e,
              omega arith,
              omega arith,
              front,
            )
          ]

  -- Where a run of the search from `low` to `end` with `fuel` ends.
  abbrev Ends : ℕ → ℕ → ℕ → Type 0
  Ends fuel low end =
      (p : ℕ) × (place_loop lt fuel asc scores score low end ≡ ret p)
      × (p ≤ end)
      × IsFront p
      × IsBack p

  -- A round of the search, given that the shorter runs end in the right place.
  place_step :
      (fuel : ℕ)
      → ((low end : ℕ)
          → low ≤ end
          → end ≤ length scores
          → end < low + fuel
          → IsFront low
          → IsBack end
          → Ends fuel low end)
      → (low end : ℕ) → IsSorted lt asc scores
      → end ≤ length scores
      → end < low + suc fuel
      → IsFront low
      → IsBack end
      → low < end
      → (x : K × S) → get_elem? scores ((low + end - 1) / 2) ≡ some x
      → Ends (suc fuel) low end
  place_step fuel again low end sorted inside enough front back h x at =
      let (b₁, b₂) = mid_bounds low end h in
      let at' = index_of_get_elem? scores ((low + end - 1) / 2) x at in
      elim (cmp-cases lt ord asc x.1 score) [
        | inl (e, w) ↦
            let (p, run, q, f, b) =
              again low ((low + end - 1) / 2) (omega arith) (omega arith) (omega arith) front
                (IsBack-from ((low + end - 1) / 2) x sorted at w) in
            (p, place_less lt asc scores score fuel low end x h at' e ∙ run, omega arith, f, b)
        | inr (inl (e, w)) ↦
            let (low', skip, l, q, f) =
              skip_even_lem (end - ((low + end - 1) / 2 + 1)) ((low + end - 1) / 2 + 1) end sorted
                (omega arith) inside (IsFront-to ((low + end - 1) / 2) x sorted at w) in
            let (p, run, r, f', b) = again low' end q inside (omega arith) f back in
            (p, place_even lt asc scores score fuel low end x h at' low' e skip ∙ run, r, f', b)
        | inr (inr (e, w)) ↦
            let (p, run, q, f, b) =
              again ((low + end - 1) / 2 + 1) end (omega arith) inside (omega arith)
                (IsFront-to ((low + end - 1) / 2) x sorted at (worse_asym lt asc score x.1 ord w))
                back in
            (p, place_more lt asc scores score fuel low end x h at' e ∙ run, q, f, b)
      ]

  place_loop_lem :
      (fuel low end : ℕ)
      → IsSorted lt asc scores
      → low ≤ end
      → end ≤ length scores
      → end < low + fuel
      → IsFront low
      → IsBack end
      → Ends fuel low end
  place_loop_lem zero low end sorted le inside enough front back = absurd (omega arith)
  place_loop_lem (suc fuel) low end sorted le inside enough front back = elim (dec_lt low end) [
    | no n ↦ (
      low,
      place_end lt asc scores score fuel low end (omega arith),
      le,
      front,
      λ i x h e. back i x (omega arith) e,
    )
    | yes h ↦
        let (x, at) = get_elem?_of_lt scores ((low + end - 1) / 2) (omega arith) in
        place_step fuel (λ l e. place_loop_lem fuel l e sorted) low end sorted inside enough front
          back h x at
  ]

  -- In a sorted list the search over the whole list returns, with the fuel it is given, and the
  -- place that it returns has no entry behind the score before it and only such entries from it on.
  pub place_loop-place :
      IsSorted lt asc scores
      → (p : ℕ) × (place_loop lt (length scores + 1) asc scores score 0 (length scores) ≡ ret p)
        × (p ≤ length scores)
        × IsFront p
        × IsBack p
  place_loop-place sorted =
      place_loop_lem (length scores + 1) 0 (length scores) sorted (omega arith) (omega arith)
        (omega arith) (λ i x h e. absurd (omega arith)) past
    where
      past : IsBack (length scores)
      past i x h e = absurd (omega (arith, lt_of_get_elem? scores i x e))
