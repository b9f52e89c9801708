-- ===== src/Leaderboard/Rank.antt =====
-- utils/leaderboard/binary_search.go: the search of `GetRank` finds a competitor in a sorted list.
pub mod Found
use minotaur.Base.{
  ℕ, zero, suc, ◌+◌, ◌-◌, ◌/◌, ◌<◌, ◌≤◌, List, [], ◌∷◌, Bool, true, false, same, Option, some, none,
  if◌then◌else◌, ltb, length, Go, ret, panic, ◌>>=◌, index, ◌≡◌, refl, ap, ◌∙◌, sym, subst, ◌≢◌,
  get_elem?, arith, Bool-cases, inl, inr, ◌⊎◌, lt→ltb, le→ltb, get_elem?_of_lt, lt_of_get_elem?,
  index_of_get_elem?, dec_lt, dec_le, ℕ_discrete,
}
use minotaur.Base.Orders.{Ordered}
use minotaur.Leaderboard.{cmp, less, even, more, scan_up, scan_down, rank_loop}
use minotaur.Leaderboard.Order.{mid_bounds, worse, worse_asym, IsSorted, cmp-cases}

module _ {A : Type 0} (dec : Discrete A) where
  pub same-eq : (a b : A) → same dec a b ≡ true → a ≡ b
  same-eq a b h = ground arith

  eq-same : (a b : A) → a ≡ b → same dec a b ≡ true
  eq-same a b h = ground arith

-- The competitor `id` stands at `t` with the score `own`, and nowhere else.
module _ {K S : Type 0} (dec : Discrete K) (lt : S → S → Bool) (ord : Ordered lt) (asc : Bool)
    (scores : List (K × S)) (id : K) (own : S) (t : ℕ) where
  pub record Stands : Type 0 where
    pub here : get_elem? scores t ≡ some (id, own)
    pub alone : (i : ℕ) (x : K × S) → get_elem? scores i ≡ some x → x.0 ≡ id → i ≡ t

  entry_at : Stands → (i : ℕ) (x : K × S) → get_elem? scores i ≡ some x → i ≡ t → x ≡ (id, own)
  entry_at s i x at e =
      let f : some x ≡ some (id, own) = sym at ∙ ap (λ i. get_elem? scores i) e ∙ s.here in cc

  pub is_it :
      Stands → (i : ℕ) (x : K × S) → get_elem? scores i ≡ some x → i ≡ t → same dec x.0 id ≡ true
  is_it s i x at e = eq-same dec x.0 id (ap (λ x. x.0) (entry_at s i x at e))

  pub scan_up_lem :
      Stands
      → (count i : ℕ) → i + count ≤ length scores
      → (o : Option ℕ) × (scan_up dec scores id count i ≡ ret o)
        × (i ≤ t → t < i + count → o ≡ some t)
        × (t < i → o ≡ none)
  unfolding scan_up
  scan_up_lem s zero i h = (none, refl, λ l m. absurd (omega arith), λ l. refl)
  scan_up_lem s (suc count) i h =
      let (x, at) = get_elem?_of_lt scores i (omega arith) in
      let (o, run, found, missed) = scan_up_lem s count (i + 1) (omega arith) in
      go x at o run found missed
    where
      go :
          (x : K × S)
          → get_elem? scores i ≡ some x
          → (o : Option ℕ) → scan_up dec scores id count (i + 1) ≡ ret o
          → (i + 1 ≤ t → t < i + 1 + count → o ≡ some t)
          → (t < i + 1 → o ≡ none)
          → (o : Option ℕ) × (scan_up dec scores id (suc count) i ≡ ret o)
            × (i ≤ t → t < i + suc count → o ≡ some t)
            × (t < i → o ≡ none)
      go x at o run found missed = elim (Bool-cases (same dec x.0 id)) [
        | inl q ↦
            let e = s.alone i x at (same-eq dec x.0 id q) in
            (
              some i,
              rw (index_of_get_elem? scores i x at, run, q) refl,
              λ l m. ap some e,
              λ l. absurd (omega arith),
            )
        | inr q ↦ (
          o,
          rw (index_of_get_elem? scores i x at, run, q) refl,
          λ l m. elim (ℕ_discrete i t) [
            | yes e ↦ let y = is_it s i x at e in absurd (cc)
            | no n ↦ found (omega arith) (omega arith)
          ],
          λ l. missed (omega arith),
        )
      ]

  pub scan_down_lem :
      Stands
      → (count low : ℕ) → low + count ≤ length scores
      → (o : Option ℕ) × (scan_down dec scores id count low ≡ ret o)
        × (low ≤ t → t < low + count → o ≡ some t)
  unfolding scan_down
  scan_down_lem s zero low h = (none, refl, λ l m. absurd (omega arith))
  scan_down_lem s (suc count) low h =
      let (x, at) = get_elem?_of_lt scores (low + count) (omega arith) in
      let (o, run, found) = scan_down_lem s count low (omega arith) in go x at o run found
    where
      go :
          (x : K × S)
          → get_elem? scores (low + count) ≡ some x
          → (o : Option ℕ) → scan_down dec scores id count low ≡ ret o
          → (low ≤ t → t < low + count → o ≡ some t)
          → (o : Option ℕ) × (scan_down dec scores id (suc count) low ≡ ret o)
            × (low ≤ t → t < low + suc count → o ≡ some t)
      go x at o run found = elim (Bool-cases (same dec x.0 id)) [
        | inl q ↦
            let e = s.alone (low + count) x at (same-eq dec x.0 id q) in
            (
              some (low + count),
              rw (index_of_get_elem? scores (low + count) x at, run, q) refl,
              λ l m. ap some e,
            )
        | inr q ↦ (
          o,
          rw (index_of_get_elem? scores (low + count) x at, run, q) refl,
          λ l m. elim (ℕ_discrete (low + count) t) [
            | yes e ↦ let y = is_it s (low + count) x at e in absurd (cc)
            | no n ↦ found l (omega arith)
          ],
        )
      ]

  -- What a round of the search does.
  module _ (fuel low end : ℕ) (x : K × S) (h : low < end)
      (at : index scores ((low + end - 1) / 2) ≡ ret x) where
    pub rank_here :
        same dec x.0 id ≡ true
        → rank_loop dec lt (suc fuel) asc scores id own low end ≡ ret (some ((low + end - 1) / 2))
    unfolding rank_loop
    rank_here q = rw (rank_loop, lt→ltb low end h, at, ◌>>=◌, q) refl

    module _ (q : same dec x.0 id ≡ false) where
      pub rank_less :
          cmp lt asc x.1 own ≡ less
          → rank_loop dec lt (suc fuel) asc scores id own low end
            ≡ rank_loop dec lt fuel asc scores id own low ((low + end - 1) / 2)
      unfolding rank_loop
      rank_less c = rw (rank_loop, lt→ltb low end h, at, ◌>>=◌, q, c) refl

      pub rank_more :
          cmp lt asc x.1 own ≡ more
          → rank_loop dec lt (suc fuel) asc scores id own low end
            ≡ rank_loop dec lt fuel asc scores id own ((low + end - 1) / 2 + 1) end
      unfolding rank_loop
      rank_more c = rw (rank_loop, lt→ltb low end h, at, ◌>>=◌, q, c) refl

      pub rank_up :
          cmp lt asc x.1 own ≡ even
          → (i : ℕ)
          → scan_up dec scores id (end - 1 - (low + end - 1) / 2) ((low + end - 1) / 2 + 1)
            ≡ ret (some i)
          → rank_loop dec lt (suc fuel) asc scores id own low end ≡ ret (some i)
      unfolding rank_loop
      rank_up c i up = rw (rank_loop, lt→ltb low end h, at, ◌>>=◌, q, c, up) refl

      pub rank_down :
          cmp lt asc x.1 own ≡ even
          → (i : ℕ)
          → scan_up dec scores id (end - 1 - (low + end - 1) / 2) ((low + end - 1) / 2 + 1)
            ≡ ret none
          → scan_down dec scores id ((low + end - 1) / 2 - low) low ≡ ret (some i)
          → rank_loop dec lt (suc fuel) asc scores id own low end ≡ ret (some i)
      unfolding rank_loop
      rank_down c i up down = rw (rank_loop, lt→ltb low end h, at, ◌>>=◌, q, c, up, down) refl
