-- ===== src/StateLine/ByTime.antt =====
-- utils/chrono/state_line.go: what is read at a time.
use minotaur.Base.{
  ℕ, suc, ◌+◌, ◌<◌, List, [], ◌∷◌, ◌++◌, true, false, Option, some, none, length, map, ret, index,
  ◌≡◌, refl, sym, ap, ◌∙◌, arith, Bool-cases, inl, inr, ◌⊎◌, get_elem?, index_of_get_elem?,
}
use minotaur.Base.Int.{ℤ, ◌≤ℤ◌, ◌<ℤ◌}
use minotaur.StateLine.{
  last_index_of, not_later, get_state_index_by_time, get_state_by_time, get_trigger_by_time,
}
use minotaur.StateLine.Entries.{Entry, line_of, length-map, get_elem?-map}

not_later_lem : (a t : ℤ) → not_later a t ≡ true → a ≤ℤ t
unfolding not_later
not_later_lem a t h = ground arith

later_lem : (a t : ℤ) → not_later a t ≡ false → t <ℤ a
unfolding not_later
later_lem a t h = ground arith

get_elem?-append :
    {A : Type 0} (xs ys : List A) (x : A) → get_elem? (xs ++ x ∷ ys) (length xs) ≡ some x
get_elem?-append [] ys x = refl
get_elem?-append (y ∷ xs) ys x = get_elem?-append xs ys x

module _ {State T : Type 0} where
  -- All of the entries begin after `t`.
  abbrev pub AllLater : ℤ → List (Entry State T) → Type 0
  AllLater t [] = Unit {0}
  AllLater t (e ∷ es) = (t <ℤ e.point) × AllLater t es

  abbrev last_at : ℤ → ℕ → List (Entry State T) → Option ℕ
  last_at t k es = last_index_of (λ i point. not_later point t) k (map (λ e. e.point) es)

  -- `es` is split behind the last entry that does not begin after `t`, if there is one.
  Splits : ℤ → ℕ → List (Entry State T) → Type 0
  Splits t k es =
      (AllLater t es × (last_at t k es ≡ none))
      ⊎ ((xs : List (Entry State T)) × (e : Entry State T) × (ys : List (Entry State T)) × (es
            ≡ xs ++ e ∷ ys)
          × (e.point ≤ℤ t)
          × AllLater t ys
          × (last_at t k es ≡ some (length xs + k)))

  split-cases : (t : ℤ) (k : ℕ) (es : List (Entry State T)) → Splits t k es
  unfolding Splits last_index_of
  split-cases t k [] = inl (tt, refl)
  split-cases t k (x ∷ es) = elim (split-cases t (suc k) es) [
    | inr (xs, e, ys, p, h, l, f) ↦
        inr (x ∷ xs, e, ys, ap (◌∷◌ x) p, h, l, rw f (ap some (omega arith)))
    | inl (l, f) ↦ elim (Bool-cases (not_later x.point t)) [
      | inl q ↦
          inr ([], x, es, refl, not_later_lem x.point t q, l, rw (f, q) (ap some (omega arith)))
      | inr q ↦ inl ((later_lem x.point t q, l), rw (f, q) refl)
    ]
  ]

  -- What is read at `t`.
  pub data ReadsAt (t : ℤ) (es : List (Entry State T)) : Type 0 where
    current :
        (xs : List (Entry State T)) (e : Entry State T) (ys : List (Entry State T))
        → es ≡ xs ++ e ∷ ys
        → e.point ≤ℤ t
        → AllLater t ys
        → get_state_index_by_time t (line_of es) ≡ some (length xs)
        → get_state_by_time t (line_of es) ≡ ret e.state
        → get_trigger_by_time t (line_of es) ≡ ret e.triggers
        → ReadsAt t es
    too_early :
        (xs : List (Entry State T)) (e : Entry State T)
        → es ≡ xs ++ e ∷ []
        → AllLater t es
        → get_state_index_by_time t (line_of es) ≡ none
        → get_state_by_time t (line_of es) ≡ ret e.state
        → get_trigger_by_time t (line_of es) ≡ ret []
        → ReadsAt t es

  index-split :
      {B : Type 0} (f : Entry State T → B) (es xs ys : List (Entry State T)) (e : Entry State T)
      → es ≡ xs ++ e ∷ ys
      → index (map f es) (length xs) ≡ ret (f e)
  index-split f es xs ys e p = index_of_get_elem? (map f es) (length xs) (f e) (
      get_elem?-map f es (length xs) e
        (ap (λ es. get_elem? es (length xs)) p ∙ get_elem?-append xs ys e))

  ends_with :
      (x : Entry State T) (es : List (Entry State T))
      → (xs : List (Entry State T)) × (e : Entry State T) × (x ∷ es ≡ xs ++ e ∷ [])
        × (length xs ≡ length es)
  ends_with x [] = ([], x, refl, refl)
  ends_with x (y ∷ es) = let (xs, e, p, l) = ends_with y es in (x ∷ xs, e, ap (◌∷◌ x) p, ap suc l)

  -- On a line that is not empty, GetStateByTime, GetStateIndexByTime and GetTriggerByTime read the
  -- last entry that does not begin after the time. Where all begin after it, the state is that of
  -- the last entry of all, the index is -1 and there is no trigger.
  pub by_time-ReadsAt : (t : ℤ) (es : List (Entry State T)) → 0 < length es → ReadsAt t es
  unfolding get_state_index_by_time get_state_by_time get_trigger_by_time Splits
  by_time-ReadsAt t [] h = absurd (omega arith)
  by_time-ReadsAt t (x ∷ es) h = elim (split-cases t 0 (x ∷ es)) [
    | inr (xs, e, ys, p, q, l, f) ↦
        let at : last_at t 0 (x ∷ es) ≡ some (length xs) = f ∙ ap some (omega arith) in
        current xs e ys p q l at
          (rw (get_state_by_time, at) (index-split (λ e. e.state) (x ∷ es) xs ys e p))
          (rw (get_trigger_by_time, at) (index-split (λ e. e.triggers) (x ∷ es) xs ys e p))
    | inl (l, f) ↦
        let (xs, e, p, n) = ends_with x es in
        let i : length (map (λ (e : Entry State T). e.point) es) ≡ length xs =
          length-map (λ e. e.point) es ∙ sym n in
        too_early xs e p l f
          (rw (get_state_by_time, f, i) (index-split (λ e. e.state) (x ∷ es) xs [] e p))
          (rw (get_trigger_by_time, f) refl)
  ]
