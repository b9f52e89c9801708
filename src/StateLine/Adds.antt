-- ===== src/StateLine/Adds.antt =====
-- utils/chrono/state_line.go: AddState puts one entry in its place.
use minotaur.Base.{
  ℕ, zero, suc, ◌+◌, ◌≤◌, List, [], ◌∷◌, ◌++◌, same, some, none, length, take, drop, map, ret, set,
  ◌≡◌, refl, ap, ◌∙◌, arith, Bool-cases, inl, inr, ◌⊎◌, get_elem?, index_of_get_elem?, store_of_lt,
  lt_of_get_elem?,
}
use minotaur.Base.Int.{ltb_ℤ}
use minotaur.StateLine.{first_index, insert_state, add_state, add_trigger_to_state}
use minotaur.StateLine.Entries.{
  Entry, entry_of, attach, get_elem?-map, map-set, line_of, insert, has, enter_entry, has_entry,
  insert_at-map, map-append,
}

module _ {State T : Type 0} where
  -- The index at which `AddState` inserts.
  InsertsAt : ℕ → Entry State T → List (Entry State T) → Type 0
  InsertsAt k e es =
      ((first_index (λ i point. ltb_ℤ e.point point) k (map (λ x. x.point) es) ≡ none)
        × (insert e es ≡ es ++ e ∷ []))
      ⊎ ((j : ℕ) × (first_index (λ i point. ltb_ℤ e.point point) k (map (λ x. x.point) es)
            ≡ some (j + k))
          × (j ≤ length es)
          × (insert e es ≡ take j es ++ e ∷ drop j es))

  insert-cases : (k : ℕ) (e : Entry State T) (es : List (Entry State T)) → InsertsAt k e es
  unfolding InsertsAt first_index
  insert-cases k e [] = inl (refl, refl)
  insert-cases k e (x ∷ es) = elim (Bool-cases (ltb_ℤ e.point x.point)) [
    | inl q ↦ inr (0, rw q (ap some (omega arith)), omega arith, rw q refl)
    | inr q ↦ elim (insert-cases (suc k) e es) [
      | inl (f, g) ↦ inl (rw q f, rw q (ap (◌∷◌ x) g))
      | inr (j, f, l, g) ↦
          inr (suc j, rw q (f ∙ ap some (omega arith)), omega arith, rw q (ap (◌∷◌ x) g))
    ]
  ]

module _ {State T : Type 0} (dec : Discrete State) where
  insert_state-line_of :
      (i : ℕ) (e : Entry State T) (es : List (Entry State T))
      → i ≤ length es
      → insert_state dec i e.state e.point e.triggers (line_of es)
        ≡ ret (line_of (take i es ++ e ∷ drop i es))
  unfolding insert_state
  insert_state-line_of i e es h =
      rw
        (
          insert_state,
          insert_at-map (λ x. x.point) i e es h,
          insert_at-map (λ x. x.state) i e es h,
          insert_at-map (λ x. x.triggers) i e es h,
        )
        refl

  pub add_state-line_of :
      (e : Entry State T) (es : List (Entry State T))
      → add_state dec e.state e.point e.triggers (line_of es) ≡ ret (line_of (enter_entry dec e es))
  unfolding add_state InsertsAt
  add_state-line_of e es = elim (Bool-cases (has dec e.state es)) [
    | inl q ↦ rw (has_entry dec e.state es, q) refl
    | inr q ↦ elim (insert-cases 0 e es) [
      | inl (f, g) ↦
          rw
            (
              has_entry dec e.state es,
              q,
              f,
              g,
              map-append (λ x. x.point) es (e ∷ []),
              map-append (λ x. x.state) es (e ∷ []),
              map-append (λ x. x.triggers) es (e ∷ []),
            )
            refl
      | inr (j, f, l, g) ↦
          let at : first_index (λ i point. ltb_ℤ e.point point) 0 (map (λ x. x.point) es) ≡ some j =
            f ∙ ap some (omega arith) in
          rw (has_entry dec e.state es, q, at, g) (insert_state-line_of j e es l)
    ]
  ]

-- A field that a write leaves alone.
set-same :
    {A B : Type 0} (f : A → B) (xs : List A) (j : ℕ) (x x' : A)
    → get_elem? xs j ≡ some x
    → f x' ≡ f x
    → map f (set xs j x') ≡ map f xs
set-same f [] j x x' h q = refl
set-same f (y ∷ xs) zero x x' h q = ap (λ z. z ∷ map f xs) (q ∙ ap f (let e : x ≡ y = cc in e))
set-same f (y ∷ xs) (suc j) x x' h q = ap (◌∷◌ (f y)) (set-same f xs j x x' h q)

-- AddTriggerToState on the entry of the state.
module _ {State T : Type 0} (dec : Discrete State) where
  Attaches : ℕ → State → List T → List (Entry State T) → Type 0
  Attaches k state on_trigger es =
      ((first_index (λ i x. same dec x state) k (map (λ x. x.state) es) ≡ none)
        × (attach dec state on_trigger es ≡ es)
        × (entry_of dec state es ≡ none))
      ⊎ ((j : ℕ) × (e : Entry State T) × (first_index (λ i x. same dec x state) k
              (map (λ x. x.state) es)
            ≡ some (j + k))
          × (get_elem? es j ≡ some e)
          × (attach dec state on_trigger es
              ≡ set es j (record e { triggers = e.triggers ++ on_trigger }))
          × (entry_of dec state es ≡ some e))

  attach-cases :
      (k : ℕ) (state : State) (on_trigger : List T) (es : List (Entry State T))
      → Attaches k state on_trigger es
  unfolding Attaches first_index
  attach-cases k state on_trigger [] = inl (refl, refl, refl)
  attach-cases k state on_trigger (x ∷ es) = elim (Bool-cases (same dec x.state state)) [
    | inl q ↦ inr (0, x, rw q (ap some (omega arith)), refl, rw q refl, rw q refl)
    | inr q ↦ elim (attach-cases (suc k) state on_trigger es) [
      | inl (f, g, h) ↦ inl (rw q f, rw q (ap (◌∷◌ x) g), rw q h)
      | inr (j, e, f, l, g, h) ↦
          inr (suc j, e, rw q (f ∙ ap some (omega arith)), l, rw q (ap (◌∷◌ x) g), rw q h)
    ]
  ]

  -- Where a state is held.
  unfoldable pub Held : State → List (Entry State T) → Type 0
  Held state es =
      ((first_index (λ i x. same dec x state) 0 (map (λ x. x.state) es) ≡ none)
        × (entry_of dec state es ≡ none))
      ⊎ ((j : ℕ) × (e : Entry State T) × (first_index (λ i x. same dec x state) 0
              (map (λ x. x.state) es)
            ≡ some j)
          × (get_elem? es j ≡ some e)
          × (entry_of dec state es ≡ some e))

  pub Held-cases : (state : State) (es : List (Entry State T)) → Held state es
  unfolding Held Attaches
  Held-cases state es = elim (attach-cases 0 state [] es) [
    | inl (f, g, h) ↦ inl (f, h)
    | inr (j, e, f, l, g, h) ↦ inr (j, e, f ∙ ap some (omega arith), l, h)
  ]

  pub add_trigger-line_of :
      (state : State) (on_trigger : List T) (es : List (Entry State T))
      → add_trigger_to_state dec state on_trigger (line_of es)
        ≡ ret (line_of (attach dec state on_trigger es))
  unfolding add_trigger_to_state Attaches
  add_trigger-line_of state on_trigger es = elim (attach-cases 0 state on_trigger es) [
    | inl (f, g, h) ↦ rw (add_trigger_to_state, f, g) refl
    | inr (j, e, f, l, g, h) ↦
        let at : first_index (λ i x. same dec x state) 0 (map (λ x. x.state) es) ≡ some j =
          f ∙ ap some (omega arith) in
        let e' : Entry State T = record e { triggers = e.triggers ++ on_trigger } in
        let read = get_elem?-map (λ x. x.triggers) es j e l in
        rw
          (
            add_trigger_to_state,
            at,
            index_of_get_elem? (map (λ x. x.triggers) es) j e.triggers read,
            store_of_lt (map (λ x. x.triggers) es) j (e.triggers ++ on_trigger)
                (lt_of_get_elem? (map (λ x. x.triggers) es) j e.triggers read),
            g,
            set-same (λ x. x.state) es j e e' l refl,
            set-same (λ x. x.point) es j e e' l refl,
            map-set (λ x. x.triggers) es j e',
          )
          refl
  ]
