-- ===== src/StateLine/ByState.antt =====
-- utils/chrono/state_line.go: what is read of a state.
use minotaur.Base.{
  List, [], ◌∷◌, true, false, same, Option, some, none, if◌then◌else◌, map, ret, ◌≡◌, ◌≢◌, refl,
  sym, ap, ◌∙◌, Bool-cases, inl, inr, eq→same, ne→same, same-cases, index_of_get_elem?,
}
use minotaur.Base.Int.{ℤ, pos, ltb_ℤ}
use minotaur.Collection.Loops.{any_of}
use minotaur.StateLine.{StateLine, get_time_by_state, get_trigger_by_state, add_state}
use minotaur.StateLine.Entries.{Entry, line_of, insert, has, entry_of, get_elem?-map}
use minotaur.StateLine.Adds.{Held, Held-cases, add_state-line_of}

module _ {State T : Type 0} where
  abbrev pub point_of : Option (Entry State T) → ℤ
  point_of none = pos 0
  point_of (some e) = e.point

  abbrev pub triggers_of : Option (Entry State T) → List T
  triggers_of none = []
  triggers_of (some e) = e.triggers

module _ {State T : Type 0} (dec : Discrete State) where
  by_state :
      (x : State) (es : List (Entry State T))
      → (get_time_by_state dec x (line_of es) ≡ ret (point_of (entry_of dec x es)))
        × (get_trigger_by_state dec x (line_of es) ≡ ret (triggers_of (entry_of dec x es)))
  unfolding get_time_by_state get_trigger_by_state Held
  by_state x es = elim (Held-cases dec x es) [
    | inl (f, h) ↦ (rw (get_time_by_state, f, h) refl, rw (get_trigger_by_state, f, h) refl)
    | inr (j, e, f, l, h) ↦ (
      rw (get_time_by_state, f, h)
          (index_of_get_elem? (map (λ e. e.point) es) j e.point
            (get_elem?-map (λ e. e.point) es j e l)),
      rw (get_trigger_by_state, f, h)
          (index_of_get_elem? (map (λ e. e.triggers) es) j e.triggers
            (get_elem?-map (λ e. e.triggers) es j e l)),
    )
  ]

  entry_of-insert :
      (x : State) (e : Entry State T) (es : List (Entry State T))
      → has dec e.state es ≡ false
      → entry_of dec x (insert e es) ≡ (if same dec e.state x then some e else entry_of dec x es)
  unfolding any_of
  entry_of-insert x e [] out = refl
  entry_of-insert x e (y ∷ es) out = elim (Bool-cases (ltb_ℤ e.point y.point)) [
    | inl q ↦ rw q refl
    | inr q ↦ elim (same-cases dec y.state e.state) [
      | inl (_, s) ↦ absurd (let bad : true ≡ false = rw s at out in cc)
      | inr (n, s) ↦
          let rest : has dec e.state es ≡ false = rw s at out in
          let again = entry_of-insert x e es rest in
          rw (q, again)
            (elim (same-cases dec y.state x) [
              | inl (u, v) ↦ rw (v, ne→same dec e.state x (λ w. n (u ∙ sym w))) refl
              | inr (_, v) ↦ rw v refl
            ])
    ]
  ]

  -- AddState of a state that the line does not hold returns, whatever the time is, and then the
  -- state has that time and that trigger, and every other state has the time and the trigger that it had.
  pub get_time-add_state :
      (e : Entry State T) (es : List (Entry State T))
      → has dec e.state es ≡ false
      → (s : StateLine State T) × (add_state dec e.state e.point e.triggers (line_of es) ≡ ret s)
        × (get_time_by_state dec e.state s ≡ ret e.point)
        × (get_trigger_by_state dec e.state s ≡ ret e.triggers)
        × ((x : State)
            → x ≢ e.state
            → (get_time_by_state dec x s ≡ get_time_by_state dec x (line_of es))
              × (get_trigger_by_state dec x s ≡ get_trigger_by_state dec x (line_of es)))
  get_time-add_state e es out =
      let own : entry_of dec e.state (insert e es) ≡ some e =
        entry_of-insert e.state e es out ∙ rw (eq→same dec e.state e.state refl) refl in
      let (time, trigger) = by_state e.state (insert e es) in
      (
        line_of (insert e es),
        add_state-line_of dec e es ∙ rw out refl,
        time ∙ ap (λ o. ret (point_of o)) own,
        trigger ∙ ap (λ o. ret (triggers_of o)) own,
        λ x n.
            let other : entry_of dec x (insert e es) ≡ entry_of dec x es =
              entry_of-insert x e es out ∙ rw (ne→same dec e.state x (λ u. n (sym u))) refl in
            let (time', trigger') = by_state x (insert e es) in
            let (old, old_trigger) = by_state x es in
            (
              time' ∙ ap (λ o. ret (point_of o)) other ∙ sym old,
              trigger' ∙ ap (λ o. ret (triggers_of o)) other ∙ sym old_trigger,
            ),
      )
