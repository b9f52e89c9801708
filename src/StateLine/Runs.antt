-- ===== src/StateLine/Runs.antt =====
-- utils/chrono/state_line.go: the calls that change a line, one after the other.
use minotaur.Base.{List, [], ◌∷◌, Go, ret, ◌>>=◌, ◌≡◌, refl, ap, ◌∙◌}
use minotaur.Base.Int.{ℤ, pos, ◌+ℤ◌}
use minotaur.StateLine.{StateLine, new_state_line, move_line, add_state, add_trigger_to_state}
use minotaur.StateLine.Entries.{Entry, attach, line_of, shift, enter_entry}
use minotaur.StateLine.Adds.{add_state-line_of, add_trigger-line_of}

pub data Call (State T : Type 0) : Type 0 where
  add : State → ℤ → List T → Call State T
  move : ℤ → Call State T
  add_trigger : State → List T → Call State T

module _ {State T : Type 0} (dec : Discrete State) where
  unfoldable pub call_on : Call State T → StateLine State T → Go (StateLine State T)
  unfolding add_state move_line add_trigger_to_state
  call_on (add state t on_trigger) s = add_state dec state t on_trigger s
  call_on (move d) s = ret (move_line d s)
  call_on (add_trigger state on_trigger) s = add_trigger_to_state dec state on_trigger s

  unfoldable pub run : List (Call State T) → StateLine State T → Go (StateLine State T)
  unfolding call_on
  run [] s = ret s
  run (c ∷ cs) s = call_on c s >>= λ s'. run cs s'

  -- What the calls do to the list of entries.
  abbrev pub act : Call State T → List (Entry State T) → List (Entry State T)
  act (add state t on_trigger) es =
      enter_entry dec (record { state = state; point = t; triggers = on_trigger }) es
  act (move d) es = shift d es
  act (add_trigger state on_trigger) es = attach dec state on_trigger es

  abbrev pub acts : List (Call State T) → List (Entry State T) → List (Entry State T)
  acts [] es = es
  acts (c ∷ cs) es = acts cs (act c es)

  abbrev pub first_entry : State → List (Entry State T)
  first_entry zero_state = record { state = zero_state; point = pos 0; triggers = [] } ∷ []

  move-line_of :
      (d : ℤ) (es : List (Entry State T)) → move_line d (line_of es) ≡ line_of (shift d es)
  unfolding move_line
  move-line_of d [] = refl
  move-line_of d (e ∷ es) =
      ap
        (λ (s : StateLine State T). record {
          states = e.state ∷ s.states;
          points = (e.point +ℤ d) ∷ s.points;
          trigger = e.triggers ∷ s.trigger;
        })
        (move-line_of d es)

  call-line_of :
      (c : Call State T) (es : List (Entry State T))
      → call_on c (line_of es) ≡ ret (line_of (act c es))
  unfolding call_on
  call-line_of (add state t on_trigger) es =
      add_state-line_of dec (record { state = state; point = t; triggers = on_trigger }) es
  call-line_of (move d) es = ap ret (move-line_of d es)
  call-line_of (add_trigger state on_trigger) es = add_trigger-line_of dec state on_trigger es

  run-line_of :
      (cs : List (Call State T)) (es : List (Entry State T))
      → run cs (line_of es) ≡ ret (line_of (acts cs es))
  unfolding run
  run-line_of [] es = refl
  run-line_of (c ∷ cs) es =
      ap (λ r. r >>= λ s'. run cs s') (call-line_of c es) ∙ run-line_of cs (act c es)

  -- The calls on a new line return, and leave the entries that they make of its first one.
  pub run_entries :
      (cs : List (Call State T)) (zero_state : State)
      → run cs (new_state_line zero_state) ≡ ret (line_of (acts cs (first_entry zero_state)))
  unfolding new_state_line
  run_entries cs zero_state = run-line_of cs (first_entry zero_state)
