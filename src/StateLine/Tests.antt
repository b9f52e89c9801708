-- ===== src/StateLine/Tests.antt =====
-- utils/chrono/state_line.go: runs of a line.
use native.Mathlib.Decide.{ℕ_discrete}
use minotaur.Base.{ℕ, List, [], ◌∷◌, true, false, ret, ◌≡◌, ◌≢◌, refl, arith, ◌↔◌}
use minotaur.Base.Int.{pos, ◌+ℤ◌}
use minotaur.Collection.Loops.{any_of}
use minotaur.StateLine.{
  StateLine, new_state_line, add_state, get_time_by_state, get_trigger_by_state, get_state_by_time,
  get_next_time_by_state, get_prev_time_by_state, check_line,
}
use minotaur.StateLine.Entries.{Entry, line_of, has}
use minotaur.StateLine.Runs.{Call, add, move, add_trigger, run, acts, first_entry}
use minotaur.StateLine.Line.{IsLine, run-IsLine}
use minotaur.StateLine.ByTime.{ReadsAt, by_time-ReadsAt}
use minotaur.StateLine.ByState.{get_time-add_state}
use minotaur.StateLine.Checks.{Sublist, check_line_iff}

-- An opening at 10, a preview at 5 that is added later, a shift by 1 and a second trigger.
abbrev calls : List (Call ℕ ℕ)
calls =
    add 1 (pos 10) (7 ∷ [])
    ∷ add 2 (pos 5) []
    ∷ add 1 (pos 3) []
    ∷ move (pos 1)
    ∷ add_trigger 1 (8 ∷ [])
    ∷ []

abbrev entries : List (Entry ℕ ℕ)
entries =
    record { state = 0; point = pos 1; triggers = [] }
    ∷ record { state = 2; point = pos 6; triggers = [] }
    ∷ record { state = 1; point = pos 11; triggers = 7 ∷ 8 ∷ [] }
    ∷ []

moved_run : run ℕ_discrete calls (new_state_line 0) ≡ ret (line_of entries)
unfolding run new_state_line ℕ_discrete ◌+ℤ◌
moved_run = refl

state_read : get_state_by_time (pos 7) (line_of entries) ≡ ret 2
unfolding get_state_by_time
state_read = refl

early_read : get_state_by_time (pos 0) (line_of entries) ≡ ret 1
unfolding get_state_by_time
early_read = refl

next_read : get_next_time_by_state ℕ_discrete 2 (line_of entries) ≡ ret (pos 11)
unfolding get_next_time_by_state ℕ_discrete
next_read = refl

last_next_read : get_next_time_by_state ℕ_discrete 1 (line_of entries) ≡ ret (pos 1)
unfolding get_next_time_by_state ℕ_discrete
last_next_read = refl

prev_read : get_prev_time_by_state ℕ_discrete 1 (line_of entries) ≡ ret (pos 6)
unfolding get_prev_time_by_state ℕ_discrete
prev_read = refl

partly_checked : check_line ℕ_discrete true (0 ∷ 2 ∷ []) (line_of entries) ≡ false
unfolding check_line ℕ_discrete
partly_checked = refl

run-IsLine_example :
    (run ℕ_discrete calls (new_state_line 0)
      ≡ ret (line_of (acts ℕ_discrete calls (first_entry ℕ_discrete 0))))
    × IsLine ℕ_discrete (acts ℕ_discrete calls (first_entry ℕ_discrete 0))
run-IsLine_example = run-IsLine ℕ_discrete calls 0

by_time-ReadsAt_example : ReadsAt (pos 7) entries
by_time-ReadsAt_example = by_time-ReadsAt (pos 7) entries (omega arith)

-- A state at a time at which there is a state.
abbrev late : Entry ℕ ℕ
late = record { state = 5; point = pos 6; triggers = 9 ∷ [] }

late_is_new : has ℕ_discrete 5 entries ≡ false
unfolding any_of ℕ_discrete
late_is_new = refl

get_time-add_state_example :
    (s : StateLine ℕ ℕ) × (add_state ℕ_discrete 5 (pos 6) (9 ∷ []) (line_of entries) ≡ ret s)
    × (get_time_by_state ℕ_discrete 5 s ≡ ret (pos 6))
    × (get_trigger_by_state ℕ_discrete 5 s ≡ ret (9 ∷ []))
    × ((x : ℕ)
        → x ≢ 5
        → (get_time_by_state ℕ_discrete x s ≡ get_time_by_state ℕ_discrete x (line_of entries))
          × (get_trigger_by_state ℕ_discrete x s
              ≡ get_trigger_by_state ℕ_discrete x (line_of entries)))
get_time-add_state_example = get_time-add_state ℕ_discrete late entries late_is_new

abbrev stages : List ℕ
stages = 0 ∷ 3 ∷ 2 ∷ 1 ∷ []

check_line_iff_example :
    ((check_line ℕ_discrete false stages (line_of entries) ≡ true) ↔ (0 ∷ 2 ∷ 1 ∷ [] ≡ stages))
    × ((check_line ℕ_discrete true stages (line_of entries) ≡ true)
        ↔ Sublist (0 ∷ 2 ∷ 1 ∷ []) stages)
check_line_iff_example = check_line_iff ℕ_discrete stages (line_of entries)
