-- ===== src/StateLine/Line.antt =====
-- utils/chrono/state_line.go: the order of the times, and the states that are all different.
use minotaur.Base.{suc, ◌<◌, List, [], ◌∷◌, length, ret, ◌≡◌, refl, ap, arith, Bool-cases, inl, inr}
use minotaur.Base.Int.{ℤ}
use minotaur.Collection.Loops.{any_of}
use minotaur.StateLine.{new_state_line}
use minotaur.StateLine.Entries.{Entry, attach, line_of, insert, shift, has, enter_entry}
use minotaur.StateLine.Runs.{Call, add, move, add_trigger, run, act, acts, first_entry, run_entries}
use minotaur.StateLine.Sorted.{IsSorted, insert-IsSorted, shift-IsSorted, attach-IsSorted}
use minotaur.StateLine.Distinct.{
  AreDistinct, insert-AreDistinct, shift-AreDistinct, attach-AreDistinct,
}

module _ {State T : Type 0} (dec : Discrete State) where
  -- The entries of a line.
  pub record IsLine (es : List (Entry State T)) : Type 0 where
    pub sorted : IsSorted es
    pub distinct : AreDistinct dec es
    pub held : 0 < length es

  length-insert : (e : Entry State T) (es : List (Entry State T)) → 0 < length (insert e es)
  length-insert e [] = omega arith
  length-insert e (x ∷ es) = ground arith

  length-shift : (d : ℤ) (es : List (Entry State T)) → length (shift d es) ≡ length es
  length-shift d [] = refl
  length-shift d (e ∷ es) = ap suc (length-shift d es)

  length-attach :
      (state : State) (on_trigger : List T) (es : List (Entry State T))
      → length (attach dec state on_trigger es) ≡ length es
  length-attach state on_trigger [] = refl
  length-attach state on_trigger (e ∷ es) = ground (arith, length-attach state on_trigger es)

  enter_entry-IsLine :
      (e : Entry State T) (es : List (Entry State T)) → IsLine es → IsLine (enter_entry dec e es)
  enter_entry-IsLine e es h = elim (Bool-cases (has dec e.state es)) [
    | inl q ↦ rw q h
    | inr q ↦ rw q (record {
      sorted = insert-IsSorted e es h.sorted;
      distinct = insert-AreDistinct dec e es q h.distinct;
      held = length-insert e es;
    })
  ]

  act-IsLine : (c : Call State T) (es : List (Entry State T)) → IsLine es → IsLine (act dec c es)
  act-IsLine (add state t on_trigger) es h =
      enter_entry-IsLine (record { state = state; point = t; triggers = on_trigger }) es h
  act-IsLine (move d) es h = record {
    sorted = shift-IsSorted d es h.sorted;
    distinct = shift-AreDistinct dec d es h.distinct;
    held = let k = h.held in omega (arith, length-shift d es);
  }
  act-IsLine (add_trigger state on_trigger) es h = record {
    sorted = attach-IsSorted dec state on_trigger es h.sorted;
    distinct = attach-AreDistinct dec state on_trigger es h.distinct;
    held = let k = h.held in omega (arith, length-attach state on_trigger es);
  }

  acts-IsLine :
      (cs : List (Call State T)) (es : List (Entry State T)) → IsLine es → IsLine (acts dec cs es)
  acts-IsLine [] es h = h
  acts-IsLine (c ∷ cs) es h = acts-IsLine cs (act dec c es) (act-IsLine c es h)

  -- Whatever is called on a new line returns, and leaves a line whose entries are those that the
  -- calls make of the first one, in the order of their times, with different states, and not none.
  pub run-IsLine :
      (cs : List (Call State T)) (zero_state : State)
      → (run dec cs (new_state_line zero_state)
          ≡ ret (line_of (acts dec cs (first_entry dec zero_state))))
        × IsLine (acts dec cs (first_entry dec zero_state))
  unfolding any_of
  run-IsLine cs zero_state = (
    run_entries dec cs zero_state,
    acts-IsLine cs (first_entry dec zero_state)
        (record { sorted = (tt, tt); distinct = (refl, tt); held = omega arith }),
  )
