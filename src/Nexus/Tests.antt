-- ===== src/Nexus/Tests.antt =====
-- toolkit/nexus/queues/non_blocking_rw.go: runs of a queue.
use native.Mathlib.Decide.{ℕ_discrete}
use minotaur.Base.{ℕ, ◌+◌, List, [], ◌∷◌, ◌++◌, Bool, true, some, Go, ret, panic, ◌≡◌, refl, ◌↔◌}
use minotaur.Base.Int.{pos, ◌+ℤ◌}
use minotaur.Dispatcher.Steps.{pick}
use minotaur.Nexus.{ended, Queue, is_free, is_zero, new_queue}
use minotaur.Nexus.Publish.{
  Kind, synchronous, finish_exec, Event, checks, puts_nth, runs, closes, receives, processes, run,
}
use minotaur.Nexus.Topics.{raised_of, lowered_of}
use minotaur.Nexus.Flow.{IsFlowing}
use minotaur.Nexus.Runs.{run-IsFlowing}
use minotaur.Nexus.Last.{left_of, finish_told}
use minotaur.Nexus.Late.{late_put_stays}
use minotaur.Nexus.Races.{at_rest, close_too_early, asleep, close_unheard}

abbrev all_synchronous : ℕ → Kind
all_synchronous e = synchronous

abbrev Steps : Type 0
Steps = List (Event ℕ ℕ)

-- What a run that returns leaves.
abbrev left : Go (Queue ℕ ℕ) → Queue ℕ ℕ
left (ret q) = q
left panic = new_queue

-- Two messages of the topic 1 are written, and the first is received.
abbrev two_messages : Steps
two_messages =
    runs
    ∷ checks (1, 10)
    ∷ checks (1, 11)
    ∷ puts_nth 0
    ∷ puts_nth 0
    ∷ runs
    ∷ runs
    ∷ receives
    ∷ processes 0
    ∷ []

two_published :
    run ℕ_discrete all_synchronous two_messages new_queue
    ≡ ret (left (run ℕ_discrete all_synchronous two_messages new_queue))
unfolding run new_queue ℕ_discrete ◌+ℤ◌
two_published = refl

published_total : (left (run ℕ_discrete all_synchronous two_messages new_queue)).total ≡ pos 2
unfolding run new_queue ℕ_discrete ◌+ℤ◌
published_total = refl

run-IsFlowing_example :
    IsFlowing ℕ_discrete (left (run ℕ_discrete all_synchronous two_messages new_queue))
run-IsFlowing_example =
    run-IsFlowing ℕ_discrete all_synchronous two_messages
      (left (run ℕ_discrete all_synchronous two_messages new_queue)) two_published

first_picked :
    pick 0 (left (run ℕ_discrete all_synchronous two_messages new_queue)).processed
    ≡ some ((1, 10), [])
unfolding run new_queue ℕ_discrete pick ◌+ℤ◌
first_picked = refl

published_free :
    is_free (left (run ℕ_discrete all_synchronous two_messages new_queue)).runner ≡ true
unfolding run new_queue ℕ_discrete is_free ◌+ℤ◌
published_free = refl

finish_told_example :
    (last : Bool) × ((finish_exec ℕ_discrete 0
        (left (run ℕ_discrete all_synchronous two_messages new_queue))).told
      ≡ (left (run ℕ_discrete all_synchronous two_messages new_queue)).told ++ (1, last) ∷ [])
    × ((last ≡ true) ↔ (
        left_of ℕ_discrete all_synchronous 1
            (left (run ℕ_discrete all_synchronous two_messages new_queue))
            []
          + raised_of ℕ_discrete 1
              (left (run ℕ_discrete all_synchronous two_messages new_queue)).custom
        ≡ lowered_of ℕ_discrete 1
            (left (run ℕ_discrete all_synchronous two_messages new_queue)).custom))
finish_told_example =
    finish_told ℕ_discrete all_synchronous two_messages
      (left (run ℕ_discrete all_synchronous two_messages new_queue)) 0 (1, 10) [] two_published
      published_free first_picked

-- A call of Publish tests the status, the queue is closed, and Run returns.
abbrev closed_early : Steps
closed_early = runs ∷ checks (1, 10) ∷ closes ∷ closes ∷ closes ∷ runs ∷ runs ∷ []

-- The call goes on.
abbrev written_late : Steps
written_late = puts_nth 0 ∷ runs ∷ receives ∷ closes ∷ []

closed_run :
    run ℕ_discrete all_synchronous closed_early new_queue
    ≡ ret (left (run ℕ_discrete all_synchronous closed_early new_queue))
unfolding run new_queue ℕ_discrete ◌+ℤ◌
closed_run = refl

closed_over : (left (run ℕ_discrete all_synchronous closed_early new_queue)).runner ≡ ended
unfolding run new_queue ℕ_discrete ◌+ℤ◌
closed_over = refl

late_run :
    run ℕ_discrete all_synchronous written_late
      (left (run ℕ_discrete all_synchronous closed_early new_queue))
    ≡ ret (
        left (
          run ℕ_discrete all_synchronous written_late
            (left (run ℕ_discrete all_synchronous closed_early new_queue))))
unfolding run new_queue ℕ_discrete ◌+ℤ◌
late_run = refl

late_lost :
    (left (
      run ℕ_discrete all_synchronous written_late
        (left (run ℕ_discrete all_synchronous closed_early new_queue)))).buf
    ≡ (1, 10) ∷ []
unfolding run new_queue ℕ_discrete ◌+ℤ◌
late_lost = refl

late_put_stays_example :
    ((left (
          run ℕ_discrete all_synchronous written_late
            (left (run ℕ_discrete all_synchronous closed_early new_queue)))).taken
        ++ (left (
            run ℕ_discrete all_synchronous written_late
              (left (run ℕ_discrete all_synchronous closed_early new_queue)))).chan
      ≡ (left (run ℕ_discrete all_synchronous closed_early new_queue)).taken
        ++ (left (run ℕ_discrete all_synchronous closed_early new_queue)).chan)
    × ((more : List (ℕ × ℕ)) × ((left (
            run ℕ_discrete all_synchronous written_late
              (left (run ℕ_discrete all_synchronous closed_early new_queue)))).buf
          ≡ (left (run ℕ_discrete all_synchronous closed_early new_queue)).buf ++ more))
late_put_stays_example =
    late_put_stays ℕ_discrete all_synchronous written_late
      (left (run ℕ_discrete all_synchronous closed_early new_queue))
      (left (
        run ℕ_discrete all_synchronous written_late
          (left (run ℕ_discrete all_synchronous closed_early new_queue))))
      closed_over late_run

close_too_early_example :
    run ℕ_discrete all_synchronous
      (closes ∷ runs ∷ (checks (1, 10) ∷ puts_nth 0 ∷ []) ++ runs ∷ [])
      (at_rest ℕ_discrete all_synchronous new_queue)
    ≡ panic
unfolding is_zero
close_too_early_example =
    close_too_early ℕ_discrete all_synchronous (checks (1, 10) ∷ puts_nth 0 ∷ [])
      (at_rest ℕ_discrete all_synchronous new_queue) tt refl refl refl refl refl

close_unheard_example :
    run ℕ_discrete all_synchronous
      (runs ∷ closes ∷ closes ∷ closes ∷ runs ∷ runs ∷ closes ∷ [])
      (at_rest ℕ_discrete all_synchronous new_queue)
    ≡ ret (asleep ℕ_discrete all_synchronous new_queue)
close_unheard_example = close_unheard ℕ_discrete all_synchronous (runs ∷ closes ∷ []) new_queue tt
