-- ===== src/Dispatcher/Steps.antt =====
-- server/internal/dispatcher/dispatcher.go: the steps of the goroutines that use a dispatcher. One
-- that cannot happen leaves the state as it is.
use minotaur.Base.{
  ℕ, zero, suc, List, [], ◌∷◌, ◌++◌, Bool, true, false, Option, some, none, Go, ret, ◌>>=◌,
}
use minotaur.Base.Int.{ℤ}
use minotaur.Dispatcher.{
  Act, Dispatcher, new_dispatcher, no_lock_expel, no_lock_un_expel, set_closed_handler,
  write_message, close_buffer, set_producer_done_handler, incr_count, put_count, settle_count,
}

-- Where the goroutine of `Start` is.
pub data Worker (M : Type 0) : Type 0 where
  unstarted : Worker M
  selecting : Worker M
  handling : M → Worker M
  stopped : Worker M

-- `writing` are the messages of the calls of `Put` that have counted and not yet written. `handled`
-- are the messages that the handler has been called with, and `told` whether the closed handler has.
pub record System (P M : Type 0) : Type 0 where
  pub d : Dispatcher P M
  pub writing : List M
  pub worker : Worker M
  pub handled : List M
  pub told : Bool

pub data Event (P M : Type 0) : Type 0 where
  starts : Event P M
  counts : M → Event P M
  writes : ℕ → Event P M
  takes : Event P M
  settles : Event P M
  aborts : Event P M
  expels : Event P M
  un_expels : Event P M
  increments : P → ℤ → Event P M
  sets_done : P → Option (List Act) → Event P M
  sets_closed : Event P M

module _ {M : Type 0} where
  -- The n-th of the messages, and the others.
  unfoldable pub pick : ℕ → List M → Option (M × List M)
  pick n [] = none
  pick zero (m ∷ ms) = some (m, ms)
  pick (suc n) (m ∷ ms) = elim (pick n ms) [ some p ↦ some (p.0, m ∷ p.1) | none ↦ none ]

  -- The first call of `Start`. Each further one makes another goroutine, which is not modelled: what is
  -- said of runs with calls of `Start` is said of those with one at most.
  unfoldable pub start : Worker M → Worker M
  start unstarted = selecting
  start selecting = selecting
  start (handling m) = handling m
  start stopped = stopped

module _ {P M : Type 0} where
  unfoldable pub new_system : System P M
  unfolding new_dispatcher
  new_system = record {
    d = new_dispatcher;
    writing = [];
    worker = unstarted;
    handled = [];
    told = false;
  }

  -- The end of the goroutine, which calls the closed handler.
  unfoldable pub finish : System P M → System P M
  finish s = record s { worker = stopped; told = s.d.closed_handler }

  unfoldable pub write_picked : Option (M × List M) → System P M → System P M
  unfolding write_message
  write_picked none s = s
  write_picked (some p) s = record s { d = write_message p.0 s.d; writing = p.1 }

  -- `message := <-d.buf.Read()` and the call of the handler
  unfoldable pub take_message : Worker M → List M → System P M → System P M
  take_message selecting (m ∷ ms) s = record s {
    d = record (s.d) { buf = ms };
    worker = handling m;
    handled = s.handled ++ m ∷ [];
  }
  take_message selecting [] s = s
  take_message unstarted ms s = s
  take_message (handling m) ms s = s
  take_message stopped ms s = s

  -- `<-d.abort`, and the close of the buffer, which in the code may wait until the goroutine of the
  -- buffer has handed a value over: the wait and the close are one step.
  unfoldable pub take_abort : Worker M → Bool → System P M → System P M
  unfolding close_buffer finish
  take_abort selecting true s = finish (record s { d = close_buffer s.d })
  take_abort selecting false s = s
  take_abort unstarted b s = s
  take_abort (handling m) b s = s
  take_abort stopped b s = s

  unfoldable pub settled : Bool × Dispatcher P M → System P M → System P M
  unfolding finish
  settled (true, d) s = finish (record s { d = d })
  settled (false, d) s = record s { d = d; worker = selecting }

module _ {P M : Type 0} (dec : Discrete P) (get_producer : M → P) where
  unfoldable pub settle : Worker M → System P M → System P M
  unfolding settle_count settled
  settle (handling m) s = settled (settle_count dec (get_producer m) s.d) s
  settle unstarted s = s
  settle selecting s = s
  settle stopped s = s

  unfoldable pub step : System P M → Event P M → Go (System P M)
  unfolding start put_count write_picked take_message take_abort settle no_lock_expel
      no_lock_un_expel incr_count set_producer_done_handler set_closed_handler pick
  step s starts = ret (record s { worker = start s.worker })
  step s (counts m) =
      ret (record s { d = put_count dec (get_producer m) s.d; writing = s.writing ++ m ∷ [] })
  step s (writes n) = ret (write_picked (pick n s.writing) s)
  step s takes = ret (take_message s.worker s.d.buf s)
  step s settles = ret (settle s.worker s)
  step s aborts = ret (take_abort s.worker s.d.abort s)
  step s expels = no_lock_expel s.d >>= λ d. ret (record s { d = d })
  step s un_expels = ret (record s { d = no_lock_un_expel s.d })
  step s (increments p i) = ret (record s { d = incr_count dec p i s.d })
  step s (sets_done p acts) = ret (record s { d = set_producer_done_handler dec p acts s.d })
  step s sets_closed = ret (record s { d = set_closed_handler s.d })

  unfoldable pub run : System P M → List (Event P M) → Go (System P M)
  unfolding step
  run s [] = ret s
  run s (e ∷ es) = do s' ← step s e; run s' es
