-- ===== src/Dispatcher/Expel.antt =====
-- server/internal/dispatcher/dispatcher.go: `Expel` after the channel `abort` is closed.
use minotaur.Base.{
  List, [], ◌∷◌, Bool, true, false, Option, some, none, Go, ret, panic, ◌>>=◌, ◌≡◌, refl, sym, ap,
  subst, ◌∙◌, Bool-cases, inl, inr,
}
use minotaur.Base.Int.{ℤ}
use minotaur.Dispatcher.{
  Act, Dispatcher, leb_zero, no_lock_expel, no_lock_un_expel, close_abort, write_message, put_count,
  add_counts, count_of, close_buffer, incr_count, set_producer_done_handler, set_closed_handler,
}
use minotaur.Dispatcher.Steps.{
  Worker, unstarted, selecting, handling, stopped, System, Event, starts, counts, writes, takes,
  settles, aborts, expels, un_expels, increments, sets_done, sets_closed, pick, write_picked,
  take_message, take_abort, settled, settle, step, run, finish,
}
use minotaur.Dispatcher.Account.{expel-cases}
use minotaur.Dispatcher.Count.{Verdict, tested, settle_count-Verdict}
use minotaur.Dispatcher.Evicting.{run_handler-closed, call_done-closed}

module _ {P M : Type 0} (dec : Discrete P) (get_producer : M → P) where
  incr_count-closed :
      (p : P) (i : ℤ) (d : Dispatcher P M) → d.abort ≡ true → (incr_count dec p i d).abort ≡ true
  unfolding incr_count add_counts
  incr_count-closed p i d a = elim (Bool-cases (leb_zero (add_counts dec p i d).mc)) [
    | inl z ↦ rw (incr_count, z) (call_done-closed dec p _ (add_counts dec p i d) a)
    | inr z ↦ rw (incr_count, z) a
  ]

  handler-closed :
      (p : P) (o : Option (List Act)) (d : Dispatcher P M)
      → d.abort ≡ true
      → (set_producer_done_handler dec p o d).abort ≡ true
  unfolding set_producer_done_handler
  handler-closed p none d a = a
  handler-closed p (some acts) d a = elim (Bool-cases (leb_zero (count_of dec p d))) [
    | inl z ↦ rw (set_producer_done_handler, z) (run_handler-closed acts _ a)
    | inr z ↦ rw (set_producer_done_handler, z) a
  ]

  write-closed :
      (o : Option (M × List M)) (s : System P M)
      → s.d.abort ≡ true
      → (write_picked o s).d.abort ≡ true
  unfolding write_picked write_message
  write-closed none s a = a
  write-closed (some (m, ms)) s a = elim (Bool-cases s.d.closed) [
    | inl c ↦ rw (write_picked, write_message, c) a
    | inr c ↦ rw (write_picked, write_message, c) a
  ]

  take-closed :
      (w : Worker M) (ms : List M) (s : System P M)
      → s.d.abort ≡ true
      → (take_message w ms s).d.abort ≡ true
  unfolding take_message
  take-closed selecting (m ∷ ms) s a = a
  take-closed selecting [] s a = a
  take-closed unstarted ms s a = a
  take-closed (handling m) ms s a = a
  take-closed stopped ms s a = a

  abort-closed :
      (w : Worker M) (b : Bool) (s : System P M)
      → s.d.abort ≡ true
      → (take_abort w b s).d.abort ≡ true
  unfolding take_abort close_buffer finish
  abort-closed selecting true s a = a
  abort-closed selecting false s a = a
  abort-closed unstarted b s a = a
  abort-closed (handling m) b s a = a
  abort-closed stopped b s a = a

  settled-closed :
      (m : M) (s : System P M) (r : Bool × Dispatcher P M)
      → (tested dec get_producer (get_producer m) s.d).abort ≡ true
      → Verdict dec get_producer (tested dec get_producer (get_producer m) s.d) r
      → (settled r s).d.abort ≡ true
  unfolding settled finish close_buffer
  settled-closed m s r a (inl (_, _, e)) = rw e a
  settled-closed m s r a (inr (_, e)) = rw e a

  settle-closed :
      (w : Worker M) (s : System P M)
      → s.d.abort ≡ true
      → (settle dec get_producer w s).d.abort ≡ true
  unfolding settle add_counts
  settle-closed unstarted s a = a
  settle-closed selecting s a = a
  settle-closed stopped s a = a
  settle-closed (handling m) s a =
      settled-closed m s _ (call_done-closed dec (get_producer m) _ _ a)
        (settle_count-Verdict dec get_producer (get_producer m) s.d)

  -- The channel is closed after a call that returns.
  abbrev Closes : Go (System P M) → Type 0
  Closes (ret s) = s.d.abort ≡ true
  Closes panic = Unit {0}

  expel-closed :
      (s : System P M)
      → s.d.abort ≡ true
      → Closes (no_lock_expel s.d >>= λ d. ret (record s { d = d }))
  expel-closed s a = elim (expel-cases s.d) [
    | inl e ↦ rw e tt
    | inr (inl e) ↦ rw e a
    | inr (inr e) ↦ rw e refl
  ]

  step-closed :
      (s : System P M) (e : Event P M) → s.d.abort ≡ true → Closes (step dec get_producer s e)
  unfolding step put_count add_counts no_lock_un_expel set_closed_handler
  step-closed s starts a = a
  step-closed s (counts m) a = a
  step-closed s (writes n) a = write-closed (pick n s.writing) s a
  step-closed s takes a = take-closed s.worker s.d.buf s a
  step-closed s settles a = settle-closed s.worker s a
  step-closed s aborts a = abort-closed s.worker s.d.abort s a
  step-closed s expels a = expel-closed s a
  step-closed s un_expels a = a
  step-closed s (increments p i) a = incr_count-closed p i s.d a
  step-closed s (sets_done p acts) a = handler-closed p acts s.d a
  step-closed s sets_closed a = a

  run-closed :
      (es : List (Event P M)) (s : System P M)
      → s.d.abort ≡ true
      → Closes (run dec get_producer s es)
  unfolding run
  run-closed [] s a = a
  run-closed (e ∷ es) s a = onward (run-closed es) (step dec get_producer s e) (step-closed s e a)
    where
      onward :
          ((s' : System P M) → s'.d.abort ≡ true → Closes (run dec get_producer s' es))
          → (r : Go (System P M)) → Closes r
          → Closes (r >>= λ s'. run dec get_producer s' es)
      onward again (ret s') a' = again s' a'
      onward again panic a' = tt

  expel_idle :
      (d : Dispatcher P M)
      → leb_zero d.mc ≡ true
      → d.abort ≡ false
      → no_lock_expel d ≡ ret (record d { expel = true; abort = true })
  unfolding no_lock_expel close_abort
  expel_idle d z a = rw (z, a) refl

  expel_again :
      (d : Dispatcher P M) → leb_zero d.mc ≡ true → d.abort ≡ true → no_lock_expel d ≡ panic
  unfolding no_lock_expel close_abort
  expel_again d z a = rw (z, a) refl

  -- Once `Expel` has been called with nothing counted, every later call of it that finds nothing
  -- counted panics, whatever is called in between, `UnExpel` included.
  pub expel_twice :
      (es : List (Event P M)) (s s' : System P M)
      → leb_zero s.d.mc ≡ true
      → s.d.abort ≡ false
      → run dec get_producer s (expels ∷ es) ≡ ret s'
      → leb_zero s'.d.mc ≡ true
      → step dec get_producer s' expels ≡ panic
  unfolding run step
  expel_twice es s s' z a e z' =
      ap (λ (r : Go (Dispatcher P M)). r >>= (λ d. ret (record s' { d = d })))
        (expel_again s'.d z' (subst Closes (sym first ∙ e) after))
    where
      closed_by_first : System P M
      closed_by_first = record s { d = record (s.d) { expel = true; abort = true } }

      first : run dec get_producer s (expels ∷ es) ≡ run dec get_producer closed_by_first es
      first =
          ap
            (λ (r : Go (Dispatcher P M)).
              r >>= (λ d. ret (record s { d = d })) >>= λ s'. run dec get_producer s' es)
            (expel_idle s.d z a)

      after : Closes (run dec get_producer closed_by_first es)
      after = run-closed es closed_by_first refl
