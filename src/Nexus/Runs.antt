-- ===== src/Nexus/Runs.antt =====
-- toolkit/nexus/queues/non_blocking_rw.go: the steps of Run and Close keep what is under way.
use minotaur.Base.{
  List, [], ◌∷◌, ◌++◌, Bool, true, false, ◌&&◌, length, ◌≡◌, refl, sym, ap, ap₂, subst, ◌∙◌, arith,
  length-append, append_assoc, append-nil, Go, ret, panic, ◌>>=◌, Bool-cases, inl, inr,
  if◌then◌else◌,
}
use minotaur.Dispatcher.Steps.{pick}
use minotaur.Nexus.{
  QueueStatus, unrun, running, closing, closed, Runner, idle, looking, settling, waiting, sending,
  leaving, ended, Closer, quiet, marked, made, blocked, Queue, wake, is_free, is_zero, is_closing,
  new_queue, run_start, look_at_buf, send_next, leave_run, run_step, close_mark, close_step,
}
use minotaur.Nexus.Publish.{
  Kind, publish_put, increment_custom_message_count, finish_exec, process_exec, Event, checks,
  puts_nth, runs, closes, receives, processes, finishes, increments, step, run,
}
use minotaur.Nexus.Topics.{count, count-append, pick-Makes}
use minotaur.Nexus.Flow.{
  Held, wake-Held, IsFlowing, new-IsFlowing, check-IsFlowing, put-IsFlowing, increment-IsFlowing,
  finish_exec-IsFlowing, receive-IsFlowing, process-IsFlowing,
}

module _ {T E : Type 0} (dec : Discrete T) where
  -- What holds after a call that returns.
  abbrev pub After : Go (Queue T E) → Type 0
  After (ret q) = IsFlowing dec q
  After panic = Unit {0}

  -- A place of Run or Close that changes nothing else.
  moved :
      (r : Runner) (c : Closer) (s : QueueStatus) (q : Queue T E)
      → Held r q.items
      → IsFlowing dec q
      → IsFlowing dec (record q { status = s; runner = r; closer = c })
  moved r c s q i h = record {
    counted = h.counted;
    tallied = h.tallied;
    ordered = h.ordered;
    held = i;
  }

  start-After :
      (s : QueueStatus) (q : Queue T E) → q.items ≡ [] → IsFlowing dec q → After (run_start s q)
  unfolding run_start
  start-After unrun q e h = moved looking q.closer running q e h
  start-After running q e h = tt
  start-After closing q e h = tt
  start-After closed q e h = tt

  look-IsFlowing :
      (ms : List (T × E)) (q : Queue T E)
      → q.buf ≡ ms
      → q.items ≡ []
      → IsFlowing dec q
      → IsFlowing dec (look_at_buf ms q)
  unfolding look_at_buf
  look-IsFlowing [] q e i h = elim (Bool-cases (is_closing q.status && is_zero q.total)) [
    | inl c ↦ rw c (moved leaving q.closer q.status q i h)
    | inr c ↦ rw c (moved settling q.closer q.status q i h)
  ]
  look-IsFlowing (m ∷ ms) q e i h = record {
    counted = let c = h.counted in omega (arith, ap length e, ap length i);
    tallied = λ t. let c = h.tallied t in omega (arith, ap (count dec t) e, ap (count dec t) i);
    ordered =
        h.ordered
        ∙ ap₂ (λ is bs. q.taken ++ (q.chan ++ (is ++ bs))) i e
        ∙ ap (λ ns. q.taken ++ (q.chan ++ ns)) (sym (append-nil (m ∷ ms)));
    held = tt;
  }

  send-IsFlowing :
      (ms : List (T × E)) (q : Queue T E)
      → q.items ≡ ms
      → q.runner ≡ sending
      → IsFlowing dec q
      → IsFlowing dec (send_next ms q)
  unfolding send_next
  send-IsFlowing [] q e r h = moved looking q.closer q.status q e h
  send-IsFlowing (m ∷ ms) q e r h = record {
    counted = let c = h.counted in omega (arith, ap length e, length-append q.chan (m ∷ []));
    tallied = λ t.
        let c = h.tallied t in
        omega (arith, ap (count dec t) e, count-append dec t q.chan (m ∷ []));
    ordered =
        h.ordered
        ∙ ap (λ is. q.taken ++ (q.chan ++ (is ++ q.buf))) e
        ∙ ap (◌++◌ q.taken) (sym (append_assoc q.chan (m ∷ []) (ms ++ q.buf)));
    held = subst (λ r. Held r ms) (sym r) tt;
  }

  leave-After :
      (c : Closer) (q : Queue T E) → q.items ≡ [] → IsFlowing dec q → After (leave_run c q)
  unfolding leave_run
  leave-After quiet q e h = tt
  leave-After marked q e h = tt
  leave-After made q e h = moved ended q.closer closed q e h
  leave-After blocked q e h = moved ended q.closer closed q e h

  run_step-After :
      (r : Runner) (q : Queue T E) → q.runner ≡ r → IsFlowing dec q → After (run_step r q)
  unfolding run_step
  run_step-After idle q e h = start-After q.status q (subst (λ r. Held r q.items) e h.held) h
  run_step-After looking q e h =
      look-IsFlowing q.buf q refl (subst (λ r. Held r q.items) e h.held) h
  run_step-After settling q e h =
      moved waiting q.closer q.status q (subst (λ r. Held r q.items) e h.held) h
  run_step-After waiting q e h = h
  run_step-After sending q e h = send-IsFlowing q.items q refl e h
  run_step-After leaving q e h = leave-After q.closer q (subst (λ r. Held r q.items) e h.held) h
  run_step-After ended q e h = h

  mark-IsFlowing :
      (s : QueueStatus) (q : Queue T E) → IsFlowing dec q → IsFlowing dec (close_mark s q)
  unfolding close_mark
  mark-IsFlowing unrun q h = h
  mark-IsFlowing running q h = moved q.runner marked closing q h.held h
  mark-IsFlowing closing q h = h
  mark-IsFlowing closed q h = h

  close-IsFlowing : (c : Closer) (q : Queue T E) → IsFlowing dec q → IsFlowing dec (close_step c q)
  unfolding close_step
  close-IsFlowing quiet q h = mark-IsFlowing q.status q h
  close-IsFlowing marked q h = moved q.runner made q.status q h.held h
  close-IsFlowing made q h =
      moved (wake q.runner) blocked q.status q (wake-Held q.runner q.items h.held) h
  close-IsFlowing blocked q h = h

  -- A call that needs the lock.
  when_free :
      (b : Bool) (q q' : Queue T E)
      → IsFlowing dec q
      → IsFlowing dec q'
      → IsFlowing dec (if b then q' else q)
  when_free true q q' h k = k
  when_free false q q' h k = h

module _ {T E : Type 0} (dec : Discrete T) (kind : E → Kind) where
  step-After : (e : Event T E) (q : Queue T E) → IsFlowing dec q → After dec (step dec kind e q)
  unfolding step publish_put process_exec finish_exec increment_custom_message_count
  step-After (checks m) q h = check-IsFlowing dec q.status m q h
  step-After (puts_nth n) q h =
      when_free dec (is_free q.runner) q _ h (put-IsFlowing dec (pick n q.passed) q h)
  step-After runs q h = run_step-After dec q.runner q refl h
  step-After closes q h = close-IsFlowing dec q.closer q h
  step-After receives q h = receive-IsFlowing dec q.chan q refl h
  step-After (processes n) q h =
      when_free dec (is_free q.runner) q _ h
        (process-IsFlowing dec kind (pick n q.executing) q (λ t. pick-Makes dec t n q.executing) h)
  step-After (finishes n) q h =
      when_free dec (is_free q.runner) q _ h
        (finish_exec-IsFlowing dec (pick n q.processed) q (λ t. pick-Makes dec t n q.processed) h)
  step-After (increments topic delta) q h =
      when_free dec (is_free q.runner) q _ h (increment-IsFlowing dec topic delta q h)

  onward :
      (es : List (Event T E)) (r : Go (Queue T E))
      → After dec r
      → ((q : Queue T E) → IsFlowing dec q → After dec (run dec kind es q))
      → After dec (r >>= λ q. run dec kind es q)
  onward es (ret q) h again = again q h
  onward es panic h again = tt

  run-After :
      (es : List (Event T E)) (q : Queue T E) → IsFlowing dec q → After dec (run dec kind es q)
  unfolding run
  run-After [] q h = h
  run-After (e ∷ es) q h = onward es (step dec kind e q) (step-After e q h) (run-After es)

  -- Whatever happens to a new queue, where nothing has panicked, each count, in all and of a topic, is
  -- the number of the messages that were written and not yet taken off it, with what was added by
  -- IncrementCustomMessageCount and without what was taken off by it, OnProcessed included; and the
  -- messages are received in the order in which they were written to the buffer.
  pub run-IsFlowing :
      (es : List (Event T E)) (q : Queue T E) → run dec kind es new_queue ≡ ret q → IsFlowing dec q
  run-IsFlowing es q e = subst (After dec) e (run-After es new_queue (new-IsFlowing dec))
