-- ===== src/Nexus/Late.antt =====
-- toolkit/nexus/queues/non_blocking_rw.go: what is written to a queue that Run has left.
use minotaur.Base.{
  List, [], ◌∷◌, ◌++◌, Bool, true, false, Option, some, none, ◌≡◌, refl, sym, ap, subst, ◌∙◌,
  append_assoc, append-nil, Go, ret, panic, ◌>>=◌, if◌then◌else◌,
}
use minotaur.Dispatcher.Steps.{pick}
use minotaur.Nexus.{
  QueueStatus, unrun, running, closing, closed, ended, Closer, quiet, marked, made, blocked, Queue,
  wake, is_free, publish_check, run_step, close_mark, close_step, receive,
}
use minotaur.Nexus.Publish.{
  Kind, synchronous, asynchronous, put_locked, put_picked, publish_put, increment_locked,
  increment_custom_message_count, on_processed, finish_locked, finish_picked, finish_exec,
  process_picked, process_exec, Event, checks, puts_nth, runs, closes, receives, processes,
  finishes, increments, step, run,
}

module _ {T E : Type 0} where
  -- Run has returned, `gone` is what was received or is still in the channel, and `buf` is the front
  -- of the buffer.
  pub record IsLeft (gone buf : List (T × E)) (q : Queue T E) : Type 0 where
    pub over : q.runner ≡ ended
    pub through : q.taken ++ q.chan ≡ gone
    pub stays : (more : List (T × E)) × (q.buf ≡ buf ++ more)

  abbrev After : List (T × E) → List (T × E) → Go (Queue T E) → Type 0
  After gone buf (ret q) = IsLeft gone buf q
  After gone buf panic = Unit {0}

module _ {T E : Type 0} (dec : Discrete T) (kind : E → Kind) (gone buf : List (T × E)) where
  -- The other fields have no part in it.
  same-IsLeft :
      (q q' : Queue T E)
      → q'.runner ≡ wake q.runner
      → q'.taken ++ q'.chan ≡ q.taken ++ q.chan
      → q'.buf ≡ q.buf
      → IsLeft gone buf q
      → IsLeft gone buf q'
  unfolding wake
  same-IsLeft q q' a b c h = record {
    over = a ∙ ap wake h.over;
    through = b ∙ h.through;
    stays = let (more, e) = h.stays in (more, c ∙ e);
  }

  -- A call that moves neither Run nor a message.
  still-IsLeft :
      (q q' : Queue T E)
      → q'.runner ≡ q.runner
      → q'.taken ++ q'.chan ≡ q.taken ++ q.chan
      → q'.buf ≡ q.buf
      → IsLeft gone buf q
      → IsLeft gone buf q'
  still-IsLeft q q' a b c h = record {
    over = a ∙ h.over;
    through = b ∙ h.through;
    stays = let (more, e) = h.stays in (more, c ∙ e);
  }

  check-IsLeft :
      (s : QueueStatus) (m : T × E) (q : Queue T E)
      → IsLeft gone buf q
      → IsLeft gone buf (publish_check s m q)
  unfolding publish_check
  check-IsLeft unrun m q h = still-IsLeft q _ refl refl refl h
  check-IsLeft running m q h = still-IsLeft q _ refl refl refl h
  check-IsLeft closing m q h = still-IsLeft q _ refl refl refl h
  check-IsLeft closed m q h = h

  put-IsLeft :
      (o : Option ((T × E) × List (T × E))) (q : Queue T E)
      → IsLeft gone buf q
      → IsLeft gone buf (put_picked dec o q)
  unfolding put_picked put_locked wake
  put-IsLeft none q h = h
  put-IsLeft (some (m, passed)) q h = record {
    over = ap wake h.over;
    through = h.through;
    stays =
        let (more, e) = h.stays in
        (more ++ m ∷ [], ap (λ b. b ++ m ∷ []) e ∙ append_assoc buf more (m ∷ []));
  }

  receive-IsLeft :
      (ms : List (T × E)) (q : Queue T E)
      → q.chan ≡ ms
      → IsLeft gone buf q
      → IsLeft gone buf (receive ms q)
  unfolding receive
  receive-IsLeft [] q e h = h
  receive-IsLeft (m ∷ ms) q e h =
      still-IsLeft q _ refl (append_assoc q.taken (m ∷ []) ms ∙ ap (◌++◌ q.taken) (sym e)) refl h

  process-IsLeft :
      (o : Option ((T × E) × List (T × E))) (q : Queue T E)
      → IsLeft gone buf q
      → IsLeft gone buf (process_picked dec kind o q)
  unfolding process_picked
  process-IsLeft none q h = h
  process-IsLeft (some (m, ms)) q h = called (kind m.1)
    where
      called :
          (k : Kind)
          → IsLeft gone buf (
              on_processed dec k m.0
                (record q { executing = ms; processed = q.processed ++ m ∷ [] }))
      called synchronous = still-IsLeft q _ refl refl refl h
      called asynchronous = same-IsLeft q _ refl refl refl h

  finish_exec-IsLeft :
      (o : Option ((T × E) × List (T × E))) (q : Queue T E)
      → IsLeft gone buf q
      → IsLeft gone buf (finish_picked dec o q)
  unfolding finish_picked finish_locked
  finish_exec-IsLeft none q h = h
  finish_exec-IsLeft (some (m, ms)) q h = same-IsLeft q _ refl refl refl h

  mark-IsLeft :
      (s : QueueStatus) (q : Queue T E) → IsLeft gone buf q → IsLeft gone buf (close_mark s q)
  unfolding close_mark
  mark-IsLeft unrun q h = h
  mark-IsLeft running q h = still-IsLeft q _ refl refl refl h
  mark-IsLeft closing q h = h
  mark-IsLeft closed q h = h

  close-IsLeft : (c : Closer) (q : Queue T E) → IsLeft gone buf q → IsLeft gone buf (close_step c q)
  unfolding close_step
  close-IsLeft quiet q h = mark-IsLeft q.status q h
  close-IsLeft marked q h = still-IsLeft q _ refl refl refl h
  close-IsLeft made q h = same-IsLeft q _ refl refl refl h
  close-IsLeft blocked q h = h

  when_free :
      (b : Bool) (q q' : Queue T E)
      → IsLeft gone buf q
      → IsLeft gone buf q'
      → IsLeft gone buf (if b then q' else q)
  when_free true q q' h k = k
  when_free false q q' h k = h

  step-IsLeft :
      (e : Event T E) (q : Queue T E) → IsLeft gone buf q → After gone buf (step dec kind e q)
  unfolding step run_step publish_put process_exec finish_exec increment_custom_message_count
      increment_locked
  step-IsLeft (checks m) q h = check-IsLeft q.status m q h
  step-IsLeft (puts_nth n) q h =
      when_free (is_free q.runner) q _ h (put-IsLeft (pick n q.passed) q h)
  step-IsLeft runs q h = subst (λ r. After gone buf (run_step r q)) (sym h.over) h
  step-IsLeft closes q h = close-IsLeft q.closer q h
  step-IsLeft receives q h = receive-IsLeft q.chan q refl h
  step-IsLeft (processes n) q h =
      when_free (is_free q.runner) q _ h (process-IsLeft (pick n q.executing) q h)
  step-IsLeft (finishes n) q h =
      when_free (is_free q.runner) q _ h (finish_exec-IsLeft (pick n q.processed) q h)
  step-IsLeft (increments topic delta) q h =
      when_free (is_free q.runner) q _ h
        (same-IsLeft q (increment_locked dec topic delta q) refl refl refl h)

  onward :
      (es : List (Event T E)) (r : Go (Queue T E))
      → After gone buf r
      → ((q : Queue T E) → IsLeft gone buf q → After gone buf (run dec kind es q))
      → After gone buf (r >>= λ q. run dec kind es q)
  onward es (ret q) h again = again q h
  onward es panic h again = tt

  run_left :
      (es : List (Event T E)) (q : Queue T E)
      → IsLeft gone buf q
      → After gone buf (run dec kind es q)
  unfolding run
  run_left [] q h = h
  run_left (e ∷ es) q h = onward es (step dec kind e q) (step-IsLeft e q h) (run_left es)

module _ {T E : Type 0} (dec : Discrete T) (kind : E → Kind) where
  -- After Run has returned, whatever happens, nothing is received but what was in the channel, and
  -- what is in the buffer or is written to it stays there.
  pub late_put_stays :
      (es : List (Event T E)) (q q' : Queue T E)
      → q.runner ≡ ended
      → run dec kind es q ≡ ret q'
      → (q'.taken ++ q'.chan ≡ q.taken ++ q.chan)
        × ((more : List (T × E)) × (q'.buf ≡ q.buf ++ more))
  late_put_stays es q q' over later =
      let l : IsLeft (q.taken ++ q.chan) q.buf q' = subst (After (q.taken ++ q.chan) q.buf) later (
        run_left dec kind (q.taken ++ q.chan) q.buf es q
          (record { over = over; through = refl; stays = ([], sym (append-nil q.buf)) })) in
      (l.through, l.stays)
