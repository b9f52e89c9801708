-- ===== src/Nexus/Races.antt =====
-- toolkit/nexus/queues/non_blocking_rw.go: Close while Run is between two of its steps.
use minotaur.Base.{
  List, [], ◌∷◌, ◌++◌, Bool, true, false, Option, some, none, ◌≡◌, refl, ap, ◌∙◌, ret, panic, ◌>>=◌,
  if◌then◌else◌,
}
use minotaur.Base.Int.{ℤ, pos}
use minotaur.Dispatcher.Steps.{pick}
use minotaur.Nexus.{
  QueueStatus, unrun, running, closing, closed, looking, settling, waiting, leaving, quiet, marked,
  blocked, Queue, wake, is_free, is_zero, is_closing, publish_check, look_at_buf, leave_run,
  run_step, close_mark, close_step, receive,
}
use minotaur.Nexus.Publish.{
  Kind, synchronous, asynchronous, put_locked, put_picked, publish_put, increment_locked,
  increment_custom_message_count, on_processed, finish_locked, finish_picked, finish_exec,
  process_picked, process_exec, Event, checks, puts_nth, runs, closes, receives, processes,
  finishes, increments, step, run,
}

module _ {T E : Type 0} where
  -- Neither Run nor Close takes a step.
  abbrev pub OthersOnly : List (Event T E) → Type 0
  OthersOnly [] = Unit {0}
  OthersOnly (checks m ∷ es) = OthersOnly es
  OthersOnly (puts_nth n ∷ es) = OthersOnly es
  OthersOnly (runs ∷ es) = ⊥
  OthersOnly (closes ∷ es) = ⊥
  OthersOnly (receives ∷ es) = OthersOnly es
  OthersOnly (processes n ∷ es) = OthersOnly es
  OthersOnly (finishes n ∷ es) = OthersOnly es
  OthersOnly (increments t d ∷ es) = OthersOnly es

  -- Run has left its loop, and Close has swapped the status and not made the channel.
  record IsCaught (q : Queue T E) : Type 0 where
    leaves : q.runner ≡ leaving
    unmade : q.closer ≡ marked

  check-IsCaught :
      (s : QueueStatus) (m : T × E) (q : Queue T E) → IsCaught q → IsCaught (publish_check s m q)
  unfolding publish_check
  check-IsCaught unrun m q h = record { leaves = h.leaves; unmade = h.unmade }
  check-IsCaught running m q h = record { leaves = h.leaves; unmade = h.unmade }
  check-IsCaught closing m q h = record { leaves = h.leaves; unmade = h.unmade }
  check-IsCaught closed m q h = h

  receive-IsCaught : (ms : List (T × E)) (q : Queue T E) → IsCaught q → IsCaught (receive ms q)
  unfolding receive
  receive-IsCaught [] q h = h
  receive-IsCaught (m ∷ ms) q h = record { leaves = h.leaves; unmade = h.unmade }

  when_free :
      (b : Bool) (q q' : Queue T E) → IsCaught q → IsCaught q' → IsCaught (if b then q' else q)
  when_free true q q' h k = k
  when_free false q q' h k = h

module _ {T E : Type 0} (dec : Discrete T) (kind : E → Kind) where
  put-IsCaught :
      (o : Option ((T × E) × List (T × E))) (q : Queue T E)
      → IsCaught q
      → IsCaught (put_picked dec o q)
  unfolding put_picked put_locked wake
  put-IsCaught none q h = h
  put-IsCaught (some p) q h = record { leaves = ap wake h.leaves; unmade = h.unmade }

  process-IsCaught :
      (o : Option ((T × E) × List (T × E))) (q : Queue T E)
      → IsCaught q
      → IsCaught (process_picked dec kind o q)
  unfolding process_picked on_processed increment_locked wake
  process-IsCaught none q h = h
  process-IsCaught (some (m, ms)) q h = called (kind m.1)
    where
      called :
          (k : Kind)
          → IsCaught (
              on_processed dec k m.0
                (record q { executing = ms; processed = q.processed ++ m ∷ [] }))
      called synchronous = record { leaves = h.leaves; unmade = h.unmade }
      called asynchronous = record { leaves = ap wake h.leaves; unmade = h.unmade }

  finish_exec-IsCaught :
      (o : Option ((T × E) × List (T × E))) (q : Queue T E)
      → IsCaught q
      → IsCaught (finish_picked dec o q)
  unfolding finish_picked finish_locked wake
  finish_exec-IsCaught none q h = h
  finish_exec-IsCaught (some p) q h = record { leaves = ap wake h.leaves; unmade = h.unmade }

  increment-IsCaught :
      (t : T) (d : ℤ) (q : Queue T E) → IsCaught q → IsCaught (increment_locked dec t d q)
  unfolding increment_locked wake
  increment-IsCaught t d q h = record { leaves = ap wake h.leaves; unmade = h.unmade }

  last_step : (q : Queue T E) → IsCaught q → run dec kind (runs ∷ []) q ≡ panic
  unfolding run step run_step leave_run
  last_step q h = ap (λ r. run_step r q >>= ret) h.leaves ∙ ap (λ c. leave_run c q >>= ret) h.unmade

  caught :
      (es : List (Event T E)) (q : Queue T E)
      → OthersOnly es
      → IsCaught q
      → run dec kind (es ++ runs ∷ []) q ≡ panic
  unfolding run step publish_put process_exec finish_exec increment_custom_message_count
  caught [] q o h = last_step q h
  caught (checks m ∷ es) q o h = caught es _ o (check-IsCaught q.status m q h)
  caught (puts_nth n ∷ es) q o h =
      caught es _ o (when_free (is_free q.runner) q _ h (put-IsCaught (pick n q.passed) q h))
  caught (runs ∷ es) q o h = absurd o
  caught (closes ∷ es) q o h = absurd o
  caught (receives ∷ es) q o h = caught es _ o (receive-IsCaught q.chan q h)
  caught (processes n ∷ es) q o h =
      caught es _ o (when_free (is_free q.runner) q _ h (process-IsCaught (pick n q.executing) q h))
  caught (finishes n ∷ es) q o h =
      caught es _ o
        (when_free (is_free q.runner) q _ h (finish_exec-IsCaught (pick n q.processed) q h))
  caught (increments t d ∷ es) q o h =
      caught es _ o (when_free (is_free q.runner) q _ h (increment-IsCaught t d q h))

  -- From any queue that runs, where Run is about to look at an empty buffer and the total is zero: if
  -- Close swaps the status, Run looks, and anything but a step of these two follows, the next step of
  -- Run panics.
  pub close_too_early :
      (es : List (Event T E)) (q : Queue T E)
      → OthersOnly es
      → q.status ≡ running
      → q.closer ≡ quiet
      → q.runner ≡ looking
      → q.buf ≡ []
      → is_zero q.total ≡ true
      → run dec kind (closes ∷ runs ∷ (es ++ runs ∷ [])) q ≡ panic
  unfolding run step close_step close_mark run_step look_at_buf is_closing
  close_too_early es q o s c r b z =
      ap (λ c. run dec kind (runs ∷ (es ++ runs ∷ [])) (close_step c q)) c
      ∙ ap (λ s. run dec kind (runs ∷ (es ++ runs ∷ [])) (close_mark s q)) s
      ∙ ap (λ r. run_step r (marked_of q) >>= λ q. run dec kind (es ++ runs ∷ []) q) r
      ∙ ap (λ b. run dec kind (es ++ runs ∷ []) (look_at_buf b (marked_of q))) b
      ∙ ap
          (λ t. run dec kind (es ++ runs ∷ []) (
            if t
            then record (marked_of q) { runner = leaving }
            else record (marked_of q) { runner = settling }))
          z
      ∙ caught es (record (marked_of q) { runner = leaving }) o
          (record { leaves = refl; unmade = refl })
    where
      marked_of : Queue T E → Queue T E
      marked_of q = record q { status = closing; closer = marked }

  -- A running queue with no message under way, at a time when Run is about to look at the buffer.
  abbrev pub at_rest : Queue T E → Queue T E
  at_rest q = record q {
    status = running;
    total = pos 0;
    buf = [];
    items = [];
    chan = [];
    runner = looking;
    closer = quiet;
    passed = [];
    executing = [];
    processed = [];
  }

  -- Nothing is published, and no count is changed from outside.
  abbrev pub NoCalls : List (Event T E) → Type 0
  NoCalls [] = Unit {0}
  NoCalls (checks m ∷ es) = ⊥
  NoCalls (puts_nth n ∷ es) = NoCalls es
  NoCalls (runs ∷ es) = NoCalls es
  NoCalls (closes ∷ es) = NoCalls es
  NoCalls (receives ∷ es) = NoCalls es
  NoCalls (processes n ∷ es) = NoCalls es
  NoCalls (finishes n ∷ es) = NoCalls es
  NoCalls (increments t d ∷ es) = ⊥

  abbrev pub asleep : Queue T E → Queue T E
  asleep q = record (at_rest q) { status = closing; runner = waiting; closer = blocked }

  sleeps :
      (es : List (Event T E)) (q : Queue T E)
      → NoCalls es
      → run dec kind es (asleep q) ≡ ret (asleep q)
  unfolding run
  sleeps [] q h = refl
  sleeps (checks m ∷ es) q h = absurd h
  sleeps (puts_nth n ∷ es) q h = sleeps es q h
  sleeps (runs ∷ es) q h = sleeps es q h
  sleeps (closes ∷ es) q h = sleeps es q h
  sleeps (receives ∷ es) q h = sleeps es q h
  sleeps (processes n ∷ es) q h = sleeps es q h
  sleeps (finishes n ∷ es) q h = sleeps es q h
  sleeps (increments t d ∷ es) q h = absurd h

  -- If Close runs to its end between the look of Run at the buffer of a queue at rest and the wait of
  -- Run, then as long as neither Publish nor IncrementCustomMessageCount is called, whatever steps
  -- the goroutines take, Run waits and Close is blocked.
  pub close_unheard :
      (es : List (Event T E)) (q : Queue T E)
      → NoCalls es
      → run dec kind (runs ∷ closes ∷ closes ∷ closes ∷ runs ∷ es) (at_rest q) ≡ ret (asleep q)
  unfolding run
  close_unheard es q h = sleeps es q h
