-- ===== src/Nexus/Flow.antt =====
-- toolkit/nexus/queues/non_blocking_rw.go: no message is lost or counted wrongly on its way.
use mathlib.Core.List.{lookup}
use minotaur.Base.{
  ℕ, ◌+◌, List, [], ◌∷◌, ◌++◌, Option, some, none, length, ◌≡◌, refl, sym, ap, ◌∙◌, arith,
  length-append, append_assoc,
}
use minotaur.Base.Int.{ℤ, pos, negsuc, ◌+ℤ◌, pos_part, neg_part}
use minotaur.Nexus.{
  QueueStatus, unrun, running, closing, closed, Runner, idle, looking, settling, waiting, sending,
  leaving, ended, Queue, wake, new_queue, publish_check, receive,
}
use minotaur.Nexus.Publish.{
  Kind, synchronous, asynchronous, topic_count, put_locked, put_picked, increment_locked,
  on_processed, finish_locked, finish_picked, process_picked,
}
use minotaur.Nexus.Topics.{
  topic_count-put_entry, topic_count-set_topic, count, count-append, Makes, add_parts,
  ite-add_parts, ite-zero, raised, lowered, raised_of, lowered_of, raised-append, lowered-append,
  raised_of-append, lowered_of-append,
}

-- A count is the number of messages that are under way, with what was added to it and without what
-- was taken off it.
abbrev pub IsCount : ℤ → ℕ → ℕ → ℕ → Type 0
IsCount n messages up down = pos_part n + down ≡ neg_part n + (messages + up)

module _ {T E : Type 0} where
  -- Outside of its inner loop, Run holds no messages.
  abbrev pub Held : Runner → List (T × E) → Type 0
  Held idle items = items ≡ []
  Held looking items = items ≡ []
  Held settling items = items ≡ []
  Held waiting items = items ≡ []
  Held sending items = Unit {0}
  Held leaving items = items ≡ []
  Held ended items = items ≡ []

  pub wake-Held : (r : Runner) (items : List (T × E)) → Held r items → Held (wake r) items
  unfolding wake
  wake-Held idle items h = h
  wake-Held looking items h = h
  wake-Held settling items h = h
  wake-Held waiting items h = h
  wake-Held sending items h = h
  wake-Held leaving items h = h
  wake-Held ended items h = h

  -- The messages that were written and not yet taken off the counts.
  abbrev pub under_way : Queue T E → ℕ
  under_way q =
      length q.executing + (length q.processed + (length q.chan + (length q.items + length q.buf)))

module _ {T E : Type 0} (dec : Discrete T) where
  -- Those of a topic.
  abbrev pub under_way_of : T → Queue T E → ℕ
  under_way_of t q =
      count dec t q.executing
      + (count dec t q.processed + (count dec t q.chan + (count dec t q.items + count dec t q.buf)))

  pub record IsFlowing (q : Queue T E) : Type 0 where
    pub counted : IsCount q.total (under_way q) (raised q.custom) (lowered q.custom)
    pub tallied :
        (t : T)
        → IsCount
            (topic_count dec t q.topics)
            (under_way_of t q)
            (raised_of dec t q.custom)
            (lowered_of dec t q.custom)
    pub ordered : q.puts ≡ q.taken ++ (q.chan ++ (q.items ++ q.buf))
    pub held : Held q.runner q.items

  pub new-IsFlowing : IsFlowing new_queue
  unfolding new_queue topic_count lookup
  new-IsFlowing = record { counted = refl; tallied = λ t. refl; ordered = refl; held = refl }

  pub check-IsFlowing :
      (s : QueueStatus) (m : T × E) (q : Queue T E) → IsFlowing q → IsFlowing (publish_check s m q)
  unfolding publish_check
  check-IsFlowing unrun m q h = record {
    counted = h.counted;
    tallied = h.tallied;
    ordered = h.ordered;
    held = h.held;
  }
  check-IsFlowing running m q h = record {
    counted = h.counted;
    tallied = h.tallied;
    ordered = h.ordered;
    held = h.held;
  }
  check-IsFlowing closing m q h = record {
    counted = h.counted;
    tallied = h.tallied;
    ordered = h.ordered;
    held = h.held;
  }
  check-IsFlowing closed m q h = h

  pub put-IsFlowing :
      (o : Option ((T × E) × List (T × E))) (q : Queue T E)
      → IsFlowing q
      → IsFlowing (put_picked dec o q)
  unfolding put_picked put_locked
  put-IsFlowing none q h = h
  put-IsFlowing (some (m, passed)) q h = record {
    counted =
        let c = h.counted in omega (arith, add_parts q.total (pos 1), length-append q.buf (m ∷ []));
    tallied = λ t.
        let c = h.tallied t in
        let a = count-append dec t q.buf (m ∷ []) in
        let b = ite-add_parts dec (λ t. topic_count dec t q.topics) (pos 1) m.0 t in
        rw (topic_count-put_entry dec m.0 t (topic_count dec m.0 q.topics +ℤ pos 1) q.topics)
          (omega (arith, ite-zero dec m.0 t));
    ordered = ap (λ ms. ms ++ m ∷ []) h.ordered ∙ simp append_assoc;
    held = wake-Held q.runner q.items h.held;
  }

  pub increment-IsFlowing :
      (k : T) (d : ℤ) (q : Queue T E) → IsFlowing q → IsFlowing (increment_locked dec k d q)
  unfolding increment_locked
  increment-IsFlowing k d q h = record {
    counted =
        let c = h.counted in
        omega (
          arith,
          add_parts q.total d,
          raised-append q.custom ((k, d) ∷ []),
          lowered-append q.custom ((k, d) ∷ []),
        );
    tallied = λ t.
        let c = h.tallied t in
        let b = ite-add_parts dec (λ t. topic_count dec t q.topics) d k t in
        rw (topic_count-put_entry dec k t (topic_count dec k q.topics +ℤ d) q.topics) (
          omega (
            arith,
            raised_of-append dec t q.custom ((k, d) ∷ []),
            lowered_of-append dec t q.custom ((k, d) ∷ []),
          ));
    ordered = h.ordered;
    held = wake-Held q.runner q.items h.held;
  }

  pub finish_exec-IsFlowing :
      (o : Option ((T × E) × List (T × E))) (q : Queue T E)
      → ((t : T) → Makes dec t q.processed o)
      → IsFlowing q
      → IsFlowing (finish_picked dec o q)
  unfolding finish_picked finish_locked
  finish_exec-IsFlowing none q k h = h
  finish_exec-IsFlowing (some (m, ms)) q k h = record {
    counted =
        let c = h.counted in let (_, l) = k m.0 in omega (arith, add_parts q.total (negsuc 0));
    tallied = λ t.
        let c = h.tallied t in
        let (a, _) = k t in
        let b = ite-add_parts dec (λ t. topic_count dec t q.topics) (negsuc 0) m.0 t in
        rw (topic_count-set_topic dec m.0 t (topic_count dec m.0 q.topics +ℤ negsuc 0) q.topics)
          (omega (arith, ite-zero dec m.0 t));
    ordered = h.ordered;
    held = wake-Held q.runner q.items h.held;
  }

  pub receive-IsFlowing :
      (ms : List (T × E)) (q : Queue T E) → q.chan ≡ ms → IsFlowing q → IsFlowing (receive ms q)
  unfolding receive
  receive-IsFlowing [] q e h = h
  receive-IsFlowing (m ∷ ms) q e h = record {
    counted = let c = h.counted in omega (arith, ap length e, length-append q.executing (m ∷ []));
    tallied = λ t.
        let c = h.tallied t in
        omega (arith, ap (count dec t) e, count-append dec t q.executing (m ∷ []));
    ordered =
        h.ordered
        ∙ ap (λ cs. q.taken ++ (cs ++ (q.items ++ q.buf))) e
        ∙ sym (append_assoc q.taken (m ∷ []) (ms ++ (q.items ++ q.buf)));
    held = h.held;
  }

module _ {T E : Type 0} (dec : Discrete T) (kind : E → Kind) where
  -- A message whose event has been processed, before the event calls the queue.
  handed-IsFlowing :
      (m : T × E) (ms : List (T × E)) (q : Queue T E)
      → ((t : T) → Makes dec t q.executing (some (m, ms)))
      → IsFlowing dec q
      → IsFlowing dec (record q { executing = ms; processed = q.processed ++ m ∷ [] })
  handed-IsFlowing m ms q k h = record {
    counted =
        let c = h.counted in
        let (_, l) = k m.0 in omega (arith, length-append q.processed (m ∷ []));
    tallied = λ t.
        let c = h.tallied t in
        let (a, _) = k t in omega (arith, count-append dec t q.processed (m ∷ []));
    ordered = h.ordered;
    held = h.held;
  }

  called-IsFlowing :
      (k : Kind) (t : T) (q : Queue T E) → IsFlowing dec q → IsFlowing dec (on_processed dec k t q)
  unfolding on_processed
  called-IsFlowing synchronous t q h = h
  called-IsFlowing asynchronous t q h = increment-IsFlowing dec t (negsuc 0) q h

  pub process-IsFlowing :
      (o : Option ((T × E) × List (T × E))) (q : Queue T E)
      → ((t : T) → Makes dec t q.executing o)
      → IsFlowing dec q
      → IsFlowing dec (process_picked dec kind o q)
  unfolding process_picked
  process-IsFlowing none q k h = h
  process-IsFlowing (some (m, ms)) q k h =
      called-IsFlowing (kind m.1) m.0 _ (handed-IsFlowing m ms q k h)
