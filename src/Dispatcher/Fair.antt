-- ===== src/Dispatcher/Fair.antt =====
-- server/internal/dispatcher/dispatcher.go: every sequence of steps of the goroutine under a plan of
-- eviction.
use minotaur.Base.{
  ◌^◌, ◌<◌, List, [], ◌∷◌, ◌++◌, false, ◌&&◌, length, ret, ◌>>=◌, ◌≡◌, refl, sym, ap, ap₂, ◌∙◌,
  arith, inl, inr, append_assoc, append-nil,
}
use minotaur.Dispatcher.{Dispatcher, leb_zero, settle_count, close_buffer}
use minotaur.Dispatcher.Steps.{
  stopped, System, Event, starts, counts, writes, takes, settles, aborts, expels, un_expels,
  increments, sets_done, sets_closed, take_message, take_abort, settled, settle, step, run, finish,
}
use minotaur.Dispatcher.Count.{Verdict, settle_count-Verdict}
use minotaur.Dispatcher.Drain.{
  contradicts, rounds, IsEvicted, HasEnded, IsNext, taken, take-step, tested-IsNext, round,
  leb_zero-suc, next-IsEvicted, rounds-HasEnded,
}

module _ {P M : Type 0} where
  -- Only the goroutine of `Start` takes steps.
  abbrev pub OwnOnly : List (Event P M) → Type 0
  OwnOnly [] = Unit {0}
  OwnOnly (starts ∷ es) = ⊥
  OwnOnly (counts m ∷ es) = ⊥
  OwnOnly (writes n ∷ es) = ⊥
  OwnOnly (takes ∷ es) = OwnOnly es
  OwnOnly (settles ∷ es) = OwnOnly es
  OwnOnly (aborts ∷ es) = OwnOnly es
  OwnOnly (expels ∷ es) = ⊥
  OwnOnly (un_expels ∷ es) = ⊥
  OwnOnly (increments p i ∷ es) = ⊥
  OwnOnly (sets_done p acts ∷ es) = ⊥
  OwnOnly (sets_closed ∷ es) = ⊥

module _ {P M : Type 0} (dec : Discrete P) (get_producer : M → P) where
  rounds-OwnOnly : (ms : List M) → OwnOnly {P = P} (rounds ms)
  rounds-OwnOnly [] = tt
  rounds-OwnOnly (m ∷ ms) = rounds-OwnOnly ms

  -- After the steps there are further steps with which the goroutine ends.
  abbrev pub EndsAfter : List (Event P M) → List M → System P M → Type 0
  EndsAfter es ms s =
      (s' : System P M) × (es' : List (Event P M)) × OwnOnly es'
      × (run dec get_producer s (es ++ es') ≡ ret s')
      × HasEnded dec get_producer ms s s'

  -- A step that leaves the state as it is.
  skipped :
      (e : Event P M) (es : List (Event P M)) (ms : List M) (s : System P M)
      → step dec get_producer s e ≡ ret s
      → EndsAfter es ms s
      → EndsAfter (e ∷ es) ms s
  unfolding run
  skipped e es ms s same (s', es', o, r, h) =
      (s', es', o, ap (λ x. x >>= λ s'. run dec get_producer s' (es ++ es')) same ∙ r, h)

  -- The same while a message is handled.
  skipped_handling :
      (e : Event P M) (es : List (Event P M)) (m : M) (ms : List M) (s : System P M)
      → step dec get_producer s takes ≡ ret (taken dec get_producer m ms s)
      → step dec get_producer (taken dec get_producer m ms s) e
        ≡ ret (taken dec get_producer m ms s)
      → EndsAfter (takes ∷ es) (m ∷ ms) s
      → EndsAfter (takes ∷ e ∷ es) (m ∷ ms) s
  unfolding run
  skipped_handling e es m ms s t same (s', es', o, r, h) = (
    s',
    es',
    o,
    ap (λ x. x >>= λ s'. run dec get_producer s' (e ∷ es ++ es')) t
        ∙ ap (λ x. x >>= λ s'. run dec get_producer s' (es ++ es')) same
        ∙ sym (ap (λ x. x >>= λ s'. run dec get_producer s' (es ++ es')) t)
        ∙ r,
    h,
  )

  over_stays :
      (es : List (Event P M)) (s : System P M)
      → OwnOnly es
      → s.worker ≡ stopped
      → run dec get_producer s es ≡ ret s
  unfolding run step take_message take_abort settle
  over_stays [] s own h = refl
  over_stays (starts ∷ es) s own h = absurd own
  over_stays (counts m ∷ es) s own h = absurd own
  over_stays (writes n ∷ es) s own h = absurd own
  over_stays (takes ∷ es) s own h =
      ap (λ w. run dec get_producer (take_message w s.d.buf s) es) h ∙ over_stays es s own h
  over_stays (settles ∷ es) s own h =
      ap (λ w. run dec get_producer (settle dec get_producer w s) es) h ∙ over_stays es s own h
  over_stays (aborts ∷ es) s own h =
      ap (λ w. run dec get_producer (take_abort w s.d.abort s) es) h ∙ over_stays es s own h
  over_stays (expels ∷ es) s own h = absurd own
  over_stays (un_expels ∷ es) s own h = absurd own
  over_stays (increments p i ∷ es) s own h = absurd own
  over_stays (sets_done p acts ∷ es) s own h = absurd own
  over_stays (sets_closed ∷ es) s own h = absurd own

  -- The last message is settled, and the goroutine ends.
  settled_last :
      (es : List (Event P M)) (m : M) (s : System P M) (d' : Dispatcher P M)
      → OwnOnly es
      → step dec get_producer s takes ≡ ret (taken dec get_producer m [] s)
      → IsNext dec get_producer [] s d'
      → Verdict dec get_producer d'
          (settle_count dec (get_producer m) (taken dec get_producer m [] s).d)
      → EndsAfter (takes ∷ settles ∷ es) (m ∷ []) s
  unfolding settled finish close_buffer taken
  settled_last es m s d' own t n (inl (z, e, r)) = (
    finish (record (taken dec get_producer m [] s) { d = close_buffer d' }),
    [],
    tt,
    round dec get_producer m [] s _ (es ++ []) t r
        ∙ ap
            (run dec get_producer
              (finish (record (taken dec get_producer m [] s) { d = close_buffer d' })))
            (append-nil es)
        ∙ over_stays es _ own refl,
    record { over = refl; shut = refl; emptied = n.holds; all_handled = refl; called = n.handler },
  )
  settled_last es m s d' own t n (inr (z, r)) =
      absurd (contradicts (sym z ∙ ap₂ (λ k b. leb_zero k && b) n.counted n.planned))

  -- Another message is settled, and the goroutine selects again.
  settled_next :
      (es : List (Event P M)) (m m₂ : M) (ms : List M) (s : System P M) (d' : Dispatcher P M)
      → step dec get_producer s takes ≡ ret (taken dec get_producer m (m₂ ∷ ms) s)
      → IsNext dec get_producer (m₂ ∷ ms) s d'
      → Verdict dec get_producer d'
          (settle_count dec (get_producer m) (taken dec get_producer m (m₂ ∷ ms) s).d)
      → ((s₂ : System P M) → IsEvicted dec get_producer (m₂ ∷ ms) s₂ → EndsAfter es (m₂ ∷ ms) s₂)
      → EndsAfter (takes ∷ settles ∷ es) (m ∷ m₂ ∷ ms) s
  unfolding settled taken
  settled_next es m m₂ ms s d' t n (inl (z, e, r)) again = absurd (
      contradicts
        (sym (leb_zero-suc dec get_producer (length ms)) ∙ sym (ap leb_zero n.counted) ∙ z))
  settled_next es m m₂ ms s d' t n (inr (z, r)) again =
      let (s', es', o, e, ended) =
        again (settled (false, d') (taken dec get_producer m (m₂ ∷ ms) s))
          (next-IsEvicted dec get_producer m m₂ ms s d' n) in
      (
        s',
        es',
        o,
        round dec get_producer m (m₂ ∷ ms) s _ (es ++ es') t r ∙ e,
        record {
          over = ended.over;
          shut = ended.shut;
          emptied = ended.emptied;
          all_handled = ended.all_handled ∙ append_assoc s.handled (m ∷ []) (m₂ ∷ ms);
          called = ended.called ∙ n.handler;
        },
      )

  -- What follows the take of a message.
  handled-EndsAfter :
      (es : List (Event P M)) (m : M) (ms : List M) (s : System P M)
      → OwnOnly es
      → IsEvicted dec get_producer (m ∷ ms) s
      → length (m ∷ ms) < 2 ^ 62
      → ((es : List (Event P M)) → OwnOnly es → EndsAfter (takes ∷ settles ∷ es) (m ∷ ms) s)
      → EndsAfter (takes ∷ es) (m ∷ ms) s
  unfolding step take_message take_abort taken
  handled-EndsAfter [] m ms s own h few settled_ =
      let (s', e, ended) = rounds-HasEnded dec get_producer m ms s h few in
      (s', settles ∷ rounds ms, rounds-OwnOnly ms, e, ended)
  handled-EndsAfter (takes ∷ es) m ms s own h few settled_ =
      skipped_handling takes es m ms s (take-step dec get_producer m ms s h.idle h.holds) refl
        (handled-EndsAfter es m ms s own h few settled_)
  handled-EndsAfter (aborts ∷ es) m ms s own h few settled_ =
      skipped_handling aborts es m ms s (take-step dec get_producer m ms s h.idle h.holds) refl
        (handled-EndsAfter es m ms s own h few settled_)
  handled-EndsAfter (settles ∷ es) m ms s own h few settled_ = settled_ es own
  handled-EndsAfter (starts ∷ es) m ms s own h few settled_ = absurd own
  handled-EndsAfter (counts x ∷ es) m ms s own h few settled_ = absurd own
  handled-EndsAfter (writes n ∷ es) m ms s own h few settled_ = absurd own
  handled-EndsAfter (expels ∷ es) m ms s own h few settled_ = absurd own
  handled-EndsAfter (un_expels ∷ es) m ms s own h few settled_ = absurd own
  handled-EndsAfter (increments p i ∷ es) m ms s own h few settled_ = absurd own
  handled-EndsAfter (sets_done p acts ∷ es) m ms s own h few settled_ = absurd own
  handled-EndsAfter (sets_closed ∷ es) m ms s own h few settled_ = absurd own

  selected-EndsAfter :
      (es : List (Event P M)) (m : M) (ms : List M) (s : System P M)
      → OwnOnly es
      → IsEvicted dec get_producer (m ∷ ms) s
      → length (m ∷ ms) < 2 ^ 62
      → ((es : List (Event P M)) → OwnOnly es → EndsAfter (takes ∷ settles ∷ es) (m ∷ ms) s)
      → EndsAfter es (m ∷ ms) s
  unfolding step take_abort settle
  selected-EndsAfter [] m ms s own h few settled_ =
      let (s', e, ended) = rounds-HasEnded dec get_producer m ms s h few in
      (s', rounds (m ∷ ms), rounds-OwnOnly ms, e, ended)
  selected-EndsAfter (takes ∷ es) m ms s own h few settled_ =
      handled-EndsAfter es m ms s own h few settled_
  selected-EndsAfter (settles ∷ es) m ms s own h few settled_ =
      skipped settles es (m ∷ ms) s (ap (λ w. ret (settle dec get_producer w s)) h.idle)
        (selected-EndsAfter es m ms s own h few settled_)
  selected-EndsAfter (aborts ∷ es) m ms s own h few settled_ =
      skipped aborts es (m ∷ ms) s (ap₂ (λ w b. ret (take_abort w b s)) h.idle h.unaborted)
        (selected-EndsAfter es m ms s own h few settled_)
  selected-EndsAfter (starts ∷ es) m ms s own h few settled_ = absurd own
  selected-EndsAfter (counts x ∷ es) m ms s own h few settled_ = absurd own
  selected-EndsAfter (writes n ∷ es) m ms s own h few settled_ = absurd own
  selected-EndsAfter (expels ∷ es) m ms s own h few settled_ = absurd own
  selected-EndsAfter (un_expels ∷ es) m ms s own h few settled_ = absurd own
  selected-EndsAfter (increments p i ∷ es) m ms s own h few settled_ = absurd own
  selected-EndsAfter (sets_done p acts ∷ es) m ms s own h few settled_ = absurd own
  selected-EndsAfter (sets_closed ∷ es) m ms s own h few settled_ = absurd own

  -- A dispatcher under a plan of eviction whose buffer holds the messages `m` and `ms`, where nothing
  -- else is counted, no handler calls `UnExpel` and the channel `abort` is open: whatever steps its
  -- goroutine has tried, with no step of another goroutine between, it goes on by steps of its own to a
  -- state in which it has handed all of the messages to the handler in order, closed the buffer and ended, and has
  -- called the closed handler if there is one.
  pub evicted-HasEnded :
      (es : List (Event P M)) (m : M) (ms : List M) (s : System P M)
      → OwnOnly es
      → IsEvicted dec get_producer (m ∷ ms) s
      → length (m ∷ ms) < 2 ^ 62
      → (s' : System P M) × (es' : List (Event P M)) × OwnOnly es'
        × (run dec get_producer s (es ++ es') ≡ ret s')
        × HasEnded dec get_producer (m ∷ ms) s s'
  evicted-HasEnded es m [] s own h few = selected-EndsAfter es m [] s own h few (λ es own.
      settled_last es m s _ own (take-step dec get_producer m [] s h.idle h.holds)
        (tested-IsNext dec get_producer m [] s h few)
        (settle_count-Verdict dec get_producer (get_producer m) _))
  evicted-HasEnded es m (m₂ ∷ ms) s own h few =
      selected-EndsAfter es m (m₂ ∷ ms) s own h few (λ es own.
        settled_next es m m₂ ms s _ (take-step dec get_producer m (m₂ ∷ ms) s h.idle h.holds)
          (tested-IsNext dec get_producer m (m₂ ∷ ms) s h few)
          (settle_count-Verdict dec get_producer (get_producer m) _)
          (λ s₂ k. evicted-HasEnded es m₂ ms s₂ own k (omega arith)))
