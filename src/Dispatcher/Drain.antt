-- ===== src/Dispatcher/Drain.antt =====
-- server/internal/dispatcher/dispatcher.go: a dispatcher under a plan of eviction comes to its end.
use minotaur.Base.{
  ℕ, suc, ◌^◌, ◌<◌, List, [], ◌∷◌, ◌++◌, Bool, true, false, ◌&&◌, length, ret, ◌>>=◌, ◌≡◌, refl,
  sym, ap, ap₂, subst, ◌∙◌, arith, inl, inr, append_assoc,
}
use minotaur.Base.Int.{pos, negsuc, ◌+ℤ◌, wrap64, wrap64_of_IsInt64}
use minotaur.Dispatcher.{Dispatcher, leb_zero, add_counts, settle_count, close_buffer}
use minotaur.Dispatcher.Steps.{
  selecting, handling, stopped, System, Event, takes, settles, take_message, settled, settle, step,
  run, finish,
}
use minotaur.Dispatcher.Count.{Verdict, tested, tested-IsSame, settle_count-Verdict}
use minotaur.Dispatcher.Evicting.{AllEvicting, call_done-expel, call_done-abort}

pub contradicts : false ≡ true → ⊥
contradicts h = absurd (cc)

module _ {P M : Type 0} where
  -- The steps of the goroutine that take every message of the buffer and handle it.
  abbrev pub rounds : List M → List (Event P M)
  rounds [] = []
  rounds (m ∷ ms) = takes ∷ settles ∷ rounds ms

module _ {P M : Type 0} (dec : Discrete P) (get_producer : M → P) where
  -- The goroutine is idle under a plan of eviction, the channel `abort` is open, so that the goroutine
  -- can only take a message, and nothing is counted but the messages of the buffer.
  pub record IsEvicted (ms : List M) (s : System P M) : Type 0 where
    pub idle : s.worker ≡ selecting
    pub open_ : s.d.closed ≡ false
    pub unaborted : s.d.abort ≡ false
    pub planned : s.d.expel ≡ true
    pub holds : s.d.buf ≡ ms
    pub counted : s.d.mc ≡ pos (length ms)
    pub evicting : AllEvicting s.d.pmc_f

  -- The handler has been called with the messages `ms` in order, and the goroutine has ended.
  pub record HasEnded (ms : List M) (s s' : System P M) : Type 0 where
    pub over : s'.worker ≡ stopped
    pub shut : s'.d.closed ≡ true
    pub emptied : s'.d.buf ≡ []
    pub all_handled : s'.handled ≡ s.handled ++ ms
    pub called : s'.told ≡ s.d.closed_handler

  unfoldable pub taken : M → List M → System P M → System P M
  taken m ms s = record s {
    d = record (s.d) { buf = ms };
    worker = handling m;
    handled = s.handled ++ m ∷ [];
  }

  pub take-step :
      (m : M) (ms : List M) (s : System P M)
      → s.worker ≡ selecting
      → s.d.buf ≡ m ∷ ms
      → step dec get_producer s takes ≡ ret (taken m ms s)
  unfolding step taken take_message
  take-step m ms s at holds = ap₂ (λ w b. ret (take_message w b s)) at holds

  one_less : (n : ℕ) → suc n < 2 ^ 62 → wrap64 (pos (suc n) +ℤ negsuc 0) ≡ pos n
  unfolding ◌+ℤ◌
  one_less n h = ap wrap64 (ground arith) ∙ wrap64_of_IsInt64 (pos n) (omega arith)

  -- What the locked part finds when the handler has returned.
  pub record IsNext (ms : List M) (s : System P M) (d' : Dispatcher P M) : Type 0 where
    pub planned : d'.expel ≡ true
    pub counted : d'.mc ≡ pos (length ms)
    pub evicting : AllEvicting d'.pmc_f
    pub holds : d'.buf ≡ ms
    pub open_ : d'.closed ≡ false
    pub handler : d'.closed_handler ≡ s.d.closed_handler
    pub unaborted : leb_zero d'.mc ≡ false → d'.abort ≡ false

  pub tested-IsNext :
      (m : M) (ms : List M) (s : System P M)
      → IsEvicted (m ∷ ms) s
      → length (m ∷ ms) < 2 ^ 62
      → IsNext ms s (tested dec get_producer (get_producer m) (taken m ms s).d)
  unfolding add_counts taken
  tested-IsNext m ms s h few =
      let same = tested-IsSame dec get_producer (get_producer m) (taken m ms s).d in
      record {
        planned = call_done-expel dec (get_producer m) _ _ h.evicting h.planned;
        counted =
            same.mc
            ∙ ap (λ k. wrap64 (k +ℤ negsuc 0)) h.counted
            ∙ one_less (length ms) (omega arith);
        evicting = subst AllEvicting (sym same.pmc_f) h.evicting;
        holds = same.buf;
        open_ = same.closed ∙ h.open_;
        handler = same.closed_handler;
        unaborted = λ n.
            call_done-abort dec (get_producer m) _ _ (sym (ap leb_zero same.mc) ∙ n) ∙ h.unaborted;
      }

  settle-step :
      (m : M) (ms : List M) (s : System P M)
      → step dec get_producer (taken m ms s) settles
        ≡ ret (settled (settle_count dec (get_producer m) (taken m ms s).d) (taken m ms s))
  unfolding step settle taken
  settle-step m ms s = refl

  pub round :
      (m : M) (ms : List M) (s : System P M) (r : Bool × Dispatcher P M) (es : List (Event P M))
      → step dec get_producer s takes ≡ ret (taken m ms s)
      → settle_count dec (get_producer m) (taken m ms s).d ≡ r
      → run dec get_producer s (takes ∷ settles ∷ es)
        ≡ run dec get_producer (settled r (taken m ms s)) es
  unfolding run
  round m ms s r es t e =
      ap (λ x. x >>= λ s'. run dec get_producer s' (settles ∷ es)) t
      ∙ ap (λ x. x >>= λ s'. run dec get_producer s' es)
          (settle-step m ms s ∙ ap (λ r. ret (settled r (taken m ms s))) e)

  pub leb_zero-suc : (n : ℕ) → leb_zero (pos (suc n)) ≡ false
  leb_zero-suc n = ground arith

  abbrev Ends : List M → System P M → Type 0
  Ends ms s = (s' : System P M) × (run dec get_producer s (rounds ms) ≡ ret s') × HasEnded ms s s'

  last_round :
      (m : M) (s : System P M) (d' : Dispatcher P M)
      → step dec get_producer s takes ≡ ret (taken m [] s)
      → IsNext [] s d'
      → Verdict dec get_producer d' (settle_count dec (get_producer m) (taken m [] s).d)
      → Ends (m ∷ []) s
  unfolding run settled finish close_buffer taken
  last_round m s d' t n (inl (z, e, r)) = (
    finish (record (taken m [] s) { d = close_buffer d' }),
    round m [] s _ [] t r,
    record { over = refl; shut = refl; emptied = n.holds; all_handled = refl; called = n.handler },
  )
  last_round m s d' t n (inr (z, r)) =
      absurd (contradicts (sym z ∙ ap₂ (λ k b. leb_zero k && b) n.counted n.planned))

  pub next-IsEvicted :
      (m m₂ : M) (ms : List M) (s : System P M) (d' : Dispatcher P M)
      → IsNext (m₂ ∷ ms) s d'
      → IsEvicted (m₂ ∷ ms) (settled (false, d') (taken m (m₂ ∷ ms) s))
  unfolding settled taken
  next-IsEvicted m m₂ ms s d' n = record {
    idle = refl;
    open_ = n.open_;
    unaborted = n.unaborted (ap leb_zero n.counted ∙ leb_zero-suc (length ms));
    planned = n.planned;
    holds = n.holds;
    counted = n.counted;
    evicting = n.evicting;
  }

  next_round :
      (m m₂ : M) (ms : List M) (s : System P M) (d' : Dispatcher P M)
      → step dec get_producer s takes ≡ ret (taken m (m₂ ∷ ms) s)
      → IsNext (m₂ ∷ ms) s d'
      → Verdict dec get_producer d' (settle_count dec (get_producer m) (taken m (m₂ ∷ ms) s).d)
      → ((s₂ : System P M) → IsEvicted (m₂ ∷ ms) s₂ → Ends (m₂ ∷ ms) s₂)
      → Ends (m ∷ m₂ ∷ ms) s
  unfolding settled taken
  next_round m m₂ ms s d' t n (inl (z, e, r)) again =
      absurd (contradicts (sym (leb_zero-suc (length ms)) ∙ sym (ap leb_zero n.counted) ∙ z))
  next_round m m₂ ms s d' t n (inr (z, r)) again =
      let (s', e, ended) =
        again (settled (false, d') (taken m (m₂ ∷ ms) s)) (next-IsEvicted m m₂ ms s d' n) in
      (
        s',
        round m (m₂ ∷ ms) s _ (rounds (m₂ ∷ ms)) t r ∙ e,
        record {
          over = ended.over;
          shut = ended.shut;
          emptied = ended.emptied;
          all_handled = ended.all_handled ∙ append_assoc s.handled (m ∷ []) (m₂ ∷ ms);
          called = ended.called ∙ n.handler;
        },
      )

  -- With no step of another goroutine between, the goroutine comes to its end in as many rounds as
  -- there are messages.
  pub rounds-HasEnded :
      (m : M) (ms : List M) (s : System P M)
      → IsEvicted (m ∷ ms) s
      → length (m ∷ ms) < 2 ^ 62
      → (s' : System P M) × (run dec get_producer s (rounds (m ∷ ms)) ≡ ret s')
        × HasEnded (m ∷ ms) s s'
  rounds-HasEnded m [] s h few =
      last_round m s _ (take-step m [] s h.idle h.holds) (tested-IsNext m [] s h few)
        (settle_count-Verdict dec get_producer (get_producer m) _)
  rounds-HasEnded m (m₂ ∷ ms) s h few =
      next_round m m₂ ms s _ (take-step m (m₂ ∷ ms) s h.idle h.holds)
        (tested-IsNext m (m₂ ∷ ms) s h few)
        (settle_count-Verdict dec get_producer (get_producer m) _)
        (λ s₂ k. rounds-HasEnded m₂ ms s₂ k (omega arith))
