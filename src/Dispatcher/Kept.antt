-- ===== src/Dispatcher/Kept.antt =====
-- server/internal/dispatcher/dispatcher.go: every step keeps the tally.
use minotaur.Base.{
  ℕ, ◌+◌, ◌^◌, ◌<◌, List, false, Option, some, none, length, Go, ret, ◌>>=◌, ◌≡◌, refl, sym, ap,
  subst, ◌∙◌, arith, Bool-cases, inl, inr,
}
use minotaur.Base.Int.{negsuc, sub_ℕ}
use minotaur.Dispatcher.{
  Act, Dispatcher, leb_zero, no_lock_expel, no_lock_un_expel, set_closed_handler, add_counts,
  settle_count, set_producer_done_handler, close_buffer, count_of,
}
use minotaur.Dispatcher.Steps.{
  Worker, unstarted, selecting, handling, stopped, System, Event, starts, counts, writes, takes,
  settles, aborts, expels, un_expels, increments, sets_done, sets_closed, settled, settle, step,
  finish,
}
use minotaur.Dispatcher.Account.{IsSame, expel-cases, run_handler-IsSame}
use minotaur.Dispatcher.Tally.{
  put_by, up_by, down_by, IsTallied, After, kept, started, unpicked, taken, aborted,
}
use minotaur.Dispatcher.Count.{
  Verdict, tested, tested-IsSame, settle_count-Verdict, counted_up, incremented, taken_off,
}

module _ {P M : Type 0} (dec : Discrete P) (get_producer : M → P) where
  done_handler_set :
      (n u w : ℕ) (p : P) (acts : Option (List Act)) (s : System P M)
      → IsTallied n u w s
      → IsTallied n u w (record s { d = set_producer_done_handler dec p acts s.d })
  unfolding set_producer_done_handler
  done_handler_set n u w p none s h = record { tally = h.tally; shut = h.shut; few = h.few }
  done_handler_set n u w p (some acts) s h = elim (Bool-cases (leb_zero (count_of dec p s.d))) [
    | inl e ↦ rw e (
        kept n u w _ _ (run_handler-IsSame acts _)
          (record { tally = h.tally; shut = h.shut; few = h.few }))
    | inr e ↦ rw e (record { tally = h.tally; shut = h.shut; few = h.few })
  ]

  unchanged_counts :
      (n u w : ℕ) (s : System P M) (d' : Dispatcher P M)
      → d'.buf ≡ s.d.buf
      → d'.closed ≡ s.d.closed
      → d'.mc ≡ s.d.mc
      → IsTallied n u w s
      → IsTallied n u w (record s { d = d' })
  unchanged_counts n u w s d' b c m h =
      let lb : length d'.buf ≡ length s.d.buf = ap length b in
      record {
        tally = λ o. m ∙ h.tally (sym c ∙ o) ∙ ap (λ k. sub_ℕ k w) (omega (arith, lb));
        shut = λ o. h.shut (sym c ∙ o);
        few = let f = h.few in omega (arith, lb);
      }

  expelled :
      (n u w : ℕ) (s : System P M)
      → IsTallied n u w s
      → After n u w (no_lock_expel s.d >>= λ d. ret (record s { d = d }))
  expelled n u w s h = elim (expel-cases s.d) [
    | inl e ↦ rw e tt
    | inr (inl e) ↦ rw e (record { tally = h.tally; shut = h.shut; few = h.few })
    | inr (inr e) ↦ rw e (record { tally = h.tally; shut = h.shut; few = h.few })
  ]

  settle-IsTallied :
      (n u w : ℕ) (worker : Worker M) (s : System P M)
      → s.worker ≡ worker
      → IsTallied n u w s
      → n + u < 2 ^ 62
      → w < 2 ^ 62
      → IsTallied n u w (settle dec get_producer worker s)
  unfolding settle settled finish close_buffer add_counts
  settle-IsTallied n u w unstarted s at h small small' = h
  settle-IsTallied n u w selecting s at h small small' = h
  settle-IsTallied n u w stopped s at h small small' = h
  settle-IsTallied n u w (handling m) s at h small small' =
      let (open_, mc) = taken_off dec get_producer n u w m s h at small small' in
      let d' = tested dec get_producer (get_producer m) s.d in
      let same = tested-IsSame dec get_producer (get_producer m) s.d in
      let verdict = settle_count-Verdict dec get_producer (get_producer m) s.d in
      after d' same verdict open_ mc
    where
      after :
          (d' : Dispatcher P M)
          → IsSame (add_counts dec (get_producer m) (negsuc 0) s.d) d'
          → Verdict dec get_producer d' (settle_count dec (get_producer m) s.d)
          → s.d.closed ≡ false
          → (add_counts dec (get_producer m) (negsuc 0) s.d).mc
            ≡ sub_ℕ (length s.d.buf + length s.writing + u) w
          → IsTallied n u w (settled (settle_count dec (get_producer m) s.d) s)
      after d' same (inl (e, f, r)) open_ mc =
          let lb : length d'.buf ≡ length s.d.buf = ap length same.buf in
          let few = h.few in
          rw r (record { tally = λ c. absurd (cc); shut = λ c. refl; few = omega (arith, lb, few) })
      after d' same (inr (e, r)) open_ mc =
          let lb : length d'.buf ≡ length s.d.buf = ap length same.buf in
          let few = h.few in
          rw r (record {
            tally = λ c. same.mc ∙ mc ∙ ap (λ k. sub_ℕ k w) (omega (arith, lb));
            shut = λ c. let q = sym same.closed ∙ c in absurd (cc);
            few = omega (arith, lb, few);
          })

  pub After-resp :
      {n n' u u' w w' : ℕ} (r : Go (System P M))
      → n ≡ n'
      → u ≡ u'
      → w ≡ w'
      → After n u w r
      → After n' u' w' r
  After-resp {n = n} {u = u} {u' = u'} {w' = w'} r a b c h =
      subst (λ k. After k u' w' r) a
        (subst (λ k. After n k w' r) b (subst (λ k. After n u k r) c h))

  still : (n u w : ℕ) (r : Go (System P M)) → After n u w r → After (n + 0) (u + 0) (w + 0) r
  still n u w r h = After-resp r (omega arith) (omega arith) (omega arith) h

  pub step-After :
      (n u w : ℕ) (s : System P M) (e : Event P M)
      → IsTallied n u w s
      → n + put_by e + (u + up_by e) < 2 ^ 62
      → w + down_by e < 2 ^ 62
      → After (n + put_by e) (u + up_by e) (w + down_by e) (step dec get_producer s e)
  unfolding step set_closed_handler no_lock_un_expel
  step-After n u w s starts h small small' =
      still n u w (step dec get_producer s starts) (started n u w s h)
  step-After n u w s (counts m) h small small' =
      After-resp (step dec get_producer s (counts m)) (omega arith) (omega arith) (omega arith)
        (counted_up dec get_producer n u w m s h (omega arith) (omega arith))
  step-After n u w s (writes k) h small small' =
      still n u w (step dec get_producer s (writes k)) (unpicked n u w k s h)
  step-After n u w s takes h small small' =
      still n u w (step dec get_producer s takes) (taken n u w s.worker s.d.buf s refl refl h)
  step-After n u w s settles h small small' =
      still n u w (step dec get_producer s settles)
        (settle-IsTallied n u w s.worker s refl h (omega arith) (omega arith))
  step-After n u w s aborts h small small' =
      still n u w (step dec get_producer s aborts) (aborted n u w s.worker s.d.abort s refl h)
  step-After n u w s expels h small small' =
      still n u w (step dec get_producer s expels) (expelled n u w s h)
  step-After n u w s un_expels h small small' =
      still n u w (step dec get_producer s un_expels)
        (unchanged_counts n u w s (no_lock_un_expel s.d) refl refl refl h)
  step-After n u w s (increments p i) h small small' =
      After-resp (step dec get_producer s (increments p i)) (omega arith) (omega arith)
        (omega arith) (incremented dec get_producer n u w p i s h (omega arith) small')
  step-After n u w s (sets_done p acts) h small small' =
      still n u w (step dec get_producer s (sets_done p acts)) (done_handler_set n u w p acts s h)
  step-After n u w s sets_closed h small small' =
      still n u w (step dec get_producer s sets_closed)
        (unchanged_counts n u w s (set_closed_handler s.d) refl refl refl h)
