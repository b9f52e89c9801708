-- ===== src/Dispatcher/Ends.antt =====
-- server/internal/dispatcher/dispatcher.go: the state in which the goroutine ends.
use native.Mathlib.Numerals.{unary_clauses}
use minotaur.Base.{
  ℕ, ◌+◌, ◌^◌, ◌<◌, ◌≤◌, List, [], ◌∷◌, true, length, Go, ret, panic, ◌>>=◌, ◌≡◌, refl, sym, ap,
  subst, ◌∙◌, arith, inl, inr,
}
use minotaur.Base.Int.{negsuc, sub_ℕ}
use minotaur.Dispatcher.{
  Dispatcher, leb_zero, new_dispatcher, add_counts, settle_count, close_buffer,
}
use minotaur.Dispatcher.Steps.{
  handling, stopped, System, Event, starts, counts, writes, takes, settles, aborts, expels,
  un_expels, increments, sets_done, sets_closed, new_system, settled, settle, step, run, finish,
}
use minotaur.Dispatcher.Account.{IsSame, leb_zero→le}
use minotaur.Dispatcher.Tally.{put_by, up_by, down_by, total, IsTallied, After}
use minotaur.Dispatcher.Count.{Verdict, tested, tested-IsSame, settle_count-Verdict, taken_off}
use minotaur.Dispatcher.Kept.{step-After, After-resp}

module _ {P M : Type 0} where
  -- The calls of `Start`.
  abbrev pub start_by : Event P M → ℕ
  start_by e = elim e [
    | starts ↦ 1
    | counts m ↦ 0
    | writes n ↦ 0
    | takes ↦ 0
    | settles ↦ 0
    | aborts ↦ 0
    | expels ↦ 0
    | un_expels ↦ 0
    | increments p i ↦ 0
    | sets_done p acts ↦ 0
    | sets_closed ↦ 0
  ]

  -- The buffer is closed by a plan of eviction, and no message is left.
  abbrev pub Drained : System P M → Type 0
  Drained s = (s.d.closed ≡ true) × (s.d.expel ≡ true) × (s.d.buf ≡ []) × (s.writing ≡ [])

nil_of_length : {A : Type 0} (xs : List A) → length xs ≤ 0 → xs ≡ []
nil_of_length [] h = refl
nil_of_length (x ∷ xs) h = absurd (omega arith)

ret_injective : {A : Type 0} {x y : A} → ret x ≡ ret y → x ≡ y
ret_injective {x = x} e = ap (value x) e
  where
    value : {A : Type 0} → A → Go A → A
    value x (ret y) = y
    value x panic = x

module _ {P M : Type 0} (dec : Discrete P) (get_producer : M → P) where
  run-After :
      (es : List (Event P M)) (n u w : ℕ) (s : System P M)
      → IsTallied n u w s
      → n + total put_by es + (u + total up_by es) < 2 ^ 62
      → w + total down_by es < 2 ^ 62
      → After
          (n + total put_by es)
          (u + total up_by es)
          (w + total down_by es)
          (run dec get_producer s es)
  unfolding run
  run-After [] n u w s h small small' = simp unary_clauses h
  run-After (e ∷ es) n u w s h small small' =
      onward
        (λ s' k.
          run-After es (n + put_by e) (u + up_by e) (w + down_by e) s' k (omega arith)
            (omega arith))
        (step dec get_producer s e)
        (step-After dec get_producer n u w s e h (omega arith) (omega arith))
    where
      onward :
          ((s' : System P M)
            → IsTallied (n + put_by e) (u + up_by e) (w + down_by e) s'
            → After
                (n + put_by e + total put_by es)
                (u + up_by e + total up_by es)
                (w + down_by e + total down_by es)
                (run dec get_producer s' es))
          → (r : Go (System P M)) → After (n + put_by e) (u + up_by e) (w + down_by e) r
          → After
              (n + total put_by (e ∷ es))
              (u + total up_by (e ∷ es))
              (w + total down_by (e ∷ es))
              (r >>= λ s'. run dec get_producer s' es)
      onward again panic k = tt
      onward again (ret s') k =
          After-resp dec get_producer (run dec get_producer s' es) (omega arith) (omega arith)
            (omega arith) (again s' k)

  new-IsTallied : IsTallied 0 0 0 (new_system {P = P} {M = M})
  unfolding new_system new_dispatcher
  new-IsTallied = record { tally = λ c. refl; shut = λ c. absurd (cc); few = omega arith }

  -- From a new dispatcher, where `Start` is called at most once, so that there is one goroutine, and
  -- else whatever is called: with fewer than 2 ^ 62 calls of `Put` and steps of `IncrCount`, as long as
  -- the buffer is open the count is the number of messages whose `Put` has counted them and whose
  -- handler has not returned, and what `IncrCount` has added and taken off; and once the buffer is
  -- closed the goroutine has ended.
  pub run-IsTallied :
      (es : List (Event P M)) (s : System P M)
      → total start_by es ≤ 1
      → run dec get_producer new_system es ≡ ret s
      → total put_by es + total up_by es < 2 ^ 62
      → total down_by es < 2 ^ 62
      → IsTallied (total put_by es) (total up_by es) (total down_by es) s
  run-IsTallied es s once e small small' =
      subst (After (total put_by es) (total up_by es) (total down_by es)) e (
        After-resp dec get_producer (run dec get_producer new_system es) (omega arith) (omega arith)
          (omega arith) (run-After es 0 0 0 new_system new-IsTallied (omega arith) (omega arith)))

  -- When the goroutine that has handled a message ends, there is no message left: none is in the
  -- buffer, and no call of `Put` has counted one that it has not written. The conditions are that
  -- `Start` was called at most once, so that there is no other goroutine, that `IncrCount` has taken
  -- off no more than it has added, and that there were fewer than 2 ^ 62 calls of `Put` and steps up
  -- of `IncrCount`.
  pub stops-Drained :
      (es : List (Event P M)) (s s' : System P M) (m : M)
      → total start_by es ≤ 1
      → run dec get_producer new_system es ≡ ret s
      → s.worker ≡ handling m
      → step dec get_producer s settles ≡ ret s'
      → s'.worker ≡ stopped
      → total put_by es + total up_by es < 2 ^ 62
      → total down_by es ≤ total up_by es
      → Drained s'
  unfolding step settle settled finish close_buffer
  stops-Drained es s s' m once e at stepped end small fair =
      let h = run-IsTallied es s once e small (omega arith) in
      let (open_, mc) =
        taken_off dec get_producer (total put_by es) (total up_by es) (total down_by es) m s h at
          (omega arith) (omega arith) in
      let d' = tested dec get_producer (get_producer m) s.d in
      let same = tested-IsSame dec get_producer (get_producer m) s.d in
      let verdict = settle_count-Verdict dec get_producer (get_producer m) s.d in
      after d' same verdict mc (sym (ap (λ w. ret (settle dec get_producer w s)) at) ∙ stepped)
    where
      after :
          (d' : Dispatcher P M)
          → IsSame (add_counts dec (get_producer m) (negsuc 0) s.d) d'
          → Verdict dec get_producer d' (settle_count dec (get_producer m) s.d)
          → (add_counts dec (get_producer m) (negsuc 0) s.d).mc
            ≡ sub_ℕ (length s.d.buf + length s.writing + total up_by es) (total down_by es)
          → ret (settled (settle_count dec (get_producer m) s.d) s) ≡ ret s'
          → Drained s'
      after d' same (inl (z, f, r)) mc g =
          let none_left =
            leb_zero→le (length s.d.buf + length s.writing + total up_by es) (total down_by es)
              (sym (ap leb_zero (same.mc ∙ mc)) ∙ z) in
          subst Drained (ap (λ r. settled r s) (sym r) ∙ ret_injective g) (
            refl,
            f,
            same.buf ∙ nil_of_length s.d.buf (omega arith),
            nil_of_length s.writing (omega arith),
          )
      after d' same (inr (z, r)) mc g =
          let q =
            ap (λ (t : System P M). t.worker) (ap (λ r. settled r s) (sym r) ∙ ret_injective g) in
          absurd (cc)
