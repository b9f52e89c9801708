-- ===== src/Dispatcher/Tally.antt =====
-- server/internal/dispatcher/dispatcher.go: as long as the buffer is open, the count of a dispatcher
-- is the number of its messages that are not done, and what `IncrCount` has added.
use minotaur.Base.{
  ℕ, zero, suc, ◌+◌, ◌≤◌, List, [], ◌∷◌, Bool, true, false, Option, some, none, length, Go, ret,
  panic, ◌≡◌, refl, sym, ap, ◌∙◌, arith, Bool-cases, Option-cases, inl, inr, length-append,
}
use minotaur.Base.Int.{pos_part, neg_part, sub_ℕ}
use minotaur.Dispatcher.{Dispatcher, close_buffer, write_message}
use minotaur.Dispatcher.Steps.{
  Worker, unstarted, selecting, handling, stopped, System, Event, counts, increments, pick, start,
  write_picked, take_message, take_abort, finish,
}
use minotaur.Dispatcher.Account.{IsSame}

module _ {M : Type 0} where
  abbrev pub in_hand : Worker M → ℕ
  in_hand unstarted = 0
  in_hand selecting = 0
  in_hand (handling m) = 1
  in_hand stopped = 0

  pick-length :
      (n : ℕ) (ms : List M) (p : M × List M) → pick n ms ≡ some p → length ms ≡ length p.1 + 1
  unfolding pick
  pick-length n [] p h = absurd (cc)
  pick-length zero (m ∷ ms) p h = ground arith
  pick-length (suc n) (m ∷ ms) p h = inner (pick n ms) (λ q e. pick-length n ms q e) h
    where
      inner :
          (o : Option (M × List M))
          → ((q : M × List M) → o ≡ some q → length ms ≡ length q.1 + 1)
          → (elim o as (λ o. Option (M × List M)) [ some q ↦ some (q.0, m ∷ q.1) | none ↦ none ])
            ≡ some p
          → suc (length ms) ≡ length p.1 + 1
      inner none again k = absurd (cc)
      inner (some q) again k = let r = again q refl in ground arith

module _ {P M : Type 0} where
  -- The messages of the calls of `Put` that are not done.
  abbrev pub outstanding : System P M → ℕ
  outstanding s = length s.d.buf + length s.writing + in_hand s.worker

  abbrev pub put_by : Event P M → ℕ
  put_by e = elim e [ counts m ↦ 1 | _ ↦ 0 ]

  abbrev pub up_by : Event P M → ℕ
  up_by e = elim e [ increments p i ↦ pos_part i | _ ↦ 0 ]

  abbrev pub down_by : Event P M → ℕ
  down_by e = elim e [ increments p i ↦ neg_part i | _ ↦ 0 ]

  abbrev pub total : (Event P M → ℕ) → List (Event P M) → ℕ
  total f [] = 0
  total f (e ∷ es) = f e + total f es

  -- After `n` calls of `Put`, and calls of `IncrCount` that have added `u` and taken off `w`.
  pub record IsTallied (n u w : ℕ) (s : System P M) : Type 0 where
    pub tally : s.d.closed ≡ false → s.d.mc ≡ sub_ℕ (outstanding s + u) w
    pub shut : s.d.closed ≡ true → s.worker ≡ stopped
    pub few : outstanding s ≤ n

  abbrev pub After : ℕ → ℕ → ℕ → Go (System P M) → Type 0
  After n u w (ret s) = IsTallied n u w s
  After n u w panic = Unit {0}

  pub kept :
      (n u w : ℕ) (s : System P M) (d' : Dispatcher P M)
      → IsSame s.d d'
      → IsTallied n u w s
      → IsTallied n u w (record s { d = d' })
  kept n u w s d' same h =
      let lb : length d'.buf ≡ length s.d.buf = ap length same.buf in
      record {
        tally =
            λ c. same.mc ∙ h.tally (sym same.closed ∙ c) ∙ ap (λ k. sub_ℕ k w) (omega (arith, lb));
        shut = λ c. h.shut (sym same.closed ∙ c);
        few = let f = h.few in omega (arith, lb);
      }

  pub started :
      (n u w : ℕ) (s : System P M)
      → IsTallied n u w s
      → IsTallied n u w (record s { worker = start s.worker })
  unfolding start
  started n u w s h =
      let same = idle s.worker in
      record {
        tally = λ c. h.tally c ∙ ap (λ k. sub_ℕ k w) (omega (arith, same));
        shut = λ c. ap start (h.shut c);
        few = let f = h.few in omega (arith, same);
      }
    where
      idle : (k : Worker M) → in_hand (start k) ≡ in_hand k
      idle unstarted = refl
      idle selecting = refl
      idle (handling m) = refl
      idle stopped = refl

  pub unpicked :
      (n u w : ℕ) (k : ℕ) (s : System P M)
      → IsTallied n u w s
      → IsTallied n u w (write_picked (pick k s.writing) s)
  unfolding write_picked write_message
  unpicked n u w k s h = elim (Option-cases (pick k s.writing)) [
    | inl e ↦ rw (write_picked, e) h
    | inr (p, e) ↦ elim (Bool-cases s.d.closed) [
      | inl c ↦
          let l = pick-length k s.writing p e in
          let f = h.few in
          rw (write_picked, e, c)
            (record { tally = λ o. absurd (cc); shut = λ o. h.shut c; few = omega arith })
      | inr c ↦
          let l = pick-length k s.writing p e in
          let a = length-append s.d.buf (p.0 ∷ []) in
          let f = h.few in
          rw (write_picked, e, c)
            (record {
              tally = λ o. h.tally c ∙ ap (λ k. sub_ℕ k w) (omega (arith, a));
              shut = λ o. absurd (cc);
              few = omega (arith, a);
            })
    ]
  ]

  pub taken :
      (n u w : ℕ) (worker : Worker M) (buf : List M) (s : System P M)
      → s.worker ≡ worker
      → s.d.buf ≡ buf
      → IsTallied n u w s
      → IsTallied n u w (take_message worker buf s)
  unfolding take_message
  taken n u w selecting (m ∷ ms) s at holds h =
      let l : length s.d.buf ≡ suc (length ms) = ap length holds in
      let i : in_hand s.worker ≡ 0 = ap in_hand at in
      record {
        tally = λ c. h.tally c ∙ ap (λ k. sub_ℕ k w) (omega (arith, l, i));
        shut = λ c. let q = h.shut c in absurd (cc);
        few = let f = h.few in omega (arith, l, i);
      }
  taken n u w selecting [] s at holds h = h
  taken n u w unstarted buf s at holds h = h
  taken n u w (handling m) buf s at holds h = h
  taken n u w stopped buf s at holds h = h

  pub aborted :
      (n u w : ℕ) (worker : Worker M) (b : Bool) (s : System P M)
      → s.worker ≡ worker
      → IsTallied n u w s
      → IsTallied n u w (take_abort worker b s)
  unfolding take_abort close_buffer finish
  aborted n u w selecting true s at h = record {
    tally = λ c. absurd (cc);
    shut = λ c. refl;
    few = let f = h.few in omega arith;
  }
  aborted n u w selecting false s at h = h
  aborted n u w unstarted b s at h = h
  aborted n u w (handling m) b s at h = h
  aborted n u w stopped b s at h = h
