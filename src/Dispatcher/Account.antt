-- ===== src/Dispatcher/Account.antt =====
-- server/internal/dispatcher/dispatcher.go: what the count of a dispatcher counts.
use mathlib.Core.List.{lookup}
use minotaur.Base.{
  ℕ, ◌+◌, ◌^◌, ◌<◌, ◌≤◌, List, [], ◌∷◌, true, ret, panic, ◌≡◌, refl, ap, ◌∙◌, arith, Bool-cases,
  Option-cases, inl, inr, ◌⊎◌,
}
use minotaur.Base.Int.{
  ℤ, pos, negsuc, pos_part, neg_part, sub_ℕ, ◌+ℤ◌, wrap64, IsInt64, wrap64_of_IsInt64,
}
use minotaur.Dispatcher.{
  Act, act_expel, act_un_expel, Dispatcher, leb_zero, no_lock_expel, no_lock_un_expel, close_abort,
  run_handler, call_done,
}

module _ {P M : Type 0} where
  -- The fields that a handler cannot change.
  pub record IsSame (d d' : Dispatcher P M) : Type 0 where
    pub buf : d'.buf ≡ d.buf
    pub closed : d'.closed ≡ d.closed
    pub mc : d'.mc ≡ d.mc
    pub pmc_f : d'.pmc_f ≡ d.pmc_f
    pub closed_handler : d'.closed_handler ≡ d.closed_handler

  pub IsSame-self : (d : Dispatcher P M) → IsSame d d
  IsSame-self d = record {
    buf = refl;
    closed = refl;
    mc = refl;
    pmc_f = refl;
    closed_handler = refl;
  }

  pub expel-cases :
      (d : Dispatcher P M)
      → (no_lock_expel d ≡ panic)
        ⊎ (no_lock_expel d ≡ ret (record d { expel = true }))
        ⊎ (no_lock_expel d ≡ ret (record d { expel = true; abort = true }))
  unfolding no_lock_expel close_abort
  expel-cases d = elim (Bool-cases (leb_zero d.mc)) [
    | inl e ↦ elim (Bool-cases d.abort) [
      | inl f ↦ inl (rw (e, f) refl)
      | inr f ↦ inr (inr (rw (e, f) refl))
    ]
    | inr e ↦ inr (inl (rw e refl))
  ]

  pub run_handler-IsSame : (acts : List Act) (d : Dispatcher P M) → IsSame d (run_handler acts d)
  unfolding run_handler no_lock_un_expel
  run_handler-IsSame [] d = IsSame-self d
  run_handler-IsSame (act_un_expel ∷ acts) d =
      let h = run_handler-IsSame acts (no_lock_un_expel d) in
      record {
        buf = h.buf;
        closed = h.closed;
        mc = h.mc;
        pmc_f = h.pmc_f;
        closed_handler = h.closed_handler;
      }
  run_handler-IsSame (act_expel ∷ acts) d = elim (expel-cases d) [
    | inl e ↦
        rw (run_handler, e)
          (record { buf = refl; closed = refl; mc = refl; pmc_f = refl; closed_handler = refl })
    | inr (inl e) ↦
        let h = run_handler-IsSame acts (record d { expel = true }) in
        rw (run_handler, e)
          (record {
            buf = h.buf;
            closed = h.closed;
            mc = h.mc;
            pmc_f = h.pmc_f;
            closed_handler = h.closed_handler;
          })
    | inr (inr e) ↦
        let h = run_handler-IsSame acts (record d { expel = true; abort = true }) in
        rw (run_handler, e)
          (record {
            buf = h.buf;
            closed = h.closed;
            mc = h.mc;
            pmc_f = h.pmc_f;
            closed_handler = h.closed_handler;
          })
  ]

module _ {P M : Type 0} (dec : Discrete P) where
  pub call_done-IsSame : (p : P) (n : ℤ) (d : Dispatcher P M) → IsSame d (call_done dec p n d)
  unfolding call_done
  call_done-IsSame p n d = elim (Option-cases (lookup dec p d.pmc_f)) [
    | inl e ↦ rw (call_done, e) (IsSame-self d)
    | inr (acts, e) ↦ elim (Bool-cases (leb_zero n)) [
      | inl f ↦ rw (call_done, e, f) (run_handler-IsSame acts d)
      | inr f ↦ rw (call_done, e, f) (IsSame-self d)
    ]
  ]

sub_ℕ_shift : (x w a b : ℕ) → sub_ℕ x w +ℤ sub_ℕ a b ≡ sub_ℕ (x + a) (w + b)
unfolding ◌+ℤ◌
sub_ℕ_shift x w a b = ground arith

sub_ℕ_fits : (x w : ℕ) → x < 2 ^ 62 → w < 2 ^ 62 → IsInt64 (sub_ℕ x w)
sub_ℕ_fits x w h k = ground arith

-- A count of what has come, less a count of what has gone, where neither passes 2 ^ 62.
pub wrap64_shift :
    (x w a b : ℕ)
    → x + a < 2 ^ 62
    → w + b < 2 ^ 62
    → wrap64 (sub_ℕ x w +ℤ sub_ℕ a b) ≡ sub_ℕ (x + a) (w + b)
wrap64_shift x w a b h k =
    ap wrap64 (sub_ℕ_shift x w a b)
    ∙ wrap64_of_IsInt64 (sub_ℕ (x + a) (w + b)) (sub_ℕ_fits (x + a) (w + b) h k)

pub leb_zero→le : (x w : ℕ) → leb_zero (sub_ℕ x w) ≡ true → x ≤ w
leb_zero→le x w h = ground arith

pub sub_ℕ_parts : (i : ℤ) → sub_ℕ (pos_part i) (neg_part i) ≡ i
sub_ℕ_parts (pos n) = ground arith
sub_ℕ_parts (negsuc n) = ground arith
