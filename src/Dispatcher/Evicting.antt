-- ===== src/Dispatcher/Evicting.antt =====
-- server/internal/dispatcher/dispatcher.go: handlers that do not call `UnExpel`, and what handlers do
-- to the channel `abort`.
use mathlib.Core.List.{lookup}
use mathlib.Core.Logic.{ite}
use minotaur.Base.{
  List, [], ◌∷◌, true, false, Option, some, none, ret, panic, ◌≡◌, refl, subst, Bool-cases,
  Option-cases, inl, inr,
}
use minotaur.Base.Int.{ℤ}
use minotaur.Dispatcher.{
  Act, act_expel, act_un_expel, Dispatcher, leb_zero, close_abort, no_lock_expel, no_lock_un_expel,
  call_done, run_handler,
}
use minotaur.Dispatcher.Account.{expel-cases}

-- None of the calls of a handler is `UnExpel`.
abbrev pub Evicting : List Act → Type 0
Evicting [] = Unit {0}
Evicting (act_expel ∷ acts) = Evicting acts
Evicting (act_un_expel ∷ acts) = ⊥

abbrev pub AllEvicting : {P : Type 0} → List (P × List Act) → Type 0
AllEvicting [] = Unit {0}
AllEvicting (e ∷ m) = Evicting e.1 × AllEvicting m

abbrev MaybeEvicting : Option (List Act) → Type 0
MaybeEvicting none = Unit {0}
MaybeEvicting (some acts) = Evicting acts

lookup-MaybeEvicting :
    {P : Type 0} (dec : Discrete P) (p : P) (m : List (P × List Act))
    → AllEvicting m
    → MaybeEvicting (lookup dec p m)
unfolding lookup
lookup-MaybeEvicting dec p [] h = tt
lookup-MaybeEvicting dec p ((q, f) ∷ m) h =
    elim (dec p q) as (λ d. MaybeEvicting (ite d (some f) (lookup dec p m))) [
      | yes _ ↦ h.0
      | no _ ↦ lookup-MaybeEvicting dec p m h.1
    ]

lookup-Evicting :
    {P : Type 0} (dec : Discrete P) (p : P) (acts : List Act) (m : List (P × List Act))
    → AllEvicting m
    → lookup dec p m ≡ some acts
    → Evicting acts
lookup-Evicting dec p acts m h e = subst MaybeEvicting e (lookup-MaybeEvicting dec p m h)

module _ {P M : Type 0} where
  run_handler-expel :
      (acts : List Act) (d : Dispatcher P M)
      → Evicting acts
      → d.expel ≡ true
      → (run_handler acts d).expel ≡ true
  unfolding run_handler
  run_handler-expel [] d h e = e
  run_handler-expel (act_un_expel ∷ acts) d h e = absurd h
  run_handler-expel (act_expel ∷ acts) d h e = elim (expel-cases d) [
    | inl q ↦ rw (run_handler, q) refl
    | inr (inl q) ↦ rw (run_handler, q) (run_handler-expel acts _ h refl)
    | inr (inr q) ↦ rw (run_handler, q) (run_handler-expel acts _ h refl)
  ]

module _ {P M : Type 0} (dec : Discrete P) where
  pub call_done-expel :
      (p : P) (n : ℤ) (d : Dispatcher P M)
      → AllEvicting d.pmc_f
      → d.expel ≡ true
      → (call_done dec p n d).expel ≡ true
  unfolding call_done
  call_done-expel p n d h e = elim (Option-cases (lookup dec p d.pmc_f)) [
    | inl q ↦ rw (call_done, q) e
    | inr (acts, q) ↦ elim (Bool-cases (leb_zero n)) [
      | inl f ↦
          rw (call_done, q, f) (run_handler-expel acts d (lookup-Evicting dec p acts d.pmc_f h q) e)
      | inr f ↦ rw (call_done, q, f) e
    ]
  ]

module _ {P M : Type 0} where
  -- `Expel` with something counted.
  expel_counted :
      (d : Dispatcher P M)
      → leb_zero d.mc ≡ false
      → no_lock_expel d ≡ ret (record d { expel = true })
  unfolding no_lock_expel
  expel_counted d z = rw z refl

  run_handler-abort :
      (acts : List Act) (d : Dispatcher P M)
      → leb_zero d.mc ≡ false
      → (run_handler acts d).abort ≡ d.abort
  unfolding run_handler no_lock_un_expel
  run_handler-abort [] d z = refl
  run_handler-abort (act_un_expel ∷ acts) d z = run_handler-abort acts (no_lock_un_expel d) z
  run_handler-abort (act_expel ∷ acts) d z =
      rw (run_handler, expel_counted d z) (run_handler-abort acts (record d { expel = true }) z)

  expel_closed :
      (d : Dispatcher P M) → d.abort ≡ true → leb_zero d.mc ≡ true → no_lock_expel d ≡ panic
  unfolding no_lock_expel close_abort
  expel_closed d a z = rw (z, a) refl

  -- A channel that is closed stays closed.
  pub run_handler-closed :
      (acts : List Act) (d : Dispatcher P M) → d.abort ≡ true → (run_handler acts d).abort ≡ true
  unfolding run_handler no_lock_un_expel
  run_handler-closed [] d a = a
  run_handler-closed (act_un_expel ∷ acts) d a = run_handler-closed acts (no_lock_un_expel d) a
  run_handler-closed (act_expel ∷ acts) d a = elim (Bool-cases (leb_zero d.mc)) [
    | inl z ↦ rw (run_handler, expel_closed d a z) a
    | inr z ↦
        rw (run_handler, expel_counted d z) (run_handler-closed acts (record d { expel = true }) a)
  ]

module _ {P M : Type 0} (dec : Discrete P) where
  pub call_done-abort :
      (p : P) (n : ℤ) (d : Dispatcher P M)
      → leb_zero d.mc ≡ false
      → (call_done dec p n d).abort ≡ d.abort
  unfolding call_done
  call_done-abort p n d z = elim (Option-cases (lookup dec p d.pmc_f)) [
    | inl q ↦ rw (call_done, q) refl
    | inr (acts, q) ↦ elim (Bool-cases (leb_zero n)) [
      | inl f ↦ rw (call_done, q, f) (run_handler-abort acts d z)
      | inr f ↦ rw (call_done, q, f) refl
    ]
  ]

  pub call_done-closed :
      (p : P) (n : ℤ) (d : Dispatcher P M) → d.abort ≡ true → (call_done dec p n d).abort ≡ true
  unfolding call_done
  call_done-closed p n d a = elim (Option-cases (lookup dec p d.pmc_f)) [
    | inl q ↦ rw (call_done, q) a
    | inr (acts, q) ↦ elim (Bool-cases (leb_zero n)) [
      | inl f ↦ rw (call_done, q, f) (run_handler-closed acts d a)
      | inr f ↦ rw (call_done, q, f) a
    ]
  ]
