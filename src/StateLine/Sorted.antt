-- ===== src/StateLine/Sorted.antt =====
-- utils/chrono/state_line.go: entries in the order of their times.
use minotaur.Base.{List, [], ◌∷◌, true, false, same, ◌≡◌, arith, Bool-cases, inl, inr}
use minotaur.Base.Int.{ℤ, ◌+ℤ◌, ltb_ℤ, ◌≤ℤ◌}
use minotaur.StateLine.Entries.{Entry, attach, insert, shift}

le_add_ℤ : (a b d : ℤ) → a ≤ℤ b → a +ℤ d ≤ℤ b +ℤ d
unfolding ◌+ℤ◌
le_add_ℤ a b d h = ground arith

ltb_ℤ→le : (a b : ℤ) → ltb_ℤ a b ≡ false → b ≤ℤ a
ltb_ℤ→le a b h = ground arith

ltb_ℤ→lt : (a b : ℤ) → ltb_ℤ a b ≡ true → a ≤ℤ b
ltb_ℤ→lt a b h = ground arith

le_trans_ℤ : (a b c : ℤ) → a ≤ℤ b → b ≤ℤ c → a ≤ℤ c
le_trans_ℤ a b c h k = omega arith

module _ {State T : Type 0} where
  -- None of the entries begins before `t`.
  abbrev pub NoneBefore : ℤ → List (Entry State T) → Type 0
  NoneBefore t [] = Unit {0}
  NoneBefore t (e ∷ es) = (t ≤ℤ e.point) × NoneBefore t es

  abbrev pub IsSorted : List (Entry State T) → Type 0
  IsSorted [] = Unit {0}
  IsSorted (e ∷ es) = NoneBefore e.point es × IsSorted es

  pub none_earlier :
      (a b : ℤ) (es : List (Entry State T)) → a ≤ℤ b → NoneBefore b es → NoneBefore a es
  none_earlier a b [] h k = tt
  none_earlier a b (e ∷ es) h (k, ks) = (le_trans_ℤ a b e.point h k, none_earlier a b es h ks)

  pub insert-NoneBefore :
      (t : ℤ) (e : Entry State T) (es : List (Entry State T))
      → t ≤ℤ e.point
      → NoneBefore t es
      → NoneBefore t (insert e es)
  insert-NoneBefore t e [] h k = (h, tt)
  insert-NoneBefore t e (x ∷ es) h (k, ks) = elim (Bool-cases (ltb_ℤ e.point x.point)) [
    | inl q ↦ rw q (h, (k, ks))
    | inr q ↦ rw q (k, insert-NoneBefore t e es h ks)
  ]

  pub insert-IsSorted :
      (e : Entry State T) (es : List (Entry State T)) → IsSorted es → IsSorted (insert e es)
  insert-IsSorted e [] h = (tt, tt)
  insert-IsSorted e (x ∷ es) (h, hs) = elim (Bool-cases (ltb_ℤ e.point x.point)) [
    | inl q ↦
        let before = ltb_ℤ→lt e.point x.point q in
        rw q ((before, none_earlier e.point x.point es before h), (h, hs))
    | inr q ↦
        rw q
          (insert-NoneBefore x.point e es (ltb_ℤ→le e.point x.point q) h, insert-IsSorted e es hs)
  ]

  pub shift-NoneBefore :
      (t d : ℤ) (es : List (Entry State T)) → NoneBefore t es → NoneBefore (t +ℤ d) (shift d es)
  shift-NoneBefore t d [] h = tt
  shift-NoneBefore t d (e ∷ es) (h, hs) = (le_add_ℤ t e.point d h, shift-NoneBefore t d es hs)

  pub shift-IsSorted : (d : ℤ) (es : List (Entry State T)) → IsSorted es → IsSorted (shift d es)
  shift-IsSorted d [] h = tt
  shift-IsSorted d (e ∷ es) (h, hs) = (shift-NoneBefore e.point d es h, shift-IsSorted d es hs)

module _ {State T : Type 0} (dec : Discrete State) where
  pub attach-NoneBefore :
      (t : ℤ) (state : State) (on_trigger : List T) (es : List (Entry State T))
      → NoneBefore t es
      → NoneBefore t (attach dec state on_trigger es)
  attach-NoneBefore t state on_trigger [] h = tt
  attach-NoneBefore t state on_trigger (e ∷ es) (h, hs) =
      elim (Bool-cases (same dec e.state state)) [
        | inl q ↦ rw q (h, hs)
        | inr q ↦ rw q (h, attach-NoneBefore t state on_trigger es hs)
      ]

  pub attach-IsSorted :
      (state : State) (on_trigger : List T) (es : List (Entry State T))
      → IsSorted es
      → IsSorted (attach dec state on_trigger es)
  attach-IsSorted state on_trigger [] h = tt
  attach-IsSorted state on_trigger (e ∷ es) (h, hs) = elim (Bool-cases (same dec e.state state)) [
    | inl q ↦ rw q (h, hs)
    | inr q ↦
        rw q
          (attach-NoneBefore e.point state on_trigger es h, attach-IsSorted state on_trigger es hs)
  ]
