-- ===== src/StateLine/Distinct.antt =====
-- utils/chrono/state_line.go: entries with different states.
use minotaur.Base.{
  List, [], ◌∷◌, true, false, same, if◌then◌else◌, ◌≡◌, refl, sym, ◌∙◌, Bool-cases, inl, inr,
  ne→same, same-cases,
}
use minotaur.Base.Int.{ℤ, ltb_ℤ}
use minotaur.Collection.Loops.{any_of}
use minotaur.StateLine.Entries.{Entry, attach, insert, shift, has}

module _ {State T : Type 0} (dec : Discrete State) where
  abbrev pub AreDistinct : List (Entry State T) → Type 0
  AreDistinct [] = Unit {0}
  AreDistinct (e ∷ es) = (has dec e.state es ≡ false) × AreDistinct es

  pub has-insert :
      (x : State) (e : Entry State T) (es : List (Entry State T))
      → has dec x (insert e es) ≡ (if same dec e.state x then true else has dec x es)
  unfolding any_of
  has-insert x e [] = refl
  has-insert x e (y ∷ es) = elim (Bool-cases (ltb_ℤ e.point y.point)) [
    | inl q ↦ rw q refl
    | inr q ↦
        let again = has-insert x e es in
        rw (q, again)
          (elim (Bool-cases (same dec e.state x)) [
            | inl u ↦
                rw u
                  (elim (Bool-cases (same dec y.state x)) [ inl v ↦ rw v refl | inr v ↦ rw v refl ])
            | inr u ↦ rw u refl
          ])
  ]

  pub has-shift :
      (x : State) (d : ℤ) (es : List (Entry State T)) → has dec x (shift d es) ≡ has dec x es
  unfolding any_of
  has-shift x d [] = refl
  has-shift x d (e ∷ es) = rw (has-shift x d es) refl

  pub has-attach :
      (x state : State) (on_trigger : List T) (es : List (Entry State T))
      → has dec x (attach dec state on_trigger es) ≡ has dec x es
  unfolding any_of
  has-attach x state on_trigger [] = refl
  has-attach x state on_trigger (e ∷ es) = elim (Bool-cases (same dec e.state state)) [
    | inl q ↦ rw q refl
    | inr q ↦ rw (q, has-attach x state on_trigger es) refl
  ]

  pub insert-AreDistinct :
      (e : Entry State T) (es : List (Entry State T))
      → has dec e.state es ≡ false
      → AreDistinct es
      → AreDistinct (insert e es)
  unfolding any_of
  insert-AreDistinct e [] out h = (refl, tt)
  insert-AreDistinct e (x ∷ es) out (h, hs) = elim (Bool-cases (ltb_ℤ e.point x.point)) [
    | inl q ↦ rw q (out, (h, hs))
    | inr q ↦ elim (same-cases dec x.state e.state) [
      | inl (_, s) ↦ absurd (let bad : true ≡ false = rw s at out in cc)
      | inr (n, s) ↦
          let rest : has dec e.state es ≡ false = rw s at out in
          rw q (
            has-insert x.state e es ∙ rw (ne→same dec e.state x.state (λ u. n (sym u))) h,
            insert-AreDistinct e es rest hs,
          )
    ]
  ]

  pub shift-AreDistinct :
      (d : ℤ) (es : List (Entry State T)) → AreDistinct es → AreDistinct (shift d es)
  shift-AreDistinct d [] h = tt
  shift-AreDistinct d (e ∷ es) (h, hs) = (has-shift e.state d es ∙ h, shift-AreDistinct d es hs)

  pub attach-AreDistinct :
      (state : State) (on_trigger : List T) (es : List (Entry State T))
      → AreDistinct es
      → AreDistinct (attach dec state on_trigger es)
  attach-AreDistinct state on_trigger [] h = tt
  attach-AreDistinct state on_trigger (e ∷ es) (h, hs) =
      elim (Bool-cases (same dec e.state state)) [
        | inl q ↦ rw q (h, hs)
        | inr q ↦
            rw q (
              has-attach e.state state on_trigger es ∙ h,
              attach-AreDistinct state on_trigger es hs,
            )
      ]
