-- ===== src/StateLine/Checks.antt =====
-- utils/chrono/state_line.go: what Check decides.
use minotaur.Base.{
  List, [], ◌∷◌, true, false, ◌≡◌, ◌≢◌, refl, ap₂, subst, inl, inr, ◌↔◌, eq→same, same-cases,
}
use minotaur.StateLine.{StateLine, check_states, check_line}

module _ {State : Type 0} where
  -- The first list is the second without some of its elements.
  pub data Sublist : List State → List State → Type 0 where
    nil : Sublist [] []
    skip : {xs ys : List State} (y : State) → Sublist xs ys → Sublist xs (y ∷ ys)
    keep : {xs ys : List State} (x y : State) → x ≡ y → Sublist xs ys → Sublist (x ∷ xs) (y ∷ ys)

  none_of : (ys : List State) → Sublist [] ys
  none_of [] = nil
  none_of (y ∷ ys) = skip y (none_of ys)

  -- A sublist without its first element.
  sublist_rest : (x : State) (xs ys : List State) → Sublist (x ∷ xs) ys → Sublist xs ys
  sublist_rest x xs [] h = elim h [ ]
  sublist_rest x xs (y ∷ ys) (skip _ h) = skip y (sublist_rest x xs ys h)
  sublist_rest x xs (y ∷ ys) (keep _ _ e h) = skip y h

module _ {State : Type 0} (dec : Discrete State) where
  check_in_order : (xs ys : List State) → check_states dec true xs ys ≡ true → Sublist xs ys
  unfolding check_states
  check_in_order [] ys h = none_of ys
  check_in_order (x ∷ xs) [] h = absurd (cc)
  check_in_order (x ∷ xs) (y ∷ ys) h = elim (same-cases dec x y) [
    | inl (e, s) ↦ keep x y e (check_in_order xs ys (rw s at h))
    | inr (n, s) ↦ skip y (check_in_order (x ∷ xs) ys (rw s at h))
  ]

  same-Sublist : (x y : State) (xs ys : List State) → Sublist (x ∷ xs) (y ∷ ys) → Sublist xs ys
  same-Sublist x y xs ys (skip _ h) = sublist_rest x xs ys h
  same-Sublist x y xs ys (keep _ _ e h) = h

  other-Sublist :
      (x y : State) (xs ys : List State) → x ≢ y → Sublist (x ∷ xs) (y ∷ ys) → Sublist (x ∷ xs) ys
  other-Sublist x y xs ys n (skip _ h) = h
  other-Sublist x y xs ys n (keep _ _ e h) = absurd (n e)

  none_left : (x : State) (xs : List State) → ¬ Sublist (x ∷ xs) []
  none_left x xs h = elim h [ ]

  in_order_check : (xs ys : List State) → Sublist xs ys → check_states dec true xs ys ≡ true
  unfolding check_states
  in_order_check [] [] h = refl
  in_order_check [] (y ∷ ys) h = refl
  in_order_check (x ∷ xs) [] h = absurd (none_left x xs h)
  in_order_check (x ∷ xs) (y ∷ ys) h = elim (same-cases dec x y) [
    | inl (e, s) ↦ rw s (in_order_check xs ys (same-Sublist x y xs ys h))
    | inr (n, s) ↦ rw s (in_order_check (x ∷ xs) ys (other-Sublist x y xs ys n h))
  ]

  check_equal : (xs ys : List State) → check_states dec false xs ys ≡ true → xs ≡ ys
  unfolding check_states
  check_equal [] [] h = refl
  check_equal [] (y ∷ ys) h = absurd (cc)
  check_equal (x ∷ xs) [] h = absurd (cc)
  check_equal (x ∷ xs) (y ∷ ys) h = elim (same-cases dec x y) [
    | inl (e, s) ↦ ap₂ ◌∷◌ e (check_equal xs ys (rw s at h))
    | inr (n, s) ↦ absurd (let bad : false ≡ true = rw s at h in cc)
  ]

  equal_check : (xs : List State) → check_states dec false xs xs ≡ true
  unfolding check_states
  equal_check [] = refl
  equal_check (x ∷ xs) = rw (eq→same dec x x refl) (equal_check xs)

  -- Check without missing states holds exactly if the states are those of the line, and Check with
  -- missing states exactly if the states of the line are a part of them, in their order.
  pub check_line_iff :
      {T : Type 0} (states : List State) (s : StateLine State T)
      → ((check_line dec false states s ≡ true) ↔ (s.states ≡ states))
        × ((check_line dec true states s ≡ true) ↔ Sublist s.states states)
  unfolding check_line
  check_line_iff states s = (
    (
      check_equal s.states states,
      λ e. subst (λ ys. check_states dec false s.states ys ≡ true) e (equal_check s.states),
    ),
    (check_in_order s.states states, in_order_check s.states states),
  )
