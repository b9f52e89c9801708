-- ===== src/Space/Seating.antt =====
-- game/space/room_controller.go: taking a seat.
use minotaur.Base.{
  ℕ, zero, suc, ◌+◌, ◌-◌, ◌<◌, List, [], ◌∷◌, ◌++◌, true, false, Option, some, none, if◌then◌else◌,
  ltb, leb, length, Go, ret, panic, replicate, set, get_elem?, ◌≡◌, ◌≢◌, refl, sym, ap, ◌∙◌, arith,
  Bool-cases, inl, inr, ◌⊎◌, get_elem?_of_lt, ltb→lt, length-append, length-replicate, store_of_lt,
  leb→le, lt→ltb, index_of_get_elem?, lt_of_get_elem?,
}
use minotaur.Base.Int.{ℤ, pos, negsuc}
use minotaur.Space.{Controller, Error, err_not_in_room, err_seat_not_empty, has_entity}
use minotaur.Space.Seat.{join_seat, join_target, join_any, take_seat, is_seated}

module _ {A : Type 0} where
  get_elem?-set : (xs : List A) (i : ℕ) (v : A) → i < length xs → get_elem? (set xs i v) i ≡ some v
  get_elem?-set [] i v h = absurd (omega arith)
  get_elem?-set (x ∷ xs) zero v h = refl
  get_elem?-set (x ∷ xs) (suc i) v h = get_elem?-set xs i v (omega arith)

  get_elem?-set_other :
      (xs : List A) (i j : ℕ) (v : A) → ¬ (i ≡ j) → get_elem? (set xs i v) j ≡ get_elem? xs j
  get_elem?-set_other [] i j v n = refl
  get_elem?-set_other (x ∷ xs) zero zero v n = absurd (n refl)
  get_elem?-set_other (x ∷ xs) zero (suc j) v n = refl
  get_elem?-set_other (x ∷ xs) (suc i) zero v n = refl
  get_elem?-set_other (x ∷ xs) (suc i) (suc j) v n =
      get_elem?-set_other xs i j v (λ e. n (ap suc e))

module _ {EntityId : Type 0} where
  -- The seats, extended to the target.
  abbrev pub extended : List (Option EntityId) → ℕ → List (Option EntityId)
  extended seats target =
      if leb (length seats) target
      then seats ++ replicate (target - length seats + 1) none
      else seats

  extended-lt :
      (seats : List (Option EntityId)) (target : ℕ) → target < length (extended seats target)
  extended-lt seats target = elim (Bool-cases (leb (length seats) target)) [
    | inl e ↦
        rw
          (
            e,
            length-append seats (replicate (target - length seats + 1) none),
            length-replicate {A = Option EntityId} (target - length seats + 1) none,
          )
          (omega (arith, leb→le (length seats) target e))
    | inr e ↦ rw e (ground arith)
  ]

module _ {EntityId E P : Type 0} where
  -- Whatever the target, taking a seat returns.
  pub take_seat_lem :
      (id : EntityId) (target : ℕ) (rc : Controller EntityId E P)
      → take_seat id target rc
        ≡ ret (record rc { seat = set (extended rc.seat target) target (some id) }, none)
  unfolding take_seat
  take_seat_lem id target rc =
      rw (store_of_lt (extended rc.seat target) target (some id) (extended-lt rc.seat target)) refl

  -- The room in which `x` has taken the seat `n`.
  abbrev pub seated_at : EntityId → ℕ → Controller EntityId E P → Controller EntityId E P
  seated_at x n rc = record rc { seat = set (extended rc.seat n) n (some x) }

  -- The call returns no error and the given room, in which the entity sits on the seat.
  abbrev Sits :
      EntityId → ℕ → Controller EntityId E P → Go (Controller EntityId E P × Option Error) → Type 0
  Sits id n rc run = (run ≡ ret (rc, none)) × (get_elem? rc.seat n ≡ some (some id))

  -- What `JoinSeat` does for an entity of the room, by the seats that the caller names.
  abbrev pub Seated :
      EntityId
      → List ℤ
      → Controller EntityId E P
      → Go (Controller EntityId E P × Option Error)
      → Type 0
  Seated id [] rc run =
      (rc.vacancy ≡ []) × Sits id (length rc.seat) (seated_at id (length rc.seat) rc) run
      ⊎ ((v : ℕ) × (vacancy : List ℕ) × (rc.vacancy ≡ v ∷ vacancy)
          × Sits id v (record (seated_at id v rc) { vacancy = vacancy }) run)
  Seated id (negsuc n ∷ rest) rc run = run ≡ panic
  Seated id (pos n ∷ rest) rc run =
      ((other : EntityId) × (get_elem? rc.seat n ≡ some (some other))
        × (run ≡ ret (rc, some err_seat_not_empty)))
      ⊎ ((other : EntityId) → get_elem? rc.seat n ≢ some (some other))
        × Sits id n (seated_at id n rc) run

  seat_taken :
      (id : EntityId) (n : ℕ) (rc : Controller EntityId E P)
      → Sits id n (seated_at id n rc) (take_seat id n rc)
  seat_taken id n rc = (
    take_seat_lem id n rc,
    get_elem?-set (extended rc.seat n) n (some id) (extended-lt rc.seat n),
  )

  join_any-Seated :
      (id : EntityId) (vacancy : List ℕ) (rc : Controller EntityId E P)
      → rc.vacancy ≡ vacancy
      → Seated id [] rc (join_any id vacancy rc)
  unfolding join_any
  join_any-Seated id [] rc e = inl (e, seat_taken id (length rc.seat) rc)
  join_any-Seated id (v ∷ vacancy) rc e =
      inr (v, vacancy, e, seat_taken id v (record rc { vacancy = vacancy }))

  join_target-Seated :
      (id : EntityId) (target : ℤ) (rest : List ℤ) (rc : Controller EntityId E P)
      → Seated id (target ∷ rest) rc (join_target id target rc)
  unfolding join_target is_seated
  join_target-Seated id (negsuc n) rest rc = refl
  join_target-Seated id (pos n) rest rc = elim (Bool-cases (ltb n (length rc.seat))) [
    | inl e ↦ let (s, at) = get_elem?_of_lt rc.seat n (ltb→lt n (length rc.seat) e) in go e s at
    | inr e ↦ rw e (
        inr (
          (λ other at. absurd (beyond e (lt_of_get_elem? rc.seat n (some other) at))),
          seat_taken id n rc,
        ))
  ]
    where
      beyond : ltb n (length rc.seat) ≡ false → n < length rc.seat → ⊥
      beyond e less = absurd (differ (sym (lt→ltb n (length rc.seat) less) ∙ e))
        where
          differ : true ≡ false → ⊥
          differ h = absurd (cc)

      chosen :
          (s : Option EntityId)
          → get_elem? rc.seat n ≡ some s
          → Seated id
              (pos n ∷ rest)
              rc
              (if is_seated s then ret (rc, some err_seat_not_empty) else take_seat id n rc)
      chosen (some other) at = inl (other, at, refl)
      chosen none at = inr ((λ other q. free other (sym at ∙ q)), seat_taken id n rc)
        where
          free : (other : EntityId) → some none ≡ some (some other) → ⊥
          free other h = absurd (cc)

      go :
          ltb n (length rc.seat) ≡ true
          → (s : Option EntityId) → get_elem? rc.seat n ≡ some s
          → Seated id (pos n ∷ rest) rc (join_target id (pos n) rc)
      go e s at = rw (e, index_of_get_elem? rc.seat n s at) (chosen s at)

module _ {EntityId E P : Type 0} (dec : Discrete EntityId) where
  -- What `JoinSeat` does.
  abbrev pub Outcome :
      EntityId
      → List ℤ
      → Controller EntityId E P
      → Go (Controller EntityId E P × Option Error)
      → Type 0
  Outcome id seat rc run =
      (has_entity dec id rc ≡ false) × (run ≡ ret (rc, some err_not_in_room))
      ⊎ (has_entity dec id rc ≡ true) × Seated id seat rc run

  -- `JoinSeat` refuses an entity that is not in the room, panics at a named seat below 0, and refuses
  -- a named seat on which someone sits, with nothing changed. Else the entity sits on the named
  -- seat, where there may be new empty ones before it and the list of vacant seats stays as it is; or
  -- where none is named, on the first of the vacant seats, which is off the list, or on a new last
  -- one if there is no vacant one.
  pub join_seat-Outcome :
      (id : EntityId) (seat : List ℤ) (rc : Controller EntityId E P)
      → Outcome id seat rc (join_seat dec id seat rc)
  unfolding join_seat
  join_seat-Outcome id seat rc = elim (Bool-cases (has_entity dec id rc)) [
    | inl e ↦ rw e (inr (refl, go seat))
    | inr e ↦ rw e (inl (refl, refl))
  ]
    where
      go :
          (seat : List ℤ)
          → Seated id seat rc (elim seat [
            | target ∷ rest ↦ join_target id target rc
            | [] ↦ join_any id rc.vacancy rc
          ])
      go [] = join_any-Seated id rc.vacancy rc refl
      go (target ∷ rest) = join_target-Seated id target rest rc

  named_free :
      (x : EntityId) (n : ℕ) (rc : Controller EntityId E P)
      → get_elem? rc.seat n ≡ some none
      → has_entity dec x rc ≡ true
      → join_seat dec x (pos n ∷ []) rc ≡ take_seat x n rc
  unfolding join_seat join_target is_seated
  named_free x n rc free h =
      rw
        (
          h,
          lt→ltb n (length rc.seat) (lt_of_get_elem? rc.seat n none free),
          index_of_get_elem? rc.seat n none free,
        )
        refl

  any_seat :
      (y : EntityId) (rc : Controller EntityId E P)
      → has_entity dec y rc ≡ true
      → join_seat dec y [] rc ≡ join_any y rc.vacancy rc
  unfolding join_seat
  any_seat y rc h = rw h refl

  has_entity-seated_at :
      (x y : EntityId) (n : ℕ) (rc : Controller EntityId E P)
      → has_entity dec y (seated_at x n rc) ≡ has_entity dec y rc
  unfolding has_entity
  has_entity-seated_at x y n rc = refl

  -- A seat that an entity takes by its number stays on the list of vacant seats: the next entity
  -- that asks for any seat is given it, and the first one has lost it.
  pub join_seat_evicts :
      (x y : EntityId) (n : ℕ) (vacancy : List ℕ) (rc : Controller EntityId E P)
      → rc.vacancy ≡ n ∷ vacancy
      → get_elem? rc.seat n ≡ some none
      → has_entity dec x rc ≡ true
      → has_entity dec y rc ≡ true
      → (rc₁ : Controller EntityId E P) × (rc₂ : Controller EntityId E P) × (join_seat dec x
            (pos n ∷ [])
            rc
          ≡ ret (rc₁, none))
        × (get_elem? rc₁.seat n ≡ some (some x))
        × (join_seat dec y [] rc₁ ≡ ret (rc₂, none))
        × (get_elem? rc₂.seat n ≡ some (some y))
  unfolding join_any
  join_seat_evicts x y n vacancy rc v free hx hy =
      let rc₁ = seated_at x n rc in
      let rc₂ = seated_at y n (record rc₁ { vacancy = vacancy }) in
      (
        rc₁,
        rc₂,
        named_free x n rc free hx ∙ take_seat_lem x n rc,
        get_elem?-set (extended rc.seat n) n (some x) (extended-lt rc.seat n),
        any_seat y rc₁ (has_entity-seated_at x y n rc ∙ hy)
            ∙ ap (λ vs. join_any y vs rc₁) v
            ∙ take_seat_lem y n (record rc₁ { vacancy = vacancy }),
        get_elem?-set (extended rc₁.seat n) n (some y) (extended-lt rc₁.seat n),
      )
