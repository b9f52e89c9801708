-- ===== src/Space/Kept.antt =====
-- game/space/room_controller.go: what additions and removals leave of a room that nobody owns.
use mathlib.Core.List.{lookup}
use minotaur.Base.{
  ℕ, ◌+◌, ◌≤◌, List, [], ◌∷◌, false, Option, some, none, length, Go, ret, panic, ◌≡◌, refl, ap, ◌∙◌,
  arith, Bool-cases, Option-cases, inl, inr,
}
use minotaur.SyncMap.{put_entry, without}
use minotaur.Space.{Controller, add_checked, is_over, emit, remove_entity_event}
use minotaur.Space.Seat.{leave_seat, remove_entity, remove_each, sits}
use minotaur.Space.Calls.{run}

is_over-false : (o : Option ℕ) (n count : ℕ) → o ≡ some n → is_over o count ≡ false → count ≤ n
unfolding is_over
is_over-false none n count q h = absurd (cc)
is_over-false (some m) n count q h = ground arith

module _ {EntityId E P : Type 0} where
  -- Nobody owns the room, and it holds one entity more than its limit at most.
  pub record IsRoom (limit : Option ℕ) (rc : Controller EntityId E P) : Type 0 where
    pub ownerless : rc.owner ≡ none
    pub limited : rc.options.max_entity_count ≡ limit
    pub bounded : (n : ℕ) → limit ≡ some n → length rc.entities ≤ n + 1

  -- Where a run returns, the room is one.
  abbrev pub After : Option ℕ → Go (Controller EntityId E P) → Type 0
  After limit (ret rc) = IsRoom limit rc
  After limit panic = Unit {0}

  abbrev pub Keeps : Option ℕ → Go (Controller EntityId E P) → Type 0
  Keeps limit run = (rc' : Controller EntityId E P) × (run ≡ ret rc') × IsRoom limit rc'

module _ {EntityId E : Type 0} (dec : Discrete EntityId) where
  length-put_entry :
      (k : EntityId) (e : E) (m : List (EntityId × E)) → length (put_entry dec k e m) ≤ length m + 1
  unfolding put_entry
  length-put_entry k e [] = omega arith
  length-put_entry k e ((j, f) ∷ m) = ground (arith, length-put_entry k e m)

  length-without : (k : EntityId) (m : List (EntityId × E)) → length (without dec k m) ≤ length m
  unfolding without
  length-without k [] = omega arith
  length-without k ((j, f) ∷ m) = ground (arith, length-without k m)

module _ {EntityId E P : Type 0} (dec : Discrete EntityId) (get_id : E → EntityId) where
  pub add_checked-IsRoom :
      (limit : Option ℕ) (entity : E) (rc : Controller EntityId E P)
      → IsRoom limit rc
      → IsRoom limit (add_checked dec get_id entity rc).0
  unfolding add_checked emit
  add_checked-IsRoom limit entity rc h =
      elim (Bool-cases (is_over rc.options.max_entity_count (length rc.entities))) [
        | inl e ↦ rw e h
        | inr e ↦ rw e (record {
          ownerless = h.ownerless;
          limited = h.limited;
          bounded = λ n q.
              let room =
                is_over-false rc.options.max_entity_count n (length rc.entities) (h.limited ∙ q)
                  e in
              let grown = length-put_entry dec (get_id entity) entity rc.entities in omega arith;
        })
      ]

module _ {EntityId E P : Type 0} (dec : Discrete EntityId)
    (inherit : Controller EntityId E P → Go (Option EntityId)) where
  -- What is left of a room that nobody owns when an entity has gone.
  remove_unknown :
      (id : EntityId) (rc : Controller EntityId E P)
      → lookup dec id rc.entities ≡ none
      → remove_entity dec inherit id rc ≡ ret (leave_seat dec id rc)
  unfolding remove_entity
  remove_unknown id rc e = rw (remove_entity, leave_seat, e) refl

  remove_known :
      (id : EntityId) (entity : E) (rc : Controller EntityId E P)
      → lookup dec id rc.entities ≡ some entity
      → sits dec id rc.owner ≡ false
      → remove_entity dec inherit id rc
        ≡ ret (
            emit
              (remove_entity_event entity)
              (record (leave_seat dec id rc) { entities = without dec id rc.entities }))
  unfolding remove_entity leave_seat
  remove_known id entity rc e o = rw (remove_entity, e, o) refl

  pub removed :
      (limit : Option ℕ) (id : EntityId) (rc : Controller EntityId E P)
      → IsRoom limit rc
      → Keeps limit (remove_entity dec inherit id rc)
  unfolding leave_seat sits emit
  removed limit id rc h = elim (Option-cases (lookup dec id rc.entities)) [
    | inl e ↦ (
      leave_seat dec id rc,
      remove_unknown id rc e,
      record { ownerless = h.ownerless; limited = h.limited; bounded = h.bounded },
    )
    | inr (entity, e) ↦ (
      _,
      remove_known id entity rc e (ap (sits dec id) h.ownerless),
      record {
        ownerless = h.ownerless;
        limited = h.limited;
        bounded = λ n q.
            let b = h.bounded n q in let l = length-without dec id rc.entities in omega arith;
      },
    )
  ]

  pub removed_each :
      (limit : Option ℕ) (ids : List EntityId) (rc : Controller EntityId E P)
      → IsRoom limit rc
      → Keeps limit (remove_each dec inherit ids rc)
  unfolding remove_each
  removed_each limit [] rc h = (rc, refl, h)
  removed_each limit (id ∷ ids) rc h =
      let (rc₁, run₁, h₁) = removed limit id rc h in
      let (rc₂, run₂, h₂) =
        removed_each limit ids (record rc₁ { entities = without dec id rc₁.entities })
          (record {
            ownerless = h₁.ownerless;
            limited = h₁.limited;
            bounded = λ n q.
                let b = h₁.bounded n q in let l = length-without dec id rc₁.entities in omega arith;
          }) in
      (rc₂, rw run₁ run₂, h₂)
