-- ===== src/Space/Seat.antt =====
-- game/space/room_controller.go: the seats, and who leaves the room.
use mathlib.Core.List.{lookup}
use minotaur.Base.{
  ℕ, suc, ◌+◌, ◌-◌, List, [], ◌∷◌, ◌++◌, Bool, true, false, same, not, Option, some, none,
  if◌then◌else◌, ltb, leb, length, map, Go, ret, panic, ◌>>=◌, index, store, replicate,
}
use minotaur.Base.Int.{ℤ, pos, negsuc}
use minotaur.SyncMap.{without}
use minotaur.Space.{
  Controller, Error, err_not_in_room, err_seat_not_empty, owner_change, remove_entity_event, emit,
  has_entity, get_entity,
}

unfoldable pub is_seated : {A : Type 0} → Option A → Bool
is_seated (some a) = true
is_seated none = false

unfoldable pub vacate : Option ℕ → List ℕ → List ℕ
vacate (some i) vacancy = vacancy ++ i ∷ []
vacate none vacancy = vacancy

module _ {EntityId : Type 0} where
  unfoldable pub first_seated : ℕ → List (Option EntityId) → ℤ
  first_seated i [] = negsuc 0
  first_seated i (some id ∷ seats) = pos i
  first_seated i (none ∷ seats) = first_seated (i + 1) seats

  unfoldable pub seated_from : ℕ → List (Option EntityId) → List ℕ
  seated_from i [] = []
  seated_from i (some id ∷ seats) = i ∷ seated_from (i + 1) seats
  seated_from i (none ∷ seats) = seated_from (i + 1) seats

  unfoldable pub count_seated : List (Option EntityId) → ℕ
  count_seated [] = 0
  count_seated (some id ∷ seats) = suc (count_seated seats)
  count_seated (none ∷ seats) = count_seated seats

module _ {EntityId : Type 0} (dec : Discrete EntityId) where
  -- `seat != nil && *seat == entityId`
  unfoldable pub sits : EntityId → Option EntityId → Bool
  sits id (some s) = same dec s id
  sits id none = false

  -- The loop of `leaveSeat`: the first seat of the entity from the index `i` on, and the seats with
  -- this one empty.
  unfoldable pub leave_from :
      EntityId → ℕ → List (Option EntityId) → Option ℕ × List (Option EntityId)
  unfolding sits
  leave_from id i [] = (none, [])
  leave_from id i (s ∷ seats) =
      let rest = leave_from id (i + 1) seats in
      if sits id s then (some i, none ∷ seats) else (rest.0, s ∷ rest.1)

  unfoldable pub seat_from : EntityId → ℕ → List (Option EntityId) → ℤ
  unfolding sits
  seat_from id i [] = negsuc 0
  seat_from id i (s ∷ seats) =
      let rest = seat_from id (i + 1) seats in if sits id s then pos i else rest

module _ {EntityId E P : Type 0} where
  -- The end of `JoinSeat`: the seats are extended to the target, which is then taken.
  unfoldable pub take_seat :
      EntityId → ℕ → Controller EntityId E P → Go (Controller EntityId E P × Option Error)
  take_seat id target rc = do
    let seats =
        if leb (length rc.seat) target
        then rc.seat ++ replicate (target - length rc.seat + 1) none
        else rc.seat
    seats' ← store seats target (some id)
    ret (record rc { seat = seats' }, none)

  -- The target that the caller names. An index below 0 panics.
  unfoldable pub join_target :
      EntityId → ℤ → Controller EntityId E P → Go (Controller EntityId E P × Option Error)
  unfolding take_seat is_seated
  join_target id (negsuc n) rc = panic
  join_target id (pos target) rc =
      if ltb target (length rc.seat)
      then (index rc.seat target >>= λ s.
          if is_seated s then ret (rc, some err_seat_not_empty) else take_seat id target rc)
      else take_seat id target rc

  unfoldable pub join_any :
      EntityId → List ℕ → Controller EntityId E P → Go (Controller EntityId E P × Option Error)
  unfolding take_seat
  join_any id [] rc = take_seat id (length rc.seat) rc
  join_any id (v ∷ vacancy) rc = take_seat id v (record rc { vacancy = vacancy })

  unfoldable pub get_first_not_empty_seat : Controller EntityId E P → ℤ
  unfolding first_seated
  get_first_not_empty_seat rc = first_seated 0 rc.seat

  unfoldable pub get_not_empty_seat : Controller EntityId E P → List ℕ
  unfolding seated_from
  get_not_empty_seat rc = seated_from 0 rc.seat

  unfoldable pub get_empty_seat : Controller EntityId E P → List ℕ
  get_empty_seat rc = rc.vacancy

  unfoldable pub get_seat_entity_count : Controller EntityId E P → ℕ
  unfolding count_seated
  get_seat_entity_count rc = count_seated rc.seat

module _ {EntityId E P : Type 0} (dec : Discrete EntityId) where
  unfoldable pub join_seat :
      EntityId → List ℤ → Controller EntityId E P → Go (Controller EntityId E P × Option Error)
  unfolding has_entity join_target join_any
  join_seat id seat rc =
      if not (has_entity dec id rc)
      then ret (rc, some err_not_in_room)
      else elim seat [ target ∷ rest ↦ join_target id target rc | [] ↦ join_any id rc.vacancy rc ]

  unfoldable pub leave_seat : EntityId → Controller EntityId E P → Controller EntityId E P
  unfolding leave_from vacate
  leave_seat id rc =
      let left = leave_from dec id 0 rc.seat in
      record rc { seat = left.1; vacancy = vacate left.0 rc.vacancy }

  unfoldable pub get_seat : EntityId → Controller EntityId E P → ℤ
  unfolding seat_from
  get_seat id rc = seat_from dec id 0 rc.seat

  unfoldable pub has_seat : EntityId → Controller EntityId E P → Bool
  unfolding get_seat
  has_seat id rc = elim (get_seat id rc) [ pos i ↦ true | negsuc i ↦ false ]

  -- An heir is named by `inherit`, the handler of the options, which reads the room.
  unfoldable pub remove_entity :
      (Controller EntityId E P → Go (Option EntityId))
      → EntityId
      → Controller EntityId E P
      → Go (Controller EntityId E P)
  unfolding leave_seat lookup without emit
  remove_entity inherit id rc =
      let rc₁ = leave_seat id rc in
      elim (lookup dec id rc₁.entities) [
        | none ↦ ret rc₁
        | some entity ↦
            let rc₂ = record rc₁ { entities = without dec id rc₁.entities } in
            if sits dec id rc₂.owner
            then (if not rc₂.options.owner_inherit
                then ret (emit (remove_entity_event entity) (record rc₂ { owner = none }))
                else (inherit rc₂ >>= λ heir. ret (
                    emit (owner_change (some id) heir)
                      (emit (remove_entity_event entity) (record rc₂ { owner = heir })))))
            else ret (emit (remove_entity_event entity) rc₂)
      ]

  -- `RemoveAllEntities`, over the keys that the range loop visits.
  unfoldable pub remove_each :
      (Controller EntityId E P → Go (Option EntityId))
      → List EntityId
      → Controller EntityId E P
      → Go (Controller EntityId E P)
  unfolding remove_entity without
  remove_each inherit [] rc = ret rc
  remove_each inherit (id ∷ ids) rc = do
    rc' ← remove_entity inherit id rc
    remove_each inherit ids (record rc' { entities = without dec id rc'.entities })

  unfoldable pub remove_all_entities :
      (Controller EntityId E P → Go (Option EntityId))
      → Controller EntityId E P
      → Go (Controller EntityId E P)
  unfolding remove_each
  remove_all_entities inherit rc = remove_each inherit (map (λ e. e.0) rc.entities) rc

module _ {EntityId E : Type 0} (zero_value : E) where
  -- `GetFirstEmptySeatEntity` reads through the nil pointer of the first empty seat.
  unfoldable pub first_empty : List (Option EntityId) → Go E
  first_empty [] = ret zero_value
  first_empty (none ∷ seats) = panic
  first_empty (some id ∷ seats) = first_empty seats

module _ {EntityId E P : Type 0} (dec : Discrete EntityId) (zero_value : E) where
  unfoldable pub seat_entities : Controller EntityId E P → List (Option EntityId) → List E
  unfolding get_entity
  seat_entities rc [] = []
  seat_entities rc (some id ∷ seats) = get_entity dec zero_value id rc ∷ seat_entities rc seats
  seat_entities rc (none ∷ seats) = seat_entities rc seats

  unfoldable pub get_seat_entities_by_ordered : Controller EntityId E P → List E
  unfolding seat_entities
  get_seat_entities_by_ordered rc = seat_entities rc rc.seat

  unfoldable pub entity_or_empty : Controller EntityId E P → Option EntityId → E
  unfolding get_entity
  entity_or_empty rc (some id) = get_entity dec zero_value id rc
  entity_or_empty rc none = zero_value

  unfoldable pub get_seat_entities_by_ordered_and_contains_empty : Controller EntityId E P → List E
  unfolding entity_or_empty
  get_seat_entities_by_ordered_and_contains_empty rc = map (entity_or_empty rc) rc.seat

  unfoldable pub get_seat_entity : ℤ → Controller EntityId E P → Go E
  unfolding entity_or_empty
  get_seat_entity (negsuc n) rc = panic
  get_seat_entity (pos n) rc =
      if ltb n (length rc.seat)
      then (index rc.seat n >>= λ s. ret (entity_or_empty rc s))
      else ret zero_value

module _ {EntityId E P : Type 0} (zero_value : E) where
  unfoldable pub get_first_empty_seat_entity : Controller EntityId E P → Go E
  unfolding first_empty
  get_first_empty_seat_entity rc = first_empty zero_value rc.seat
