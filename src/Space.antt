-- ===== src/Space.antt =====
-- game/space: rooms, their entities, seats and owner. `Space` has the state and the entities,
-- `Space/Seat` the seats, `Space/Manager` the rooms of a manager. A map is the list of its entries in
-- the order in which a range loop visits them. Each method is one step. Most hold the lock of the
-- room throughout; but ChangePassword takes none, and RemoveEntity changes the room under the lock
-- of the readers, so that calls of these two are taken one at a time. The handlers of events are outside; what they are called with is `events`.
pub mod Seat
pub mod Manager
pub mod Calls
pub mod Kept
pub mod Room
pub mod Over
pub mod Seating
pub mod Ignored
mod Tests
use mathlib.Core.List.{lookup}
use minotaur.Base.{
  ℕ, ◌+◌, List, [], ◌∷◌, ◌++◌, Bool, true, false, same, not, Option, some, none, if◌then◌else◌, ltb,
  length, map, Go, ret, panic, ◌>>=◌,
}
use minotaur.Base.Int.{ℤ, pos, negsuc}
use minotaur.SyncMap.{put_entry, without}

-- room_errors.go. `err_permission_denied` is returned nowhere.
pub data Error : Type 0 where
  err_room_full err_seat_not_empty err_not_in_room err_room_password_not_match : Error
  err_permission_denied : Error

pub data Event (EntityId E P : Type 0) : Type 0 where
  owner_change : Option EntityId → Option EntityId → Event EntityId E P
  add_entity_event : E → Event EntityId E P
  remove_entity_event : E → Event EntityId E P
  change_password_event : Option P → Option P → Event EntityId E P

-- `RoomControllerOptions`, less the handler that names an heir, which is an argument where it is
-- called.
pub record Options (P : Type 0) : Type 0 where
  pub max_entity_count : Option ℕ
  pub password : Option P
  pub owner_inherit : Bool

-- `RoomController`
pub record Controller (EntityId E P : Type 0) : Type 0 where
  pub options : Options P
  pub entities : List (EntityId × E)
  pub vacancy : List ℕ
  pub seat : List (Option EntityId)
  pub owner : Option EntityId
  pub events : List (Event EntityId E P)

module _ {P : Type 0} where
  unfoldable pub new_room_controller_options : Options P
  new_room_controller_options = record {
    max_entity_count = none;
    password = none;
    owner_inherit = false;
  }

  unfoldable pub with_owner_inherit : Bool → Options P → Options P
  with_owner_inherit inherit rco = record rco { owner_inherit = inherit }

  unfoldable pub with_max_entity_count : ℤ → Options P → Options P
  with_max_entity_count (pos n) rco =
      if ltb 0 n then record rco { max_entity_count = some n } else rco
  with_max_entity_count (negsuc n) rco = rco

  -- `is_empty` tells whether the password is the empty text.
  unfoldable pub with_password : (P → Bool) → P → Options P → Options P
  with_password is_empty password rco =
      if is_empty password then rco else record rco { password = some password }

  unfoldable pub merge_one : Option ℕ → Options P → Options P
  merge_one (some n) result = record result { max_entity_count = some n }
  merge_one none result = result

  unfoldable pub merge_onto : Options P → List (Options P) → Options P
  unfolding merge_one
  merge_onto result [] = result
  merge_onto result (option ∷ options) =
      merge_onto (merge_one option.max_entity_count result) options

  unfoldable pub merge_room_controller_options : List (Options P) → Options P
  unfolding new_room_controller_options merge_onto
  merge_room_controller_options options = merge_onto new_room_controller_options options

module _ {E : Type 0} where
  -- The loop over the conditions, which ends with true where it reaches the call of the handler. Its
  -- `continue` goes on with the next condition.
  unfoldable pub reaches_handler : E → List (E → Bool) → Bool
  reaches_handler entity [] = true
  reaches_handler entity (condition ∷ conditions) =
      let rest = reaches_handler entity conditions in if not (condition entity) then rest else rest

  -- `Broadcast`: what the handler is called with, in order.
  unfoldable pub broadcast_loop :
      {EntityId : Type 0} → List (E → Bool) → List (EntityId × E) → List E
  unfolding reaches_handler
  broadcast_loop conditions [] = []
  broadcast_loop conditions ((id, entity) ∷ entities) =
      let rest = broadcast_loop conditions entities in
      if reaches_handler entity conditions then entity ∷ rest else rest

-- `maxEntityCount != nil && len(entities) > *maxEntityCount`
unfoldable pub is_over : Option ℕ → ℕ → Bool
is_over (some n) count = ltb n count
is_over none count = false

module _ {EntityId E P : Type 0} where
  unfoldable pub new_room_controller : Options P → Controller EntityId E P
  new_room_controller options = record {
    options = options;
    entities = [];
    vacancy = [];
    seat = [];
    owner = none;
    events = [];
  }

  unfoldable pub emit : Event EntityId E P → Controller EntityId E P → Controller EntityId E P
  emit event rc = record rc { events = rc.events ++ event ∷ [] }

  unfoldable pub has_owner : Controller EntityId E P → Bool
  has_owner rc = elim rc.owner [ some o ↦ true | none ↦ false ]

  unfoldable pub get_owner_id : Controller EntityId E P → Go EntityId
  get_owner_id rc = elim rc.owner [ some o ↦ ret o | none ↦ panic ]

  -- `old := *rc.owner` panics in a room with no owner.
  unfoldable pub set_owner : EntityId → Controller EntityId E P → Go (Controller EntityId E P)
  unfolding emit
  set_owner id rc = elim rc.owner [
    | some old ↦ ret (emit (owner_change (some old) (some id)) (record rc { owner = some id }))
    | none ↦ panic
  ]

  unfoldable pub del_owner : Controller EntityId E P → Go (Controller EntityId E P)
  unfolding emit
  del_owner rc = elim rc.owner [
    | some old ↦ ret (emit (owner_change (some old) none) (record rc { owner = none }))
    | none ↦ panic
  ]

  unfoldable pub change_password : Option P → Controller EntityId E P → Controller EntityId E P
  unfolding emit
  change_password password rc =
      emit (change_password_event rc.options.password password)
        (record rc { options = record (rc.options) { password = password } })

  unfoldable pub get_entity_count : Controller EntityId E P → ℕ
  get_entity_count rc = length rc.entities

  unfoldable pub get_entity_ids : Controller EntityId E P → List EntityId
  get_entity_ids rc = map (λ e. e.0) rc.entities

  -- The first entity that a range loop meets; `zero_value` is the empty entity.
  unfoldable pub get_random_entity : E → Controller EntityId E P → E
  get_random_entity zero_value rc = elim rc.entities [ [] ↦ zero_value | e ∷ es ↦ e.1 ]

  unfoldable pub broadcast : List (E → Bool) → Controller EntityId E P → List E
  unfolding broadcast_loop
  broadcast conditions rc = broadcast_loop conditions rc.entities

module _ {EntityId E P : Type 0} (dec : Discrete EntityId) where
  unfoldable pub is_owner : EntityId → Controller EntityId E P → Bool
  is_owner id rc = elim rc.owner [ some o ↦ same dec o id | none ↦ false ]

  unfoldable pub has_entity : EntityId → Controller EntityId E P → Bool
  unfolding lookup
  has_entity id rc = elim (lookup dec id rc.entities) [ some e ↦ true | none ↦ false ]

  unfoldable pub get_entity : E → EntityId → Controller EntityId E P → E
  unfolding lookup
  get_entity zero_value id rc = elim (lookup dec id rc.entities) [ some e ↦ e | none ↦ zero_value ]

  unfoldable pub get_owner : E → Controller EntityId E P → Go E
  unfolding get_entity
  get_owner zero_value rc = elim rc.owner [
    | some o ↦ ret (get_entity zero_value o rc)
    | none ↦ panic
  ]

  -- The common end of `AddEntity` and `AddEntityByPassword`.
  unfoldable pub add_checked :
      (E → EntityId) → E → Controller EntityId E P → Controller EntityId E P × Option Error
  unfolding emit is_over put_entry
  add_checked get_id entity rc =
      if is_over rc.options.max_entity_count (length rc.entities)
      then (rc, some err_room_full)
      else (
        emit (add_entity_event entity)
            (record rc { entities = put_entry dec (get_id entity) entity rc.entities }),
        none,
      )

  unfoldable pub add_entity :
      (E → EntityId) → E → Controller EntityId E P → Controller EntityId E P × Option Error
  unfolding add_checked
  add_entity get_id entity rc = elim rc.options.password [
    | some p ↦ (rc, some err_room_password_not_match)
    | none ↦ add_checked get_id entity rc
  ]

  unfoldable pub add_entity_by_password :
      Discrete P
      → (E → EntityId)
      → E
      → P
      → Controller EntityId E P
      → Controller EntityId E P × Option Error
  unfolding add_checked
  add_entity_by_password dec_password get_id entity password rc = elim rc.options.password [
    | none ↦ (rc, some err_room_password_not_match)
    | some p ↦
        if not (same dec_password p password)
        then (rc, some err_room_password_not_match)
        else add_checked get_id entity rc
  ]
