-- ===== src/Space/Manager.antt =====
-- game/space/room_manager.go and room_options.go: the rooms of a manager, and the options that reach
-- them. A controller in the map is the shared object itself; `get_room_id` is the room's `GetId`.
use mathlib.Core.List.{lookup}
use minotaur.Base.{
  ℕ, List, [], ◌∷◌, ◌++◌, Bool, true, false, Option, some, none, if◌then◌else◌, length, map, Go,
  ret, ◌>>=◌,
}
use minotaur.SyncMap.{put_entry, without}
use minotaur.Space.{
  Options, Controller, new_room_controller, merge_room_controller_options, has_entity, broadcast,
}
use minotaur.Space.Seat.{remove_each}

-- `RoomManager`
pub record RoomManager (RoomId EntityId E P : Type 0) : Type 0 where
  pub rooms : List (RoomId × Controller EntityId E P)

module _ {RoomId EntityId E P : Type 0} where
  unfoldable pub new_room_manager : RoomManager RoomId EntityId E P
  new_room_manager = record { rooms = [] }

  unfoldable pub get_room_count : RoomManager RoomId EntityId E P → ℕ
  get_room_count rm = length rm.rooms

  unfoldable pub get_room_ids : RoomManager RoomId EntityId E P → List RoomId
  get_room_ids rm = map (λ e. e.0) rm.rooms

  unfoldable pub broadcast_rooms :
      List (E → Bool) → List (RoomId × Controller EntityId E P) → List E
  unfolding broadcast
  broadcast_rooms conditions [] = []
  broadcast_rooms conditions ((id, room) ∷ rooms) =
      broadcast conditions room ++ broadcast_rooms conditions rooms

module _ {RoomId EntityId E P : Type 0} (dec_room : Discrete RoomId) where
  unfoldable pub assume_control :
      RoomId
      → List (Options P)
      → RoomManager RoomId EntityId E P
      → RoomManager RoomId EntityId E P × Controller EntityId E P
  unfolding put_entry new_room_controller merge_room_controller_options
  assume_control id options rm =
      let controller = new_room_controller (merge_room_controller_options options) in
      (record rm { rooms = put_entry dec_room id controller rm.rooms }, controller)

  unfoldable pub get_room :
      RoomId → RoomManager RoomId EntityId E P → Option (Controller EntityId E P)
  unfolding lookup
  get_room id rm = lookup dec_room id rm.rooms

module _ {RoomId EntityId E P : Type 0} (dec_room : Discrete RoomId) (dec : Discrete EntityId) where
  -- `Destroy`: the room leaves the manager, then its entities leave the room.
  unfoldable pub destroy :
      (Controller EntityId E P → Go (Option EntityId))
      → RoomId
      → Controller EntityId E P
      → RoomManager RoomId EntityId E P
      → Go (RoomManager RoomId EntityId E P × Controller EntityId E P)
  unfolding without remove_each
  destroy inherit id rc rm = do
    let rm' = record rm { rooms = without dec_room id rm.rooms }
    rc' ← remove_each dec inherit (map (λ e. e.0) rc.entities) rc
    ret (rm', record rc' { entities = [] })

  unfoldable pub destroy_room :
      (Controller EntityId E P → Go (Option EntityId))
      → RoomId
      → RoomManager RoomId EntityId E P
      → Go (RoomManager RoomId EntityId E P)
  unfolding lookup destroy
  destroy_room inherit id rm = elim (lookup dec_room id rm.rooms) [
    | none ↦ ret rm
    | some room ↦ destroy inherit id room rm >>= λ r. ret r.0
  ]

module _ {RoomId EntityId E P : Type 0} (dec : Discrete EntityId) where
  unfoldable pub any_room : EntityId → List (RoomId × Controller EntityId E P) → Bool
  unfolding has_entity
  any_room id [] = false
  any_room id ((r, room) ∷ rooms) =
      let rest = any_room id rooms in if has_entity dec id room then true else rest

  unfoldable pub rooms_of :
      EntityId → List (RoomId × Controller EntityId E P) → List (RoomId × Controller EntityId E P)
  unfolding has_entity
  rooms_of id [] = []
  rooms_of id ((r, room) ∷ rooms) =
      let rest = rooms_of id rooms in if has_entity dec id room then (r, room) ∷ rest else rest

  unfoldable pub in_any_room : EntityId → RoomManager RoomId EntityId E P → Bool
  unfolding any_room
  in_any_room id rm = any_room id rm.rooms

  unfoldable pub get_entity_rooms :
      EntityId → RoomManager RoomId EntityId E P → List (RoomId × Controller EntityId E P)
  unfolding rooms_of
  get_entity_rooms id rm = rooms_of id rm.rooms
