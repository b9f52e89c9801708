-- ===== src/Space/Calls.antt =====
-- game/space/room_controller.go: the calls that change a room.
use minotaur.Base.{List, [], ◌∷◌, Option, map, Go, ret, ◌>>=◌}
use minotaur.Base.Int.{ℤ}
use minotaur.Space.{
  Controller, set_owner, del_owner, change_password, add_entity, add_entity_by_password,
}
use minotaur.Space.Seat.{join_seat, leave_seat, remove_entity, remove_each, remove_all_entities}

-- The methods that change a room; of `Destroy`, what it does to the room.
pub data Call (EntityId E P : Type 0) : Type 0 where
  adding : E → Call EntityId E P
  adding_by_password : E → P → Call EntityId E P
  removing : EntityId → Call EntityId E P
  removing_all : Call EntityId E P
  joining : EntityId → List ℤ → Call EntityId E P
  leaving : EntityId → Call EntityId E P
  owning : EntityId → Call EntityId E P
  disowning : Call EntityId E P
  passwording : Option P → Call EntityId E P
  destroying : Call EntityId E P

module _ {EntityId E P : Type 0} (dec : Discrete EntityId) (dec_password : Discrete P)
    (get_id : E → EntityId) (inherit : Controller EntityId E P → Go (Option EntityId)) where
  -- `Destroy`: the entities are removed. The seats and the vacant ones, sliced from end to end, stay.
  unfoldable pub destroy_room_part : Controller EntityId E P → Go (Controller EntityId E P)
  unfolding remove_each
  destroy_room_part rc = do
    rc' ← remove_each dec inherit (map (λ e. e.0) rc.entities) rc
    ret (record rc' { entities = [] })

  unfoldable pub call : Controller EntityId E P → Call EntityId E P → Go (Controller EntityId E P)
  unfolding set_owner del_owner change_password add_entity add_entity_by_password join_seat
      leave_seat remove_entity remove_all_entities destroy_room_part
  call rc (adding entity) = ret (add_entity dec get_id entity rc).0
  call rc (adding_by_password entity password) =
      ret (add_entity_by_password dec dec_password get_id entity password rc).0
  call rc (removing id) = remove_entity dec inherit id rc
  call rc removing_all = remove_all_entities dec inherit rc
  call rc (joining id seat) = join_seat dec id seat rc >>= λ r. ret r.0
  call rc (leaving id) = ret (leave_seat dec id rc)
  call rc (owning id) = set_owner id rc
  call rc disowning = del_owner rc
  call rc (passwording password) = ret (change_password password rc)
  call rc destroying = destroy_room_part rc

  unfoldable pub run :
      Controller EntityId E P → List (Call EntityId E P) → Go (Controller EntityId E P)
  unfolding call
  run rc [] = ret rc
  run rc (c ∷ cs) = do rc' ← call rc c; run rc' cs
