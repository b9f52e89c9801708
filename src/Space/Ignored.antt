-- ===== src/Space/Ignored.antt =====
-- game/space: options and conditions that have no effect.
use minotaur.Space.Manager.{RoomManager, assume_control}
use minotaur.Base.{arith, ℕ, List, [], ◌∷◌, Bool, true, false, Option, some, none, map, ◌≡◌, refl}
use minotaur.Space.{
  Options, Controller, merge_room_controller_options, new_room_controller_options, merge_onto,
  merge_one, broadcast, broadcast_loop, reaches_handler,
}

module _ {P : Type 0} where
  merge_onto-password :
      (result : Options P) (options : List (Options P))
      → ((merge_onto result options).password ≡ result.password)
        × ((merge_onto result options).owner_inherit ≡ result.owner_inherit)
  unfolding merge_onto
  merge_onto-password result [] = (refl, refl)
  merge_onto-password result (option ∷ options) =
      kept option.max_entity_count (λ r. merge_onto-password r options)
    where
      kept :
          (o : Option ℕ)
          → ((r : Options P)
              → ((merge_onto r options).password ≡ r.password)
                × ((merge_onto r options).owner_inherit ≡ r.owner_inherit))
          → ((merge_onto (merge_one o result) options).password ≡ result.password)
            × ((merge_onto (merge_one o result) options).owner_inherit ≡ result.owner_inherit)
      kept none again = again result
      kept (some n) again = again (record result { max_entity_count = some n })

-- A controller that `AssumeControl` returns has no password and no inheritance of the owner,
-- whatever its options say.
pub assume_control_forgets :
    {RoomId EntityId E P : Type 0} (dec_room : Discrete RoomId) (id : RoomId)
    (options : List (Options P)) (rm : RoomManager RoomId EntityId E P)
    → ((assume_control dec_room id options rm).1.options.password ≡ none)
      × ((assume_control dec_room id options rm).1.options.owner_inherit ≡ false)
unfolding assume_control merge_room_controller_options
assume_control_forgets dec_room id options rm =
    merge_onto-password new_room_controller_options options

module _ {E : Type 0} where
  reaches : (entity : E) (conditions : List (E → Bool)) → reaches_handler entity conditions ≡ true
  unfolding reaches_handler
  reaches entity [] = refl
  reaches entity (condition ∷ conditions) = ground (arith, reaches entity conditions)

  broadcast_loop_lem :
      {EntityId : Type 0} (conditions : List (E → Bool)) (entities : List (EntityId × E))
      → broadcast_loop conditions entities ≡ map (λ e. e.1) entities
  unfolding broadcast_loop
  broadcast_loop_lem conditions [] = refl
  broadcast_loop_lem conditions ((id, entity) ∷ entities) =
      rw (reaches entity conditions, broadcast_loop_lem conditions entities) refl

module _ {EntityId E P : Type 0} where
  -- `Broadcast` hands every entity of the room to the handler, whatever the conditions say.
  pub broadcast_all :
      (conditions : List (E → Bool)) (rc : Controller EntityId E P)
      → broadcast conditions rc ≡ map (λ e. e.1) rc.entities
  unfolding broadcast
  broadcast_all conditions rc = broadcast_loop_lem conditions rc.entities
