-- ===== src/Space/Tests.antt =====
-- The theorems on game/space at a concrete room.
use mathlib.Core.List.{lookup}
use minotaur.Base.{
  ℕ, ◌+◌, ◌≤◌, List, [], ◌∷◌, true, false, Option, some, none, Go, ret, store, ◌≡◌, refl, get_elem?,
  ℕ_discrete,
}
use minotaur.Base.Int.{pos}
use minotaur.Space.{
  Options, Controller, new_room_controller, merge_room_controller_options, has_owner,
  get_entity_count, add_entity_event, remove_entity_event, add_entity, has_entity,
}
use minotaur.Space.Seat.{join_seat, leave_seat, remove_entity}
use minotaur.Space.Seating.{Outcome, join_seat-Outcome, join_seat_evicts}
use minotaur.Space.Calls.{Call, adding, removing, joining, leaving, call, run}
use minotaur.Space.Room.{room_ownerless}

abbrev self : ℕ → ℕ
self e = e

abbrev nobody : Controller ℕ ℕ ℕ → Go (Option ℕ)
nobody rc = ret none

-- The limit is 1, and the password 7.
abbrev options : List (Options ℕ)
options = record { max_entity_count = some 1; password = some 7; owner_inherit = true } ∷ []

abbrev calls : List (Call ℕ ℕ ℕ)
calls = adding 3 ∷ adding 4 ∷ adding 5 ∷ joining 3 [] ∷ leaving 3 ∷ removing 4 ∷ []

abbrev last : Controller ℕ ℕ ℕ
last = record {
  options = record { max_entity_count = some 1; password = none; owner_inherit = false };
  entities = (3, 3) ∷ [];
  vacancy = 0 ∷ [];
  seat = none ∷ [];
  owner = none;
  events = add_entity_event 3 ∷ add_entity_event 4 ∷ remove_entity_event 4 ∷ [];
}

calls-run :
    run ℕ_discrete ℕ_discrete self nobody
      (new_room_controller (merge_room_controller_options options))
      calls
    ≡ ret last
unfolding run call add_entity join_seat leave_seat remove_entity new_room_controller
    merge_room_controller_options ℕ_discrete lookup store
calls-run = refl

room_ownerless_example :
    (has_owner last ≡ false)
    × ((n : ℕ)
        → (merge_room_controller_options options).max_entity_count ≡ some n
        → get_entity_count last ≤ n + 1)
room_ownerless_example =
    room_ownerless ℕ_discrete ℕ_discrete self nobody options calls last calls-run

-- Seat 0 is vacant; 3 takes it by its number, and 5 by asking for any.
abbrev pair : Controller ℕ ℕ ℕ
pair = record last { entities = (3, 3) ∷ (5, 5) ∷ [] }

join_seat-Outcome_example : Outcome ℕ_discrete 3 [] pair (join_seat ℕ_discrete 3 [] pair)
join_seat-Outcome_example = join_seat-Outcome ℕ_discrete 3 [] pair

join_seat_evicts_example :
    (rc₁ : Controller ℕ ℕ ℕ) × (rc₂ : Controller ℕ ℕ ℕ) × (join_seat ℕ_discrete 3 (pos 0 ∷ []) pair
      ≡ ret (rc₁, none))
    × (get_elem? rc₁.seat 0 ≡ some (some 3))
    × (join_seat ℕ_discrete 5 [] rc₁ ≡ ret (rc₂, none))
    × (get_elem? rc₂.seat 0 ≡ some (some 5))
unfolding has_entity lookup ℕ_discrete
join_seat_evicts_example = join_seat_evicts ℕ_discrete 3 5 0 [] pair refl refl refl refl
