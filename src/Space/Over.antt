-- ===== src/Space/Over.antt =====
-- game/space/room_controller.go: a room holds one entity more than its limit.
use mathlib.Core.List.{lookup}
use minotaur.Base.{
  ℕ, ◌+◌, List, [], ◌∷◌, false, Option, some, none, length, ◌≡◌, refl, ap, ◌∙◌, arith,
}
use minotaur.SyncMap.{put_entry}
use minotaur.Space.{
  Error, Controller, add_entity, add_checked, is_over, get_entity_count, emit,
  err_room_password_not_match,
}

module _ {EntityId E P : Type 0} (dec : Discrete EntityId) (get_id : E → EntityId) (entity : E)
    (rc : Controller EntityId E P) where
  length-put_entry_new :
      (m : List (EntityId × E))
      → lookup dec (get_id entity) m ≡ none
      → length (put_entry dec (get_id entity) entity m) ≡ length m + 1
  unfolding put_entry lookup
  length-put_entry_new [] h = omega arith
  length-put_entry_new ((j, f) ∷ m) h = ground (arith, length-put_entry_new m)

  without_password :
      (o : Option P) (a b : Controller EntityId E P × Option Error)
      → o ≡ none
      → (elim o as (λ o. Controller EntityId E P × Option Error) [ some p ↦ a | none ↦ b ]) ≡ b
  without_password none a b e = refl
  without_password (some p) a b e = absurd (cc)

  is_over_self : (n : ℕ) → is_over (some n) n ≡ false
  unfolding is_over
  is_over_self n = ground arith

  unlocked :
      rc.options.password ≡ none
      → add_entity dec get_id entity rc ≡ add_checked dec get_id entity rc
  unfolding add_entity
  unlocked p =
      without_password rc.options.password (rc, some err_room_password_not_match)
        (add_checked dec get_id entity rc) p

  admitted :
      is_over rc.options.max_entity_count (length rc.entities) ≡ false
      → lookup dec (get_id entity) rc.entities ≡ none
      → ((add_checked dec get_id entity rc).1 ≡ none)
        × (get_entity_count (add_checked dec get_id entity rc).0 ≡ length rc.entities + 1)
  unfolding add_checked emit get_entity_count
  admitted o fresh = rw o (refl, length-put_entry_new rc.entities fresh)

  -- A room with no password that holds as many entities as its limit says takes one more.
  pub add_entity_over :
      rc.options.password ≡ none
      → rc.options.max_entity_count ≡ some (length rc.entities)
      → lookup dec (get_id entity) rc.entities ≡ none
      → ((add_entity dec get_id entity rc).1 ≡ none)
        × (get_entity_count (add_entity dec get_id entity rc).0 ≡ length rc.entities + 1)
  add_entity_over p m fresh = rw (unlocked p) (
      admitted (ap (λ o. is_over o (length rc.entities)) m ∙ is_over_self (length rc.entities))
        fresh)
