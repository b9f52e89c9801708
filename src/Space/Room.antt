-- ===== src/Space/Room.antt =====
-- game/space/room_controller.go: what holds of a room, whatever is called.
use minotaur.Base.{
  ℕ, ◌+◌, ◌≤◌, List, [], ◌∷◌, Bool, true, false, same, not, Option, some, none, if◌then◌else◌, map,
  Go, ret, panic, ◌>>=◌, ◌≡◌, refl, subst, arith, Bool-cases, inl, inr,
}
use minotaur.Base.Int.{ℤ, pos, negsuc}
use minotaur.Space.{
  Error, Options, Controller, new_room_controller, merge_room_controller_options, has_owner,
  set_owner, del_owner, change_password, add_entity, add_entity_by_password, add_checked,
  get_entity_count, emit, err_room_password_not_match,
}
use minotaur.Space.Seating.{Outcome, join_seat-Outcome}
use minotaur.Space.Seat.{join_seat, leave_seat, remove_all_entities}
use minotaur.Space.Calls.{
  Call, adding, adding_by_password, removing, removing_all, joining, leaving, owning, disowning,
  passwording, destroying, destroy_room_part, call, run,
}
use minotaur.Space.Kept.{IsRoom, After, add_checked-IsRoom, Keeps, removed, removed_each}

module _ {EntityId E P : Type 0} (dec : Discrete EntityId) (dec_password : Discrete P)
    (get_id : E → EntityId) (inherit : Controller EntityId E P → Go (Option EntityId)) where
  joined :
      (limit : Option ℕ) (id : EntityId) (seat : List ℤ) (rc : Controller EntityId E P)
      (r : Go (Controller EntityId E P × Option Error))
      → IsRoom limit rc
      → Outcome dec id seat rc r
      → After limit (r >>= λ r. ret r.0)
  joined limit id seat rc r h (inl (_, e)) = rw e h
  joined limit id [] rc r h (inr (_, inl (_, (e, at)))) =
      rw e (record { ownerless = h.ownerless; limited = h.limited; bounded = h.bounded })
  joined limit id [] rc r h (inr (_, inr (v, vacancy, _, (e, at)))) =
      rw e (record { ownerless = h.ownerless; limited = h.limited; bounded = h.bounded })
  joined limit id (negsuc n ∷ rest) rc r h (inr (_, e)) = rw e tt
  joined limit id (pos n ∷ rest) rc r h (inr (_, inl (other, at, e))) = rw e h
  joined limit id (pos n ∷ rest) rc r h (inr (_, inr (free, (e, at)))) =
      rw e (record { ownerless = h.ownerless; limited = h.limited; bounded = h.bounded })

  -- A room of which every entity has been removed.
  emptied :
      (limit : Option ℕ) (r : Go (Controller EntityId E P))
      → Keeps limit r
      → After limit (r >>= λ rc'. ret (record rc' { entities = [] }))
  emptied limit r (rc', e, h) =
      rw e (record { ownerless = h.ownerless; limited = h.limited; bounded = λ n q. omega arith })

  returned : (limit : Option ℕ) (r : Go (Controller EntityId E P)) → Keeps limit r → After limit r
  returned limit r (rc', e, h) = rw e h

  -- The tests of a password, by the password that is set.
  plainly_added :
      (limit : Option ℕ) (o : Option P) (entity : E) (rc : Controller EntityId E P)
      → IsRoom limit rc
      → IsRoom limit
          (elim o as (λ o. Controller EntityId E P × Option Error) [
            | some p ↦ (rc, some err_room_password_not_match)
            | none ↦ add_checked dec get_id entity rc
          ]).0
  plainly_added limit none entity rc h = add_checked-IsRoom dec get_id limit entity rc h
  plainly_added limit (some p) entity rc h = h

  password_added :
      (limit : Option ℕ) (o : Option P) (entity : E) (password : P) (rc : Controller EntityId E P)
      → IsRoom limit rc
      → IsRoom limit
          (elim o as (λ o. Controller EntityId E P × Option Error) [
            | none ↦ (rc, some err_room_password_not_match)
            | some p ↦
                if not (same dec_password p password)
                then (rc, some err_room_password_not_match)
                else add_checked dec get_id entity rc
          ]).0
  password_added limit none entity password rc h = h
  password_added limit (some p) entity password rc h =
      elim (Bool-cases (same dec_password p password)) [
        | inl e ↦ rw e (add_checked-IsRoom dec get_id limit entity rc h)
        | inr e ↦ rw e h
      ]

  -- What reads through the owner of a room that has none panics.
  ownerless_panics :
      (limit : Option ℕ) (o : Option EntityId) (f : EntityId → Go (Controller EntityId E P))
      → o ≡ none
      → After limit
          (elim o as (λ o. Go (Controller EntityId E P)) [ some old ↦ f old | none ↦ panic ])
  ownerless_panics limit none f e = tt
  ownerless_panics limit (some old) f e = absurd (cc)

  call-After :
      (limit : Option ℕ) (rc : Controller EntityId E P) (c : Call EntityId E P)
      → IsRoom limit rc
      → After limit (call dec dec_password get_id inherit rc c)
  unfolding call add_entity add_entity_by_password set_owner del_owner change_password leave_seat
      remove_all_entities destroy_room_part emit
  call-After limit rc (adding entity) h = plainly_added limit rc.options.password entity rc h
  call-After limit rc (adding_by_password entity password) h =
      password_added limit rc.options.password entity password rc h
  call-After limit rc (removing id) h = returned limit _ (removed dec inherit limit id rc h)
  call-After limit rc removing_all h =
      returned limit _ (removed_each dec inherit limit (map (λ e. e.0) rc.entities) rc h)
  call-After limit rc (joining id seat) h =
      joined limit id seat rc (join_seat dec id seat rc) h (join_seat-Outcome dec id seat rc)
  call-After limit rc (leaving id) h = record {
    ownerless = h.ownerless;
    limited = h.limited;
    bounded = h.bounded;
  }
  call-After limit rc (owning id) h = ownerless_panics limit rc.owner _ h.ownerless
  call-After limit rc disowning h = ownerless_panics limit rc.owner _ h.ownerless
  call-After limit rc (passwording password) h = record {
    ownerless = h.ownerless;
    limited = h.limited;
    bounded = h.bounded;
  }
  call-After limit rc destroying h =
      emptied limit _ (removed_each dec inherit limit (map (λ e. e.0) rc.entities) rc h)

  run-After :
      (limit : Option ℕ) (cs : List (Call EntityId E P)) (rc : Controller EntityId E P)
      → IsRoom limit rc
      → After limit (run dec dec_password get_id inherit rc cs)
  unfolding run
  run-After limit [] rc h = h
  run-After limit (c ∷ cs) rc h =
      onward (λ rc' k. run-After limit cs rc' k) (call dec dec_password get_id inherit rc c)
        (call-After limit rc c h)
    where
      onward :
          ((rc' : Controller EntityId E P)
            → IsRoom limit rc'
            → After limit (run dec dec_password get_id inherit rc' cs))
          → (r : Go (Controller EntityId E P)) → After limit r
          → After limit (r >>= λ rc'. run dec dec_password get_id inherit rc' cs)
      onward again (ret rc') k = again rc' k
      onward again panic k = tt

  -- Whatever of the methods that change a room is called on a new one, `Destroy` included, where the
  -- calls return nobody owns it, and it holds at most one entity more than its limit.
  pub room_ownerless :
      (options : List (Options P)) (cs : List (Call EntityId E P)) (rc' : Controller EntityId E P)
      → run dec dec_password get_id inherit
          (new_room_controller (merge_room_controller_options options))
          cs
        ≡ ret rc'
      → (has_owner rc' ≡ false)
        × ((n : ℕ)
            → (merge_room_controller_options options).max_entity_count ≡ some n
            → get_entity_count rc' ≤ n + 1)
  unfolding new_room_controller has_owner get_entity_count
  room_ownerless options cs rc' e =
      let limit = (merge_room_controller_options options).max_entity_count in
      let h =
        run-After limit cs (new_room_controller (merge_room_controller_options options))
          (record { ownerless = refl; limited = refl; bounded = λ n q. omega arith }) in
      let k = subst (After limit) e h in (unowned rc'.owner k.ownerless, k.bounded)
    where
      unowned :
          (o : Option EntityId)
          → o ≡ none
          → (elim o as (λ o. Bool) [ some o ↦ true | none ↦ false ]) ≡ false
      unowned none e = refl
      unowned (some o) e = absurd (cc)
