-- ===== src/Lockstep/Events.antt =====
-- server/lockstep/lockstep.go: the steps of the goroutines, in any order.
use minotaur.Base.{ℕ, List, [], ◌∷◌, Bool, Go, ret, ◌>>=◌}
use minotaur.Base.Int.{ℤ}
use minotaur.Lockstep.{
  Lockstep, add_command, add_commands, start_broadcast, halt, reset, spawn, check, advance,
  drop_cache, pick_taken,
}
use minotaur.Lockstep.Broadcast.{broadcast_taken, join_client, join_client_with_frame, leave_client}

-- What happens to a `Lockstep`; `stopping` and `resetting` are `StopBroadcast`.
pub data Event (K W C : Type 0) : Type 0 where
  starting : Event K W C
  stopping : Event K W C
  resetting : Event K W C
  spawning : Event K W C
  checking : Event K W C
  advancing : Event K W C
  broadcasting : ℕ → Event K W C
  joining : W → Event K W C
  joining_with_frame : W → ℤ → Event K W C
  leaving : K → Event K W C
  commanding : C → Event K W C
  commanding_all : List C → Event K W C
  dropping : (ℤ → Bool) → Event K W C

-- The broadcast is not stopped, and no frame is dropped from the cache.
abbrev pub GoesOn : {K W C : Type 0} → Event K W C → Type 0
GoesOn stopping = ⊥
GoesOn resetting = ⊥
GoesOn (dropping handler) = ⊥
GoesOn _ = Unit {0}

abbrev pub AllGoOn : {K W C : Type 0} → List (Event K W C) → Type 0
AllGoOn [] = Unit {0}
AllGoOn (e ∷ es) = GoesOn e × AllGoOn es

module _ {K W C B : Type 0} (dec : Discrete K) (get_id : W → K)
    (serialization : ℤ → List C → B) where
  unfoldable pub happens : Lockstep K W C B → Event K W C → Go (Lockstep K W C B)
  unfolding start_broadcast halt reset spawn check advance broadcast_taken pick_taken join_client
      join_client_with_frame leave_client add_command add_commands drop_cache
  happens slf starting = start_broadcast slf
  happens slf stopping = ret (halt slf)
  happens slf resetting = ret (reset slf.halted slf)
  happens slf spawning = ret (spawn slf)
  happens slf checking = ret (check slf.spawned slf)
  happens slf advancing = ret (advance slf.checked slf)
  happens slf (broadcasting n) =
      ret (broadcast_taken dec serialization (pick_taken n slf.advanced) slf)
  happens slf (joining client) = ret (join_client dec get_id client slf)
  happens slf (joining_with_frame client i) = ret (join_client_with_frame dec get_id client i slf)
  happens slf (leaving id) = ret (leave_client dec id slf)
  happens slf (commanding c) = ret (add_command c slf)
  happens slf (commanding_all cs) = ret (add_commands cs slf)
  happens slf (dropping handler) =
      ret (record slf { frame_cache = drop_cache handler slf.frame_cache })

  unfoldable pub all_happen : Lockstep K W C B → List (Event K W C) → Go (Lockstep K W C B)
  unfolding happens
  all_happen slf [] = ret slf
  all_happen slf (e ∷ es) = do slf' ← happens slf e; all_happen slf' es
