-- ===== src/Lockstep/Agree.antt =====
-- server/lockstep/lockstep.go: every step keeps what has been sent in the cache.
use minotaur.Base.{
  ℕ, zero, suc, List, [], ◌∷◌, Bool, true, false, not, ◌||◌, Option, some, none, if◌then◌else◌, Go,
  ret, panic, ◌>>=◌, ◌≡◌, Bool-cases, inl, inr,
}
use minotaur.Base.Int.{ℤ, pos_part, ◌-ℤ◌}
use minotaur.Lockstep.{
  Lockstep, is_positive, at_least, add_command, add_commands, start_broadcast, new_ticker, spawn,
  check, advance, pick_taken, frame_of,
}
use minotaur.Lockstep.Broadcast.{
  broadcast_loop_to, broadcast_taken, join_client, join_client_with_frame, leave_client,
}
use minotaur.Lockstep.Events.{
  Event, starting, stopping, resetting, spawning, checking, advancing, broadcasting, joining,
  joining_with_frame, leaving, commanding, commanding_all, dropping, GoesOn, AllGoOn, happens,
  all_happen,
}
use minotaur.Lockstep.Cache.{AllCached, catch_up-AllCached}

module _ {K W C B : Type 0} (dec : Discrete K) (get_id : W → K)
    (serialization : ℤ → List C → B) where
  -- What has been sent stands in the cache, and there is no limit.
  pub record IsShared (slf : Lockstep K W C B) : Type 0 where
    pub all_cached : AllCached slf.frame_cache slf.sent
    pub unlimited : is_positive slf.frame_limit ≡ false

  abbrev pub After : Go (Lockstep K W C B) → Type 0
  After (ret slf) = IsShared slf
  After panic = Unit {0}

  broadcast-IsShared :
      (current : ℤ) (commands : List C) (clients : List (K × W)) (slf : Lockstep K W C B)
      → IsShared slf
      → IsShared (broadcast_loop_to dec serialization current commands clients slf)
  unfolding broadcast_loop_to
  broadcast-IsShared current commands [] slf h = h
  broadcast-IsShared current commands ((id, client) ∷ clients) slf h =
      broadcast-IsShared current commands clients _ (record {
        all_cached =
            catch_up-AllCached serialization
              (pos_part (current -ℤ at_least slf.init_frame (frame_of dec id slf.client_frame)))
              (at_least slf.init_frame (frame_of dec id slf.client_frame)) client commands
              slf.frame_cache slf.sent h.all_cached;
        unlimited = h.unlimited;
      })

  taken-IsShared :
      (o : Option ((ℤ × List C) × List (ℤ × List C))) (slf : Lockstep K W C B)
      → IsShared slf
      → IsShared (broadcast_taken dec serialization o slf)
  unfolding broadcast_taken
  taken-IsShared none slf h = h
  taken-IsShared (some p) slf h =
      broadcast-IsShared p.0.0 p.0.1 slf.clients (record slf { advanced = p.1 })
        (record { all_cached = h.all_cached; unlimited = h.unlimited })

  start-After : (slf : Lockstep K W C B) → IsShared slf → After (start_broadcast slf)
  unfolding start_broadcast
  start-After slf h = elim (Bool-cases slf.running) [
    | inl e ↦
        rw (start_broadcast, e) (record { all_cached = h.all_cached; unlimited = h.unlimited })
    | inr e ↦
        rw (start_broadcast, e)
          (ticked (if slf.ticker then ret true else new_ticker slf.frame_rate))
  ]
    where
      ticked :
          (r : Go Bool)
          → After (
              r >>= λ t.
              ret (record slf { running = true; ticker = t; current_frame = slf.init_frame }))
      ticked (ret t) = record { all_cached = h.all_cached; unlimited = h.unlimited }
      ticked panic = tt

  spawn-IsShared : (slf : Lockstep K W C B) → IsShared slf → IsShared (spawn slf)
  unfolding spawn
  spawn-IsShared slf h = elim (Bool-cases (not slf.ticker || not slf.running)) [
    | inl e ↦ rw (spawn, e) h
    | inr e ↦ rw (spawn, e) (record { all_cached = h.all_cached; unlimited = h.unlimited })
  ]

  check-IsShared : (n : ℕ) (slf : Lockstep K W C B) → IsShared slf → IsShared (check n slf)
  unfolding check
  check-IsShared zero slf h = h
  check-IsShared (suc n) slf h =
      rw (check, h.unlimited) (record { all_cached = h.all_cached; unlimited = h.unlimited })

  advance-IsShared : (n : ℕ) (slf : Lockstep K W C B) → IsShared slf → IsShared (advance n slf)
  unfolding advance
  advance-IsShared zero slf h = h
  advance-IsShared (suc n) slf h = record { all_cached = h.all_cached; unlimited = h.unlimited }

  happens-After :
      (slf : Lockstep K W C B) (e : Event K W C)
      → GoesOn e
      → IsShared slf
      → After (happens dec get_id serialization slf e)
  unfolding happens join_client join_client_with_frame leave_client add_command add_commands
  happens-After slf starting g h = start-After slf h
  happens-After slf stopping g h = absurd g
  happens-After slf resetting g h = absurd g
  happens-After slf spawning g h = spawn-IsShared slf h
  happens-After slf checking g h = check-IsShared slf.spawned slf h
  happens-After slf advancing g h = advance-IsShared slf.checked slf h
  happens-After slf (broadcasting n) g h = taken-IsShared (pick_taken n slf.advanced) slf h
  happens-After slf (joining client) g h = record {
    all_cached = h.all_cached;
    unlimited = h.unlimited;
  }
  happens-After slf (joining_with_frame client i) g h = record {
    all_cached = h.all_cached;
    unlimited = h.unlimited;
  }
  happens-After slf (leaving id) g h = record { all_cached = h.all_cached; unlimited = h.unlimited }
  happens-After slf (commanding c) g h = record {
    all_cached = h.all_cached;
    unlimited = h.unlimited;
  }
  happens-After slf (commanding_all cs) g h = record {
    all_cached = h.all_cached;
    unlimited = h.unlimited;
  }
  happens-After slf (dropping handler) g h = absurd g

  pub all-After :
      (es : List (Event K W C)) (slf : Lockstep K W C B)
      → AllGoOn es
      → IsShared slf
      → After (all_happen dec get_id serialization slf es)
  unfolding all_happen
  all-After [] slf g h = h
  all-After (e ∷ es) slf (g, gs) h =
      onward (λ slf' k. all-After es slf' gs k) (happens dec get_id serialization slf e)
        (happens-After slf e g h)
    where
      onward :
          ((slf' : Lockstep K W C B)
            → IsShared slf'
            → After (all_happen dec get_id serialization slf' es))
          → (r : Go (Lockstep K W C B)) → After r
          → After (r >>= λ slf'. all_happen dec get_id serialization slf' es)
      onward again (ret slf') k = again slf' k
      onward again panic k = tt
