-- ===== src/Lockstep/Broadcast.antt =====
-- server/lockstep/lockstep.go: the loop over the clients, and those that join and leave.
use minotaur.Base.{ℕ, zero, suc, List, [], ◌∷◌, ◌++◌, Option, some, none, if◌then◌else◌}
use minotaur.Base.Int.{ℤ, pos, pos_part, ◌+ℤ◌, ◌-ℤ◌, ltb_ℤ}
use minotaur.SyncMap.{put_entry, without}
use minotaur.Lockstep.{Lockstep, cached, frame_of, at_least}

module _ {W C B : Type 0} (serialization : ℤ → List C → B) where
  -- The frames from `i` on that a client has not been sent, `n` of them.
  unfoldable pub catch_up :
      ℕ → ℤ → W → List C → List (ℤ × B) × List (W × ℤ × B) → List (ℤ × B) × List (W × ℤ × B)
  unfolding cached
  catch_up zero i client commands (cache, sent) = (cache, sent)
  catch_up (suc n) i client commands (cache, sent) =
      let (cache', bytes) = cached serialization i commands cache in
      catch_up n (i +ℤ pos 1) client commands (cache', sent ++ (client, i, bytes) ∷ [])

module _ {K W C B : Type 0} (dec : Discrete K) where
  -- The loop over the clients.
  unfoldable pub broadcast_loop_to :
      (ℤ → List C → B) → ℤ → List C → List (K × W) → Lockstep K W C B → Lockstep K W C B
  unfolding catch_up frame_of put_entry
  broadcast_loop_to serialization current commands [] slf = slf
  broadcast_loop_to serialization current commands ((id, client) ∷ clients) slf =
      let i = at_least slf.init_frame (frame_of dec id slf.client_frame) in
      let (cache, sent) =
        catch_up serialization (pos_part (current -ℤ i)) i client commands
          (slf.frame_cache, slf.sent) in
      broadcast_loop_to serialization current commands clients (record slf {
        frame_cache = cache;
        sent = sent;
        client_frame = put_entry dec id current slf.client_frame;
      })

  unfoldable pub broadcast_taken :
      (ℤ → List C → B)
      → Option ((ℤ × List C) × List (ℤ × List C))
      → Lockstep K W C B
      → Lockstep K W C B
  unfolding broadcast_loop_to
  broadcast_taken serialization none slf = slf
  broadcast_taken serialization (some p) slf =
      broadcast_loop_to serialization p.0.0 p.0.1 slf.clients (record slf { advanced = p.1 })

  unfoldable pub join_client : (W → K) → W → Lockstep K W C B → Lockstep K W C B
  unfolding put_entry
  join_client get_id client slf = record slf {
    clients = put_entry dec (get_id client) client slf.clients;
  }

  unfoldable pub join_client_with_frame : (W → K) → W → ℤ → Lockstep K W C B → Lockstep K W C B
  unfolding put_entry
  join_client_with_frame get_id client frame_index slf =
      let capped = if ltb_ℤ slf.current_frame frame_index then slf.current_frame else frame_index in
      record slf {
        clients = put_entry dec (get_id client) client slf.clients;
        client_frame =
            put_entry dec (get_id client) (at_least slf.init_frame capped) slf.client_frame;
      }

  unfoldable pub leave_client : K → Lockstep K W C B → Lockstep K W C B
  unfolding without
  leave_client id slf = record slf {
    clients = without dec id slf.clients;
    client_frame = without dec id slf.client_frame;
  }
