-- ===== src/Buffer/RingUnbounded/Conserve.antt =====
-- utils/buffer/ring_unbounded.go: nothing that `Write` takes in is lost, doubled or reordered on its
-- way, and the goroutine never sleeps on work.
mod Moves
unfoldable pub use Moves.*
use minotaur.Base.{
  ℕ, List, [], ◌∷◌, ◌++◌, Bool, ◌&&◌, not, true, false, Go, ret, ◌>>=◌, ltb, ◌==◌, if◌then◌else◌,
  length, ◌≡◌, refl, sym, ap, ◌∙◌, append-nil, append_assoc,
}
use minotaur.Base.Int.{pos}
use minotaur.Buffer.Ring.{Ring, write}
use minotaur.Buffer.Ring.Inv.{IsValid, contents}
use minotaur.Buffer.Ring.Write.{write_lem}
use minotaur.Buffer.Ring.Read.{read_all_lem, new_ring_lem}
use minotaur.Buffer.RingUnbounded.{
  Place, reading, waiting, woken, holding, sending, stopped, Unbounded, Event, on_write, on_close,
  on_process, on_receive, is_nil, new_ring_unbounded, signal, write_step, close_at, process_at,
  receive_at, step, run,
}

module _ {A : Type 0} (zero_value : A) where
  IsIdle-received :
      (p : Place A) (b : Unbounded A) (rc got : List A)
      → IsIdle p b
      → IsIdle p (record b { rc = rc; received = got })
  IsIdle-received waiting b rc got i = i
  IsIdle-received _ b rc got i = tt

  process_at-Sound :
      (b : Unbounded A) (p : Place A)
      → b.place ≡ p
      → Sound b
      → Keeps zero_value (process_at zero_value p b)
  unfolding Keeps process_at
  process_at-Sound b reading e h = read_step zero_value b h e
  process_at-Sound b waiting e h = (b, refl, h)
  process_at-Sound b woken e h = (
    record b { place = holding [] },
    refl,
    move zero_value b (holding []) h (ap in_hand (sym e)) (λ _. tt),
  )
  process_at-Sound b (holding vs) e h =
      let shut : Bool = b.closed && is_nil vs in holding_step zero_value b vs e h shut refl
  process_at-Sound b (sending []) e h = (
    record b { place = reading },
    refl,
    move zero_value b reading h (ap in_hand (sym e)) (λ _. tt),
  )
  process_at-Sound b (sending (v ∷ vs)) e h =
      send_step zero_value b v vs e h (ltb (length b.rc) b.rc_cap)
  process_at-Sound b stopped e h = (b, refl, h)

  receive_at-Sound :
      (b : Unbounded A) (rc : List A) (p : Place A)
      → b.rc ≡ rc
      → b.place ≡ p
      → Sound b
      → Sound (receive_at rc p b)
  unfolding receive_at
  receive_at-Sound b (x ∷ xs) p e f h = record {
    valid = h.valid;
    conserved =
        h.conserved
        ∙ ap (λ rc. b.received ++ (rc ++ (in_hand b.place ++ contents b.ring))) e
        ∙ sym (append_assoc b.received (x ∷ []) (xs ++ (in_hand b.place ++ contents b.ring)));
    idle = IsIdle-received b.place b xs (b.received ++ x ∷ []) h.idle;
  }
  receive_at-Sound b [] (sending (v ∷ vs)) e f h = hand_over zero_value b v vs e f h (b.rc_cap == 0)
  receive_at-Sound b [] p e f h = h

  step-Sound : (b : Unbounded A) (e : Event A) → Sound b → Keeps zero_value (step zero_value b e)
  unfolding step Keeps
  step-Sound b (on_write v) h = write_step-Sound zero_value b v h
  step-Sound b on_close h = (close_at b.place b, refl, close_at-Sound zero_value b b.place refl h)
  step-Sound b on_process h = process_at-Sound b b.place refl h
  step-Sound b on_receive h =
      (receive_at b.rc b.place b, refl, receive_at-Sound b b.rc b.place refl refl h)

  -- From a sound state, however the steps of writers, closers, readers and the goroutine
  -- interleave: no step panics, and the state that is reached is sound. So what `Write` took in is
  -- what readers received, then what `rc` buffers, then what the goroutine has in hand, then what
  -- the ring holds, in this order; and a goroutine in `cond.Wait` faces an empty ring of an open
  -- buffer.
  pub run-Sound :
      (es : List (Event A)) (b : Unbounded A)
      → Sound b
      → (b' : Unbounded A) × (run zero_value b es ≡ ret b') × Sound b'
  unfolding run Keeps
  run-Sound [] b h = (b, refl, h)
  run-Sound (e ∷ es) b h =
      let (b₁, e₁, h₁) = step-Sound b e h in
      let (b₂, e₂, h₂) = run-Sound es b₁ h₁ in (b₂, rw e₁ e₂, h₂)

  -- A new buffer is sound, for every channel size.
  pub new_ring_unbounded-Sound : (n : ℕ) → Sound (new_ring_unbounded zero_value n)
  unfolding new_ring_unbounded
  new_ring_unbounded-Sound n =
      let (valid, empty) = new_ring_lem zero_value (pos 1024 ∷ []) in
      record { valid = valid; conserved = sym empty; idle = tt }
