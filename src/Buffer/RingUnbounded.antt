-- ===== src/Buffer/RingUnbounded.antt =====
-- utils/buffer/ring_unbounded.go: writers, closers and readers of the channel, and the goroutine of
-- `process`, as the steps of one state. A step is what a thread does under one holding of the locks:
-- `Write` and `Close` are one each, since both hold `closedMutex` throughout.
pub mod Conserve
pub mod Lost
mod Tests
use minotaur.Base.{
  ℕ, List, [], ◌∷◌, ◌++◌, Bool, true, false, ◌&&◌, not, Go, ret, ◌>>=◌, ltb, ◌==◌, if◌then◌else◌,
  length,
}
use minotaur.Buffer.Ring.{Ring, new_ring, write, read_all}
use minotaur.Base.Int.{pos}

-- Where the goroutine of `process` stands.
pub data Place (A : Type 0) : Type 0 where
  reading : Place A  -- at the top of its loop
  waiting : Place A  -- in `cond.Wait`
  woken : Place A  -- signalled, and not yet running
  holding : List A → Place A  -- `rrm` is released, `vs` is in hand
  sending : List A → Place A  -- in the range loop, under `closedMutex.RLock`
  stopped : Place A  -- `rc` and `closedSignal` are closed

-- `RingUnbounded[T]`. The last two fields are no fields of the code: they record the values that
-- `Write` took in and the values that readers got from `rc`.
pub record Unbounded (A : Type 0) : Type 0 where
  pub ring : Ring A
  pub rc : List A
  pub rc_cap : ℕ
  pub closed : Bool
  pub place : Place A
  pub accepted : List A
  pub received : List A

-- What a thread does next.
pub data Event (A : Type 0) : Type 0 where
  on_write : A → Event A
  on_close : Event A
  on_process : Event A
  on_receive : Event A

unfoldable pub is_nil : {A : Type 0} → List A → Bool
is_nil [] = true
is_nil (x ∷ xs) = false

module _ {A : Type 0} where
  -- `cond.Signal`
  unfoldable pub signal : Place A → Place A
  signal waiting = woken
  signal p = p

  -- `Close` waits while the goroutine sends.
  unfoldable pub close_at : Place A → Unbounded A → Unbounded A
  unfolding signal
  close_at (sending vs) b = b
  close_at p b = if b.closed then b else record b { closed = true; place = signal p }

  -- A receive from `rc`: from its buffer, or by hand-over if it has none.
  unfoldable pub receive_at : List A → Place A → Unbounded A → Unbounded A
  receive_at (x ∷ xs) p b = record b { rc = xs; received = b.received ++ x ∷ [] }
  receive_at [] (sending (v ∷ vs)) b =
      if b.rc_cap == 0 then record b { place = sending vs; received = b.received ++ v ∷ [] } else b
  receive_at [] p b = b

module _ {A : Type 0} (zero_value : A) where
  unfoldable pub new_ring_unbounded : ℕ → Unbounded A
  new_ring_unbounded buffer_size = record {
    ring = new_ring zero_value (pos 1024 ∷ []);
    rc = [];
    rc_cap = buffer_size;
    closed = false;
    place = reading;
    accepted = [];
    received = [];
  }

  unfoldable pub write_step : Unbounded A → A → Go (Unbounded A)
  unfolding signal
  write_step b v = if b.closed then ret b else (do
    ring ← write zero_value b.ring v
    ret (record b { ring = ring; place = signal b.place; accepted = b.accepted ++ v ∷ [] }))

  -- One stretch of `process`. A send on a full channel waits.
  unfoldable pub process_at : Place A → Unbounded A → Go (Unbounded A)
  unfolding is_nil
  process_at reading b = do
    (ring, vs) ← read_all zero_value b.ring
    let b' = record b { ring = ring }
    ret (
        if is_nil vs && not b.closed
        then record b' { place = waiting }
        else record b' { place = holding vs })
  process_at waiting b = ret b
  process_at woken b = ret (record b { place = holding [] })
  process_at (holding vs) b = ret (
      if b.closed && is_nil vs
      then record b { place = stopped }
      else record b { place = sending vs })
  process_at (sending []) b = ret (record b { place = reading })
  process_at (sending (v ∷ vs)) b = ret (
      if ltb (length b.rc) b.rc_cap
      then record b { rc = b.rc ++ v ∷ []; place = sending vs }
      else b)
  process_at stopped b = ret b

  unfoldable pub step : Unbounded A → Event A → Go (Unbounded A)
  unfolding write_step close_at process_at receive_at
  step b (on_write v) = write_step b v
  step b on_close = ret (close_at b.place b)
  step b on_process = process_at b.place b
  step b on_receive = ret (receive_at b.rc b.place b)

  unfoldable pub run : Unbounded A → List (Event A) → Go (Unbounded A)
  run b [] = ret b
  run b (e ∷ es) = do b' ← step b e; run b' es
