-- ===== src/Lockstep.antt =====
-- server/lockstep/lockstep.go and its options: the frames and the clients that they are sent to. A
-- map is the list of its entries in the order in which a range loop visits them. What a goroutine does
-- under one holding of the locks is a step, but for JoinClientWithFrame, which holds one lock and
-- then the other, and whose two holdings are one step; what it takes from one to the next is in `checked`,
-- `advanced` and `halted`. `serialization` is an argument, and so is the identifier of a client.
pub mod Broadcast
pub mod Events
pub mod Cache
pub mod Agree
pub mod Shared
mod Tests
use mathlib.Core.List.{lookup}
use minotaur.Base.{
  ℕ, zero, suc, ◌+◌, ◌^◌, List, [], ◌∷◌, ◌++◌, Bool, true, false, not, ◌&&◌, ◌||◌, Option, some,
  none, if◌then◌else◌, ltb, ◌==◌, Go, ret, panic, ◌>>=◌, ℕ_discrete, ◌≡◌, ap,
}
use minotaur.Base.Int.{ℤ, pos, negsuc, pos_part, ◌+ℤ◌, ◌-ℤ◌, wrap64, ltb_ℤ}
use minotaur.SyncMap.{put_entry, without}

unfoldable pub dec_frame : Discrete ℤ
dec_frame (pos a) (pos b) = elim (ℕ_discrete a b) [
  | yes p ↦ yes (ap pos p)
  | no n ↦ no (λ q. n (ap pos_part q))
]
dec_frame (pos a) (negsuc b) = no (λ q. absurd (cc))
dec_frame (negsuc a) (pos b) = no (λ q. absurd (cc))
dec_frame (negsuc a) (negsuc b) = elim (ℕ_discrete a b) [
  | yes p ↦ yes (ap negsuc p)
  | no n ↦ no (λ q. n (ap below q))
]
  where
    below : ℤ → ℕ
    below (pos n) = n
    below (negsuc n) = n

-- `Lockstep`. `sent` is what the clients are written, with the frame, in order. `spawned`, `checked`
-- and `halted` count the goroutines before their next step; `advanced` holds what they have taken.
pub record Lockstep (K W C B : Type 0) : Type 0 where
  pub running : Bool
  pub init_frame : ℤ
  pub frame_rate : ℤ
  pub frame_limit : ℤ
  pub clients : List (K × W)
  pub client_frame : List (K × ℤ)
  pub current_frame : ℤ
  pub current_commands : List C
  pub frame_cache : List (ℤ × B)
  pub ticker : Bool
  pub stopped_events : ℕ
  pub spawned : ℕ
  pub checked : ℕ
  pub advanced : List (ℤ × List C)
  pub halted : ℕ
  pub sent : List (W × ℤ × B)

pub data Setting : Type 0 where
  frame_limit_of frame_rate_of init_frame_of : ℤ → Setting

-- `n > 0`
abbrev pub is_positive : ℤ → Bool
is_positive n = ltb_ℤ (pos 0) n

-- The interval of the ticker in nanoseconds, `time.Second / time.Duration(frameRate)`: a rate of 0
-- panics, and so does a ticker whose interval is not positive.
unfoldable pub new_ticker : ℤ → Go Bool
new_ticker (negsuc n) = panic
new_ticker (pos n) = if n == 0 then panic else if ltb (10 ^ 9) n then panic else ret true

-- The n-th of the goroutines that have taken a frame, and the others.
unfoldable pub pick_taken : {A : Type 0} → ℕ → List A → Option (A × List A)
pick_taken n [] = none
pick_taken zero (a ∷ as') = some (a, as')
pick_taken (suc n) (a ∷ as') = elim (pick_taken n as') [
  | some p ↦ some (p.0, a ∷ p.1)
  | none ↦ none
]

-- `DropCache`
unfoldable pub drop_cache : {B : Type 0} → (ℤ → Bool) → List (ℤ × B) → List (ℤ × B)
drop_cache handler [] = []
drop_cache handler ((frame, bytes) ∷ cache) =
    let rest = drop_cache handler cache in if handler frame then rest else (frame, bytes) ∷ rest

abbrev pub at_least : ℤ → ℤ → ℤ
at_least low i = if ltb_ℤ i low then low else i

module _ {K : Type 0} (dec : Discrete K) where
  -- `slf.clientFrame[id]`
  unfoldable pub frame_of : K → List (K × ℤ) → ℤ
  unfolding lookup
  frame_of id frames = elim (lookup dec id frames) [ some i ↦ i | none ↦ pos 0 ]

module _ {C B : Type 0} (serialization : ℤ → List C → B) where
  -- `cache, exist := ls.frameCache[i]`: what is sent, and the cache with it.
  unfoldable pub cached : ℤ → List C → List (ℤ × B) → List (ℤ × B) × B
  unfolding lookup dec_frame put_entry
  cached i commands cache = elim (lookup dec_frame i cache) [
    | some bytes ↦ (cache, bytes)
    | none ↦ let bytes = serialization i commands in (put_entry dec_frame i bytes cache, bytes)
  ]

module _ {K W C B : Type 0} where
  unfoldable pub with_frame_limit : ℤ → Lockstep K W C B → Lockstep K W C B
  with_frame_limit limit slf = record slf {
    frame_limit = if is_positive limit then pos 0 else limit;
  }

  unfoldable pub with_setting : Setting → Lockstep K W C B → Lockstep K W C B
  unfolding with_frame_limit
  with_setting (frame_limit_of n) slf = with_frame_limit n slf
  with_setting (frame_rate_of n) slf = record slf { frame_rate = n }
  with_setting (init_frame_of n) slf = record slf { init_frame = n }

  unfoldable pub with_settings : List Setting → Lockstep K W C B → Lockstep K W C B
  unfolding with_setting
  with_settings [] slf = slf
  with_settings (o ∷ os) slf = with_settings os (with_setting o slf)

  unfoldable pub default_lockstep : Lockstep K W C B
  default_lockstep = record {
    running = false;
    init_frame = pos 0;
    frame_rate = pos 15;
    frame_limit = pos 0;
    clients = [];
    client_frame = [];
    current_frame = negsuc 0;
    current_commands = [];
    frame_cache = [];
    ticker = false;
    stopped_events = 0;
    spawned = 0;
    checked = 0;
    advanced = [];
    halted = 0;
    sent = [];
  }

  unfoldable pub new_lockstep : List Setting → Lockstep K W C B
  unfolding with_settings default_lockstep
  new_lockstep options = with_settings options default_lockstep

  unfoldable pub add_command : C → Lockstep K W C B → Lockstep K W C B
  add_command command slf = record slf { current_commands = slf.current_commands ++ command ∷ [] }

  unfoldable pub add_commands : List C → Lockstep K W C B → Lockstep K W C B
  add_commands commands slf = record slf { current_commands = slf.current_commands ++ commands }

  unfoldable pub start_broadcast : Lockstep K W C B → Go (Lockstep K W C B)
  unfolding new_ticker
  start_broadcast slf = if slf.running then ret slf else (do
    ticker ← (if slf.ticker then ret true else new_ticker slf.frame_rate)
    ret (record slf { running = true; ticker = ticker; current_frame = slf.init_frame }))

  -- `StopBroadcast`: what it does before it has told the handlers, and the rest.
  unfoldable pub halt : Lockstep K W C B → Lockstep K W C B
  halt slf = if not slf.running then slf else record slf {
    running = false;
    ticker = false;
    stopped_events = suc slf.stopped_events;
    halted = suc slf.halted;
  }

  unfoldable pub reset : ℕ → Lockstep K W C B → Lockstep K W C B
  reset zero slf = slf
  reset (suc n) slf = record slf {
    halted = n;
    frame_cache = [];
    current_commands = [];
    current_frame = negsuc 0;
    client_frame = [];
  }

  -- The loop of `StartBroadcast`, which starts a goroutine at each tick.
  unfoldable pub spawn : Lockstep K W C B → Lockstep K W C B
  spawn slf =
      if not slf.ticker || not slf.running then slf else record slf { spawned = suc slf.spawned }

  -- The test of the limit by such a goroutine.
  unfoldable pub check : ℕ → Lockstep K W C B → Lockstep K W C B
  unfolding halt
  check zero slf = slf
  check (suc n) slf =
      if is_positive slf.frame_limit && not (ltb_ℤ slf.current_frame slf.frame_limit)
      then halt (record slf { spawned = n })
      else record slf { spawned = n; checked = suc slf.checked }

  -- It takes the commands, and goes on to the next frame.
  unfoldable pub advance : ℕ → Lockstep K W C B → Lockstep K W C B
  advance zero slf = slf
  advance (suc n) slf =
      let frame = wrap64 (slf.current_frame +ℤ pos 1) in
      record slf {
        checked = n;
        current_frame = frame;
        current_commands = [];
        advanced = slf.advanced ++ (frame, slf.current_commands) ∷ [];
      }
