-- ===== src/Buffer/Backlog.antt =====
-- utils/buffer/unbounded.go: the unbounded buffer over a channel of one cell and a backlog. Every
-- method holds `mu` throughout, so each is one step.
pub mod Queue
mod Tests
use minotaur.Base.{ℕ, List, [], ◌∷◌, ◌++◌, Bool, true, false, Option, some, none, if◌then◌else◌}

-- `Unbounded[V]`: `c` holds what the channel of capacity 1 buffers.
pub record Unbounded (V : Type 0) : Type 0 where
  pub c : Option V
  pub closed : Bool
  pub backlog : List V

module _ {V : Type 0} where
  unfoldable pub new_unbounded : Unbounded V
  new_unbounded = record { c = none; closed = false; backlog = [] }

  -- The send under `select` with a `default`: it succeeds if the cell is free.
  unfoldable pub try_send : Option V → V → Option (Option V)
  try_send none t = some (some t)
  try_send (some x) t = none

  unfoldable pub enqueue : Unbounded V → V → Unbounded V
  enqueue b t = record b { backlog = b.backlog ++ t ∷ [] }

  unfoldable pub put_open : List V → Unbounded V → V → Unbounded V
  unfolding try_send enqueue
  put_open [] b t = elim (try_send b.c t) [ some c ↦ record b { c = c } | none ↦ enqueue b t ]
  put_open (x ∷ xs) b t = enqueue b t

  unfoldable pub put : Unbounded V → V → Unbounded V
  unfolding put_open
  put b t = if b.closed then b else put_open b.backlog b t

  unfoldable pub load_open : List V → Unbounded V → Unbounded V
  unfolding try_send
  load_open [] b = b
  load_open (x ∷ xs) b = elim (try_send b.c x) [
    | some c ↦ record b { c = c; backlog = xs }
    | none ↦ b
  ]

  unfoldable pub load : Unbounded V → Unbounded V
  unfolding load_open
  load b = if b.closed then b else load_open b.backlog b

  unfoldable pub close : Unbounded V → Unbounded V
  close b = if b.closed then b else record b { closed = true }

  unfoldable pub is_closed : Unbounded V → Bool
  is_closed b = b.closed

  -- A receive from the channel of `Get`, as far as a value is there.
  unfoldable pub get : Unbounded V → Unbounded V × Option V
  get b = (record b { c = none }, b.c)
