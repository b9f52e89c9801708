-- ===== src/Dispatcher.antt =====
-- server/internal/dispatcher/dispatcher.go and action.go: the counts, the plan of eviction and the
-- goroutine. What other goroutines do between two holds of the lock is a step of `Dispatcher/Steps`.
-- The buffer, a `Buffer/RingUnbounded`, is a queue that drops what is written once it is
-- closed. `uniques`, a map of another library, has no part in it.
pub mod Steps
pub mod Account
pub mod Tally
pub mod Count
pub mod Kept
pub mod Ends
pub mod Evicting
pub mod Drain
pub mod Fair
pub mod Expel
mod Tests
use mathlib.Core.List.{lookup}
use minotaur.Base.{
  ℕ, ◌+◌, List, [], ◌∷◌, ◌++◌, Bool, true, false, ◌&&◌, not, Option, some, none, if◌then◌else◌, Go,
  ret, panic, ◌>>=◌,
}
use minotaur.Base.Int.{ℤ, pos, negsuc, ◌+ℤ◌, ◌-ℤ◌, wrap64, ltb_ℤ}
use minotaur.SyncMap.{put_entry, without}

-- What a handler calls on its `Action`, which holds the lock: a handler is the list of its calls.
pub data Act : Type 0 where
  act_expel act_un_expel : Act

-- `Dispatcher`; `closed` is that of its buffer, and `abort` tells whether the channel is closed.
pub record Dispatcher (P M : Type 0) : Type 0 where
  pub buf : List M
  pub closed : Bool
  pub expel : Bool
  pub mc : ℤ
  pub pmc : List (P × ℤ)
  pub pmc_f : List (P × List Act)
  pub closed_handler : Bool
  pub abort : Bool

-- `n <= 0`
abbrev pub leb_zero : ℤ → Bool
leb_zero n = not (ltb_ℤ (pos 0) n)

module _ {P M : Type 0} where
  -- `NewDispatcher`, where the size of the buffer is positive and there is a handler.
  unfoldable pub new_dispatcher : Dispatcher P M
  new_dispatcher = record {
    buf = [];
    closed = false;
    expel = false;
    mc = pos 0;
    pmc = [];
    pmc_f = [];
    closed_handler = false;
    abort = false;
  }

  -- `close(d.abort)`, which panics on a closed channel.
  unfoldable pub close_abort : Dispatcher P M → Go (Dispatcher P M)
  close_abort d = if d.abort then panic else ret (record d { abort = true })

  unfoldable pub no_lock_expel : Dispatcher P M → Go (Dispatcher P M)
  unfolding close_abort
  no_lock_expel d =
      if leb_zero d.mc
      then close_abort (record d { expel = true })
      else ret (record d { expel = true })

  unfoldable pub no_lock_un_expel : Dispatcher P M → Dispatcher P M
  no_lock_un_expel d = record d { expel = false }

  -- A handler under the `recover`: a call that panics ends the handler, with `d.expel` set.
  unfoldable pub run_handler : List Act → Dispatcher P M → Dispatcher P M
  unfolding no_lock_expel no_lock_un_expel
  run_handler [] d = d
  run_handler (act_un_expel ∷ acts) d = run_handler acts (no_lock_un_expel d)
  run_handler (act_expel ∷ acts) d = elim (no_lock_expel d) [
    | ret d' ↦ run_handler acts d'
    | panic ↦ record d { expel = true }
  ]

  unfoldable pub set_closed_handler : Dispatcher P M → Dispatcher P M
  set_closed_handler d = record d { closed_handler = true }

  -- `d.buf.Write(message)`
  unfoldable pub write_message : M → Dispatcher P M → Dispatcher P M
  write_message message d = if d.closed then d else record d { buf = d.buf ++ message ∷ [] }

  unfoldable pub close_buffer : Dispatcher P M → Dispatcher P M
  close_buffer d = record d { closed = true }

module _ {P M : Type 0} (dec : Discrete P) where
  -- `d.pmc[p]`
  unfoldable pub count_of : P → Dispatcher P M → ℤ
  unfolding lookup
  count_of p d = elim (lookup dec p d.pmc) [ some n ↦ n | none ↦ pos 0 ]

  -- `if f := d.pmcF[p]; f != nil && pmc <= 0`
  unfoldable pub call_done : P → ℤ → Dispatcher P M → Dispatcher P M
  unfolding lookup run_handler
  call_done p pmc d = elim (lookup dec p d.pmc_f) [
    | some acts ↦ if leb_zero pmc then run_handler acts d else d
    | none ↦ d
  ]

  unfoldable pub set_producer_done_handler : P → Option (List Act) → Dispatcher P M → Dispatcher P M
  unfolding without put_entry count_of run_handler
  set_producer_done_handler p none d = record d { pmc_f = without dec p d.pmc_f }
  set_producer_done_handler p (some acts) d =
      let d' = record d { pmc_f = put_entry dec p acts d.pmc_f } in
      if leb_zero (count_of p d) then run_handler acts d' else d'

  -- The counts of the dispatcher and of a producer, both changed by `i`.
  unfoldable pub add_counts : P → ℤ → Dispatcher P M → Dispatcher P M
  unfolding put_entry count_of
  add_counts p i d = record d {
    mc = wrap64 (d.mc +ℤ i);
    pmc = put_entry dec p (wrap64 (count_of p d +ℤ i)) d.pmc;
  }

  unfoldable pub incr_count : P → ℤ → Dispatcher P M → Dispatcher P M
  unfolding add_counts call_done
  incr_count p i d =
      let d' = add_counts p i d in if leb_zero d'.mc then call_done p (count_of p d') d' else d'

  -- The locked part of `Put`.
  unfoldable pub put_count : P → Dispatcher P M → Dispatcher P M
  unfolding add_counts
  put_count p d = add_counts p (pos 1) d

  -- What `Start` does under the lock when the handler has returned: whether it ends, and the state.
  unfoldable pub settle_count : P → Dispatcher P M → Bool × Dispatcher P M
  unfolding add_counts call_done close_buffer
  settle_count p d =
      let counted = add_counts p (negsuc 0) d in
      let d' = call_done p (count_of p counted) counted in
      if leb_zero d'.mc && d'.expel then (true, close_buffer d') else (false, d')
