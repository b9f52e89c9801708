-- ===== src/Nexus.antt =====
-- toolkit/nexus/queues/non_blocking_rw.go: the queue of a broker, the goroutine of `Run`, those that
-- publish and close, and the one that consumes. A message is its topic and its event. The ring is
-- seen as a queue, the channel takes any number of messages, and a count is an integer of any size.
-- One goroutine calls `Run`: two calls at a time, which could both pass its first test, are left out.
pub mod Publish
pub mod Topics
pub mod Flow
pub mod Runs
pub mod Last
pub mod Late
pub mod Races
mod Tests
use mathlib.Core.List.{lookup}
use minotaur.Base.{
  ℕ, zero, suc, ◌+◌, ◌-◌, List, [], ◌∷◌, ◌++◌, Bool, true, false, ◌&&◌, Option, some, none,
  if◌then◌else◌, ◌==◌, Go, ret, panic, ◌>>=◌,
}
use minotaur.Base.Int.{ℤ, pos, negsuc}
use minotaur.SyncMap.{put_entry, without}
use minotaur.Dispatcher.Steps.{pick}

-- The constants `NonBlockingRWStatus…`.
pub data QueueStatus : Type 0 where
  unrun : QueueStatus
  running : QueueStatus
  closing : QueueStatus
  closed : QueueStatus

-- Where the goroutine of `Run` is: it takes the lock and looks at the buffer, holds the lock before
-- `cond.Wait`, waits, sends what it has read, leaves the loop, or has returned.
pub data Runner : Type 0 where
  idle : Runner
  looking : Runner
  settling : Runner
  waiting : Runner
  sending : Runner
  leaving : Runner
  ended : Runner

-- Where `Close` is: before the swap of the status, behind it, behind `make`, and at the end.
pub data Closer : Type 0 where
  quiet : Closer
  marked : Closer
  made : Closer
  blocked : Closer

-- `items` is the local variable of `Run`. `passed` are the messages of the calls of `Publish` that
-- have tested the status, `executing` those that the consumer has received and whose `OnProcessed`
-- has not returned, and `processed` those that the deferred function has not yet taken off the counts.
-- `puts` and `taken` keep what was written to the buffer and what was received, `told` what the
-- finisher was called with, and `custom` the calls of `IncrementCustomMessageCount`.
pub record Queue (T E : Type 0) : Type 0 where
  pub status : QueueStatus
  pub total : ℤ
  pub topics : List (T × ℤ)
  pub buf : List (T × E)
  pub items : List (T × E)
  pub chan : List (T × E)
  pub runner : Runner
  pub closer : Closer
  pub passed : List (T × E)
  pub executing : List (T × E)
  pub processed : List (T × E)
  pub puts : List (T × E)
  pub taken : List (T × E)
  pub told : List (T × Bool)
  pub custom : List (T × ℤ)

-- A signal on the condition, and a broadcast.
unfoldable pub wake : Runner → Runner
wake idle = idle
wake looking = looking
wake settling = settling
wake waiting = looking
wake sending = sending
wake leaving = leaving
wake ended = ended

-- The lock is held across steps by a goroutine that is about to wait, and by no other.
unfoldable pub is_free : Runner → Bool
is_free idle = true
is_free looking = true
is_free settling = false
is_free waiting = true
is_free sending = true
is_free leaving = true
is_free ended = true

-- `n == 0`
unfoldable pub is_zero : ℤ → Bool
is_zero (pos zero) = true
is_zero (pos (suc n)) = false
is_zero (negsuc n) = false

unfoldable pub is_closing : QueueStatus → Bool
is_closing unrun = false
is_closing running = false
is_closing closing = true
is_closing closed = true

module _ {T E : Type 0} where
  unfoldable pub new_queue : Queue T E
  new_queue = record {
    status = unrun;
    total = pos 0;
    topics = [];
    buf = [];
    items = [];
    chan = [];
    runner = idle;
    closer = quiet;
    passed = [];
    executing = [];
    processed = [];
    puts = [];
    taken = [];
    told = [];
    custom = [];
  }

  -- The test at the head of `Publish`.
  unfoldable pub publish_check : QueueStatus → T × E → Queue T E → Queue T E
  publish_check unrun m q = record q { passed = q.passed ++ m ∷ [] }
  publish_check running m q = record q { passed = q.passed ++ m ∷ [] }
  publish_check closing m q = record q { passed = q.passed ++ m ∷ [] }
  publish_check closed m q = q

  -- The head of `Run`.
  unfoldable pub run_start : QueueStatus → Queue T E → Go (Queue T E)
  run_start unrun q = ret (record q { status = running; runner = looking })
  run_start running q = panic
  run_start closing q = panic
  run_start closed q = panic

  -- The test of the buffer under the lock, and `ReadAll`.
  unfoldable pub look_at_buf : List (T × E) → Queue T E → Queue T E
  unfolding is_closing is_zero
  look_at_buf [] q =
      if is_closing q.status && is_zero q.total
      then record q { runner = leaving }
      else record q { runner = settling }
  look_at_buf (m ∷ ms) q = record q { items = m ∷ ms; buf = []; runner = sending }

  -- `n.c <- ei`, or the end of the loop.
  unfoldable pub send_next : List (T × E) → Queue T E → Queue T E
  send_next [] q = record q { runner = looking }
  send_next (m ∷ ms) q = record q { items = ms; chan = q.chan ++ m ∷ [] }

  -- `close(n.cs)`, which panics on a channel that is not made.
  unfoldable pub leave_run : Closer → Queue T E → Go (Queue T E)
  leave_run quiet q = panic
  leave_run marked q = panic
  leave_run made q = ret (record q { status = closed; runner = ended })
  leave_run blocked q = ret (record q { status = closed; runner = ended })

  -- The next step of `Run`.
  unfoldable pub run_step : Runner → Queue T E → Go (Queue T E)
  unfolding run_start look_at_buf send_next leave_run
  run_step idle q = run_start q.status q
  run_step looking q = ret (look_at_buf q.buf q)
  run_step settling q = ret (record q { runner = waiting })
  run_step waiting q = ret q
  run_step sending q = ret (send_next q.items q)
  run_step leaving q = leave_run q.closer q
  run_step ended q = ret q

  unfoldable pub close_mark : QueueStatus → Queue T E → Queue T E
  close_mark unrun q = q
  close_mark running q = record q { status = closing; closer = marked }
  close_mark closing q = q
  close_mark closed q = q

  -- The next step of `Close`.
  unfoldable pub close_step : Closer → Queue T E → Queue T E
  unfolding close_mark wake
  close_step quiet q = close_mark q.status q
  close_step marked q = record q { closer = made }
  close_step made q = record q { closer = blocked; runner = wake q.runner }
  close_step blocked q = q

  -- A receive from `Consume()`.
  unfoldable pub receive : List (T × E) → Queue T E → Queue T E
  receive [] q = q
  receive (m ∷ ms) q = record q {
    chan = ms;
    executing = q.executing ++ m ∷ [];
    taken = q.taken ++ m ∷ [];
  }
