-- ===== src/Nexus/Publish.antt =====
-- toolkit/nexus/queues/non_blocking_rw.go: Publish, the end of a message, and the steps of all goroutines;
-- toolkit/nexus/events: what an event calls when it has been processed.
use mathlib.Core.List.{lookup}
use minotaur.Base.{
  ℕ, zero, suc, List, [], ◌∷◌, ◌++◌, Option, some, none, if◌then◌else◌, Go, ret, ◌>>=◌,
}
use minotaur.Base.Int.{ℤ, pos, negsuc, ◌+ℤ◌}
use minotaur.SyncMap.{put_entry, without}
use minotaur.Dispatcher.Steps.{pick}
use minotaur.Nexus.{Queue, wake, is_free, is_zero, publish_check, run_step, close_step, receive}

-- The events of the packages events/synchronous.go and events/asynchronous.go.
pub data Kind : Type 0 where
  synchronous : Kind
  asynchronous : Kind

module _ {T : Type 0} (dec : Discrete T) where
  -- `n.topics[topic]`
  unfoldable pub topic_count : T → List (T × ℤ) → ℤ
  unfolding lookup
  topic_count topic topics = elim (lookup dec topic topics) [ some n ↦ n | none ↦ pos 0 ]

  -- The count of a topic that has gone down to `curr`.
  unfoldable pub set_topic : T → ℤ → List (T × ℤ) → List (T × ℤ)
  unfolding put_entry without
  set_topic topic (pos zero) topics = without dec topic topics
  set_topic topic (pos (suc n)) topics = put_entry dec topic (pos (suc n)) topics
  set_topic topic (negsuc n) topics = put_entry dec topic (negsuc n) topics

module _ {T E : Type 0} (dec : Discrete T) where
  unfoldable pub put_locked : T × E → Queue T E → Queue T E
  unfolding topic_count put_entry wake ◌+ℤ◌
  put_locked m q = record q {
    topics = put_entry dec m.0 (topic_count dec m.0 q.topics +ℤ pos 1) q.topics;
    total = q.total +ℤ pos 1;
    buf = q.buf ++ m ∷ [];
    puts = q.puts ++ m ∷ [];
    runner = wake q.runner;
  }

  unfoldable pub put_picked : Option ((T × E) × List (T × E)) → Queue T E → Queue T E
  unfolding put_locked
  put_picked none q = q
  put_picked (some (m, passed)) q = put_locked m (record q { passed = passed })

  -- The part of `Publish` under the lock, of the n-th call that has passed the test.
  unfoldable pub publish_put : ℕ → Queue T E → Queue T E
  unfolding is_free pick put_picked
  publish_put n q = if is_free q.runner then put_picked (pick n q.passed) q else q

  -- `IncrementCustomMessageCount` under the lock.
  unfoldable pub increment_locked : T → ℤ → Queue T E → Queue T E
  unfolding topic_count put_entry wake ◌+ℤ◌
  increment_locked topic delta q = record q {
    total = q.total +ℤ delta;
    topics = put_entry dec topic (topic_count dec topic q.topics +ℤ delta) q.topics;
    custom = q.custom ++ (topic, delta) ∷ [];
    runner = wake q.runner;
  }

  unfoldable pub increment_custom_message_count : T → ℤ → Queue T E → Queue T E
  unfolding is_free increment_locked
  increment_custom_message_count topic delta q =
      if is_free q.runner then increment_locked topic delta q else q

  -- `OnProcessed` of an event.
  unfoldable pub on_processed : Kind → T → Queue T E → Queue T E
  unfolding increment_locked
  on_processed synchronous topic q = q
  on_processed asynchronous topic q = increment_locked topic (negsuc 0) q

  unfoldable pub finish_locked : T × E → Queue T E → Queue T E
  unfolding topic_count set_topic wake is_zero ◌+ℤ◌
  finish_locked m q =
      let curr = topic_count dec m.0 q.topics +ℤ negsuc 0 in
      record q {
        total = q.total +ℤ negsuc 0;
        topics = set_topic dec m.0 curr q.topics;
        told = q.told ++ (m.0, is_zero curr) ∷ [];
        runner = wake q.runner;
      }

  unfoldable pub finish_picked : Option ((T × E) × List (T × E)) → Queue T E → Queue T E
  unfolding finish_locked
  finish_picked none q = q
  finish_picked (some (m, processed)) q = finish_locked m (record q { processed = processed })

  -- The deferred function of `exec` behind `OnProcessed`, of the n-th message that has come there.
  unfoldable pub finish_exec : ℕ → Queue T E → Queue T E
  unfolding is_free pick finish_picked
  finish_exec n q = if is_free q.runner then finish_picked (pick n q.processed) q else q

module _ {T E : Type 0} (dec : Discrete T) (kind : E → Kind) where
  unfoldable pub process_picked : Option ((T × E) × List (T × E)) → Queue T E → Queue T E
  unfolding on_processed
  process_picked none q = q
  process_picked (some (m, executing)) q =
      on_processed dec (kind m.1) m.0
        (record q { executing = executing; processed = q.processed ++ m ∷ [] })

  -- `event.OnProcessed`, of the n-th message that is executing. It waits for the lock, which an event
  -- that does not call the queue does not need.
  unfoldable pub process_exec : ℕ → Queue T E → Queue T E
  unfolding is_free pick process_picked
  process_exec n q = if is_free q.runner then process_picked (pick n q.executing) q else q

-- What happens next. A step that cannot happen leaves the queue as it is.
pub data Event (T E : Type 0) : Type 0 where
  checks : T × E → Event T E
  puts_nth : ℕ → Event T E
  runs : Event T E
  closes : Event T E
  receives : Event T E
  processes : ℕ → Event T E
  finishes : ℕ → Event T E
  increments : T → ℤ → Event T E

module _ {T E : Type 0} (dec : Discrete T) (kind : E → Kind) where
  unfoldable pub step : Event T E → Queue T E → Go (Queue T E)
  unfolding publish_check publish_put run_step close_step receive process_exec finish_exec
      increment_custom_message_count
  step (checks m) q = ret (publish_check q.status m q)
  step (puts_nth n) q = ret (publish_put dec n q)
  step runs q = run_step q.runner q
  step closes q = ret (close_step q.closer q)
  step receives q = ret (receive q.chan q)
  step (processes n) q = ret (process_exec dec kind n q)
  step (finishes n) q = ret (finish_exec dec n q)
  step (increments topic delta) q = ret (increment_custom_message_count dec topic delta q)

  unfoldable pub run : List (Event T E) → Queue T E → Go (Queue T E)
  unfolding step
  run [] q = ret q
  run (e ∷ es) q = step e q >>= λ q'. run es q'
