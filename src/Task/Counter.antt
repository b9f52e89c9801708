-- ===== src/Task/Counter.antt =====
-- game/task/task.go: the bounds of the counter.
use minotaur.Base.{
  ℕ, ◌+◌, ◌^◌, ◌<◌, ◌≤◌, ◌-◌, Bool, false, ◌&&◌, not, if◌then◌else◌, ◌≡◌, arith, le→ltb, ◌∙◌,
}
use minotaur.Base.Int.{
  ℤ, pos, negsuc, ◌+ℤ◌, ◌-ℤ◌, ltb_ℤ, wrap64, ◌≤ℤ◌, IsInt64, wrap64_of_IsInt64, wrap64_overflow,
}
use minotaur.Task.{Task, refresh_task_status, increment_counter, decrement_counter}
use minotaur.Task.Refresh.{refresh_task_status_lem}

module _ {K V : Type 0} (dec_key : Discrete K) (dec_value : Discrete V) (nil_value : V) where
  refresh-curr_count :
      (now : ℕ) (t : Task K V)
      → (refresh_task_status dec_key dec_value nil_value now t).curr_count ≡ t.curr_count
  refresh-curr_count now t =
      rw (refresh_task_status_lem dec_key dec_value nil_value now t) (ground arith)

  clip : Bool → ℤ → ℤ → ℤ
  clip overflow goal sum = if not overflow && ltb_ℤ goal sum then goal else sum

  increment-clip :
      (now incr : ℕ) (t : Task K V)
      → (increment_counter dec_key dec_value nil_value now (pos incr) t).curr_count
        ≡ clip t.curr_overflow t.counter (wrap64 (t.curr_count +ℤ pos incr))
  unfolding increment_counter clip
  increment-clip now incr t =
      let sum = wrap64 (t.curr_count +ℤ pos incr) in
      rw (le→ltb (incr + 0) 0 (omega arith)) (
        refresh-curr_count now (record t {
          curr_count = if not t.curr_overflow && ltb_ℤ t.counter sum then t.counter else sum;
        }))

  clip_bounds :
      (goal sum : ℤ)
      → pos 0 ≤ℤ goal
      → pos 0 ≤ℤ sum
      → (pos 0 ≤ℤ clip false goal sum) × (clip false goal sum ≤ℤ goal)
  unfolding clip
  clip_bounds goal sum h k = ground arith

  +ℤ-nonneg : (a : ℤ) (n : ℕ) → pos 0 ≤ℤ a → pos 0 ≤ℤ a +ℤ pos n
  unfolding ◌+ℤ◌
  +ℤ-nonneg a n h = ground arith

  -- The counter of a task that may not overflow stays between 0 and its goal, for an increment that
  -- is not negative and does not take the sum past the largest `int64`.
  pub increment_counter_bounds :
      (now incr : ℕ) (t : Task K V)
      → t.curr_overflow ≡ false
      → pos 0 ≤ℤ t.curr_count
      → t.curr_count ≤ℤ t.counter
      → IsInt64 (t.curr_count +ℤ pos incr)
      → (pos 0 ≤ℤ (increment_counter dec_key dec_value nil_value now (pos incr) t).curr_count)
        × ((increment_counter dec_key dec_value nil_value now (pos incr) t).curr_count ≤ℤ t.counter)
  increment_counter_bounds now incr t o low high fits =
      rw (increment-clip now incr t, wrap64_of_IsInt64 (t.curr_count +ℤ pos incr) fits, o)
        (clip_bounds t.counter (t.curr_count +ℤ pos incr) (omega arith)
          (+ℤ-nonneg t.curr_count incr low))

  sum_pos : (n m : ℕ) → pos n +ℤ pos m ≡ pos (n + m)
  unfolding ◌+ℤ◌
  sum_pos n m = ground arith

  difference_fits : (n m : ℕ) → n < 2 ^ 63 → m < 2 ^ 63 → IsInt64 (pos n -ℤ pos m)
  unfolding ◌-ℤ◌
  difference_fits n m h k = ground arith

  floor_difference :
      (n m : ℕ) → (if ltb_ℤ (pos n -ℤ pos m) (pos 0) then pos 0 else pos n -ℤ pos m) ≡ pos (n - m)
  unfolding ◌-ℤ◌
  floor_difference n m = ground arith

  -- `DecrementCounter` leaves a count that is not negative, whatever is taken off a count that is
  -- not negative.
  pub decrement_counter-pos :
      (now decr n : ℕ) (t : Task K V)
      → t.curr_count ≡ pos n
      → n < 2 ^ 63
      → decr < 2 ^ 63
      → (decrement_counter dec_key dec_value nil_value now (pos decr) t).curr_count ≡ pos (n - decr)
  unfolding decrement_counter
  decrement_counter-pos now decr n t e hn hd = rw (le→ltb (decr + 0) 0 (omega arith)) (
      refresh-curr_count now _
      ∙ rw (e, wrap64_of_IsInt64 (pos n -ℤ pos decr) (difference_fits n decr hn hd))
          (floor_difference n decr))

  -- A sum past the largest `int64` wraps to a negative number, which the test against the goal does
  -- not see: the counter of a task that may not overflow falls from n to n + incr - 2^64.
  pub increment_counter_wraps :
      (now incr n goal : ℕ) (t : Task K V)
      → t.curr_overflow ≡ false
      → t.curr_count ≡ pos n
      → t.counter ≡ pos goal
      → n < 2 ^ 63
      → incr < 2 ^ 63
      → 2 ^ 63 ≤ n + incr
      → (increment_counter dec_key dec_value nil_value now (pos incr) t).curr_count
        ≡ negsuc (2 ^ 64 - (n + incr) - 1)
  unfolding clip
  increment_counter_wraps now incr n goal t o e g hn hi h =
      rw
        (
          increment-clip now incr t,
          o,
          e,
          g,
          sum_pos n incr,
          wrap64_overflow (n + incr) h (omega arith),
        )
        (ground arith)
