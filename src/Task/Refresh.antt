-- ===== src/Task/Refresh.antt =====
-- game/task/task.go: what `refreshTaskStatus` decides.
use minotaur.Base.{ℕ, Bool, ◌&&◌, not, if◌then◌else◌, ◌≡◌, arith}
use minotaur.Base.Int.{pos, ltb_ℤ}
use minotaur.Task.{
  Task, accept, failed, complete, is_accept, all_met, is_frozen, refresh_task_status,
}

module _ {K V : Type 0} (dec_key : Discrete K) (dec_value : Discrete V) (nil_value : V) where
  -- The counter has reached its goal, or has none, and every condition has its value.
  unfoldable pub is_satisfied : Task K V → Bool
  is_satisfied t =
      not (ltb_ℤ (pos 0) t.counter && ltb_ℤ t.curr_count t.counter)
      && all_met dec_key dec_value nil_value t.cond t.cond_value

  -- Between the start time and the deadline `refreshTaskStatus` makes an unsettled task complete if
  -- its counter and conditions are satisfied, and accepted if they are not; a settled task, and any
  -- task outside its window, stays as it is. No other field changes.
  pub refresh_task_status_lem :
      (now : ℕ) (t : Task K V)
      → refresh_task_status dec_key dec_value nil_value now t ≡ (
          if is_frozen dec_key dec_value nil_value now t
          then t
          else record t { status = if is_satisfied t then complete else accept })
  unfolding refresh_task_status is_satisfied is_accept
  refresh_task_status_lem now t = ground arith

  -- `refreshTaskStatus` never fails a task: a task that is failed afterwards was failed before, and
  -- a deadline or a duration that has run out has no effect.
  pub refresh_never_fails :
      (now : ℕ) (t : Task K V)
      → (refresh_task_status dec_key dec_value nil_value now t).status ≡ failed
      → t.status ≡ failed
  unfolding refresh_task_status is_accept
  refresh_never_fails now t h = ground arith
