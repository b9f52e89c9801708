-- ===== src/Task/Tests.antt =====
-- The theorems on game/task at concrete tasks.
use minotaur.Base.{
  ℕ, ◌+◌, ◌-◌, ◌^◌, ◌≤◌, List, [], ◌∷◌, Bool, true, false, Option, some, none, if◌then◌else◌, ◌≡◌,
  refl, arith, ℕ_discrete,
}
use minotaur.Base.Int.{ℤ, pos, negsuc, ◌+ℤ◌, ◌≤ℤ◌}
use minotaur.Task.{
  Task, Status, accept, complete, reward, refresh_task_status, increment_counter,
  assign_condition_value_and_refresh,
}
use minotaur.Task.Lifecycle.{Call, claim, increment, rewards, rewards-le-one}

abbrev hunt : Task ℕ ℕ
hunt = record {
  kind = "hunt";
  status = accept;
  cond = some ((7, 5) ∷ []);
  cond_value = [];
  counter = pos 5;
  curr_count = pos 3;
  curr_overflow = false;
  deadline = 100;
  start_time = 0;
  limited_duration = pos 0;
}

-- The condition's value arrives, then the count does, and the deadline has no part in it.
hunt_runs :
    (increment_counter ℕ_discrete ℕ_discrete 0 20
      (pos 9)
      (assign_condition_value_and_refresh ℕ_discrete ℕ_discrete 0 10 7 5 hunt))
    ≡ record hunt { status = complete; cond_value = (7, 5) ∷ []; curr_count = pos 5 }
unfolding increment_counter assign_condition_value_and_refresh refresh_task_status ℕ_discrete
    minotaur.Base.Int.◌+ℤ◌ minotaur.Base.Int.wrap64
hunt_runs = refl

abbrev calls : List (Call ℕ ℕ)
calls = increment 50 (pos 9) ∷ claim ∷ claim ∷ []

rewards-le-one_example :
    (rewards ℕ_discrete ℕ_discrete 0 (record hunt { cond = none }) calls ≤ 1)
    × (◌≡◌ {A = Status} accept reward
        → rewards ℕ_discrete ℕ_discrete 0 (record hunt { cond = none }) calls ≡ 0)
rewards-le-one_example = rewards-le-one ℕ_discrete ℕ_discrete 0 calls (record hunt { cond = none })
