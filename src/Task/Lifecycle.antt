-- ===== src/Task/Lifecycle.antt =====
-- game/task/task.go: the life of a task, over any sequence of calls.
use minotaur.Base.{
  ℕ, suc, ◌≤◌, List, [], ◌∷◌, Bool, true, false, Option, some, none, if◌then◌else◌, ◌≡◌, refl, ap,
  arith, ◌∙◌,
}
use minotaur.Base.Int.{ℤ}
use minotaur.Task.{
  Task, Status, reward, is_settled, refresh_task_status, receive_reward, increment_counter,
  decrement_counter, assign_at, assign_all_at, assign_condition_value_and_refresh,
  assign_condition_value_and_refresh_by_condition, is_frozen,
}
use minotaur.Task.Refresh.{refresh_task_status_lem}

-- A call of one of the methods, at a time; only `ResetStatus` is left out.
pub data Call (K V : Type 0) : Type 0 where
  claim : Call K V
  increment : ℕ → ℤ → Call K V
  decrement : ℕ → ℤ → Call K V
  assign_one : ℕ → K → V → Call K V
  assign_many : ℕ → List (K × V) → Call K V

module _ {K V : Type 0} (dec_key : Discrete K) (dec_value : Discrete V) (nil_value : V) where
  -- The task afterwards, and whether a reward was handed out.
  unfoldable pub call : Task K V → Call K V → Task K V × Bool
  call t claim = receive_reward dec_key dec_value nil_value t
  call t (increment now incr) = (increment_counter dec_key dec_value nil_value now incr t, false)
  call t (decrement now decr) = (decrement_counter dec_key dec_value nil_value now decr t, false)
  call t (assign_one now k v) =
      (assign_condition_value_and_refresh dec_key dec_value nil_value now k v t, false)
  call t (assign_many now m) =
      (assign_condition_value_and_refresh_by_condition dec_key dec_value nil_value now m t, false)

  -- How many rewards a sequence of calls hands out.
  unfoldable pub rewards : Task K V → List (Call K V) → ℕ
  rewards t [] = 0
  rewards t (c ∷ cs) =
      let (t', paid) = call t c in if paid then suc (rewards t' cs) else rewards t' cs

  settled_refresh :
      (now : ℕ) (t : Task K V)
      → is_settled t.status ≡ true
      → refresh_task_status dec_key dec_value nil_value now t ≡ t
  unfolding is_frozen
  settled_refresh now t h = refresh_task_status_lem dec_key dec_value nil_value now t ∙ ground arith

  -- Both ways round a refresh that is made under a test.
  refreshed :
      (b : Bool) (now : ℕ) (t t' : Task K V)
      → is_settled t.status ≡ true
      → t'.status ≡ t.status
      → ((if b then refresh_task_status dec_key dec_value nil_value now t' else t).status
          ≡ t.status)
        × ((if b then t else refresh_task_status dec_key dec_value nil_value now t').status
            ≡ t.status)
  refreshed true now t t' h e =
      (ap (λ s. s.status) (settled_refresh now t' (ap is_settled e ∙ h)) ∙ e, refl)
  refreshed false now t t' h e =
      (refl, ap (λ s. s.status) (settled_refresh now t' (ap is_settled e ∙ h)) ∙ e)

  settled_assign_at :
      (now : ℕ) (k : K) (v : V) (cond : Option (List (K × V))) (t : Task K V)
      → is_settled t.status ≡ true
      → (assign_at dec_key dec_value nil_value now k v cond t).status ≡ t.status
  unfolding assign_at
  settled_assign_at now k v none t h = refl
  settled_assign_at now k v (some cond) t h = (refreshed _ now t _ h refl).0

  settled_assign_all_at :
      (now : ℕ) (m : List (K × V)) (cond : Option (List (K × V))) (t : Task K V)
      → is_settled t.status ≡ true
      → (assign_all_at dec_key dec_value nil_value now m cond t).status ≡ t.status
  unfolding assign_all_at
  settled_assign_all_at now m none t h = refl
  settled_assign_all_at now m (some cond) t h = (refreshed true now t _ h refl).0

  settled_reward : (s : Status) → s ≡ reward → is_settled s ≡ true
  unfolding is_settled
  settled_reward s h = ground arith

  rewarded_call :
      (t : Task K V) (c : Call K V)
      → t.status ≡ reward
      → ((call t c).0.status ≡ reward) × ((call t c).1 ≡ false)
  unfolding call receive_reward increment_counter decrement_counter
      assign_condition_value_and_refresh assign_condition_value_and_refresh_by_condition
  rewarded_call t claim h = ground arith
  rewarded_call t (increment now incr) h =
      ((refreshed _ now t _ (settled_reward t.status h) refl).1 ∙ h, refl)
  rewarded_call t (decrement now decr) h =
      ((refreshed _ now t _ (settled_reward t.status h) refl).1 ∙ h, refl)
  rewarded_call t (assign_one now k v) h =
      (settled_assign_at now k v t.cond t (settled_reward t.status h) ∙ h, refl)
  rewarded_call t (assign_many now m) h =
      (settled_assign_all_at now m t.cond t (settled_reward t.status h) ∙ h, refl)

  paid_call : (t : Task K V) (c : Call K V) → (call t c).1 ≡ true → (call t c).0.status ≡ reward
  unfolding call receive_reward
  paid_call t claim h = ground arith
  paid_call t (increment now incr) h = cc
  paid_call t (decrement now decr) h = cc
  paid_call t (assign_one now k v) h = cc
  paid_call t (assign_many now m) h = cc

  rewards_of_reward : (t : Task K V) (cs : List (Call K V)) → t.status ≡ reward → rewards t cs ≡ 0
  unfolding rewards
  rewards_of_reward t [] h = refl
  rewards_of_reward t (c ∷ cs) h =
      let (kept, unpaid) = rewarded_call t c h in
      ground (arith, unpaid, rewards_of_reward (call t c).0 cs kept)

  at_most_one : (cs : List (Call K V)) (t : Task K V) → rewards t cs ≤ 1
  unfolding rewards
  at_most_one [] t = omega arith
  at_most_one (c ∷ cs) t =
      ground (arith, paid_call t c, rewards_of_reward (call t c).0 cs, at_most_one cs (call t c).0)

  -- Whatever is called, in any order and at any times, as long as `ResetStatus` is not: the reward
  -- of a task is handed out at most once, and not at all if the task starts as rewarded.
  pub rewards-le-one :
      (cs : List (Call K V)) (t : Task K V)
      → (rewards t cs ≤ 1) × (t.status ≡ reward → rewards t cs ≡ 0)
  rewards-le-one cs t = (at_most_one cs t, rewards_of_reward t cs)
