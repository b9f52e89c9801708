-- ===== src/Task.antt =====
-- game/task: a task with a counter, conditions and a time window. A method takes the time that
-- `time.Now` returns and gives the new task. A `time.Time` is the number of nanoseconds since the
-- zero time. `any` is a type of keys and a type of values with decidable equality, `nil_value` the
-- `nil` that a missing key reads as; the methods do not depend on the order of a map.
pub mod Refresh
pub mod Counter
pub mod Lifecycle
mod Tests
use Prim.Native.String.{String}
use mathlib.Core.List.{lookup}
use mathlib.Core.Logic.{ite}
use minotaur.Base.{
  ℕ, List, [], ◌∷◌, ◌++◌, Bool, true, false, ◌&&◌, ◌||◌, not, Option, some, none, ltb, ◌==◌,
  if◌then◌else◌,
}
use minotaur.Base.Int.{ℤ, pos, ◌+ℤ◌, ◌-ℤ◌, ltb_ℤ, wrap64}

-- `Status`: the zero value, and the constants of status.go in their order.
pub data Status : Type 0 where
  unset accept failed complete reward : Status

-- `s >= StatusComplete`
unfoldable pub is_settled : Status → Bool
is_settled complete = true
is_settled reward = true
is_settled _ = false

unfoldable pub is_complete : Status → Bool
is_complete complete = true
is_complete _ = false

unfoldable pub is_accept : Status → Bool
is_accept accept = true
is_accept _ = false

-- `Task`. `cond` and `cond_value` are maps, `cond` possibly nil.
pub record Task (K V : Type 0) : Type 0 where
  pub kind : String
  pub status : Status
  pub cond : Option (List (K × V))
  pub cond_value : List (K × V)
  pub counter : ℤ
  pub curr_count : ℤ
  pub curr_overflow : Bool
  pub deadline : ℕ
  pub start_time : ℕ
  pub limited_duration : ℤ

module _ {K V : Type 0} (dec_key : Discrete K) (dec_value : Discrete V) (nil_value : V) where
  -- `m[k]`
  unfoldable pub read : List (K × V) → K → V
  unfolding lookup
  read m k = elim (lookup dec_key k m) [ some v ↦ v | none ↦ nil_value ]

  unfoldable pub has_key : List (K × V) → K → Bool
  unfolding lookup
  has_key m k = elim (lookup dec_key k m) [ some v ↦ true | none ↦ false ]

  -- `m[k] = v`
  unfoldable pub assign : K → V → List (K × V) → List (K × V)
  assign k v [] = (k, v) ∷ []
  assign k v ((j, w) ∷ m) = ite (dec_key j k) ((k, v) ∷ m) ((j, w) ∷ assign k v m)

  -- The range loop over `slf.Cond` finds no value that differs.
  unfoldable pub conditions_met : List (K × V) → List (K × V) → Bool
  unfolding read
  conditions_met [] values = true
  conditions_met ((k, v) ∷ cond) values =
      ite (dec_value v (read values k)) (conditions_met cond values) false

  unfoldable pub all_met : Option (List (K × V)) → List (K × V) → Bool
  unfolding conditions_met
  all_met none values = true
  all_met (some cond) values = conditions_met cond values

  -- The early return at the top of `refreshTaskStatus`.
  unfoldable pub is_frozen : ℕ → Task K V → Bool
  unfolding is_settled
  is_frozen now t =
      (not (t.start_time == 0) && ltb now t.start_time)
      || (not (t.deadline == 0) && ltb t.deadline now)
      || is_settled t.status

  -- `refreshTaskStatus`, with the tests of its end as they stand.
  unfoldable pub refresh_task_status : ℕ → Task K V → Task K V
  unfolding is_frozen all_met is_accept
  refresh_task_status now t =
      if is_frozen now t
      then t
      else (let t' = record t { status = complete } in
          if ltb_ℤ (pos 0) t'.counter && ltb_ℤ t'.curr_count t'.counter
          then record t' { status = accept }
          else if not (all_met t'.cond t'.cond_value)
          then record t' { status = accept }
          else if not (t'.deadline == 0) && is_accept t'.status && ltb now t'.deadline
          then record t' { status = failed }
          else if ltb_ℤ (pos 0) t'.limited_duration
              && is_accept t'.status
              && ltb_ℤ t'.limited_duration (pos now -ℤ pos t'.start_time)
          then record t' { status = failed }
          else t')

  unfoldable pub receive_reward : Task K V → Task K V × Bool
  unfolding is_complete
  receive_reward t =
      if is_complete t.status then (record t { status = reward }, true) else (t, false)

  unfoldable pub increment_counter : ℕ → ℤ → Task K V → Task K V
  increment_counter now incr t =
      if ltb_ℤ incr (pos 0)
      then t
      else (let sum = wrap64 (t.curr_count +ℤ incr) in
          refresh_task_status now (record t {
            curr_count = if not t.curr_overflow && ltb_ℤ t.counter sum then t.counter else sum;
          }))

  unfoldable pub decrement_counter : ℕ → ℤ → Task K V → Task K V
  decrement_counter now decr t =
      if ltb_ℤ decr (pos 0)
      then t
      else (let rest = wrap64 (t.curr_count -ℤ decr) in
          refresh_task_status now
            (record t { curr_count = if ltb_ℤ rest (pos 0) then pos 0 else rest }))

  unfoldable pub assign_at : ℕ → K → V → Option (List (K × V)) → Task K V → Task K V
  unfolding has_key assign
  assign_at now key value none t = t
  assign_at now key value (some cond) t =
      if has_key cond key
      then refresh_task_status now (record t { cond_value = assign key value t.cond_value })
      else t

  unfoldable pub assign_condition_value_and_refresh : ℕ → K → V → Task K V → Task K V
  unfolding assign_at
  assign_condition_value_and_refresh now key value t = assign_at now key value t.cond t

  -- The range loop of `AssignConditionValueAndRefreshByCondition`.
  unfoldable pub assign_known : List (K × V) → List (K × V) → List (K × V) → List (K × V)
  unfolding has_key assign
  assign_known cond [] values = values
  assign_known cond ((k, v) ∷ condition) values =
      assign_known cond condition (if has_key cond k then assign k v values else values)

  unfoldable pub assign_all_at : ℕ → List (K × V) → Option (List (K × V)) → Task K V → Task K V
  unfolding assign_known
  assign_all_at now condition none t = t
  assign_all_at now condition (some cond) t =
      refresh_task_status now (record t { cond_value = assign_known cond condition t.cond_value })

  unfoldable pub assign_condition_value_and_refresh_by_condition :
      ℕ → List (K × V) → Task K V → Task K V
  unfolding assign_all_at
  assign_condition_value_and_refresh_by_condition now condition t =
      assign_all_at now condition t.cond t

  unfoldable pub reset_status : ℕ → Task K V → Task K V
  reset_status now t = refresh_task_status now (record t { status = accept })
