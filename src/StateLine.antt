-- ===== src/StateLine.antt =====
-- utils/chrono/state_line.go: states in the order of the times at which they begin. A time is the
-- number of nanoseconds since `time.Time{}`, and a trigger is a value of the type T.
pub mod Entries
pub mod Adds
pub mod Runs
pub mod Sorted
pub mod Distinct
pub mod Line
pub mod ByTime
pub mod ByState
pub mod Checks
mod Tests
use minotaur.Base.{
  ℕ, zero, suc, ◌+◌, ◌-◌, List, [], ◌∷◌, ◌++◌, Bool, true, false, ◌&&◌, ◌||◌, not, same, Option,
  some, none, if◌then◌else◌, ltb, length, take, drop, map, Go, ret, panic, ◌>>=◌, index, store,
  slice,
}
use minotaur.Base.Int.{ℤ, pos, negsuc, ◌+ℤ◌, ltb_ℤ, eqb_ℤ}
use minotaur.Collection.Contains.{in_comparable_slice}

pub record StateLine (State T : Type 0) : Type 0 where
  pub states : List State
  pub points : List ℤ
  pub trigger : List (List T)

-- `point.Before(t) || point.Equal(t)`
unfoldable pub not_later : ℤ → ℤ → Bool
not_later point t = ltb_ℤ point t || eqb_ℤ point t

-- `for i := 0; i < len(xs); i++ { if p(i, xs[i]) { … } }`: the first index of the test, from `i` on.
unfoldable pub first_index : {A : Type 0} → (ℕ → A → Bool) → ℕ → List A → Option ℕ
first_index p i [] = none
first_index p i (x ∷ xs) = if p i x then some i else first_index p (suc i) xs

-- `for i := len(xs) - 1; i >= 0; i-- { if p(i, xs[i]) { … } }`: the last index of the test.
unfoldable pub last_index_of : {A : Type 0} → (ℕ → A → Bool) → ℕ → List A → Option ℕ
last_index_of p i [] = none
last_index_of p i (x ∷ xs) = elim (last_index_of p (suc i) xs) [
  | some j ↦ some j
  | none ↦ if p i x then some i else none
]

-- `append(xs[:i], append([]A{x}, xs[i:]...)...)`
unfoldable pub insert_at : {A : Type 0} → ℕ → A → List A → Go (List A)
insert_at i x xs = if ltb (length xs) i then panic else ret (take i xs ++ x ∷ drop i xs)

module _ {State T : Type 0} where
  unfoldable pub new_state_line : State → StateLine State T
  new_state_line zero_state = record {
    states = zero_state ∷ [];
    points = pos 0 ∷ [];
    trigger = [] ∷ [];
  }

  unfoldable pub get_last_state : StateLine State T → Go State
  unfolding index
  get_last_state s = elim s.states [ [] ↦ panic | x ∷ xs ↦ index (x ∷ xs) (length xs) ]

  unfoldable pub get_state_index_by_time : ℤ → StateLine State T → Option ℕ
  unfolding last_index_of not_later
  get_state_index_by_time t s = last_index_of (λ i point. not_later point t) 0 s.points

  unfoldable pub get_state_by_time : ℤ → StateLine State T → Go State
  unfolding last_index_of not_later index
  get_state_by_time t s = elim (last_index_of (λ i point. not_later point t) 0 s.points) [
    | some i ↦ index s.states i
    | none ↦ elim s.points [ [] ↦ panic | p ∷ ps ↦ index s.states (length ps) ]
  ]

  unfoldable pub get_trigger_by_time : ℤ → StateLine State T → Go (List T)
  unfolding last_index_of not_later index
  get_trigger_by_time t s = elim (last_index_of (λ i point. not_later point t) 0 s.points) [
    | some i ↦ index s.trigger i
    | none ↦ ret []
  ]

  -- `Move`
  unfoldable pub move_line : ℤ → StateLine State T → StateLine State T
  move_line d s = record s { points = map (λ point. point +ℤ d) s.points }

  unfoldable pub get_state_count : StateLine State T → ℕ
  get_state_count s = length s.states

  unfoldable pub get_state_by_index : ℕ → StateLine State T → Go State
  unfolding index
  get_state_by_index i s = index s.states i

  unfoldable pub get_time_by_index : ℕ → StateLine State T → Go ℤ
  unfolding index
  get_time_by_index i s = index s.points i

  unfoldable pub get_trigger_by_index : ℕ → StateLine State T → Go (List T)
  unfolding index
  get_trigger_by_index i s = index s.trigger i

  unfoldable pub get_next_state_time_by_index : ℕ → StateLine State T → Go ℤ
  unfolding index
  get_next_state_time_by_index i s = index s.points (suc i)

  unfoldable pub get_prev_state_time_by_index : ℕ → StateLine State T → Go ℤ
  unfolding index
  get_prev_state_time_by_index zero s = panic
  get_prev_state_time_by_index (suc i) s = index s.points i

module _ {State : Type 0} (dec : Discrete State) where
  -- The loop of `Check` and the tests behind it, from the two indices on.
  unfoldable pub check_states : Bool → List State → List State → Bool
  check_states missing_allowed [] [] = true
  check_states missing_allowed [] (y ∷ ys) = missing_allowed
  check_states missing_allowed (x ∷ xs) [] = false
  check_states missing_allowed (x ∷ xs) (y ∷ ys) =
      let both = check_states missing_allowed xs ys in
      let skip = check_states missing_allowed (x ∷ xs) ys in
      if same dec x y then both else if missing_allowed then skip else false

  unfoldable pub missing_of : List State → List State → List State
  unfolding in_comparable_slice
  missing_of states [] = []
  missing_of states (state ∷ rest) =
      if not (in_comparable_slice dec states state)
      then state ∷ missing_of states rest
      else missing_of states rest

module _ {State T : Type 0} (dec : Discrete State) where
  unfoldable pub check_line : Bool → List State → StateLine State T → Bool
  unfolding check_states
  check_line missing_allowed states s = check_states dec missing_allowed s.states states

  unfoldable pub get_missing_states : List State → StateLine State T → List State
  unfolding missing_of
  get_missing_states states s = missing_of dec s.states states

  unfoldable pub has_state : State → StateLine State T → Bool
  unfolding in_comparable_slice
  has_state state s = in_comparable_slice dec s.states state

  -- The index at which a state is held.
  unfoldable pub get_index_by_state : State → StateLine State T → Option ℕ
  unfolding first_index
  get_index_by_state state s = first_index (λ i x. same dec x state) 0 s.states

  unfoldable pub get_time_by_state : State → StateLine State T → Go ℤ
  unfolding first_index index
  get_time_by_state state s = elim (first_index (λ i x. same dec x state) 0 s.states) [
    | some i ↦ index s.points i
    | none ↦ ret (pos 0)
  ]

  unfoldable pub get_trigger_by_state : State → StateLine State T → Go (List T)
  unfolding first_index index
  get_trigger_by_state state s = elim (first_index (λ i x. same dec x state) 0 s.states) [
    | some i ↦ index s.trigger i
    | none ↦ ret []
  ]

  unfoldable pub get_next_time_by_state : State → StateLine State T → Go ℤ
  unfolding first_index index
  get_next_time_by_state state s =
      elim (first_index (λ i x. same dec x state && ltb (suc i) (length s.points)) 0 s.states) [
        | some i ↦ index s.points (suc i)
        | none ↦ index s.points 0
      ]

  unfoldable pub get_prev_time_by_state : State → StateLine State T → Go ℤ
  unfolding last_index_of index
  get_prev_time_by_state state s =
      elim (last_index_of (λ i x. same dec x state && ltb 0 i) 0 s.states) [
        | some i ↦ index s.points (i - 1)
        | none ↦ ret (pos 0)
      ]

  -- The three insertions of `AddState` at one index.
  unfoldable pub insert_state : ℕ → State → ℤ → List T → StateLine State T → Go (StateLine State T)
  unfolding insert_at
  insert_state i state t on_trigger s = do
    points ← insert_at i t s.points
    states ← insert_at i state s.states
    trigger ← insert_at i on_trigger s.trigger
    ret (record s { states = states; points = points; trigger = trigger })

  unfoldable pub add_state : State → ℤ → List T → StateLine State T → Go (StateLine State T)
  unfolding in_comparable_slice first_index insert_state
  add_state state t on_trigger s =
      if in_comparable_slice dec s.states state
      then ret s
      else elim (first_index (λ i point. ltb_ℤ t point) 0 s.points) [
        | some i ↦ insert_state i state t on_trigger s
        | none ↦ ret (record s {
          states = s.states ++ state ∷ [];
          points = s.points ++ t ∷ [];
          trigger = s.trigger ++ on_trigger ∷ [];
        })
      ]

  unfoldable pub add_trigger_to_state : State → List T → StateLine State T → Go (StateLine State T)
  unfolding first_index index store
  add_trigger_to_state state on_trigger s =
      elim (first_index (λ i x. same dec x state) 0 s.states) [
        | some i ↦ do
          old ← index s.trigger i
          trigger ← store s.trigger i (old ++ on_trigger)
          ret (record s { trigger = trigger })
        | none ↦ ret s
      ]
