-- ===== src/SyncMap.antt =====
-- utils/collection/mappings/sync_map.go: a map behind a lock. A map is the list of its entries in the
-- order in which a range loop visits them; `zero_value` is what it reads at a missing key. A call
-- begins when the lock is free, so that taking it succeeds; the reads under `RLock` change nothing.
pub mod Store
pub mod Lock
mod Tests
use mathlib.Core.List.{lookup}
use mathlib.Core.Logic.{ite}
use minotaur.Base.{
  ℕ, List, [], ◌∷◌, Bool, true, false, Option, some, none, if◌then◌else◌, length, map, Go, ret,
  panic, ◌>>=◌,
}

-- `SyncMap`, `entries` for its field `data`. `held` tells whether the lock is taken for writing.
pub record SyncMap (K V : Type 0) : Type 0 where
  pub entries : List (K × V)
  pub held : Bool
  pub atom : Bool

module _ {K V : Type 0} where
  unfoldable pub lock : SyncMap K V → SyncMap K V
  lock sm = if sm.atom then sm else record sm { held = true }

  -- `sm.lock.Unlock()`, which ends the program if the lock is not held.
  unfoldable pub unlock : SyncMap K V → Go (SyncMap K V)
  unlock sm = if sm.held then ret (record sm { held = false }) else panic

  -- The deferred unlock.
  unfoldable pub leave : SyncMap K V → Go (SyncMap K V)
  unfolding unlock
  leave sm = if sm.atom then ret sm else unlock sm

  -- A method that takes the lock, changes the data and gives the lock back.
  unfoldable pub guarded {ℓ} :
      {R : Type ℓ} → (List (K × V) → List (K × V) × R) → SyncMap K V → Go (SyncMap K V × R)
  unfolding lock leave
  guarded body sm = do
    let taken = lock sm
    let (entries, result) = body taken.entries
    sm' ← leave (record taken { entries = entries })
    ret (sm', result)

module _ {K V : Type 0} (dec : Discrete K) where
  -- `sm.data[key] = value`
  unfoldable pub put_entry : K → V → List (K × V) → List (K × V)
  put_entry key value [] = (key, value) ∷ []
  put_entry key value ((k, v) ∷ m) =
      ite (dec key k) ((k, value) ∷ m) ((k, v) ∷ put_entry key value m)

  -- `delete(sm.data, key)`
  unfoldable pub without : K → List (K × V) → List (K × V)
  without key [] = []
  without key ((k, v) ∷ m) = ite (dec key k) (without key m) ((k, v) ∷ without key m)

module _ {K V : Type 0} (dec : Discrete K) (zero_value : V) where
  unfoldable pub or_zero : Option V → V
  or_zero (some v) = v
  or_zero none = zero_value

  unfoldable pub is_some : Option V → Bool
  is_some (some v) = true
  is_some none = false

  unfoldable pub set : K → V → SyncMap K V → Go (SyncMap K V × Unit {0})
  unfolding put_entry guarded
  set key value sm = guarded (λ entries. (put_entry dec key value entries, tt)) sm

  unfoldable pub get : K → SyncMap K V → V
  unfolding lookup or_zero
  get key sm = or_zero (lookup dec key sm.entries)

  unfoldable pub exist : K → SyncMap K V → Bool
  unfolding lookup is_some
  exist key sm = is_some (lookup dec key sm.entries)

  unfoldable pub get_exist : K → SyncMap K V → V × Bool
  unfolding lookup or_zero is_some
  get_exist key sm = (or_zero (lookup dec key sm.entries), is_some (lookup dec key sm.entries))

  unfoldable pub delete : K → SyncMap K V → Go (SyncMap K V × Unit {0})
  unfolding without guarded
  delete key sm = guarded (λ entries. (without dec key entries, tt)) sm

  unfoldable pub delete_get : K → SyncMap K V → Go (SyncMap K V × V)
  unfolding without guarded lookup or_zero
  delete_get key sm =
      guarded (λ entries. (without dec key entries, or_zero (lookup dec key entries))) sm

  unfoldable pub delete_get_exist : K → SyncMap K V → Go (SyncMap K V × (V × Bool))
  unfolding without guarded lookup or_zero is_some
  delete_get_exist key sm =
      guarded
        (λ entries. (
          without dec key entries,
          (or_zero (lookup dec key entries), is_some (lookup dec key entries)),
        ))
        sm

  -- `DeleteExist` gives the lock back itself on a missing key, and again when it returns.
  unfoldable pub delete_exist : K → SyncMap K V → Go (SyncMap K V × Bool)
  unfolding lock unlock leave without lookup is_some
  delete_exist key sm =
      let taken = lock sm in
      if is_some (lookup dec key taken.entries)
      then (leave (record taken { entries = without dec key taken.entries }) >>= λ sm'.
          ret (sm', true))
      else (unlock taken >>= λ freed. leave freed >>= λ sm'. ret (sm', false))

-- The range loop visits every key, and a key is deleted while it is visited.
module _ {K V : Type 0} where
  unfoldable pub clear : SyncMap K V → Go (SyncMap K V × Unit {0})
  unfolding guarded
  clear sm = guarded (λ entries. ([], tt)) sm

  -- `ClearHandle`: what the handler is called with, in order.
  unfoldable pub clear_handle : SyncMap K V → Go (SyncMap K V × List (K × V))
  unfolding guarded
  clear_handle sm = guarded (λ entries. ([], entries)) sm

  -- `Range`: what the handler is called with, in order, up to the first call that returns true.
  unfoldable pub visited : (K → V → Bool) → List (K × V) → List (K × V)
  visited handle [] = []
  visited handle ((k, v) ∷ entries) =
      let rest = visited handle entries in if handle k v then (k, v) ∷ [] else (k, v) ∷ rest

  unfoldable pub range : (K → V → Bool) → SyncMap K V → Go (SyncMap K V × List (K × V))
  unfolding guarded visited
  range handle sm = guarded (λ entries. (entries, visited handle entries)) sm

  unfoldable pub keys : SyncMap K V → List K
  keys sm = map (λ e. e.0) sm.entries

  unfoldable pub values : SyncMap K V → List V
  values sm = map (λ e. e.1) sm.entries

  unfoldable pub size : SyncMap K V → ℕ
  size sm = length sm.entries

  unfoldable pub new_sync_map : SyncMap K V
  new_sync_map = record { entries = []; held = false; atom = false }
