-- ===== src/SyncMap/Lock.antt =====
-- utils/collection/mappings/sync_map.go: the lock of `DeleteExist`.
use minotaur.Base.{false, panic, ◌≡◌, refl}
use minotaur.SyncMap.{SyncMap, delete_exist, exist}

module _ {K V : Type 0} (dec : Discrete K) (zero_value : V) where
  -- `DeleteExist` of a key that is not in the map ends the program: it gives the lock back twice.
  pub delete_exist_missing :
      (key : K) (sm : SyncMap K V)
      → sm.atom ≡ false
      → exist dec zero_value key sm ≡ false
      → delete_exist dec zero_value key sm ≡ panic
  unfolding delete_exist exist
  delete_exist_missing key sm a e = rw (a, e) refl
