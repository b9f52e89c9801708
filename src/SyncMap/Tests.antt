-- ===== src/SyncMap/Tests.antt =====
-- The theorems on sync_map.go at a concrete map.
use mathlib.Core.List.{lookup}
use minotaur.Base.{ℕ, List, [], ◌∷◌, false, none, ret, ◌≡◌, refl, ℕ_discrete}
use minotaur.SyncMap.{SyncMap}
use minotaur.SyncMap.Store.{
  Call, setting, getting, deleting_get, testing, run, spec_run, opened, run_follows,
}

abbrev calls : List (Call ℕ ℕ)
calls = setting 1 10 ∷ setting 1 11 ∷ deleting_get 1 ∷ testing 1 ∷ getting 1 ∷ []

run_follows_example :
    (m : List (ℕ × ℕ)) × (run ℕ_discrete 0 (opened ℕ_discrete 0 []) calls
      ≡ ret (opened ℕ_discrete 0 m, spec_run ℕ_discrete 0 (λ k. none) calls))
unfolding lookup
run_follows_example = run_follows ℕ_discrete 0 calls [] (λ k. none) (λ k. refl)

abbrev one_entry : SyncMap ℕ ℕ
one_entry = record { entries = (1, 10) ∷ []; held = false; atom = false }
