-- ===== src/Buffer/Ring/Tests.antt =====
-- The theorems on utils/buffer/ring.go at concrete rings.
use minotaur.Base.{ℕ, List, [], ◌∷◌, ret, ◌≡◌, refl, some, none, arith, ◌⊎◌}
use minotaur.Buffer.Ring.{Ring, read, read_all, buffer_is_empty}
use minotaur.Buffer.Ring.Inv.{IsValid, contents}
use minotaur.Buffer.Ring.Read.{read_lem, read_all_lem}
use minotaur.Buffer.Ring.Queue.{
  Op, put, get, get_all, done, got, got_all, run, queue_call, queue_run, run_refines,
}

-- 8, then 9, round the end of the storage.
abbrev wrapped : Ring ℕ
wrapped = record { buf = 9 ∷ 7 ∷ 8 ∷ []; init_size = 2; size = 3; r = 2; w = 1 }

wrapped-IsValid : IsValid wrapped
wrapped-IsValid = omega arith

abbrev script : List (Op ℕ)
script = put 1 ∷ put 2 ∷ get ∷ get ∷ get_all ∷ get ∷ []

-- The first write fills the ring, which grows.
script_runs :
    (queue_run 0 (8 ∷ 9 ∷ []) script).1
    ≡ done
      ∷ done
      ∷ got 8 none
      ∷ got 9 none
      ∷ got_all (1 ∷ 2 ∷ [])
      ∷ got 0 (some buffer_is_empty)
      ∷ []
unfolding queue_run queue_call
script_runs = refl

read_lem_example :
    ((contents wrapped ≡ []) × (read 0 wrapped ≡ ret (wrapped, 0, some buffer_is_empty)))
    ⊎ ((b' : Ring ℕ) × (v : ℕ) × (read 0 wrapped ≡ ret (b', v, none))
        × IsValid b'
        × (contents wrapped ≡ v ∷ contents b'))
read_lem_example = read_lem 0 wrapped wrapped-IsValid

read_all_lem_example :
    (b' : Ring ℕ) × (read_all 0 wrapped ≡ ret (b', 8 ∷ 9 ∷ [])) × IsValid b' × (contents b' ≡ [])
read_all_lem_example = read_all_lem 0 wrapped wrapped-IsValid

run_refines_example :
    (b' : Ring ℕ) × (run 0 wrapped script ≡ ret (b', (queue_run 0 (8 ∷ 9 ∷ []) script).1))
    × IsValid b'
    × (contents b' ≡ (queue_run 0 (8 ∷ 9 ∷ []) script).0)
run_refines_example = run_refines 0 script wrapped wrapped-IsValid
