-- ===== src/Buffer/Backlog/Tests.antt =====
-- The theorems on utils/buffer/unbounded.go at concrete buffers.
use minotaur.Base.{ℕ, List, [], ◌∷◌, some, none, ◌≡◌, refl}
use minotaur.Buffer.Backlog.{new_unbounded, put, load, close, get}
use minotaur.Buffer.Backlog.Queue.{
  Op, putting, taking, closing, call, run, queue_run, replies_refine, new_unbounded-Ready,
}

abbrev script : List (Op ℕ)
script = putting 1 ∷ putting 2 ∷ putting 3 ∷ taking ∷ closing ∷ putting 4 ∷ taking ∷ taking ∷ []

-- 3 stays in the backlog of the closed buffer.
script_runs :
    run (new_unbounded {V = ℕ}) script
    ≡ none ∷ none ∷ none ∷ some 1 ∷ none ∷ none ∷ some 2 ∷ none ∷ []
unfolding new_unbounded run call put load close get
script_runs = refl

replies_refine_example : run (new_unbounded {V = ℕ}) script ≡ queue_run [] script
unfolding new_unbounded
replies_refine_example = replies_refine script new_unbounded new_unbounded-Ready
