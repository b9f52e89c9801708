-- ===== src/Buffer/RingUnbounded/Tests.antt =====
-- The theorems on utils/buffer/ring_unbounded.go at concrete states.
use minotaur.Base.{ℕ, List, [], ◌∷◌, ◌++◌, ret, ◌≡◌, refl, false, arith}
use minotaur.Buffer.Ring.{Ring}
use minotaur.Buffer.Ring.Inv.{IsValid, contents}
use minotaur.Buffer.RingUnbounded.{
  Unbounded, Event, on_write, on_close, on_process, on_receive, waiting, stopped,
  new_ring_unbounded, run,
}
use minotaur.Buffer.RingUnbounded.Conserve.{Sound, run-Sound, new_ring_unbounded-Sound}
use minotaur.Buffer.RingUnbounded.Lost.{close_loses}

abbrev small : Ring ℕ
small = record { buf = 0 ∷ 0 ∷ []; init_size = 2; size = 2; r = 0; w = 0 }

small-IsValid : IsValid small
small-IsValid = omega arith

abbrev events : List (Event ℕ)
events =
    on_write 1
    ∷ on_process
    ∷ on_write 2
    ∷ on_process
    ∷ on_process
    ∷ on_receive
    ∷ on_process
    ∷ on_close
    ∷ []

run-Sound_example : (b' : Unbounded ℕ) × (run 0 (new_ring_unbounded 0 1) events ≡ ret b') × Sound b'
run-Sound_example = run-Sound 0 events (new_ring_unbounded 0 1) (new_ring_unbounded-Sound 0 1)

new_ring_unbounded-Sound_example : Sound (new_ring_unbounded {A = ℕ} 0 3)
new_ring_unbounded-Sound_example = new_ring_unbounded-Sound 0 3

close_loses_example :
    (b' : Unbounded ℕ) × (run 0
        (record {
          ring = small;
          rc = [];
          rc_cap = 1;
          closed = false;
          place = waiting;
          accepted = 4 ∷ [];
          received = 4 ∷ [];
        })
        (on_write 5 ∷ on_close ∷ on_process ∷ on_process ∷ on_receive ∷ [])
      ≡ ret b')
    × (b'.place ≡ stopped)
    × (contents b'.ring ≡ 5 ∷ [])
    × (b'.accepted ≡ 4 ∷ 5 ∷ [])
    × (b'.received ++ b'.rc ≡ 4 ∷ [])
close_loses_example =
    close_loses 0 small [] 1 (4 ∷ []) (4 ∷ []) 5 (on_receive ∷ []) small-IsValid refl
