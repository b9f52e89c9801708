-- ===== src/Buffer/RingUnbounded/Lost.antt =====
-- utils/buffer/ring_unbounded.go: a value that is written while the goroutine waits, and then the
-- buffer is closed before the goroutine runs.
use minotaur.Base.{ℕ, List, [], ◌∷◌, ◌++◌, true, false, ret, ◌≡◌, refl, ap, ◌∙◌, append_assoc}
use minotaur.Buffer.Ring.{Ring}
use minotaur.Buffer.Ring.Inv.{IsValid, contents}
use minotaur.Buffer.Ring.Write.{write_lem}
use minotaur.Buffer.RingUnbounded.{
  waiting, stopped, Unbounded, Event, on_write, on_close, on_process, on_receive, step, run,
}

module _ {A : Type 0} (zero_value : A) where
  -- After the goroutine has stopped only the values that `rc` buffers are still handed out.
  module _ (ring : Ring A) (cap : ℕ) (accepted : List A) where
    abbrev ended : List A → List A → Unbounded A
    ended rc received = record {
      ring = ring;
      rc = rc;
      rc_cap = cap;
      closed = true;
      place = stopped;
      accepted = accepted;
      received = received;
    }

    frozen :
        (es : List (Event A)) (rc received : List A)
        → (rc' received' : List A) × (run zero_value (ended rc received) es
            ≡ ret (ended rc' received'))
          × (received' ++ rc' ≡ received ++ rc)
    unfolding run step
    frozen [] rc received = (rc, received, refl, refl)
    frozen (on_write v ∷ es) rc received = frozen es rc received
    frozen (on_close ∷ es) rc received = frozen es rc received
    frozen (on_process ∷ es) rc received = frozen es rc received
    frozen (on_receive ∷ es) [] received = frozen es [] received
    frozen (on_receive ∷ es) (x ∷ rc) received =
        let (rc', received', e, c) = frozen es rc (received ++ x ∷ []) in
        (rc', received', e, c ∙ append_assoc received (x ∷ []) rc)

  -- The goroutine waits on an open buffer with an empty ring; `v` is written, the buffer is closed,
  -- and the goroutine runs. Then it stops, and whatever happens later `v` stays in the ring: `Write`
  -- took it in, and what readers have received or can still receive is what it was before.
  pub close_loses :
      (ring : Ring A) (rc : List A) (cap : ℕ) (accepted received : List A) (v : A)
      (es : List (Event A))
      → IsValid ring
      → contents ring ≡ []
      → (b' : Unbounded A) × (run zero_value
            (record {
              ring = ring;
              rc = rc;
              rc_cap = cap;
              closed = false;
              place = waiting;
              accepted = accepted;
              received = received;
            })
            (on_write v ∷ on_close ∷ on_process ∷ on_process ∷ es)
          ≡ ret b')
        × (b'.place ≡ stopped)
        × (contents b'.ring ≡ v ∷ [])
        × (b'.accepted ≡ accepted ++ v ∷ [])
        × (b'.received ++ b'.rc ≡ received ++ rc)
  unfolding run step
  close_loses ring rc cap accepted received v es valid empty =
      let (ring', e, valid', c) = write_lem zero_value ring v valid in
      let (rc', received', ran, kept) = frozen ring' cap (accepted ++ v ∷ []) es rc received in
      (
        ended ring' cap (accepted ++ v ∷ []) rc' received',
        rw e ran,
        refl,
        c ∙ ap (λ q. q ++ v ∷ []) empty,
        refl,
        kept,
      )
