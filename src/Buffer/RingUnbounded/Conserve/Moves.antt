-- ===== src/Buffer/RingUnbounded/Conserve/Moves.antt =====
-- The steps of utils/buffer/ring_unbounded.go one by one: each keeps the values in order.
use minotaur.Base.{
  List, [], ◌∷◌, ◌++◌, Bool, ◌&&◌, not, true, false, Go, ret, ◌>>=◌, if◌then◌else◌, ◌≡◌, refl, sym,
  ap, ◌∙◌, append-nil, append_assoc,
}
use minotaur.Buffer.Ring.{Ring, write}
use minotaur.Buffer.Ring.Inv.{IsValid, contents}
use minotaur.Buffer.Ring.Write.{write_lem}
use minotaur.Buffer.Ring.Read.{read_all_lem}
use minotaur.Buffer.RingUnbounded.{
  Place, reading, waiting, woken, holding, sending, stopped, Unbounded, is_nil, signal, write_step,
  close_at, process_at, run,
}

-- What the goroutine has taken from the ring and not yet sent.
abbrev pub in_hand : {A : Type 0} → Place A → List A
in_hand (holding vs) = vs
in_hand (sending vs) = vs
in_hand _ = []

-- A goroutine in `cond.Wait` has nothing to do.
abbrev pub IsIdle : {A : Type 0} → Place A → Unbounded A → Type 0
IsIdle waiting b = (contents b.ring ≡ []) × (b.closed ≡ false)
IsIdle _ b = Unit {0}

pub record Sound {A : Type 0} (b : Unbounded A) : Type 0 where
  pub valid : IsValid b.ring
  pub conserved : b.accepted ≡ b.received ++ (b.rc ++ (in_hand b.place ++ contents b.ring))
  pub idle : IsIdle b.place b

module _ {A : Type 0} (zero_value : A) where
  unfoldable pub Keeps : Go (Unbounded A) → Type 0
  Keeps run = (b' : Unbounded A) × (run ≡ ret b') × Sound b'

  snoc_all :
      (a b c d : List A) (v : A)
      → (a ++ (b ++ (c ++ d))) ++ v ∷ [] ≡ a ++ (b ++ (c ++ (d ++ v ∷ [])))
  snoc_all a b c d v = simp append_assoc

  in_hand-signal : (p : Place A) → in_hand (signal p) ≡ in_hand p
  unfolding signal
  in_hand-signal waiting = refl
  in_hand-signal _ = refl

  IsIdle-signal : (p : Place A) (b : Unbounded A) → IsIdle (signal p) b
  unfolding signal
  IsIdle-signal waiting b = tt
  IsIdle-signal _ b = tt

  pub write_step-Sound : (b : Unbounded A) (v : A) → Sound b → Keeps (write_step zero_value b v)
  unfolding Keeps write_step
  write_step-Sound b v h = go b.closed
    where
      go :
          (c : Bool)
          → Keeps (
              if c
              then ret b
              else (write zero_value b.ring v >>= λ ring. ret (record b {
                ring = ring;
                place = signal b.place;
                accepted = b.accepted ++ v ∷ [];
              })))
      go true = (b, refl, h)
      go false =
          let (ring, e, valid, c) = write_lem zero_value b.ring v h.valid in
          (
            record b { ring = ring; place = signal b.place; accepted = b.accepted ++ v ∷ [] },
            rw e refl,
            record {
              valid = valid;
              conserved =
                  rw (h.conserved, c, in_hand-signal b.place)
                    (snoc_all b.received b.rc (in_hand b.place) (contents b.ring) v);
              idle = IsIdle-signal b.place _;
            },
          )

  close_with :
      (b : Unbounded A) (q : Place A) (c : Bool)
      → Sound b
      → in_hand q ≡ in_hand b.place
      → ((b' : Unbounded A) → IsIdle q b')
      → Sound (if c then b else record b { closed = true; place = q })
  close_with b q true h e i = h
  close_with b q false h e i = record {
    valid = h.valid;
    conserved = h.conserved ∙ ap (λ vs. b.received ++ (b.rc ++ (vs ++ contents b.ring))) (sym e);
    idle = i _;
  }

  pub close_at-Sound :
      (b : Unbounded A) (p : Place A) → b.place ≡ p → Sound b → Sound (close_at p b)
  unfolding close_at
  close_at-Sound b (sending vs) e h = h
  close_at-Sound b waiting e h = close_with b woken b.closed h (ap in_hand (sym e)) (λ _. tt)
  close_at-Sound b p e h = close_with b p b.closed h (ap in_hand (sym e)) (λ _. tt)

  -- The goroutine moves on with the same values in hand.
  pub move :
      (b : Unbounded A) (q : Place A)
      → Sound b
      → in_hand q ≡ in_hand b.place
      → ((b' : Unbounded A) → IsIdle q b')
      → Sound (record b { place = q })
  move b q h e i = record {
    valid = h.valid;
    conserved = h.conserved ∙ ap (λ vs. b.received ++ (b.rc ++ (vs ++ contents b.ring))) (sym e);
    idle = i _;
  }

  held :
      (b : Unbounded A) (p : Place A)
      → b.place ≡ p
      → Sound b
      → b.accepted ≡ b.received ++ (b.rc ++ (in_hand p ++ contents b.ring))
  held b p e h = h.conserved ∙ ap (λ q. b.received ++ (b.rc ++ (in_hand q ++ contents b.ring))) e

  -- What the goroutine finds in the ring is what was in the ring.
  pub read_step :
      (b : Unbounded A) → Sound b → b.place ≡ reading → Keeps (process_at zero_value reading b)
  unfolding Keeps process_at
  read_step b h e =
      let (ring, read, valid, c) = read_all_lem zero_value b.ring h.valid in
      let (b', ran, sound) =
        found ring (contents b.ring) valid c (held b reading e h) b.closed refl in
      (b', rw read ran, sound)
    where
      found :
          (ring : Ring A) (vs : List A)
          → IsValid ring
          → contents ring ≡ []
          → b.accepted ≡ b.received ++ (b.rc ++ vs)
          → (c : Bool) → b.closed ≡ c
          → Keeps (
              ret (
                if is_nil vs && not c
                then record b { ring = ring; place = waiting }
                else record b { ring = ring; place = holding vs }))
      found ring [] valid empty all true shut = (
        record b { ring = ring; place = holding [] },
        refl,
        record { valid = valid; conserved = rw empty all; idle = tt },
      )
      found ring [] valid empty all false open' = (
        record b { ring = ring; place = waiting },
        refl,
        record { valid = valid; conserved = rw empty all; idle = (empty, open') },
      )
      found ring (v ∷ vs) valid empty all c shut = (
        record b { ring = ring; place = holding (v ∷ vs) },
        refl,
        record { valid = valid; conserved = rw (empty, append-nil (v ∷ vs)) all; idle = tt },
      )

  &&-false : (c : Bool) → (c && false) ≡ false
  &&-false true = refl
  &&-false false = refl

  pub holding_step :
      (b : Unbounded A) (vs : List A)
      → b.place ≡ holding vs
      → Sound b
      → (shut : Bool) → (b.closed && is_nil vs) ≡ shut
      → Keeps (ret (if shut then record b { place = stopped } else record b { place = sending vs }))
  unfolding Keeps is_nil
  holding_step b vs e h false s =
      (record b { place = sending vs }, refl, move b (sending vs) h (ap in_hand (sym e)) (λ _. tt))
  holding_step b [] e h true s =
      (record b { place = stopped }, refl, move b stopped h (ap in_hand (sym e)) (λ _. tt))
  holding_step b (v ∷ vs) e h true s = absurd (cc (&&-false b.closed))

  pub send_step :
      (b : Unbounded A) (v : A) (vs : List A)
      → b.place ≡ sending (v ∷ vs)
      → Sound b
      → (room : Bool)
      → Keeps (ret (if room then record b { rc = b.rc ++ v ∷ []; place = sending vs } else b))
  unfolding Keeps
  send_step b v vs e h false = (b, refl, h)
  send_step b v vs e h true = (
    record b { rc = b.rc ++ v ∷ []; place = sending vs },
    refl,
    record {
      valid = h.valid;
      conserved =
          held b (sending (v ∷ vs)) e h
          ∙ ap (λ r. b.received ++ r) (sym (append_assoc b.rc (v ∷ []) (vs ++ contents b.ring)));
      idle = tt;
    },
  )

  pub hand_over :
      (b : Unbounded A) (v : A) (vs : List A)
      → b.rc ≡ []
      → b.place ≡ sending (v ∷ vs)
      → Sound b
      → (direct : Bool)
      → Sound
          (if direct then record b { place = sending vs; received = b.received ++ v ∷ [] } else b)
  hand_over b v vs e f h false = h
  hand_over b v vs e f h true = record {
    valid = h.valid;
    conserved =
        held b (sending (v ∷ vs)) f h
        ∙ ap (λ rc. b.received ++ (rc ++ (v ∷ (vs ++ contents b.ring)))) e
        ∙ sym (append_assoc b.received (v ∷ []) (vs ++ contents b.ring))
        ∙ ap (λ rc. (b.received ++ v ∷ []) ++ (rc ++ (vs ++ contents b.ring))) (sym e);
    idle = tt;
  }
