-- ===== src/Buffer/Ring/Write.antt =====
-- utils/buffer/ring.go: `Write` and `grow`.
use native.Mathlib.Numerals.{add-one}
use minotaur.Base.{
  ℕ, suc, ◌+◌, ◌-◌, ◌≤◌, ◌<◌, ◌++◌, List, [], ◌∷◌, ◌==◌, if◌then◌else◌, length, take, drop, set,
  replicate, Go, ret, copy, copy_at, arith, ◌≡◌, refl, sym, ap, subst, ◌∙◌, ◌≢◌, dec_lt, append-nil,
  append_assoc, ℕ_discrete, ne→==, eq→==, take_of_length-le, drop-append_le, take-set_self,
  drop-set_lt, length-set, length-take, length-drop, length-replicate, store_of_lt, slice_of_le,
  copy_both,
}
use minotaur.Buffer.Ring.{Ring, grown, grow, write}
use minotaur.Buffer.Ring.Inv.{IsValid, contents, contents_straight, contents_wrapped}

module _ {A : Type 0} (zero_value : A) where
  -- The storage that the two copies of `grow` fill.
  Filled : Ring A → List A → Type 0
  Filled b out =
      (copy_at (b.size - b.r) (copy (replicate (grown b.size) zero_value) (drop b.r b.buf))
          (take b.r b.buf)
        ≡ ret out)
      × (length out ≡ grown b.size)
      × (take b.size out ≡ drop b.r b.buf ++ take b.r b.buf)

  grow_fills :
      (b : Ring A)
      → length b.buf ≡ b.size
      → b.r < b.size
      → b.size < grown b.size
      → (out : List A) × Filled b out
  unfolding Filled
  grow_fills b full hr g =
      let tail = drop b.r b.buf in
      let head = take b.r b.buf in
      let made = replicate (grown b.size) zero_value in
      let lt : length tail ≡ b.size - b.r = omega (arith, length-drop b.r b.buf) in
      let lh : length head ≡ b.r = omega (arith, length-take b.r b.buf) in
      let lm : length made ≡ grown b.size = length-replicate (grown b.size) zero_value in
      let (out, e, lo, to) = copy_both made tail head (omega arith) in
      (
        out,
        (
          subst (λ n. copy_at n (copy made tail) head ≡ ret out) lt e,
          lo ∙ lm,
          subst (λ n. take n out ≡ tail ++ head) (omega arith) to,
        ),
      )

  lt-grown : (n : ℕ) → 2 ≤ n → n < grown n
  unfolding grown
  lt-grown n h = ground arith

  -- `grow` never panics, and turns the whole storage, read from `r` round, into the contents.
  grow_lem :
      (b : Ring A)
      → length b.buf ≡ b.size
      → b.r < b.size
      → 2 ≤ b.size
      → 2 ≤ b.init_size
      → (b' : Ring A) × (grow zero_value b ≡ ret b')
        × IsValid b'
        × (contents b' ≡ drop b.r b.buf ++ take b.r b.buf)
  unfolding grow Filled
  grow_lem b full hr two st =
      let (out, f) = grow_fills b full hr (lt-grown b.size two) in finish out f
    where
      finish :
          (out : List A)
          → Filled b out
          → (b' : Ring A) × (grow zero_value b ≡ ret b')
            × IsValid b'
            × (contents b' ≡ drop b.r b.buf ++ take b.r b.buf)
      finish out (e, lo, to) = (
        record b { r = 0; w = b.size; size = grown b.size; buf = out },
        rw (
          slice_of_le b.buf b.r (length b.buf) (omega arith) (omega arith),
          take_of_length-le (length b.buf) b.buf (omega arith),
          slice_of_le b.buf 0 b.r (omega arith) (omega arith),
          e,
        ),
        omega (arith, lt-grown b.size two),
        contents_straight (record b { r = 0; w = b.size; size = grown b.size; buf = out })
              (omega arith)
            ∙ to,
      )

  -- What `Write` has to prove of its ring, `b'`.
  Written : Ring A → A → Go (Ring A) → Type 0
  Written b v run =
      (b' : Ring A) × (run ≡ ret b') × IsValid b' × (contents b' ≡ contents b ++ v ∷ [])

  module _ (b : Ring A) (v : A) (h : IsValid b) where
    stored : List A
    stored = set b.buf b.w v

    length-stored : length stored ≡ b.size
    unfolding stored
    length-stored = length-set b.buf b.w v ∙ h.full_size

    front : take (suc b.w) stored ≡ take b.w b.buf ++ v ∷ []
    unfolding stored
    front = take-set_self b.buf b.w v (omega (arith, h))

    straight_step : b.r ≤ b.w → drop b.r (take (suc b.w) stored) ≡ contents b ++ v ∷ []
    straight_step le =
        rw (front, contents_straight b le)
          (drop-append_le b.r (take b.w b.buf) (v ∷ []) (omega (arith, length-take b.w b.buf, h)))

    wrapped_step : b.w < b.r → drop b.r stored ++ take (suc b.w) stored ≡ contents b ++ v ∷ []
    unfolding stored
    wrapped_step lt =
        rw
          (
            take-set_self b.buf b.w v (omega (arith, h)),
            contents_wrapped b lt,
            drop-set_lt b.buf b.w b.r v lt,
          )
          (sym (append_assoc (drop b.r b.buf) (take b.w b.buf) (v ∷ [])))

    -- The write lands on the last cell, and `w` goes round to 0.
    at_end : suc b.w ≡ b.size → stored ≡ take (suc b.w) stored
    at_end e = sym (take_of_length-le (suc b.w) stored (omega (arith, length-stored)))

    full_at :
        (w' : ℕ)
        → w' ≡ b.r
        → drop b.r stored ++ take b.r stored ≡ contents b ++ v ∷ []
        → Written b v (grow zero_value (record b { buf = stored; w = w' }))
    unfolding Written
    full_at w' e c =
        let (b', run, valid, held) =
          grow_lem (record b { buf = stored; w = w' }) length-stored h.r_in h.two h.start_two in
        (b', run, valid, held ∙ c)

    room_at :
        (w' : ℕ)
        → w' < b.size
        → contents (record b { buf = stored; w = w' }) ≡ contents b ++ v ∷ []
        → Written b v (ret (record b { buf = stored; w = w' }))
    unfolding Written
    room_at w' lt c = (record b { buf = stored; w = w' }, refl, omega (arith, length-stored, h), c)

    end_step : suc b.w ≡ b.size → drop b.r stored ≡ contents b ++ v ∷ []
    end_step e = ap (drop b.r) (at_end e) ∙ straight_step (omega (arith, h))

    room_step :
        b.w + 1 ≢ b.r → contents (record b { buf = stored; w = b.w + 1 }) ≡ contents b ++ v ∷ []
    room_step ne = elim (dec_lt b.w b.r) [
      | yes lt ↦
          contents_wrapped (record b { buf = stored; w = b.w + 1 }) (omega arith)
          ∙ ap (λ n. drop b.r stored ++ take n stored) (add-one b.w)
          ∙ wrapped_step lt
      | no ge ↦
          contents_straight (record b { buf = stored; w = b.w + 1 }) (omega arith)
          ∙ ap (λ n. drop b.r (take n stored)) (add-one b.w)
          ∙ straight_step (omega arith)
    ]

    -- The end of the storage: the ring is full if `r` is 0.
    round :
        suc b.w ≡ b.size
        → Written b v (
            let b' = record b { buf = stored; w = 0 } in
            if 0 == b.r then grow zero_value b' else ret b')
    round e = elim (ℕ_discrete 0 b.r) [
      | yes z ↦ rw (eq→== 0 b.r z) (
          full_at 0 z (
            ap (λ n. drop b.r stored ++ take n stored) (sym z)
            ∙ append-nil (drop b.r stored)
            ∙ end_step e))
      | no nz ↦ rw (ne→== 0 b.r nz) (
          room_at 0 (omega (arith, h)) (
            contents_wrapped (record b { buf = stored; w = 0 }) (omega arith)
            ∙ append-nil (drop b.r stored)
            ∙ end_step e))
    ]

    -- Before the end: the ring is full if `w` comes to `r`.
    onward :
        b.w + 1 ≢ b.size
        → Written b v (
            let b' = record b { buf = stored; w = b.w + 1 } in
            if b.w + 1 == b.r then grow zero_value b' else ret b')
    onward ne = elim (ℕ_discrete (b.w + 1) b.r) [
      | yes z ↦ rw (eq→== (b.w + 1) b.r z) (
          full_at (b.w + 1) z (
            ap (λ n. drop b.r stored ++ take n stored) (sym z ∙ add-one b.w)
            ∙ wrapped_step (omega arith)))
      | no nz ↦ rw (ne→== (b.w + 1) b.r nz) (room_at (b.w + 1) (omega (arith, h)) (room_step nz))
    ]

    branches : Written b v (
        let w' = if b.w + 1 == b.size then 0 else b.w + 1 in
        let b' = record b { buf = stored; w = w' } in
        if w' == b.r then grow zero_value b' else ret b')
    branches = elim (ℕ_discrete (b.w + 1) b.size) [
      | yes e ↦ rw (eq→== (b.w + 1) b.size e) (round (omega arith))
      | no ne ↦ rw (ne→== (b.w + 1) b.size ne) (onward ne)
    ]

  -- `Write` never panics, keeps the invariant, and adds the value behind what the ring held.
  pub write_lem :
      (b : Ring A) (v : A)
      → IsValid b
      → (b' : Ring A) × (write zero_value b v ≡ ret b')
        × IsValid b'
        × (contents b' ≡ contents b ++ v ∷ [])
  unfolding write Written stored
  write_lem b v h = rw (store_of_lt b.buf b.w v (omega (arith, h))) (branches b v h)
