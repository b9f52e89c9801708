-- ===== src/Buffer/Ring/Read.antt =====
-- utils/buffer/ring.go: `NewRing`, `Read`, `ReadAll` and `Reset`.
use native.Mathlib.Numerals.{add-one}
use minotaur.Base.{
  suc, ◌+◌, ◌-◌, List, [], ◌∷◌, some, none, ltb, ◌==◌, if◌then◌else◌, length, take, drop, get_elem?,
  replicate, ret, arith, ◌≡◌, refl, sym, ap, ◌∙◌, ◌≢◌, ◌⊎◌, dec_lt, inl, inr, ℕ_discrete, le→ltb,
  ne→==, eq→==, lt→ltb, take_of_length-le, get_elem?_of_lt, drop-get_elem?, get_elem?-take,
  drop_of_length-le, length-take, length-drop, length-replicate, index_of_get_elem?, slice_of_le,
  copy_all, copy_whole,
}
use minotaur.Base.Int.{ℤ, pos, negsuc}
use minotaur.Buffer.Ring.{Ring, buffer_is_empty, start_size, new_ring, read, read_all, reset}
use minotaur.Buffer.Ring.Inv.{
  IsValid, contents, contents_straight, contents_wrapped, contents_empty,
}

module _ {A : Type 0} (zero_value : A) where
  -- One step of `r` round the storage drops the oldest value.
  advance :
      (b : Ring A) (x : A)
      → IsValid b
      → b.r ≢ b.w
      → get_elem? b.buf b.r ≡ some x
      → contents b ≡ x ∷ contents (record b { r = if b.r + 1 == b.size then 0 else b.r + 1 })
  advance b x h ne e = elim (dec_lt b.w b.r) [
    | no ge ↦
        rw (contents_straight b (omega arith), ne→== (b.r + 1) b.size (omega (arith, h)))
          (drop-get_elem? (take b.w b.buf) b.r x (get_elem?-take b.buf b.r b.w (omega arith) ∙ e)
            ∙ ap (λ n. x ∷ drop n (take b.w b.buf)) (sym (add-one b.r))
            ∙ ap (◌∷◌ x) (sym (contents_straight (record b { r = b.r + 1 }) (omega arith))))
    | yes lt ↦
        rw (contents_wrapped b lt, drop-get_elem? b.buf b.r x e)
          (elim (ℕ_discrete (b.r + 1) b.size) [
            | yes last ↦
                rw
                  (
                    eq→== (b.r + 1) b.size last,
                    drop_of_length-le (suc b.r) b.buf (omega (arith, h)),
                    contents_straight (record b { r = 0 }) (omega arith),
                  )
                  refl
            | no more ↦
                rw
                  (
                    ne→== (b.r + 1) b.size more,
                    contents_wrapped (record b { r = b.r + 1 }) (omega (arith, h)),
                    add-one b.r,
                  )
                  refl
          ])
  ]

  -- `Read` never panics. On an empty ring it returns the zero value and ErrBufferIsEmpty and
  -- changes nothing; otherwise it returns the oldest value and leaves the rest, in order.
  pub read_lem :
      (b : Ring A)
      → IsValid b
      → ((contents b ≡ []) × (read zero_value b ≡ ret (b, zero_value, some buffer_is_empty)))
        ⊎ ((b' : Ring A) × (v : A) × (read zero_value b ≡ ret (b', v, none))
            × IsValid b'
            × (contents b ≡ v ∷ contents b'))
  unfolding read
  read_lem b h = elim (ℕ_discrete b.r b.w) [
    | yes e ↦ rw (eq→== b.r b.w e) (inl (contents_empty b e, refl))
    | no ne ↦
        let (x, at) = get_elem?_of_lt b.buf b.r (omega (arith, h)) in
        rw (ne→== b.r b.w ne, index_of_get_elem? b.buf b.r x at)
          (inr (
            record b { r = if b.r + 1 == b.size then 0 else b.r + 1 },
            x,
            refl,
            ground (arith, h),
            advance b x h ne at,
          ))
  ]

  -- `ReadAll` never panics, returns everything that the ring held, oldest first, and empties it.
  pub read_all_lem :
      (b : Ring A)
      → IsValid b
      → (b' : Ring A) × (read_all zero_value b ≡ ret (b', contents b))
        × IsValid b'
        × (contents b' ≡ [])
  unfolding read_all
  read_all_lem b h = elim (ℕ_discrete b.r b.w) [
    | yes e ↦ rw (eq→== b.r b.w e, contents_empty b e) (b, refl, h, contents_empty b e)
    | no ne ↦ rw (ne→== b.r b.w ne) (elim (dec_lt b.r b.w) [
      | yes lt ↦
          rw (lt→ltb b.r b.w lt, slice_of_le b.buf b.r b.w (omega arith) (omega (arith, h)))
            (
              rewound,
              rw
                  (
                    contents_straight b (omega arith),
                    copy_all (replicate (b.w - b.r) zero_value) (drop b.r (take b.w b.buf)) (
                        omega (
                          arith,
                          length-replicate (b.w - b.r) zero_value,
                          length-drop b.r (take b.w b.buf),
                          length-take b.w b.buf,
                          h,
                        )),
                  )
                  refl,
              omega (arith, h),
              refl,
            )
      | no ge ↦
          rw
            (
              le→ltb b.r b.w (omega arith),
              slice_of_le b.buf b.r (length b.buf) (omega (arith, h)) (omega arith),
              take_of_length-le (length b.buf) b.buf (omega arith),
              slice_of_le b.buf 0 b.w (omega arith) (omega (arith, h)),
              contents_wrapped b (omega arith),
              ← length-drop b.r b.buf,
              copy_whole (replicate (length (drop b.r b.buf) + b.w) zero_value) (drop b.r b.buf)
                  (take b.w b.buf)
                  (omega (
                    arith,
                    length-replicate (length (drop b.r b.buf) + b.w) zero_value,
                    length-take b.w b.buf,
                    h,
                  )),
            )
            (rewound, refl, omega (arith, h), refl)
    ])
  ]
    where
      rewound : Ring A
      rewound = record b { r = 0; w = 0 }

  -- `NewRing` gives an empty ring for every argument list.
  pub new_ring_lem :
      (args : List ℤ)
      → IsValid (new_ring zero_value args) × (contents (new_ring zero_value args) ≡ [])
  unfolding new_ring start_size
  new_ring_lem [] = (omega (arith, length-replicate 2 zero_value), refl)
  new_ring_lem (negsuc n ∷ rest) = (omega (arith, length-replicate 2 zero_value), refl)
  new_ring_lem (pos n ∷ rest) =
      (ground (arith, length-replicate (if ltb n 2 then 2 else n) zero_value), refl)

  pub reset_lem :
      (b : Ring A) → IsValid b → IsValid (reset zero_value b) × (contents (reset zero_value b) ≡ [])
  unfolding reset
  reset_lem b h = (omega (arith, h, length-replicate b.init_size zero_value), refl)
