-- ===== src/Buffer/Ring/Inv.antt =====
-- utils/buffer/ring.go: the invariant of the ring, and the queue that it stands for.
use minotaur.Base.{
  ℕ, ◌≤◌, ◌<◌, ◌++◌, List, [], ◌∷◌, ltb, if◌then◌else◌, length, take, drop, arith, ◌≡◌, refl, inl,
  inr, Bool-cases, le→ltb, lt→ltb, length-take, length-drop, length-append,
}
use minotaur.Buffer.Ring.{Ring, len}

pub record IsValid {A : Type 0} (b : Ring A) : Type 0 where
  pub full_size : length b.buf ≡ b.size
  pub two : 2 ≤ b.size
  pub start_two : 2 ≤ b.init_size
  pub r_in : b.r < b.size
  pub w_in : b.w < b.size

-- The elements held, oldest first.
abbrev pub contents : {A : Type 0} → Ring A → List A
contents b = if ltb b.w b.r then drop b.r b.buf ++ take b.w b.buf else drop b.r (take b.w b.buf)

module _ {A : Type 0} where
  -- The number of elements held.
  pub length-contents : (b : Ring A) → IsValid b → length (contents b) ≡ len b
  unfolding len
  length-contents b v = elim (Bool-cases (ltb b.w b.r)) [
    | inl wrapped ↦ ground (
      arith,
      length-append (drop b.r b.buf) (take b.w b.buf),
      length-drop b.r b.buf,
      length-take b.w b.buf,
    )
    | inr straight ↦ ground (arith, length-drop b.r (take b.w b.buf), length-take b.w b.buf)
  ]

  same_lt : (xs : List A) (w : ℕ) → drop w (take w xs) ≡ []
  same_lt xs w =
      length-zero (drop w (take w xs)) (omega (arith, length-drop w (take w xs), length-take w xs))
    where
      length-zero : (ys : List A) → length ys ≡ 0 → ys ≡ []
      length-zero [] h = refl
      length-zero (y ∷ ys) h = absurd (omega arith)

  pub contents_straight : (b : Ring A) → b.r ≤ b.w → contents b ≡ drop b.r (take b.w b.buf)
  contents_straight b h = rw (le→ltb b.w b.r h)

  pub contents_wrapped : (b : Ring A) → b.w < b.r → contents b ≡ drop b.r b.buf ++ take b.w b.buf
  contents_wrapped b h = rw (lt→ltb b.w b.r h)

  -- An empty ring holds nothing.
  pub contents_empty : (b : Ring A) → b.r ≡ b.w → contents b ≡ []
  contents_empty b h = rw (contents_straight b (omega arith), h) (same_lt b.buf b.w)
