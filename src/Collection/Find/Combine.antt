-- ===== src/Collection/Find/Combine.antt =====
-- utils/collection/find.go: what the backtracking of `FindCombinationsInSliceByRange` finds.
use minotaur.Base.{
  ℕ, ◌+◌, ◌≤◌, List, [], ◌∷◌, ◌++◌, Bool, true, false, ◌&&◌, if◌then◌else◌, leb, length, ◌≡◌, refl,
  ap, ◌∙◌, sym, subst, arith, inl, inr, ◌⊎◌, ◌↔◌, append_assoc, length-append, dec_le, ne→==, eq→==,
  le→ltb, lt→ltb, ℕ_discrete,
}
use minotaur.Base.Int.{pos}
use minotaur.Collection.Find.{emitted, backtrack_loop, find_combinations_in_slice_by_range}

-- `x` is in the list.
pub data In {A : Type 0} (x : A) : List A → Type 0 where
  here : {xs : List A} → In x (x ∷ xs)
  there : {y : A} {xs : List A} → In x xs → In x (y ∷ xs)

-- `xs` is `ys` with some elements left out.
pub data Sub {A : Type 0} : List A → List A → Type 0 where
  done : Sub [] []
  keep : {x : A} {xs ys : List A} → Sub xs ys → Sub (x ∷ xs) (x ∷ ys)
  skip : {y : A} {xs ys : List A} → Sub xs ys → Sub xs (y ∷ ys)

module _ {A : Type 0} where
  In-append : {x : A} (xs ys : List A) → In x (xs ++ ys) → In x xs ⊎ In x ys
  In-append [] ys h = inr h
  In-append (y ∷ xs) ys here = inl here
  In-append (y ∷ xs) ys (there h) = elim (In-append xs ys h) [
    | inl h ↦ inl (there h)
    | inr h ↦ inr h
  ]

  In-left : {x : A} (xs ys : List A) → In x xs → In x (xs ++ ys)
  In-left [] ys h = elim h [ ]
  In-left (y ∷ xs) ys here = here
  In-left (y ∷ xs) ys (there h) = there (In-left xs ys h)

  In-right : {x : A} (xs ys : List A) → In x ys → In x (xs ++ ys)
  In-right [] ys h = h
  In-right (y ∷ xs) ys h = there (In-right xs ys h)

  Sub-nil : (ys : List A) → Sub [] ys
  Sub-nil [] = done
  Sub-nil (y ∷ ys) = skip (Sub-nil ys)

  In-one : {x y : A} → In x (y ∷ []) → x ≡ y
  In-one here = refl
  In-one (there h) = elim h [ ]

  In-nil {ℓ} : {P : Type ℓ} {x : A} → In x [] → P
  In-nil h = elim h [ ]

module _ {V : Type 0} (min_size max_size : ℕ) where
  abbrev pub IsSized : List V → Type 0
  IsSized c = (min_size ≤ length c) × (length c ≤ max_size)

  emitted-In :
      (current c : List V) (size : ℕ)
      → size ≡ length current
      → In c (emitted min_size max_size current size)
      → (c ≡ current) × IsSized c
  unfolding emitted
  emitted-In current c size n h = go (leb min_size size && leb size max_size) refl h
    where
      go :
          (b : Bool)
          → (leb min_size size && leb size max_size) ≡ b
          → In c (if b then current ∷ [] else [])
          → (c ≡ current) × IsSized c
      go true e h =
          subst (λ c. (c ≡ current) × IsSized c) (sym (In-one h))
            (refl, (ground arith, ground arith))
      go false e h = In-nil h

  In-emitted :
      (current : List V) (size : ℕ)
      → size ≡ length current
      → IsSized current
      → In current (emitted min_size max_size current size)
  unfolding emitted
  In-emitted current size n (low, high) = rw (fits) here
    where
      fits : (leb min_size size && leb size max_size) ≡ true
      fits = ground arith

  length-snoc : (current : List V) (x : V) → length (current ++ x ∷ []) ≡ length current + 1
  length-snoc current x = length-append current (x ∷ [])

  -- What the loop appends extends `current` by elements of the rest.
  loop-In :
      (xs current c : List V) (size : ℕ)
      → size ≡ length current
      → In c (backtrack_loop min_size max_size current size xs)
      → (d : List V) × (c ≡ current ++ d) × Sub d xs × IsSized c
  unfolding backtrack_loop
  loop-In [] current c size n h = In-nil h
  loop-In (x ∷ xs) current c size n h = elim (In-append _ _ h) [
    | inl h ↦ elim (In-append _ _ h) [
      | inl h ↦
          let (e, sized) = emitted-In (current ++ x ∷ []) c (size + 1) next h in
          (x ∷ [], e, keep (Sub-nil xs), sized)
      | inr h ↦
          let (d, e, sub, sized) = loop-In xs (current ++ x ∷ []) c (size + 1) next h in
          (x ∷ d, e ∙ append_assoc current (x ∷ []) d, keep sub, sized)
    ]
    | inr h ↦ let (d, e, sub, sized) = loop-In xs current c size n h in (d, e, skip sub, sized)
  ]
    where
      next : size + 1 ≡ length (current ++ x ∷ [])
      next = rw (length-snoc current x, n) refl

  -- Every extension of `current` by elements of the rest is appended.
  In-loop :
      (xs current : List V) (size : ℕ) (y : V) (d : List V)
      → size ≡ length current
      → Sub (y ∷ d) xs
      → IsSized (current ++ y ∷ d)
      → In (current ++ y ∷ d) (backtrack_loop min_size max_size current size xs)
  unfolding backtrack_loop
  In-loop [] current size y d n s sized = elim s [ ]
  In-loop (x ∷ xs) current size y d n (skip s) sized =
      In-right _ _ (In-loop xs current size y d n s sized)
  In-loop (x ∷ xs) current size y [] n (keep s) sized = In-left _ _ (
      In-left _ _
        (In-emitted (current ++ x ∷ []) (size + 1) (rw (length-snoc current x, n) refl) sized))
  In-loop (x ∷ xs) current size y (z ∷ d) n (keep s) sized = In-left _ _ (
      In-right _ _ (
        subst (λ c. In c (backtrack_loop min_size max_size (current ++ x ∷ []) (size + 1) xs))
          (append_assoc current (x ∷ []) (z ∷ d))
          (In-loop xs (current ++ x ∷ []) (size + 1) z d (rw (length-snoc current x, n) refl) s
            (subst IsSized (sym (append_assoc current (x ∷ []) (z ∷ d))) sized))))

  all_iff :
      (s c : List V)
      → 1 ≤ min_size
      → In c (emitted min_size max_size [] 0 ++ backtrack_loop min_size max_size [] 0 s)
        ↔ (Sub c s × (min_size ≤ length c) × (length c ≤ max_size))
  all_iff s c h = (to, from c)
    where
      to :
          In c (emitted min_size max_size [] 0 ++ backtrack_loop min_size max_size [] 0 s)
          → Sub c s × (min_size ≤ length c) × (length c ≤ max_size)
      to i = elim (In-append _ _ i) [
        | inl i ↦
            let (e, sized) = emitted-In [] c 0 refl i in
            let none_left : length c ≡ 0 = ap length e in absurd (omega (arith, none_left, sized.0))
        | inr i ↦
            let (d, e, sub, sized) = loop-In s [] c 0 refl i in
            (subst (λ c. Sub c s) (sym e) sub, sized.0, sized.1)
      ]

      from :
          (c : List V)
          → Sub c s × (min_size ≤ length c) × (length c ≤ max_size)
          → In c (emitted min_size max_size [] 0 ++ backtrack_loop min_size max_size [] 0 s)
      from [] (sub, low, high) = absurd (omega arith)
      from (y ∷ d) (sub, low, high) = In-right _ _ (In-loop s [] 0 y d refl sub (low, high))

Sub-of_nil : {V : Type 0} {c : List V} → Sub c [] → length c ≡ 0
Sub-of_nil done = refl

-- For sizes from 1 on, `FindCombinationsInSliceByRange` returns exactly the subsequences of the
-- slice with a length between `minSize` and `maxSize`, none if the first is above the second.
pub find_combinations_iff :
    {V : Type 0} (s : List V) (min_size max_size : ℕ) (c : List V)
    → 1 ≤ min_size
    → In c (find_combinations_in_slice_by_range s (pos min_size) (pos max_size))
      ↔ (Sub c s × (min_size ≤ length c) × (length c ≤ max_size))
unfolding find_combinations_in_slice_by_range
find_combinations_iff [] min_size max_size c h =
    (λ i. In-nil i, λ p. absurd (omega (arith, Sub-of_nil (p.0), p.1)))
find_combinations_iff (x ∷ s) min_size max_size c h = elim (dec_le min_size max_size) [
  | yes le ↦
      rw
        (
          ne→== min_size 0 (λ e. omega arith),
          ne→== max_size 0 (λ e. omega arith),
          le→ltb max_size min_size le,
        )
        (all_iff min_size max_size (x ∷ s) c h)
  | no n ↦ elim (ℕ_discrete max_size 0) [
    | yes z ↦
        rw (ne→== min_size 0 (λ e. omega arith), eq→== max_size 0 z)
          (λ i. In-nil i, λ p. absurd (omega (arith, p.1, p.2)))
    | no nz ↦
        rw
          (
            ne→== min_size 0 (λ e. omega arith),
            ne→== max_size 0 nz,
            lt→ltb max_size min_size (omega arith),
          )
          (λ i. In-nil i, λ p. absurd (omega (arith, p.1, p.2)))
  ]
]
