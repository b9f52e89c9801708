-- ===== src/Collection/Duplicate/Distinct.antt =====
-- utils/collection/duplicate.go: `DeduplicateSlice` keeps each value once.
use minotaur.Base.{
  List, [], ◌∷◌, ◌++◌, true, false, same, ◌||◌, if◌then◌else◌, length, ◌≡◌, refl, sym, append-nil,
  append_assoc, arith, Bool-cases, inl, inr, ◌⊎◌, ◌<◌, dec_lt, lt→ltb, le→ltb,
}
use minotaur.Collection.Contains.{in_comparable_slice}
use minotaur.Collection.Loops.{any_of, any_of-append}
use minotaur.Collection.Duplicate.{deduplicate_loop, deduplicate_slice}

module _ {V : Type 0} (dec : Discrete V) where
  -- No value stands twice.
  abbrev pub Distinct : List V → Type 0
  Distinct [] = Unit {0}
  Distinct (x ∷ xs) = (in_comparable_slice dec xs x ≡ false) × Distinct xs

  -- The values of `s` that are not in `m`, each at its first occurrence.
  unfoldable pub fresh : List V → List V → List V
  fresh m [] = []
  fresh m (v ∷ s) = if in_comparable_slice dec m v then fresh m s else v ∷ fresh (m ++ v ∷ []) s

  pub in-append :
      (xs ys : List V) (v : V)
      → in_comparable_slice dec (xs ++ ys) v
        ≡ (in_comparable_slice dec xs v || in_comparable_slice dec ys v)
  unfolding in_comparable_slice
  in-append xs ys v = any_of-append (λ value. same dec value v) xs ys

  pub loop-fresh : (r m s : List V) → deduplicate_loop dec r m s ≡ r ++ fresh m s
  unfolding deduplicate_loop fresh
  loop-fresh r m [] = sym (append-nil r)
  loop-fresh r m (v ∷ s) = ground (
    arith,
    loop-fresh r m s,
    loop-fresh (r ++ v ∷ []) (m ++ v ∷ []) s,
    append_assoc r (v ∷ []) (fresh (m ++ v ∷ []) s),
  )

  in-cons :
      (v : V) (s : List V) (w : V)
      → in_comparable_slice dec (v ∷ s) w
        ≡ (if same dec v w then true else in_comparable_slice dec s w)
  unfolding in_comparable_slice any_of
  in-cons v s w = refl

  in-nil : (w : V) → in_comparable_slice dec [] w ≡ false
  unfolding in_comparable_slice any_of
  in-nil w = refl

  -- What is in `fresh m s` is in `s`, and not in `m`; and all of `s` that is not in `m` is in it.
  in-fresh :
      (m s : List V) (w : V)
      → in_comparable_slice dec (fresh m s) w
        ≡ (if in_comparable_slice dec m w then false else in_comparable_slice dec s w)
  unfolding fresh
  in-fresh m [] w = ground (arith, in-nil w)
  in-fresh m (v ∷ s) w = ground (
    arith,
    in-nil w,
    in-cons v s w,
    in-cons v (fresh (m ++ v ∷ []) s) w,
    in-cons v [] w,
    in-append m (v ∷ []) w,
    in-fresh m s w,
    in-fresh (m ++ v ∷ []) s w,
  )

  fresh-Distinct : (m s : List V) → Distinct (fresh m s)
  unfolding fresh
  fresh-Distinct m [] = tt
  fresh-Distinct m (v ∷ s) = elim (Bool-cases (in_comparable_slice dec m v)) [
    | inl old ↦ rw old (fresh-Distinct m s)
    | inr new ↦ rw new (
      ground (arith, in-fresh (m ++ v ∷ []) s v, in-append m (v ∷ []) v, in-cons v [] v),
      fresh-Distinct (m ++ v ∷ []) s,
    )
  ]

  short_Distinct : (s : List V) → length s < 2 → Distinct s
  short_Distinct [] h = tt
  short_Distinct (x ∷ []) h = (in-nil x, tt)
  short_Distinct (x ∷ y ∷ s) h = absurd (omega arith)

  deduplicate-cases :
      (s : List V)
      → ((deduplicate_slice dec s ≡ s) × Distinct s) ⊎ (deduplicate_slice dec s ≡ fresh [] s)
  unfolding deduplicate_slice
  deduplicate-cases s = elim (dec_lt (length s) 2) [
    | yes h ↦ rw (lt→ltb (length s) 2 h) (inl (refl, short_Distinct s h))
    | no h ↦ rw (le→ltb (length s) 2 (omega arith)) (inr (loop-fresh [] [] s))
  ]

  -- `DeduplicateSlice` returns the values of the slice, each exactly once: no value of the result
  -- stands twice in it, and a value is in the result exactly if it is in the slice.
  pub deduplicate_slice-Distinct :
      (s : List V)
      → Distinct (deduplicate_slice dec s)
        × ((w : V)
            → in_comparable_slice dec (deduplicate_slice dec s) w ≡ in_comparable_slice dec s w)
  deduplicate_slice-Distinct s = elim (deduplicate-cases s) [
    | inl (e, d) ↦ rw e (d, λ w. refl)
    | inr e ↦ rw e (fresh-Distinct [] s, λ w. ground (arith, in-fresh [] s w, in-nil w))
  ]
