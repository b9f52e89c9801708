-- ===== src/Base/Panics.antt =====
-- Go run-time panics as values, and the built-in functions on slices that can panic.
use Prim.Native.Nat.{ℕ, zero, suc, ◌+◌, ◌≤◌, ◌<◌}
use mathlib.Core.Path.{◌≡◌, refl, sym, ap, ◌∙◌}
use mathlib.Core.List.{List, [], ◌∷◌, ◌++◌, append_assoc}
use mathlib.Core.Option.{some}
use native.Mathlib.Omega.{arith}
use native.Mathlib.Nat.{zero-add, suc-add}
use minotaur.Base.Tests.{le→ltb, ltb, if◌then◌else◌}
use minotaur.Base.Lists.{
  length, get_elem?, set, length-append, take-append_le, take_of_length-le, take, drop,
}

-- What a call does: it returns a value, or it panics.
pub data Go {ℓ} (A : Type ℓ) : Type ℓ where
  ret : A → Go A
  panic : Go A

infixl 5 ◌>>=◌
abbrev pub ◌>>=◌ {ℓ κ} : {A : Type ℓ} {B : Type κ} → Go A → (A → Go B) → Go B
ret a >>= f = f a
panic >>= f = panic

module _ {ℓ} {A : Type ℓ} where
  -- `xs[i]`
  unfoldable pub index : List A → ℕ → Go A
  index [] i = panic
  index (x ∷ xs) zero = ret x
  index (x ∷ xs) (suc i) = index xs i

  -- `xs[i] = v`
  unfoldable pub store : List A → ℕ → A → Go (List A)
  store [] i v = panic
  store (x ∷ xs) zero v = ret (v ∷ xs)
  store (x ∷ xs) (suc i) v = store xs i v >>= λ ys. ret (x ∷ ys)

  -- `xs[lo:hi]` of a slice at full capacity
  unfoldable pub slice : List A → ℕ → ℕ → Go (List A)
  slice xs lo hi =
      if ltb hi lo then panic else if ltb (length xs) hi then panic else ret (drop lo (take hi xs))

  -- `copy(dst, src)`: the new contents of `dst`
  unfoldable pub copy : List A → List A → List A
  copy [] src = []
  copy (d ∷ dst) [] = d ∷ dst
  copy (d ∷ dst) (s ∷ src) = s ∷ copy dst src

  -- `copy(dst[off:], src)`: the new contents of `dst`
  unfoldable pub copy_at : ℕ → List A → List A → Go (List A)
  copy_at zero dst src = ret (copy dst src)
  copy_at (suc off) [] src = panic
  copy_at (suc off) (d ∷ dst) src = copy_at off dst src >>= λ rest. ret (d ∷ rest)

module _ {ℓ} {A : Type ℓ} where
  -- An access in range returns.
  pub index_of_get_elem? :
      (xs : List A) (i : ℕ) (x : A) → get_elem? xs i ≡ some x → index xs i ≡ ret x
  unfolding index
  index_of_get_elem? [] i x h = absurd (ground arith)
  index_of_get_elem? (y ∷ xs) zero x h = ground arith
  index_of_get_elem? (y ∷ xs) (suc i) x h = index_of_get_elem? xs i x h

  pub store_of_lt : (xs : List A) (i : ℕ) (v : A) → i < length xs → store xs i v ≡ ret (set xs i v)
  unfolding store
  store_of_lt [] i v h = absurd (omega arith)
  store_of_lt (x ∷ xs) zero v h = refl
  store_of_lt (x ∷ xs) (suc i) v h = rw (store_of_lt xs i v (omega arith))

  pub slice_of_le :
      (xs : List A) (lo hi : ℕ)
      → lo ≤ hi
      → hi ≤ length xs
      → slice xs lo hi ≡ ret (drop lo (take hi xs))
  unfolding slice
  slice_of_le xs lo hi h k = rw (le→ltb hi lo h, le→ltb (length xs) hi k) refl

  -- Two copies that meet fill the front of the destination.
  pub length-copy : (dst src : List A) → length (copy dst src) ≡ length dst
  unfolding copy
  length-copy [] src = refl
  length-copy (d ∷ dst) [] = refl
  length-copy (d ∷ dst) (s ∷ src) = ap suc (length-copy dst src)

  pub copy-nil : (dst : List A) → copy dst [] ≡ dst
  unfolding copy
  copy-nil [] = refl
  copy-nil (d ∷ dst) = refl

  pub take-copy :
      (dst src : List A) → length src ≤ length dst → take (length src) (copy dst src) ≡ src
  unfolding copy
  take-copy [] [] h = refl
  take-copy [] (s ∷ src) h = absurd (omega arith)
  take-copy (d ∷ dst) [] h = refl
  take-copy (d ∷ dst) (s ∷ src) h = ap (◌∷◌ s) (take-copy dst src (omega arith))

  -- `copy(dst[len(xs):], ys)` after `copy(dst, xs)`.
  pub copy_both :
      (dst xs ys : List A)
      → length xs + length ys ≤ length dst
      → (out : List A) × (copy_at (length xs) (copy dst xs) ys ≡ ret out)
        × (length out ≡ length dst)
        × (take (length xs + length ys) out ≡ xs ++ ys)
  unfolding copy copy_at
  copy_both dst [] ys h =
      rw (copy-nil dst, zero-add)
        (copy dst ys, refl, length-copy dst ys, take-copy dst ys (omega arith))
  copy_both [] (x ∷ xs) ys h = absurd (omega arith)
  copy_both (d ∷ dst) (x ∷ xs) ys h =
      let (out, e, l, t) = copy_both dst xs ys (omega arith) in
      (x ∷ out, rw e refl, ap suc l, rw suc-add (ap (◌∷◌ x) t))

  pub copy_all : (dst src : List A) → length dst ≡ length src → copy dst src ≡ src
  unfolding copy
  copy_all [] [] h = refl
  copy_all [] (s ∷ src) h = absurd (omega arith)
  copy_all (d ∷ dst) [] h = absurd (omega arith)
  copy_all (d ∷ dst) (s ∷ src) h = ap (◌∷◌ s) (copy_all dst src (omega arith))

  pub copy_whole :
      (dst xs ys : List A)
      → length dst ≡ length xs + length ys
      → copy_at (length xs) (copy dst xs) ys ≡ ret (xs ++ ys)
  unfolding copy copy_at
  copy_whole dst [] ys h = rw (copy-nil dst) (ap ret (copy_all dst ys (omega arith)))
  copy_whole [] (x ∷ xs) ys h = absurd (omega arith)
  copy_whole (d ∷ dst) (x ∷ xs) ys h = rw (copy_whole dst xs ys (omega arith))

module _ {ℓ} {V : Type ℓ} where
  pub index-append : (xs : List V) (v : V) (ys : List V) → index (xs ++ v ∷ ys) (length xs) ≡ ret v
  unfolding index
  index-append [] v ys = refl
  index-append (x ∷ xs) v ys = index-append xs v ys

  pub store-append :
      (xs : List V) (x v : V) (ys : List V)
      → store (xs ++ x ∷ ys) (length xs) v ≡ ret (xs ++ v ∷ ys)
  unfolding store
  store-append [] x v ys = refl
  store-append (y ∷ xs) x v ys = rw (store-append xs x v ys) refl

  pub slice-append : (xs ys : List V) → slice (xs ++ ys) 0 (length xs) ≡ ret xs
  slice-append xs ys =
      slice_of_le (xs ++ ys) 0 (length xs) (omega arith) (omega (arith, length-append xs ys))
      ∙ ap ret (
          take-append_le (length xs) xs ys (omega arith)
          ∙ take_of_length-le (length xs) xs (omega arith))

  -- A write just behind the result.
  unfoldable pub Extends : List V → List V → V → List V → Type ℓ
  Extends out mid v s =
      (mid' : List V) × (store (out ++ (mid ++ v ∷ s)) (length out) v
        ≡ ret ((out ++ v ∷ []) ++ (mid' ++ s)))
      × (length mid' ≡ length mid)

  pub extends : (out mid : List V) (v : V) (s : List V) → Extends out mid v s
  unfolding Extends
  extends out [] v s =
      ([], store-append out v v s ∙ ap ret (sym (append_assoc out (v ∷ []) s)), refl)
  extends out (x ∷ mid) v s = (
    mid ++ v ∷ [],
    store-append out x v (mid ++ v ∷ s) ∙ ap ret (simp append_assoc),
    omega (arith, length-append mid (v ∷ [])),
  )
