-- ===== src/Leaderboard/Insert.antt =====
-- Insertion into a sorted list, as `competitor` does it, and what stands in the result.
use minotaur.Base.{
  ℕ, zero, suc, ◌<◌, ◌≤◌, List, [], ◌∷◌, ◌++◌, Bool, false, some, length, ◌≡◌, refl, subst,
  get_elem?, arith, inl, inr, ◌⊎◌, take, drop,
}
use minotaur.Base.Orders.{Ordered}
use minotaur.Leaderboard.Order.{worse, worse_asym, IsSorted}
use minotaur.Leaderboard.Place.{IsFront, IsBack}

module _ {A : Type 0} where
  abbrev pub insert_at : ℕ → A → List A → List A
  insert_at p e xs = take p xs ++ e ∷ drop p xs

  -- An entry of the result is an old one before the place, the new one, or an old one after it.
  insert_at-get :
      (p : ℕ) (e : A) (xs : List A) (i : ℕ) (x : A)
      → p ≤ length xs
      → get_elem? (insert_at p e xs) i ≡ some x
      → ((i < p) × (get_elem? xs i ≡ some x))
        ⊎ ((i ≡ p) × (e ≡ x))
        ⊎ ((j : ℕ) × (i ≡ suc j) × (p ≤ j) × (get_elem? xs j ≡ some x))
  insert_at-get zero e xs zero x h g = inr (inl (refl, cc))
  insert_at-get zero e xs (suc i) x h g = inr (inr (i, refl, omega arith, g))
  insert_at-get (suc p) e [] i x h g = absurd (omega arith)
  insert_at-get (suc p) e (y ∷ xs) zero x h g = inl (omega arith, g)
  insert_at-get (suc p) e (y ∷ xs) (suc i) x h g = elim (insert_at-get p e xs i x (omega arith) g) [
    | inl (l, q) ↦ inl (omega arith, q)
    | inr (inl (l, q)) ↦ inr (inl (omega arith, q))
    | inr (inr (j, l, m, q)) ↦ inr (inr (suc j, omega arith, omega arith, q))
  ]

module _ {A : Type 0} where
  take-get :
      (xs : List A) (n i : ℕ) (x : A) → get_elem? (take n xs) i ≡ some x → get_elem? xs i ≡ some x
  take-get [] zero i x f = absurd (cc)
  take-get [] (suc n) i x f = absurd (cc)
  take-get (y ∷ xs) zero i x f = absurd (cc)
  take-get (y ∷ xs) (suc n) zero x f = f
  take-get (y ∷ xs) (suc n) (suc i) x f = take-get xs n i x f

module _ {K S : Type 0} (lt : S → S → Bool) (ord : Ordered lt) (asc : Bool) (scores : List (K × S))
    (e : K × S) where
  -- Insertion at the place of the score keeps a list sorted.
  pub insert_at-IsSorted :
      (p : ℕ)
      → p ≤ length scores
      → IsSorted lt asc scores
      → IsFront lt ord asc scores e.1 p
      → IsBack lt ord asc scores e.1 p
      → IsSorted lt asc (insert_at p e scores)
  insert_at-IsSorted p inside sorted front back i j x y l f g =
      elim (insert_at-get p e scores i x inside f) [
        | inl (li, fi) ↦ elim (insert_at-get p e scores j y inside g) [
          | inl (lj, gj) ↦ sorted i j x y l fi gj
          | inr (inl (lj, q)) ↦ subst (λ y. worse lt asc x.1 y.1 ≡ false) q (front i x li fi)
          | inr (inr (k, q, m, gk)) ↦ sorted i k x y (omega arith) fi gk
        ]
        | inr (inl (li, q)) ↦ elim (insert_at-get p e scores j y inside g) [
          | inl (lj, gj) ↦ absurd (omega arith)
          | inr (inl (lj, r)) ↦ absurd (omega arith)
          | inr (inr (k, r, m, gk)) ↦
              subst (λ x. worse lt asc x.1 y.1 ≡ false) q
                (worse_asym lt asc y.1 e.1 ord (back k y m gk))
        ]
        | inr (inr (k, q, m, fk)) ↦ elim (insert_at-get p e scores j y inside g) [
          | inl (lj, gj) ↦ absurd (omega arith)
          | inr (inl (lj, r)) ↦ absurd (omega arith)
          | inr (inr (n, r, o, gn)) ↦ sorted k n x y (omega arith) fk gn
        ]
      ]

module _ {K S : Type 0} (lt : S → S → Bool) (asc : Bool) (scores : List (K × S)) where
  -- A sorted list that is cut off stays sorted.
  pub take-IsSorted : (n : ℕ) → IsSorted lt asc scores → IsSorted lt asc (take n scores)
  take-IsSorted n sorted i j x y l f g =
      sorted i j x y l (take-get scores n i x f) (take-get scores n j y g)
