-- ===== src/PrioritySlice/Linked.antt =====
-- utils/collection/listings/priority_slice.go: the order of the items and their neighbours.
use minotaur.Base.{
  ℕ, zero, suc, ◌≤◌, List, [], ◌∷◌, ◌++◌, false, Option, some, none, leb, leb→le, length, map, ret,
  panic, index, store, ◌≡◌, refl, sym, ap, ◌∙◌, subst, arith, Bool-cases, inl, inr, ◌⊎◌,
  length-append,
}
use minotaur.Base.Int.{ℤ, ltb_ℤ}
use minotaur.PrioritySlice.{PriorityItem, head_pointer, link, sort_items, fresh_item}

-- No priority is below the one before it.
abbrev pub Ascending : List ℤ → Type 0
Ascending [] = Unit {0}
Ascending (a ∷ []) = Unit {0}
Ascending (a ∷ b ∷ ps) = (ltb_ℤ b a ≡ false) × Ascending (b ∷ ps)

module _ {V : Type 0} where
  abbrev pub priorities : List (PriorityItem V) → List ℤ
  priorities items = map (λ x. x.p) items

  -- Each item knows the one before it and the one behind it.
  abbrev pub Linked : Option ℕ → List (PriorityItem V) → Type 0
  Linked before [] = Unit {0}
  Linked before (x ∷ xs) =
      (x.prev ≡ before) × (x.next ≡ head_pointer xs) × Linked (some x.pointer) xs

  -- What `sort.Slice` promises.
  abbrev pub IsSorter : (List (PriorityItem V) → List (PriorityItem V)) → Type 0
  IsSorter sorter = (items : List (PriorityItem V)) → Ascending (priorities (sorter items))

  pub record IsKept (items : List (PriorityItem V)) : Type 0 where
    pub linked : Linked none items
    pub ascending : Ascending (priorities items)

  head_pointer-link :
      (before : Option ℕ) (xs : List (PriorityItem V))
      → head_pointer (link before xs) ≡ head_pointer xs
  unfolding link
  head_pointer-link before [] = refl
  head_pointer-link before (x ∷ xs) = refl

  link-Linked : (before : Option ℕ) (xs : List (PriorityItem V)) → Linked before (link before xs)
  unfolding link
  link-Linked before [] = tt
  link-Linked before (x ∷ xs) =
      (refl, sym (head_pointer-link (some x.pointer) xs), link-Linked (some x.pointer) xs)

  priorities-link :
      (before : Option ℕ) (xs : List (PriorityItem V)) → priorities (link before xs) ≡ priorities xs
  unfolding link
  priorities-link before [] = refl
  priorities-link before (x ∷ xs) = ap (◌∷◌ x.p) (priorities-link (some x.pointer) xs)

  Ascending-short : (xs : List (PriorityItem V)) → length xs ≤ 1 → Ascending (priorities xs)
  Ascending-short [] h = tt
  Ascending-short (x ∷ []) h = tt
  Ascending-short (x ∷ y ∷ xs) h = absurd (omega arith)

  -- What `sort` leaves, where a single item has no neighbours.
  pub sort_items-IsKept :
      (sorter : List (PriorityItem V) → List (PriorityItem V)) (xs : List (PriorityItem V))
      → IsSorter sorter
      → (length xs ≤ 1 → Linked none xs)
      → IsKept (sort_items sorter xs)
  unfolding sort_items
  sort_items-IsKept sorter xs sorts short = elim (Bool-cases (leb (length xs) 1)) [
    | inl e ↦
        let l = leb→le (length xs) 1 e in
        rw e (record { linked = short l; ascending = Ascending-short xs l })
    | inr e ↦ rw e (record {
      linked = link-Linked none (sorter xs);
      ascending = subst Ascending (sym (priorities-link none (sorter xs))) (sorts xs);
    })
  ]

  -- A new item at the end of a slice of one item stands alone.
  pub fresh_alone :
      (xs : List (PriorityItem V)) (n : ℕ) (value : V) (priority : ℤ)
      → length (xs ++ fresh_item n value priority ∷ []) ≤ 1
      → Linked none (xs ++ fresh_item n value priority ∷ [])
  unfolding fresh_item
  fresh_alone [] n value priority h = (refl, refl, tt)
  fresh_alone (x ∷ xs) n value priority h =
      absurd (omega (arith, length-append xs (fresh_item n value priority ∷ [])))

  -- An item that is changed where it stands, with its neighbours kept.
  pub record Changed (g : PriorityItem V → PriorityItem V) (before : Option ℕ)
      (xs : List (PriorityItem V)) (i : ℕ) : Type 0 where
    pub old : PriorityItem V
    pub now : List (PriorityItem V)
    pub reads : index xs i ≡ ret old
    pub writes : store xs i (g old) ≡ ret now
    pub linked : Linked before now
    pub head_kept : head_pointer now ≡ head_pointer xs
    pub same_length : length now ≡ length xs
    pub same_priorities : ((x : PriorityItem V) → (g x).p ≡ x.p) → priorities now ≡ priorities xs

  pub changed :
      (g : PriorityItem V → PriorityItem V)
      → ((x : PriorityItem V)
          → ((g x).pointer ≡ x.pointer) × ((g x).prev ≡ x.prev) × ((g x).next ≡ x.next))
      → (before : Option ℕ) (xs : List (PriorityItem V)) (i : ℕ) → Linked before xs
      → (index xs i ≡ panic) ⊎ Changed g before xs i
  unfolding index store
  changed g keeps before [] i h = inl refl
  changed g keeps before (x ∷ xs) zero (p, n, rest) =
      let (kp, kv, kn) = keeps x in
      inr (record {
        old = x;
        now = g x ∷ xs;
        reads = refl;
        writes = refl;
        linked = (kv ∙ p, kn ∙ n, subst (λ k. Linked (some k) xs) (sym kp) rest);
        head_kept = ap some kp;
        same_length = refl;
        same_priorities = λ same. ap (λ k. k ∷ priorities xs) (same x);
      })
  changed g keeps before (x ∷ xs) (suc i) (p, n, rest) =
      elim (changed g keeps (some x.pointer) xs i rest) [
        | inl e ↦ inl e
        | inr c ↦ inr (record {
          old = c.old;
          now = x ∷ c.now;
          reads = c.reads;
          writes = rw c.writes refl;
          linked = (p, n ∙ sym c.head_kept, c.linked);
          head_kept = refl;
          same_length = ap suc c.same_length;
          same_priorities = λ same. ap (◌∷◌ x.p) (c.same_priorities same);
        })
      ]
