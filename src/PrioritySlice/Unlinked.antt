-- ===== src/PrioritySlice/Unlinked.antt =====
-- utils/collection/listings/priority_slice.go: `Set` with the priority that the item has.
use minotaur.Base.{
  ℕ, zero, suc, ◌≤◌, List, [], ◌∷◌, true, some, none, length, ret, ◌>>=◌, ◌≡◌, refl, sym, ◌∙◌,
  arith, ◌<◌, set, get_elem?, lt_of_get_elem?, index_of_get_elem?, store_of_lt,
}
use minotaur.Base.Int.{ℤ}
use minotaur.PrioritySlice.{PriorityItem, PrioritySlice, fresh_item, set_item, same_priority}
use minotaur.PrioritySlice.Linked.{Linked}

module _ {V : Type 0} (f : PriorityItem V) (alone : (f.prev ≡ none) × (f.next ≡ none)) where
  set-behind :
      (k : ℕ) (xs : List (PriorityItem V)) (i : ℕ)
      → i < length xs
      → Linked (some k) (set xs i f)
      → ⊥
  set-behind k [] i h l = absurd (omega arith)
  set-behind k (x ∷ xs) zero h (p, n, rest) = let q = sym alone.0 ∙ p in absurd (cc)
  set-behind k (x ∷ xs) (suc i) h (p, n, rest) = set-behind x.pointer xs i (omega arith) rest

  set-alone :
      (xs : List (PriorityItem V)) (i : ℕ)
      → i < length xs
      → 2 ≤ length xs
      → Linked none (set xs i f)
      → ⊥
  set-alone [] i h two l = absurd (omega arith)
  set-alone (x ∷ []) i h two l = absurd (omega arith)
  set-alone (x ∷ y ∷ xs) zero h two (p, n, rest) = let q = sym alone.1 ∙ n in absurd (cc)
  set-alone (x ∷ y ∷ xs) (suc i) h two (p, n, rest) =
      set-behind x.pointer (y ∷ xs) i (omega arith) rest

module _ {V : Type 0} (sorter : List (PriorityItem V) → List (PriorityItem V)) where
  -- `Set` of an item of two or more to a value with the priority that it has: the items no longer
  -- know their neighbours.
  pub set_item-unlinks :
      (i : ℕ) (value : V) (priority : ℤ) (slf : PrioritySlice V) (old : PriorityItem V)
      → 2 ≤ length slf.items
      → get_elem? slf.items i ≡ some old
      → same_priority old.p priority ≡ true
      → (slf' : PrioritySlice V) × (set_item sorter i value priority slf ≡ ret slf')
        × ¬ Linked none slf'.items
  unfolding set_item fresh_item
  set_item-unlinks i value priority slf old two at same =
      let within = lt_of_get_elem? slf.items i old at in
      (
        record slf {
          items = set slf.items i (fresh_item slf.next_id value priority);
          next_id = suc slf.next_id;
        },
        rw
            (
              set_item,
              index_of_get_elem? slf.items i old at,
              ◌>>=◌,
              store_of_lt slf.items i (fresh_item slf.next_id value priority) within,
              same,
            )
            refl,
        λ l.
            set-alone (fresh_item slf.next_id value priority) (refl, refl) slf.items i within two l,
      )
