-- ===== src/PrioritySlice/Tests.antt =====
-- The theorems on priority slices at three items.
use minotaur.Base.{
  ℕ, List, [], ◌∷◌, true, false, some, none, if◌then◌else◌, ret, ◌≡◌, refl, arith, Bool-cases, inl,
  inr, index, store,
}
use minotaur.Base.Int.{ℤ, pos, negsuc, ltb_ℤ}
use minotaur.PrioritySlice.{
  PriorityItem, PrioritySlice, new_priority_slice, append_item, sort_items, fresh_item, link,
  set_item, same_priority, set_priority,
}
use minotaur.PrioritySlice.Linked.{Linked, Ascending, priorities, IsSorter, IsKept}
use minotaur.PrioritySlice.Calls.{Call, appending, setting_priority, call, run, run-IsKept}
use minotaur.PrioritySlice.Unlinked.{set_item-unlinks}

-- Sorting by insertion.
insert : PriorityItem ℕ → List (PriorityItem ℕ) → List (PriorityItem ℕ)
insert x [] = x ∷ []
insert x (y ∷ ys) = let rest = insert x ys in if ltb_ℤ y.p x.p then y ∷ rest else x ∷ y ∷ ys

sorted : List (PriorityItem ℕ) → List (PriorityItem ℕ)
unfolding insert
sorted [] = []
sorted (x ∷ xs) = insert x (sorted xs)

asym : (a b : ℤ) → ltb_ℤ a b ≡ true → ltb_ℤ b a ≡ false
asym a b h = ground arith

insert-Ascending :
    (x : PriorityItem ℕ) (ys : List (PriorityItem ℕ))
    → Ascending (priorities ys)
    → Ascending (priorities (insert x ys))
unfolding insert
insert-Ascending x [] h = tt
insert-Ascending x (y ∷ []) h = elim (Bool-cases (ltb_ℤ y.p x.p)) [
  | inl e ↦ rw e (asym y.p x.p e, tt)
  | inr e ↦ rw e (e, tt)
]
insert-Ascending x (y ∷ z ∷ ys) (h, hs) = elim (Bool-cases (ltb_ℤ y.p x.p)) [
  | inl e ↦ elim (Bool-cases (ltb_ℤ z.p x.p)) [
    | inl f ↦ (let again = insert-Ascending x (z ∷ ys) hs in rw (e, f) (h, rw f at again))
    | inr f ↦ rw (e, f) (asym y.p x.p e, (f, hs))
  ]
  | inr e ↦ rw e (e, (h, hs))
]

sorted-IsSorter : IsSorter sorted
unfolding sorted
sorted-IsSorter [] = tt
sorted-IsSorter (x ∷ xs) = insert-Ascending x (sorted xs) (sorted-IsSorter xs)

abbrev calls : List (Call ℕ)
calls =
    appending 7 (pos 5)
    ∷ appending 8 (pos 3)
    ∷ appending 9 (negsuc 0)
    ∷ setting_priority 0 (pos 4)
    ∷ []

abbrev three : PrioritySlice ℕ
three = record {
  items =
      record { pointer = 1; next = some 2; prev = none; v = 8; p = pos 3 }
      ∷ record { pointer = 2; next = some 0; prev = some 1; v = 9; p = pos 4 }
      ∷ record { pointer = 0; next = none; prev = some 2; v = 7; p = pos 5 }
      ∷ [];
  next_id = 3;
}

calls-run : run sorted new_priority_slice calls ≡ ret three
unfolding run call new_priority_slice append_item set_priority sort_items fresh_item link sorted
    insert index store
calls-run = refl

run-IsKept_example : IsKept three.items
run-IsKept_example = run-IsKept sorted sorted-IsSorter calls three calls-run

set_item-unlinks_example :
    (slf' : PrioritySlice ℕ) × (set_item sorted 1 6 (pos 4) three ≡ ret slf')
    × ¬ Linked none slf'.items
unfolding same_priority
set_item-unlinks_example =
    set_item-unlinks sorted 1 6 (pos 4) three
      (record { pointer = 2; next = some 0; prev = some 1; v = 9; p = pos 4 }) (omega arith) refl
      refl
