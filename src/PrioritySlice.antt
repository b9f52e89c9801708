-- ===== src/PrioritySlice.antt =====
-- utils/collection/listings/priority_slice.go: a slice in the order of the priorities of its items, each
-- of which knows its neighbours. A pointer to an item is its number, and `next_id` the number of the
-- next item that is made. `sorter` is `sort.Slice` with the comparison of `sort`. A slice is made with no
-- item: with a length above 0, `NewPrioritySlice` makes nil items, on which `sort` panics.
pub mod Linked
pub mod Calls
pub mod Unlinked
mod Tests
use minotaur.Base.{
  ℕ, zero, suc, ◌+◌, List, [], ◌∷◌, ◌++◌, Bool, true, false, not, Option, some, none, if◌then◌else◌,
  leb, length, map, Go, ret, panic, ◌>>=◌, index, store,
}
use minotaur.Base.Int.{ℤ, pos, negsuc, ltb_ℤ}

-- `priorityItem`
pub record PriorityItem (V : Type 0) : Type 0 where
  pub pointer : ℕ
  pub next : Option ℕ
  pub prev : Option ℕ
  pub v : V
  pub p : ℤ

pub record PrioritySlice (V : Type 0) : Type 0 where
  pub items : List (PriorityItem V)
  pub next_id : ℕ

-- `a == b` of priorities
unfoldable pub same_priority : ℤ → ℤ → Bool
same_priority a b = if ltb_ℤ a b then false else not (ltb_ℤ b a)

module _ {V : Type 0} where
  unfoldable pub new_priority_slice : PrioritySlice V
  new_priority_slice = record { items = []; next_id = 0 }

  -- A fresh `&priorityItem`.
  unfoldable pub fresh_item : ℕ → V → ℤ → PriorityItem V
  fresh_item n value priority = record {
    pointer = n;
    next = none;
    prev = none;
    v = value;
    p = priority;
  }

  abbrev pub head_pointer : List (PriorityItem V) → Option ℕ
  head_pointer [] = none
  head_pointer (x ∷ xs) = some x.pointer

  -- The loop of `sort` that sets the neighbours.
  unfoldable pub link : Option ℕ → List (PriorityItem V) → List (PriorityItem V)
  link before [] = []
  link before (x ∷ xs) =
      record x { prev = before; next = head_pointer xs } ∷ link (some x.pointer) xs

  unfoldable pub len : PrioritySlice V → ℕ
  len slf = length slf.items

  unfoldable pub clear_slice : PrioritySlice V → PrioritySlice V
  clear_slice slf = record slf { items = [] }

  unfoldable pub get_item : ℕ → PrioritySlice V → Go (V × ℤ)
  get_item i slf = index slf.items i >>= λ x. ret (x.v, x.p)

  unfoldable pub get_item_value : ℕ → PrioritySlice V → Go V
  get_item_value i slf = index slf.items i >>= λ x. ret x.v

  unfoldable pub get_item_priority : ℕ → PrioritySlice V → Go ℤ
  get_item_priority i slf = index slf.items i >>= λ x. ret x.p

  unfoldable pub set_value : ℕ → V → PrioritySlice V → Go (PrioritySlice V)
  set_value i value slf = do
    x ← index slf.items i
    items ← store slf.items i (record x { v = value })
    ret (record slf { items = items })

  -- `Range`: the items that `action` is called with.
  unfoldable pub range_loop :
      (ℕ → PriorityItem V → Bool) → ℕ → List (PriorityItem V) → List (PriorityItem V)
  range_loop action i [] = []
  range_loop action i (x ∷ xs) =
      let rest = range_loop action (i + 1) xs in if not (action i x) then x ∷ [] else x ∷ rest

  unfoldable pub range_items : (ℕ → PriorityItem V → Bool) → PrioritySlice V → List (PriorityItem V)
  unfolding range_loop
  range_items action slf = range_loop action 0 slf.items

  unfoldable pub range_value : (ℕ → V → Bool) → PrioritySlice V → List (PriorityItem V)
  unfolding range_items
  range_value action slf = range_items (λ i x. action i x.v) slf

  unfoldable pub range_priority : (ℕ → ℤ → Bool) → PrioritySlice V → List (PriorityItem V)
  unfolding range_items
  range_priority action slf = range_items (λ i x. action i x.p) slf

  unfoldable pub slice_values : PrioritySlice V → List V
  slice_values slf = map (λ x. x.v) slf.items

module _ {V : Type 0} (sorter : List (PriorityItem V) → List (PriorityItem V)) where
  unfoldable pub sort_items : List (PriorityItem V) → List (PriorityItem V)
  unfolding link
  sort_items items = if leb (length items) 1 then items else link none (sorter items)

  unfoldable pub append_item : V → ℤ → PrioritySlice V → PrioritySlice V
  unfolding sort_items fresh_item
  append_item value priority slf = record slf {
    items = sort_items (slf.items ++ fresh_item slf.next_id value priority ∷ []);
    next_id = suc slf.next_id;
  }

  unfoldable pub append_each : ℤ → List V → PrioritySlice V → PrioritySlice V
  unfolding append_item
  append_each priority [] slf = slf
  append_each priority (value ∷ vs) slf = append_each priority vs (append_item value priority slf)

  unfoldable pub appends : ℤ → List V → PrioritySlice V → PrioritySlice V
  unfolding append_each sort_items
  appends priority vs slf =
      let all = append_each priority vs slf in record all { items = sort_items all.items }

  unfoldable pub append_by_optional_priority : V → List ℤ → PrioritySlice V → PrioritySlice V
  unfolding append_item
  append_by_optional_priority value [] slf = append_item value (pos 0) slf
  append_by_optional_priority value (priority ∷ _) slf = append_item value priority slf

  unfoldable pub set_item : ℕ → V → ℤ → PrioritySlice V → Go (PrioritySlice V)
  unfolding sort_items fresh_item same_priority
  set_item i value priority slf = do
    before ← index slf.items i
    items ← store slf.items i (fresh_item slf.next_id value priority)
    ret (record slf {
      items = if not (same_priority before.p priority) then sort_items items else items;
      next_id = suc slf.next_id;
    })

  unfoldable pub set_priority : ℕ → ℤ → PrioritySlice V → Go (PrioritySlice V)
  unfolding sort_items
  set_priority i priority slf = do
    x ← index slf.items i
    items ← store slf.items i (record x { p = priority })
    ret (record slf { items = sort_items items })

  -- `Action`, whose argument returns none for nil.
  unfoldable pub action :
      (List (PriorityItem V) → Option (List (PriorityItem V))) → PrioritySlice V → PrioritySlice V
  unfolding sort_items
  action f slf = elim slf.items [
    | [] ↦ slf
    | x ∷ xs ↦ elim (f (x ∷ xs)) [
      | some replace ↦ record slf { items = sort_items replace }
      | none ↦ slf
    ]
  ]
