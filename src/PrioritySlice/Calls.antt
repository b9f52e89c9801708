-- ===== src/PrioritySlice/Calls.antt =====
-- utils/collection/listings/priority_slice.go: what holds of a priority slice, whatever is called.
use minotaur.Base.{ℕ, List, [], ◌∷◌, none, Go, ret, panic, ◌>>=◌, ◌≡◌, refl, sym, subst, inl, inr}
use minotaur.Base.Int.{ℤ, pos}
use minotaur.PrioritySlice.{
  PriorityItem, PrioritySlice, new_priority_slice, append_item, append_each, appends,
  append_by_optional_priority, set_priority, set_value, clear_slice,
}
use minotaur.PrioritySlice.Linked.{
  Ascending, IsSorter, IsKept, sort_items-IsKept, fresh_alone, changed,
}

-- The methods that change a slice, less `Set` and `Action`.
pub data Call (V : Type 0) : Type 0 where
  appending : V → ℤ → Call V
  appending_each : ℤ → List V → Call V
  appending_optional : V → List ℤ → Call V
  setting_value : ℕ → V → Call V
  setting_priority : ℕ → ℤ → Call V
  clearing : Call V

module _ {V : Type 0} (sorter : List (PriorityItem V) → List (PriorityItem V)) where
  unfoldable pub call : PrioritySlice V → Call V → Go (PrioritySlice V)
  unfolding append_item appends append_by_optional_priority set_value set_priority clear_slice
  call slf (appending value priority) = ret (append_item sorter value priority slf)
  call slf (appending_each priority vs) = ret (appends sorter priority vs slf)
  call slf (appending_optional value priority) =
      ret (append_by_optional_priority sorter value priority slf)
  call slf (setting_value i value) = set_value i value slf
  call slf (setting_priority i priority) = set_priority sorter i priority slf
  call slf clearing = ret (clear_slice slf)

  unfoldable pub run : PrioritySlice V → List (Call V) → Go (PrioritySlice V)
  unfolding call
  run slf [] = ret slf
  run slf (c ∷ cs) = do slf' ← call slf c; run slf' cs

  abbrev After : Go (PrioritySlice V) → Type 0
  After (ret slf) = IsKept slf.items
  After panic = Unit {0}

module _ {V : Type 0} (sorter : List (PriorityItem V) → List (PriorityItem V))
    (sorts : IsSorter sorter) where
  append_item-IsKept :
      (value : V) (priority : ℤ) (slf : PrioritySlice V)
      → IsKept (append_item sorter value priority slf).items
  unfolding append_item
  append_item-IsKept value priority slf =
      sort_items-IsKept sorter _ sorts (fresh_alone slf.items slf.next_id value priority)

  append_each-IsKept :
      (priority : ℤ) (vs : List V) (slf : PrioritySlice V)
      → IsKept slf.items
      → IsKept (append_each sorter priority vs slf).items
  unfolding append_each
  append_each-IsKept priority [] slf h = h
  append_each-IsKept priority (value ∷ vs) slf h =
      append_each-IsKept priority vs _ (append_item-IsKept value priority slf)

  set_value-After :
      (i : ℕ) (value : V) (slf : PrioritySlice V)
      → IsKept slf.items
      → After sorter (set_value i value slf)
  unfolding set_value
  set_value-After i value slf h =
      elim (changed (λ x. record x { v = value }) (λ x. (refl, refl, refl)) none slf.items i
        h.linked) [
          | inl e ↦ rw (set_value, e) tt
          | inr c ↦
              rw (set_value, c.reads, ◌>>=◌, c.writes)
                (record {
                  linked = c.linked;
                  ascending = subst Ascending (sym (c.same_priorities (λ x. refl))) h.ascending;
                })
        ]

  set_priority-After :
      (i : ℕ) (priority : ℤ) (slf : PrioritySlice V)
      → IsKept slf.items
      → After sorter (set_priority sorter i priority slf)
  unfolding set_priority
  set_priority-After i priority slf h =
      elim (changed (λ x. record x { p = priority }) (λ x. (refl, refl, refl)) none slf.items i
        h.linked) [
          | inl e ↦ rw (set_priority, e) tt
          | inr c ↦
              rw (set_priority, c.reads, ◌>>=◌, c.writes)
                (sort_items-IsKept sorter c.now sorts (λ _. c.linked))
        ]

  call-After :
      (slf : PrioritySlice V) (c : Call V) → IsKept slf.items → After sorter (call sorter slf c)
  unfolding call appends append_by_optional_priority clear_slice
  call-After slf (appending value priority) h = append_item-IsKept value priority slf
  call-After slf (appending_each priority vs) h =
      sort_items-IsKept sorter (append_each sorter priority vs slf).items sorts
        (λ _. (append_each-IsKept priority vs slf h).linked)
  call-After slf (appending_optional value []) h = append_item-IsKept value (pos 0) slf
  call-After slf (appending_optional value (priority ∷ rest)) h =
      append_item-IsKept value priority slf
  call-After slf (setting_value i value) h = set_value-After i value slf h
  call-After slf (setting_priority i priority) h = set_priority-After i priority slf h
  call-After slf clearing h = record { linked = tt; ascending = tt }

  run-After :
      (cs : List (Call V)) (slf : PrioritySlice V)
      → IsKept slf.items
      → After sorter (run sorter slf cs)
  unfolding run
  run-After [] slf h = h
  run-After (c ∷ cs) slf h =
      onward (λ slf' k. run-After cs slf' k) (call sorter slf c) (call-After slf c h)
    where
      onward :
          ((slf' : PrioritySlice V) → IsKept slf'.items → After sorter (run sorter slf' cs))
          → (r : Go (PrioritySlice V)) → After sorter r
          → After sorter (r >>= λ slf'. run sorter slf' cs)
      onward again (ret slf') k = again slf' k
      onward again panic k = tt

  -- Whatever is called on a new slice but `Set` and `Action`, where the calls return the items are in
  -- the order of their priorities, and each one knows its neighbours, if `sort.Slice` sorts.
  pub run-IsKept :
      (cs : List (Call V)) (slf : PrioritySlice V)
      → run sorter new_priority_slice cs ≡ ret slf
      → IsKept slf.items
  unfolding new_priority_slice
  run-IsKept cs slf e =
      subst (After sorter) e
        (run-After cs new_priority_slice (record { linked = tt; ascending = tt }))
