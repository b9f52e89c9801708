-- ===== src/PagedSlice/Empty.antt =====
-- utils/collection/listings/paged_slice.go: a paged slice has no page to start from.
use minotaur.Base.{
  ℕ, ◌+◌, List, [], ◌∷◌, true, leb, Go, ret, panic, ◌>>=◌, ◌≡◌, refl, ap, ◌∙◌, subst, arith,
}
use minotaur.Base.Int.{ℤ, pos, negsuc}
use minotaur.PagedSlice.{
  PagedSlice, new_paged_slice, last_index, add_value, set_value_at, clear_pages,
}

leb-zero : (i : ℕ) → leb 0 i ≡ true
leb-zero i = ground arith

-- The methods that change a paged slice.
pub data Call (T : Type 0) : Type 0 where
  adding : T → Call T
  setting : ℤ → T → Call T
  clearing : Call T

module _ {T : Type 0} (zero_value : T) where
  unfoldable pub call : PagedSlice T → Call T → Go (PagedSlice T)
  unfolding add_value set_value_at clear_pages
  call slf (adding value) = add_value zero_value value slf
  call slf (setting i value) = set_value_at i value slf
  call slf clearing = ret (clear_pages slf)

  unfoldable pub run : PagedSlice T → List (Call T) → Go (PagedSlice T)
  unfolding call
  run slf [] = ret slf
  run slf (c ∷ cs) = do slf' ← call slf c; run slf' cs

  abbrev pub adds_of : Call T → ℕ
  adds_of c = elim c [ adding _ ↦ 1 | _ ↦ 0 ]

  abbrev pub adds : List (Call T) → ℕ
  adds [] = 0
  adds (c ∷ cs) = adds_of c + adds cs

  abbrev IsEmpty : PagedSlice T → Type 0
  IsEmpty slf = (slf.pages ≡ []) × (slf.count ≡ 0)

  abbrev After : ℕ → Go (PagedSlice T) → Type 0
  After n (ret slf) = IsEmpty slf × (n ≡ 0)
  After n panic = Unit {0}

  call-After : (slf : PagedSlice T) (c : Call T) → IsEmpty slf → After (adds_of c) (call slf c)
  unfolding call add_value last_index set_value_at clear_pages
  call-After slf (adding value) h = rw (call, add_value, h.0, last_index) tt
  call-After slf (setting (negsuc n) value) h = (h, refl)
  call-After slf (setting (pos i) value) h =
      rw (call, set_value_at, ap (λ c. leb c i) h.1 ∙ leb-zero i) (h, refl)
  call-After slf clearing h = ((refl, refl), refl)

  run-After : (cs : List (Call T)) (slf : PagedSlice T) → IsEmpty slf → After (adds cs) (run slf cs)
  unfolding run
  run-After [] slf h = (h, refl)
  run-After (c ∷ cs) slf h =
      onward (λ slf' k. run-After cs slf' k) (call slf c) (call-After slf c h)
    where
      also : (r : Go (PagedSlice T)) → After (adds cs) r → adds_of c ≡ 0 → After (adds (c ∷ cs)) r
      also (ret slf') k e = (k.0, omega (arith, e, k.1))
      also panic k e = tt

      onward :
          ((slf' : PagedSlice T) → IsEmpty slf' → After (adds cs) (run slf' cs))
          → (r : Go (PagedSlice T)) → After (adds_of c) r
          → After (adds (c ∷ cs)) (r >>= λ slf'. run slf' cs)
      onward again (ret slf') k = also (run slf' cs) (again slf' k.0) k.1
      onward again panic k = tt

  -- Whatever is called on a new paged slice of any page size: where the calls return, none of them
  -- was `Add`, and the slice holds nothing.
  pub run_empty :
      (size : ℤ) (cs : List (Call T)) (slf : PagedSlice T)
      → (new_paged_slice size >>= λ slf. run slf cs) ≡ ret slf
      → (adds cs ≡ 0) × (slf.count ≡ 0)
  unfolding new_paged_slice
  run_empty (negsuc n) cs slf e = absurd (cc)
  run_empty (pos n) cs slf e =
      let h = subst (After (adds cs)) e (
        run-After cs (record { pages = []; page_size = n; count = 0; len_last = 0 })
          (refl, refl)) in
      (h.1, h.0.1)
