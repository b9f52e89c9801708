-- ===== src/PagedSlice.antt =====
-- utils/collection/listings/paged_slice.go: a slice in pages of one size. `zero_value` fills a new page.
pub mod Empty
mod Tests
use minotaur.Base.{
  ℕ, zero, suc, ◌+◌, ◌-◌, ◌/◌, ◌%◌, List, [], ◌∷◌, ◌++◌, Bool, true, false, not, Option, some, none,
  if◌then◌else◌, leb, ◌==◌, length, replicate, Go, ret, panic, ◌>>=◌, index, store,
}
use minotaur.Base.Int.{ℤ, pos, negsuc}

-- `PagedSlice`, `count` for its field `len`.
pub record PagedSlice (T : Type 0) : Type 0 where
  pub pages : List (List T)
  pub page_size : ℕ
  pub count : ℕ
  pub len_last : ℕ

module _ {T : Type 0} where
  -- `make([][]T, 0, pageSize)` panics for a negative size.
  unfoldable pub new_paged_slice : ℤ → Go (PagedSlice T)
  new_paged_slice (negsuc n) = panic
  new_paged_slice (pos n) = ret (record { pages = []; page_size = n; count = 0; len_last = 0 })

  -- The index of the last page, `len(slf.pages)-1`, at which an access to no pages panics.
  unfoldable pub last_index : List (List T) → Go ℕ
  last_index [] = panic
  last_index (page ∷ pages) = ret (length pages)

  unfoldable pub add_value : T → T → PagedSlice T → Go (PagedSlice T)
  unfolding last_index
  add_value zero_value value slf = do
    i ← last_index slf.pages
    page ← index slf.pages i
    let grown =
        if slf.len_last == length page
        then record slf {
          pages = slf.pages ++ replicate slf.page_size zero_value ∷ [];
          len_last = 0;
        }
        else slf
    j ← last_index grown.pages
    last ← index grown.pages j
    written ← store last grown.len_last value
    pages ← store grown.pages j written
    ret (record grown { pages = pages; count = suc grown.count; len_last = suc grown.len_last })

  -- `slf.pages[i/slf.pageSize][i%slf.pageSize]`
  unfoldable pub value_at : ℕ → PagedSlice T → Go T
  value_at i slf =
      if slf.page_size == 0
      then panic
      else (index slf.pages (i / slf.page_size) >>= λ page. index page (i % slf.page_size))

  unfoldable pub get_value_at : ℤ → PagedSlice T → Go (Option T)
  unfolding value_at
  get_value_at (negsuc n) slf = ret none
  get_value_at (pos i) slf =
      if leb slf.count i then ret none else (value_at i slf >>= λ value. ret (some value))

  unfoldable pub set_value_at : ℤ → T → PagedSlice T → Go (PagedSlice T)
  set_value_at (negsuc n) value slf = ret slf
  set_value_at (pos i) value slf =
      if leb slf.count i then ret slf else if slf.page_size == 0 then panic else (do
        page ← index slf.pages (i / slf.page_size)
        written ← store page (i % slf.page_size) value
        pages ← store slf.pages (i / slf.page_size) written
        ret (record slf { pages = pages }))

  unfoldable pub clear_pages : PagedSlice T → PagedSlice T
  clear_pages slf = record slf { pages = []; count = 0; len_last = 0 }

  -- `Range`, with `n` rounds left from `i`: the values that `f` is called with.
  unfoldable pub range_pages : (ℕ → T → Bool) → ℕ → ℕ → PagedSlice T → Go (List T)
  unfolding value_at
  range_pages f zero i slf = ret []
  range_pages f (suc n) i slf = do
    value ← value_at i slf
    rest ← range_pages f n (i + 1) slf
    ret (if not (f i value) then value ∷ [] else value ∷ rest)
