-- ===== src/PagedSlice/Tests.antt =====
-- The theorem on paged slices at a few calls.
use minotaur.Base.{ℕ, List, [], ◌∷◌, ret, ◌>>=◌, ◌≡◌, refl}
use minotaur.Base.Int.{pos, negsuc}
use minotaur.PagedSlice.{PagedSlice, new_paged_slice, set_value_at, clear_pages}
use minotaur.PagedSlice.Empty.{Call, setting, clearing, call, run, adds, run_empty}

abbrev calls : List (Call ℕ)
calls = setting (pos 3) 7 ∷ clearing ∷ setting (negsuc 0) 5 ∷ []

abbrev empty : PagedSlice ℕ
empty = record { pages = []; page_size = 8; count = 0; len_last = 0 }

calls-run : (new_paged_slice (pos 8) >>= λ slf. run 0 slf calls) ≡ ret empty
unfolding run call new_paged_slice set_value_at clear_pages
calls-run = refl

run_empty_example : (adds 0 calls ≡ 0) × (empty.count ≡ 0)
run_empty_example = run_empty 0 (pos 8) calls empty calls-run
