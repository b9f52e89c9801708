-- ===== src/SyncMap/Store.antt =====
-- utils/collection/mappings/sync_map.go: the methods implement a map from keys to values.
use mathlib.Core.List.{lookup}
use minotaur.Base.{
  List, [], ◌∷◌, Bool, false, Option, some, none, Go, ret, ◌>>=◌, ◌≡◌, refl, ◌∙◌, arith,
}
use minotaur.SyncMap.{
  SyncMap, put_entry, without, or_zero, is_some, set, get, exist, get_exist, delete, delete_get,
  delete_get_exist, clear,
}

-- What a thread may call.
pub data Call (K V : Type 0) : Type 0 where
  setting : K → V → Call K V
  getting : K → Call K V
  testing : K → Call K V
  getting_exist : K → Call K V
  deleting : K → Call K V
  deleting_get : K → Call K V
  deleting_get_exist : K → Call K V
  clearing : Call K V

pub data Reply (V : Type 0) : Type 0 where
  nothing : Reply V
  value : V → Reply V
  truth : Bool → Reply V
  found : V × Bool → Reply V

module _ {K V : Type 0} (dec : Discrete K) (zero_value : V) where
  unfoldable pub call : SyncMap K V → Call K V → Go (SyncMap K V × Reply V)
  unfolding set get exist get_exist delete delete_get delete_get_exist clear
  call sm (setting k v) = set dec zero_value k v sm >>= λ r. ret (r.0, nothing)
  call sm (getting k) = ret (sm, value (get dec zero_value k sm))
  call sm (testing k) = ret (sm, truth (exist dec zero_value k sm))
  call sm (getting_exist k) = ret (sm, found (get_exist dec zero_value k sm))
  call sm (deleting k) = delete dec zero_value k sm >>= λ r. ret (r.0, nothing)
  call sm (deleting_get k) = delete_get dec zero_value k sm >>= λ r. ret (r.0, value r.1)
  call sm (deleting_get_exist k) =
      delete_get_exist dec zero_value k sm >>= λ r. ret (r.0, found r.1)
  call sm clearing = clear sm >>= λ r. ret (r.0, nothing)

  unfoldable pub run : SyncMap K V → List (Call K V) → Go (SyncMap K V × List (Reply V))
  unfolding call
  run sm [] = ret (sm, [])
  run sm (c ∷ cs) = do
    (sm', reply) ← call sm c
    (last, replies) ← run sm' cs
    ret (last, reply ∷ replies)

  -- The specification: a function from keys to values.
  abbrev pub update : (K → Option V) → K → Option V → K → Option V
  update f key o k = elim (dec k key) [ yes _ ↦ o | no _ ↦ f k ]

  unfoldable pub spec_call : (K → Option V) → Call K V → (K → Option V) × Reply V
  unfolding or_zero is_some
  spec_call f (setting k v) = (update f k (some v), nothing)
  spec_call f (getting k) = (f, value (or_zero dec zero_value (f k)))
  spec_call f (testing k) = (f, truth (is_some dec zero_value (f k)))
  spec_call f (getting_exist k) =
      (f, found (or_zero dec zero_value (f k), is_some dec zero_value (f k)))
  spec_call f (deleting k) = (update f k none, nothing)
  spec_call f (deleting_get k) = (update f k none, value (or_zero dec zero_value (f k)))
  spec_call f (deleting_get_exist k) =
      (update f k none, found (or_zero dec zero_value (f k), is_some dec zero_value (f k)))
  spec_call f clearing = (λ k. none, nothing)

  unfoldable pub spec_run : (K → Option V) → List (Call K V) → List (Reply V)
  unfolding spec_call
  spec_run f [] = []
  spec_run f (c ∷ cs) = (spec_call f c).1 ∷ spec_run (spec_call f c).0 cs

  -- A map between two calls: the lock is free, and `atom` is as it is made.
  abbrev pub opened : List (K × V) → SyncMap K V
  opened entries = record { entries = entries; held = false; atom = false }

  -- The entries say what the function says.
  abbrev pub Agrees : List (K × V) → (K → Option V) → Type 0
  Agrees m f = (k : K) → lookup dec k m ≡ f k

  abbrev Follows : List (K × V) → (K → Option V) → Call K V → Type 0
  Follows m f c =
      (m' : List (K × V)) × (call (opened m) c ≡ ret (opened m', (spec_call f c).1))
      × Agrees m' (spec_call f c).0

  lookup-put_entry :
      (key : K) (v : V) (m : List (K × V)) (k : K)
      → lookup dec k (put_entry dec key v m) ≡ update (λ k. lookup dec k m) key (some v) k
  unfolding put_entry lookup
  lookup-put_entry key v [] k = ground arith
  lookup-put_entry key v ((j, w) ∷ m) k = ground (arith, lookup-put_entry key v m k)

  lookup-without :
      (key : K) (m : List (K × V)) (k : K)
      → lookup dec k (without dec key m) ≡ update (λ k. lookup dec k m) key none k
  unfolding without lookup
  lookup-without key [] k = ground arith
  lookup-without key ((j, w) ∷ m) k = ground (arith, lookup-without key m k)

  update-Agrees :
      (m : List (K × V)) (f : K → Option V) (key : K) (o : Option V) (k : K)
      → Agrees m f
      → update (λ k. lookup dec k m) key o k ≡ update f key o k
  update-Agrees m f key o k h = ground (arith, h k)

  put_entry-Agrees :
      (key : K) (v : V) (m : List (K × V)) (f : K → Option V)
      → Agrees m f
      → Agrees (put_entry dec key v m) (update f key (some v))
  put_entry-Agrees key v m f h k = lookup-put_entry key v m k ∙ update-Agrees m f key (some v) k h

  without-Agrees :
      (key : K) (m : List (K × V)) (f : K → Option V)
      → Agrees m f
      → Agrees (without dec key m) (update f key none)
  without-Agrees key m f h k = lookup-without key m k ∙ update-Agrees m f key none k h

  call-Follows : (m : List (K × V)) (f : K → Option V) (c : Call K V) → Agrees m f → Follows m f c
  unfolding call spec_call lookup
  call-Follows m f (setting k v) h = (put_entry dec k v m, refl, put_entry-Agrees k v m f h)
  call-Follows m f (getting k) h = (m, rw (h k) refl, h)
  call-Follows m f (testing k) h = (m, rw (h k) refl, h)
  call-Follows m f (getting_exist k) h = (m, rw (h k) refl, h)
  call-Follows m f (deleting k) h = (without dec k m, refl, without-Agrees k m f h)
  call-Follows m f (deleting_get k) h = (without dec k m, rw (h k) refl, without-Agrees k m f h)
  call-Follows m f (deleting_get_exist k) h =
      (without dec k m, rw (h k) refl, without-Agrees k m f h)
  call-Follows m f clearing h = ([], refl, λ k. refl)

  -- From a map whose entries say what a function from keys to values says, no sequence of Set, Get,
  -- Exist, GetExist, Delete, DeleteGet, DeleteGetExist and Clear ends the program, each reply is
  -- that of the function, updated call by call, and the lock is free afterwards.
  pub run_follows :
      (cs : List (Call K V)) (m : List (K × V)) (f : K → Option V)
      → Agrees m f
      → (m' : List (K × V)) × (run (opened m) cs ≡ ret (opened m', spec_run f cs))
  unfolding run spec_run
  run_follows [] m f h = (m, refl)
  run_follows (c ∷ cs) m f h =
      let (m₁, e₁, h₁) = call-Follows m f c h in
      let (m₂, e₂) = run_follows cs m₁ (spec_call f c).0 h₁ in (m₂, rw (e₁, e₂) refl)
