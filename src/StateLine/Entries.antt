-- ===== src/StateLine/Entries.antt =====
-- utils/chrono/state_line.go: the three slices seen as one list of entries.
use minotaur.Base.{
  ℕ, zero, suc, ◌≤◌, List, [], ◌∷◌, ◌++◌, Bool, same, Option, some, none, if◌then◌else◌, length,
  take, drop, map, ret, set, ◌≡◌, refl, sym, ap, arith, Bool-cases, inl, inr, get_elem?, le→ltb,
}
use minotaur.Base.Int.{ℤ, ◌+ℤ◌, ltb_ℤ}
use minotaur.Collection.Loops.{any_of}
use minotaur.Collection.Contains.{in_comparable_slice}
use minotaur.StateLine.{StateLine, insert_at}

pub record Entry (State T : Type 0) : Type 0 where
  pub state : State
  pub point : ℤ
  pub triggers : List T

module _ {State T : Type 0} where
  abbrev pub line_of : List (Entry State T) → StateLine State T
  line_of es = record {
    states = map (λ e. e.state) es;
    points = map (λ e. e.point) es;
    trigger = map (λ e. e.triggers) es;
  }

  -- An entry goes behind all that do not begin later.
  abbrev pub insert : Entry State T → List (Entry State T) → List (Entry State T)
  insert e [] = e ∷ []
  insert e (x ∷ es) = if ltb_ℤ e.point x.point then e ∷ x ∷ es else x ∷ insert e es

  abbrev pub shift : ℤ → List (Entry State T) → List (Entry State T)
  shift d [] = []
  shift d (e ∷ es) = record e { point = e.point +ℤ d } ∷ shift d es

module _ {State T : Type 0} (dec : Discrete State) where
  abbrev pub has : State → List (Entry State T) → Bool
  has state es = any_of (λ e. same dec e.state state) es

  abbrev pub enter_entry : Entry State T → List (Entry State T) → List (Entry State T)
  enter_entry e es = if has e.state es then es else insert e es

  abbrev pub attach : State → List T → List (Entry State T) → List (Entry State T)
  attach state on_trigger [] = []
  attach state on_trigger (e ∷ es) =
      if same dec e.state state
      then record e { triggers = e.triggers ++ on_trigger } ∷ es
      else e ∷ attach state on_trigger es

  -- The entry of a state.
  abbrev pub entry_of : State → List (Entry State T) → Option (Entry State T)
  entry_of state [] = none
  entry_of state (e ∷ es) = if same dec e.state state then some e else entry_of state es

  pub has_entry :
      (state : State) (es : List (Entry State T))
      → in_comparable_slice dec (map (λ e. e.state) es) state ≡ has state es
  unfolding in_comparable_slice any_of
  has_entry state [] = refl
  has_entry state (e ∷ es) = elim (Bool-cases (same dec e.state state)) [
    | inl q ↦ rw q refl
    | inr q ↦ rw q (has_entry state es)
  ]

module _ {A B : Type 0} (f : A → B) where
  pub length-map : (xs : List A) → length (map f xs) ≡ length xs
  length-map [] = refl
  length-map (x ∷ xs) = ap suc (length-map xs)

  pub map-insert :
      (i : ℕ) (x : A) (xs : List A)
      → map f (take i xs ++ x ∷ drop i xs) ≡ take i (map f xs) ++ f x ∷ drop i (map f xs)
  map-insert zero x xs = refl
  map-insert (suc i) x [] = refl
  map-insert (suc i) x (y ∷ xs) = ap (◌∷◌ (f y)) (map-insert i x xs)

  pub insert_at-map :
      (i : ℕ) (x : A) (xs : List A)
      → i ≤ length xs
      → insert_at i (f x) (map f xs) ≡ ret (map f (take i xs ++ x ∷ drop i xs))
  unfolding insert_at
  insert_at-map i x xs h =
      rw (le→ltb (length (map f xs)) i (omega (arith, length-map xs)))
        (ap ret (sym (map-insert i x xs)))

  pub map-append : (xs ys : List A) → map f (xs ++ ys) ≡ map f xs ++ map f ys
  map-append [] ys = refl
  map-append (x ∷ xs) ys = ap (◌∷◌ (f x)) (map-append xs ys)

  pub get_elem?-map :
      (xs : List A) (i : ℕ) (x : A) → get_elem? xs i ≡ some x → get_elem? (map f xs) i ≡ some (f x)
  get_elem?-map [] i x h = absurd (cc)
  get_elem?-map (y ∷ xs) zero x h = cc
  get_elem?-map (y ∷ xs) (suc i) x h = get_elem?-map xs i x h

  pub map-set : (xs : List A) (i : ℕ) (x : A) → map f (set xs i x) ≡ set (map f xs) i (f x)
  map-set [] i x = refl
  map-set (y ∷ xs) zero x = refl
  map-set (y ∷ xs) (suc i) x = ap (◌∷◌ (f y)) (map-set xs i x)
