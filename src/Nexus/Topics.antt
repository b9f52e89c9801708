-- ===== src/Nexus/Topics.antt =====
-- toolkit/nexus/queues/non_blocking_rw.go: the counts of the topics.
use mathlib.Core.List.{lookup}
use mathlib.Core.Logic.{ite}
use minotaur.Base.{
  ap, ℕ, zero, suc, ◌+◌, List, [], ◌∷◌, ◌++◌, Option, some, none, length, ◌≡◌, refl, arith,
}
use minotaur.Base.Int.{ℤ, pos, negsuc, ◌+ℤ◌, pos_part, neg_part}
use minotaur.SyncMap.{put_entry, without}
use minotaur.Dispatcher.Steps.{pick}
use minotaur.Nexus.Publish.{topic_count, set_topic}

module _ {T : Type 0} (dec : Discrete T) where
  pub topic_count-put_entry :
      (k t : T) (n : ℤ) (topics : List (T × ℤ))
      → topic_count dec t (put_entry dec k n topics) ≡ ite (dec k t) n (topic_count dec t topics)
  unfolding topic_count put_entry lookup
  topic_count-put_entry k t n [] = ground arith
  topic_count-put_entry k t n ((j, m) ∷ topics) = ground (arith, topic_count-put_entry k t n topics)

  topic_count-without :
      (k t : T) (topics : List (T × ℤ))
      → topic_count dec t (without dec k topics) ≡ ite (dec k t) (pos 0) (topic_count dec t topics)
  unfolding topic_count without lookup
  topic_count-without k t [] = ground arith
  topic_count-without k t ((j, m) ∷ topics) = ground (arith, topic_count-without k t topics)

  pub topic_count-set_topic :
      (k t : T) (n : ℤ) (topics : List (T × ℤ))
      → topic_count dec t (set_topic dec k n topics) ≡ ite (dec k t) n (topic_count dec t topics)
  unfolding set_topic
  topic_count-set_topic k t (pos zero) topics = topic_count-without k t topics
  topic_count-set_topic k t (pos (suc n)) topics = topic_count-put_entry k t (pos (suc n)) topics
  topic_count-set_topic k t (negsuc n) topics = topic_count-put_entry k t (negsuc n) topics

-- A sum, by the parts of what is added.
pub add_parts :
    (a b : ℤ)
    → pos_part (a +ℤ b) + (neg_part a + neg_part b) ≡ neg_part (a +ℤ b) + (pos_part a + pos_part b)
unfolding ◌+ℤ◌
add_parts a b = ground arith

module _ {T : Type 0} where
  -- What was added to the counts, in all, and what was taken off.
  abbrev pub raised : List (T × ℤ) → ℕ
  raised [] = 0
  raised (c ∷ cs) = pos_part c.1 + raised cs

  abbrev pub lowered : List (T × ℤ) → ℕ
  lowered [] = 0
  lowered (c ∷ cs) = neg_part c.1 + lowered cs

  pub raised-append : (xs ys : List (T × ℤ)) → raised (xs ++ ys) ≡ raised xs + raised ys
  raised-append [] ys = omega arith
  raised-append (x ∷ xs) ys = omega (arith, raised-append xs ys)

  pub lowered-append : (xs ys : List (T × ℤ)) → lowered (xs ++ ys) ≡ lowered xs + lowered ys
  lowered-append [] ys = omega arith
  lowered-append (x ∷ xs) ys = omega (arith, lowered-append xs ys)

module _ {T : Type 0} (dec : Discrete T) where
  -- The count of a topic `t` when `d` is added to that of `k`.
  pub ite-add_parts :
      (f : T → ℤ) (d : ℤ) (k t : T)
      → pos_part (ite (dec k t) (f k +ℤ d) (f t)) + (neg_part (f t) + ite (dec k t) (neg_part d) 0)
        ≡ neg_part (ite (dec k t) (f k +ℤ d) (f t))
          + (pos_part (f t) + ite (dec k t) (pos_part d) 0)
  ite-add_parts f d k t =
      elim (dec k t)
        as (λ c.
          pos_part (ite c (f k +ℤ d) (f t)) + (neg_part (f t) + ite c (neg_part d) 0)
          ≡ neg_part (ite c (f k +ℤ d) (f t)) + (pos_part (f t) + ite c (pos_part d) 0)) [
            | yes e ↦
                omega
                  (arith, add_parts (f k) d, ap (λ t. pos_part (f t)) e, ap (λ t. neg_part (f t)) e)
            | no _ ↦ omega arith
          ]

  pub ite-zero : (k t : T) → ◌≡◌ {A = ℕ} (ite (dec k t) 0 0) 0
  ite-zero k t = elim (dec k t) as (λ c. ◌≡◌ {A = ℕ} (ite c 0 0) 0) [ yes _ ↦ refl | no _ ↦ refl ]

  -- The same of a topic.
  abbrev pub raised_of : T → List (T × ℤ) → ℕ
  raised_of t [] = 0
  raised_of t (c ∷ cs) = ite (dec c.0 t) (pos_part c.1) 0 + raised_of t cs

  abbrev pub lowered_of : T → List (T × ℤ) → ℕ
  lowered_of t [] = 0
  lowered_of t (c ∷ cs) = ite (dec c.0 t) (neg_part c.1) 0 + lowered_of t cs

  pub raised_of-append :
      (t : T) (xs ys : List (T × ℤ)) → raised_of t (xs ++ ys) ≡ raised_of t xs + raised_of t ys
  raised_of-append t [] ys = omega arith
  raised_of-append t (x ∷ xs) ys = omega (arith, raised_of-append t xs ys)

  pub lowered_of-append :
      (t : T) (xs ys : List (T × ℤ)) → lowered_of t (xs ++ ys) ≡ lowered_of t xs + lowered_of t ys
  lowered_of-append t [] ys = omega arith
  lowered_of-append t (x ∷ xs) ys = omega (arith, lowered_of-append t xs ys)

module _ {T E : Type 0} (dec : Discrete T) where
  -- The messages of a topic.
  abbrev pub count : T → List (T × E) → ℕ
  count t [] = 0
  count t (m ∷ ms) = ite (dec m.0 t) 1 0 + count t ms

  pub count-append : (t : T) (xs ys : List (T × E)) → count t (xs ++ ys) ≡ count t xs + count t ys
  count-append t [] ys = omega arith
  count-append t (x ∷ xs) ys = omega (arith, count-append t xs ys)

  -- What a picked message and the others make up.
  abbrev pub Makes : T → List (T × E) → Option ((T × E) × List (T × E)) → Type 0
  Makes t xs none = Unit {0}
  Makes t xs (some p) =
      (count t xs ≡ ite (dec p.0.0 t) 1 0 + count t p.1) × (length xs ≡ suc (length p.1))

  Makes-cons :
      (t : T) (x : T × E) (xs : List (T × E)) (o : Option ((T × E) × List (T × E)))
      → Makes t xs o
      → Makes t (x ∷ xs) (elim o [ some p ↦ some (p.0, x ∷ p.1) | none ↦ none ])
  Makes-cons t x xs none h = tt
  Makes-cons t x xs (some p) (c, l) = (omega arith, omega arith)

  pub pick-Makes : (t : T) (n : ℕ) (xs : List (T × E)) → Makes t xs (pick n xs)
  unfolding pick
  pick-Makes t n [] = tt
  pick-Makes t zero (x ∷ xs) = (refl, refl)
  pick-Makes t (suc n) (x ∷ xs) = Makes-cons t x xs (pick n xs) (pick-Makes t n xs)
