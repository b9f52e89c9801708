-- ===== src/Nexus/Last.antt =====
-- toolkit/nexus/queues/non_blocking_rw.go: what the finisher is told of a topic.
use mathlib.Core.Logic.{ite}
use minotaur.Base.{
  ℕ, zero, suc, ◌+◌, List, [], ◌∷◌, ◌++◌, Bool, true, some, ◌≡◌, refl, subst, arith, ret, ◌↔◌,
}
use minotaur.Base.Int.{ℤ, pos, negsuc, ◌+ℤ◌, pos_part, neg_part}
use minotaur.Dispatcher.Steps.{pick}
use minotaur.Nexus.{Queue, is_free, is_zero, new_queue}
use minotaur.Nexus.Publish.{Kind, topic_count, finish_exec, Event, run}
use minotaur.Nexus.Topics.{count, Makes, pick-Makes, add_parts, raised_of, lowered_of}
use minotaur.Nexus.Runs.{run-IsFlowing}

own_count : {T : Type 0} (dec : Discrete T) (t : T) (m : ℕ) → ite (dec t t) 1 0 + m ≡ suc m
own_count dec t m = elim (dec t t) as (λ d. ite d 1 0 + m ≡ suc m) [
  | yes _ ↦ omega arith
  | no n ↦ absurd (n refl)
]

is_zero_iff : (n : ℤ) → (is_zero n ≡ true) ↔ (pos_part n ≡ neg_part n)
unfolding is_zero
is_zero_iff (pos zero) = (λ h. refl, λ h. refl)
is_zero_iff (pos (suc n)) = (λ h. absurd (cc), λ h. absurd (omega arith))
is_zero_iff (negsuc n) = (λ h. absurd (cc), λ h. absurd (omega arith))

module _ {T E : Type 0} (dec : Discrete T) (kind : E → Kind) where
  -- The messages of a topic that are under way, where those that have been processed are `processed`.
  abbrev pub left_of : T → Queue T E → List (T × E) → ℕ
  left_of t q processed =
      count dec t q.executing
      + (count dec t processed + (count dec t q.chan + (count dec t q.items + count dec t q.buf)))

  -- When a message of a queue is finished, the finisher is told its topic, and `true` exactly if the
  -- other messages of the topic that are under way and what was added to its count make up what was
  -- taken off its count by calls of IncrementCustomMessageCount, OnProcessed included.
  pub finish_told :
      (es : List (Event T E)) (q : Queue T E) (n : ℕ) (m : T × E) (processed : List (T × E))
      → run dec kind es new_queue ≡ ret q
      → is_free q.runner ≡ true
      → pick n q.processed ≡ some (m, processed)
      → (last : Bool) × ((finish_exec dec n q).told ≡ q.told ++ (m.0, last) ∷ [])
        × ((last ≡ true)
            ↔ (left_of m.0 q processed + raised_of dec m.0 q.custom ≡ lowered_of dec m.0 q.custom))
  unfolding finish_exec
  finish_told es q n m processed reached free picked =
      let h = run-IsFlowing dec kind es q reached in
      let c = h.tallied m.0 in
      let (a, _) : Makes dec m.0 q.processed (some (m, processed)) =
        subst (Makes dec m.0 q.processed) picked (pick-Makes dec m.0 n q.processed) in
      let own = own_count dec m.0 (count dec m.0 processed) in
      let p = add_parts (topic_count dec m.0 q.topics) (negsuc 0) in
      let z = is_zero_iff (topic_count dec m.0 q.topics +ℤ negsuc 0) in
      (
        is_zero (topic_count dec m.0 q.topics +ℤ negsuc 0),
        rw (finish_exec, free, picked) refl,
        (λ l. let e = z.0 l in omega arith, λ e. z.1 (omega arith)),
      )
