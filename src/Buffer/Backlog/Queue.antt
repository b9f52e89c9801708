-- ===== src/Buffer/Backlog/Queue.antt =====
-- utils/buffer/unbounded.go: `Put`, and `Get` followed by `Load`, make a first-in first-out queue.
use minotaur.Base.{
  List, [], ◌∷◌, ◌++◌, true, false, Option, some, none, ◌≡◌, refl, sym, subst, ap, ap₂, ◌∙◌,
}
use minotaur.Buffer.Backlog.{Unbounded, new_unbounded, put, load, close, get}

abbrev pub cell : {V : Type 0} → Option V → List V
cell none = []
cell (some x) = x ∷ []

-- What the buffer holds, oldest first.
abbrev pub contents : {V : Type 0} → Unbounded V → List V
contents b = cell b.c ++ b.backlog

-- Nothing waits behind a free cell.
pub record Ready {V : Type 0} (b : Unbounded V) : Type 0 where
  pub is_open : b.closed ≡ false
  pub no_gap : b.c ≡ none → b.backlog ≡ []

pub data Op (V : Type 0) : Type 0 where
  putting : V → Op V
  taking : Op V
  closing : Op V

module _ {V : Type 0} where
  -- A client's call: a `Put`, a receive from `Get` with the `Load` that follows it, or a `Close`.
  unfoldable pub call : Unbounded V → Op V → Unbounded V × Option V
  call b (putting v) = (put b v, none)
  call b taking = let (b', v) = get b in (load b', v)
  call b closing = (close b, none)

  unfoldable pub head : List V → Option V
  head [] = none
  head (x ∷ q) = some x

  unfoldable pub tail : List V → List V
  tail [] = []
  tail (x ∷ q) = q

  abbrev opened : Option V → List V → Unbounded V
  opened c backlog = record { c = c; closed = false; backlog = backlog }

  PutRefines : Unbounded V → Type 0
  PutRefines b = (v : V) → (contents (put b v) ≡ contents b ++ v ∷ []) × Ready (put b v)

  put_opened :
      (c : Option V) (backlog : List V) → (c ≡ none → backlog ≡ []) → PutRefines (opened c backlog)
  unfolding PutRefines put
  put_opened none [] h v = (refl, record { is_open = refl; no_gap = λ _. refl })
  put_opened none (x ∷ xs) h v = absurd (cc (h refl))
  put_opened (some y) [] h v = (refl, record { is_open = refl; no_gap = λ e. absurd (cc) })
  put_opened (some y) (x ∷ xs) h v = (refl, record { is_open = refl; no_gap = λ e. absurd (cc) })

  TakeRefines : Unbounded V → Type 0
  TakeRefines b =
      ((call b taking).1 ≡ head (contents b))
      × (contents (call b taking).0 ≡ tail (contents b))
      × Ready (call b taking).0

  take_opened :
      (c : Option V) (backlog : List V) → (c ≡ none → backlog ≡ []) → TakeRefines (opened c backlog)
  unfolding TakeRefines call get load head tail
  take_opened none [] h = (refl, refl, record { is_open = refl; no_gap = λ _. refl })
  take_opened none (x ∷ xs) h = absurd (cc (h refl))
  take_opened (some y) [] h = (refl, refl, record { is_open = refl; no_gap = λ _. refl })
  take_opened (some y) (x ∷ xs) h =
      (refl, refl, record { is_open = refl; no_gap = λ e. absurd (cc) })

  -- A ready buffer is an opened one.
  from_opened :
      (P : Unbounded V → Type 0) (b : Unbounded V)
      → b.closed ≡ false
      → P (opened b.c b.backlog)
      → P b
  from_opened P b e h = subst (λ closed. P (record b { closed = closed })) (sym e) h

  -- `Put` on a ready buffer adds the value at the back and leaves the buffer ready: open, with
  -- nothing behind a free cell.
  pub put_refines :
      (b : Unbounded V) (v : V)
      → Ready b
      → (contents (put b v) ≡ contents b ++ v ∷ []) × Ready (put b v)
  unfolding PutRefines
  put_refines b v h = from_opened PutRefines b h.is_open (put_opened b.c b.backlog h.no_gap) v

  -- On a ready buffer a receive with the `Load` that follows it gives the oldest value, if there is
  -- one, leaves the others in order, and leaves the buffer ready.
  pub take_refines :
      (b : Unbounded V)
      → Ready b
      → ((call b taking).1 ≡ head (contents b))
        × (contents (call b taking).0 ≡ tail (contents b))
        × Ready (call b taking).0
  unfolding TakeRefines
  take_refines b h = from_opened TakeRefines b h.is_open (take_opened b.c b.backlog h.no_gap)

  -- The replies to a sequence of calls.
  unfoldable pub run : Unbounded V → List (Op V) → List (Option V)
  run b [] = []
  run b (op ∷ ops) = let (b', reply) = call b op in reply ∷ run b' ops

  -- After a close only the value in the cell, the oldest that was held, is still handed out.
  unfoldable pub after_close : Option V → List (Op V) → List (Option V)
  after_close c [] = []
  after_close c (taking ∷ ops) = c ∷ after_close none ops
  after_close c (op ∷ ops) = none ∷ after_close c ops

  unfoldable pub queue_run : List V → List (Op V) → List (Option V)
  queue_run q [] = []
  queue_run q (putting v ∷ ops) = none ∷ queue_run (q ++ v ∷ []) ops
  queue_run q (taking ∷ ops) = head q ∷ queue_run (tail q) ops
  queue_run q (closing ∷ ops) = none ∷ after_close (head q) ops

  abbrev shut : Option V → List V → Unbounded V
  shut c backlog = record { c = c; closed = true; backlog = backlog }

  run-shut :
      (ops : List (Op V)) (c : Option V) (backlog : List V)
      → run (shut c backlog) ops ≡ after_close c ops
  unfolding run call put load close get after_close
  run-shut [] c backlog = refl
  run-shut (putting v ∷ ops) c backlog = ap (◌∷◌ none) (run-shut ops c backlog)
  run-shut (taking ∷ ops) c backlog = ap (◌∷◌ c) (run-shut ops none backlog)
  run-shut (closing ∷ ops) c backlog = ap (◌∷◌ none) (run-shut ops c backlog)

  close_opened :
      (ops : List (Op V)) (c : Option V) (backlog : List V)
      → (c ≡ none → backlog ≡ [])
      → run (opened c backlog) (closing ∷ ops) ≡ queue_run (cell c ++ backlog) (closing ∷ ops)
  unfolding run queue_run call close head
  close_opened ops none [] h = ap (◌∷◌ none) (run-shut ops none [])
  close_opened ops none (x ∷ xs) h = absurd (cc (h refl))
  close_opened ops (some y) backlog h = ap (◌∷◌ none) (run-shut ops (some y) backlog)

  -- A client that receives, loads, puts and closes in any order gets from a ready buffer the
  -- replies of the queue of what the buffer holds.
  pub replies_refine :
      (ops : List (Op V)) (b : Unbounded V) → Ready b → run b ops ≡ queue_run (contents b) ops
  unfolding run queue_run call
  replies_refine [] b h = refl
  replies_refine (putting v ∷ ops) b h =
      let (c, r) = put_refines b v h in
      ap (◌∷◌ none) (replies_refine ops (put b v) r ∙ ap (λ q. queue_run q ops) c)
  replies_refine (taking ∷ ops) b h =
      let (v, c, r) = take_refines b h in
      ap₂ ◌∷◌ v (replies_refine ops (call b taking).0 r ∙ ap (λ q. queue_run q ops) c)
  replies_refine (closing ∷ ops) b h =
      from_opened (λ b. run b (closing ∷ ops) ≡ queue_run (contents b) (closing ∷ ops)) b h.is_open
        (close_opened ops b.c b.backlog h.no_gap)

  pub new_unbounded-Ready : Ready (new_unbounded {V = V})
  unfolding new_unbounded
  new_unbounded-Ready = record { is_open = refl; no_gap = λ _. refl }
