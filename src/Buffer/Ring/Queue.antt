-- ===== src/Buffer/Ring/Queue.antt =====
-- The contract of utils/buffer/ring.go: a client's calls, against an unbounded first-in first-out
-- queue.
use minotaur.Base.{
  List, [], ◌∷◌, ◌++◌, Option, some, none, Go, ret, ◌>>=◌, ◌≡◌, refl, inl, inr, ◌∙◌, ap, subst,
}
use minotaur.Buffer.Ring.{Ring, Error, buffer_is_empty, read, read_all, write, reset}
use minotaur.Buffer.Ring.Inv.{IsValid, contents}
use minotaur.Buffer.Ring.Write.{write_lem}
use minotaur.Buffer.Ring.Read.{read_lem, read_all_lem, reset_lem}

-- What a client calls.
pub data Op (A : Type 0) : Type 0 where
  put : A → Op A
  get : Op A
  get_all : Op A
  clear : Op A

-- What it sees of a call.
pub data Reply (A : Type 0) : Type 0 where
  done : Reply A
  got : A → Option Error → Reply A
  got_all : List A → Reply A

module _ {A : Type 0} (zero_value : A) where
  unfoldable pub call : Ring A → Op A → Go (Ring A × Reply A)
  call b (put v) = do b' ← write zero_value b v; ret (b', done)
  call b get = do (b', v, err) ← read zero_value b; ret (b', got v err)
  call b get_all = do (b', vs) ← read_all zero_value b; ret (b', got_all vs)
  call b clear = ret (reset zero_value b, done)

  unfoldable pub run : Ring A → List (Op A) → Go (Ring A × List (Reply A))
  run b [] = ret (b, [])
  run b (op ∷ ops) = do
    (b', reply) ← call b op
    (b'', replies) ← run b' ops
    ret (b'', reply ∷ replies)

  -- The queue: what it replies, and what it holds afterwards.
  unfoldable pub queue_call : List A → Op A → List A × Reply A
  queue_call q (put v) = (q ++ v ∷ [], done)
  queue_call [] get = ([], got zero_value (some buffer_is_empty))
  queue_call (x ∷ q) get = (q, got x none)
  queue_call q get_all = ([], got_all q)
  queue_call q clear = ([], done)

  unfoldable pub queue_run : List A → List (Op A) → List A × List (Reply A)
  queue_run q [] = (q, [])
  queue_run q (op ∷ ops) =
      let (q', reply) = queue_call q op in
      let (q'', replies) = queue_run q' ops in (q'', reply ∷ replies)

  -- One call of the ring is one call of the queue.
  Refines : Ring A → Op A → Type 0
  Refines b op =
      (b' : Ring A) × (call b op ≡ ret (b', (queue_call (contents b) op).1))
      × IsValid b'
      × (contents b' ≡ (queue_call (contents b) op).0)

  call-Refines : (b : Ring A) (op : Op A) → IsValid b → Refines b op
  unfolding Refines call queue_call
  call-Refines b (put v) h =
      let (b', e, valid, c) = write_lem zero_value b v h in (b', rw e, valid, c)
  call-Refines b get h = elim (read_lem zero_value b h) [
    | inl (c, e) ↦ rw (e, c) (b, refl, h, c)
    | inr (b', v, e, valid, c) ↦ rw (e, c) (b', refl, valid, refl)
  ]
  call-Refines b get_all h =
      let (b', e, valid, c) = read_all_lem zero_value b h in (b', rw e refl, valid, c)
  call-Refines b clear h =
      let (valid, c) = reset_lem zero_value b h in (reset zero_value b, refl, valid, c)

  Follows : Ring A → List A → List (Op A) → Type 0
  Follows b q ops =
      (b' : Ring A) × (run b ops ≡ ret (b', (queue_run q ops).1))
      × IsValid b'
      × (contents b' ≡ (queue_run q ops).0)

  first :
      (b b₁ : Ring A) (q : List A) (op : Op A) (ops : List (Op A))
      → call b op ≡ ret (b₁, (queue_call q op).1)
      → Follows b₁ (queue_call q op).0 ops
      → Follows b q (op ∷ ops)
  unfolding Follows run queue_run
  first b b₁ q op ops e (b', e', valid, c) = (b', rw (e, e'), valid, c)

  follows :
      (ops : List (Op A)) (b : Ring A) (q : List A) → contents b ≡ q → IsValid b → Follows b q ops
  unfolding Refines
  follows [] b q e h = unfold Follows run queue_run in (b, refl, h, e)
  follows (op ∷ ops) b q e h =
      let (b₁, e₁, v₁, c₁) = call-Refines b op h in
      first b b₁ q op ops (subst (λ q. call b op ≡ ret (b₁, (queue_call q op).1)) e e₁)
        (follows ops b₁ (queue_call q op).0 (c₁ ∙ ap (λ q. (queue_call q op).0) e) v₁)

  -- From a valid ring no sequence of calls panics, every reply is that of the queue which starts
  -- with the ring's contents, and the ring ends valid, holding what the queue holds.
  pub run_refines :
      (ops : List (Op A)) (b : Ring A)
      → IsValid b
      → (b' : Ring A) × (run b ops ≡ ret (b', (queue_run (contents b) ops).1))
        × IsValid b'
        × (contents b' ≡ (queue_run (contents b) ops).0)
  unfolding Follows
  run_refines ops b h = follows ops b (contents b) refl h
