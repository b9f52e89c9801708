-- ===== src/Buffer/Ring.antt =====
-- The growing ring buffer of utils/buffer/ring.go. A method returns the new ring beside its
-- results, in `Go`, since an index out of range panics; `Ring/Inv` shows that none does.
pub mod Inv
pub mod Write
pub mod Read
pub mod Queue
mod Tests
use minotaur.Base.{
  ℕ, ◌+◌, ◌-◌, ◌*◌, ◌/◌, ◌++◌, List, [], ◌∷◌, Bool, Option, some, none, ltb, ◌==◌, if◌then◌else◌,
  length, replicate, Go, ret, ◌>>=◌, index, store, slice, copy, copy_at,
}
use minotaur.Base.Int.{ℤ, pos, negsuc}

-- errors.go
pub data Error : Type 0 where
  buffer_is_empty : Error

-- `Ring[T]`
pub record Ring (A : Type 0) : Type 0 where
  pub buf : List A
  pub init_size : ℕ
  pub size : ℕ
  pub r : ℕ
  pub w : ℕ

-- The size that `NewRing` settles on, for its variadic argument.
unfoldable pub start_size : List ℤ → ℕ
start_size [] = 2
start_size (negsuc n ∷ rest) = 2
start_size (pos n ∷ rest) = if ltb n 2 then 2 else n

-- The new size in `grow`.
unfoldable pub grown : ℕ → ℕ
grown size = if ltb size 1024 then size * 2 else size + size / 4

-- `zero_value` is the zero value of the element type.
module _ {A : Type 0} (zero_value : A) where
  unfoldable pub new_ring : List ℤ → Ring A
  unfolding start_size
  new_ring args =
      let n = start_size args in
      record { buf = replicate n zero_value; init_size = n; size = n; r = 0; w = 0 }

  unfoldable pub read : Ring A → Go (Ring A × A × Option Error)
  read b = if b.r == b.w then ret (b, zero_value, some buffer_is_empty) else (do
    v ← index b.buf b.r
    let r' = b.r + 1
    ret (record b { r = if r' == b.size then 0 else r' }, v, none))

  unfoldable pub peek : Ring A → Go (A × Option Error)
  peek b =
      if b.r == b.w
      then ret (zero_value, some buffer_is_empty)
      else (do v ← index b.buf b.r; ret (v, none))

  unfoldable pub read_all : Ring A → Go (Ring A × List A)
  read_all b =
      if b.r == b.w
      then ret (b, [])
      else if ltb b.r b.w
      then (do
        let made = replicate (b.w - b.r) zero_value
        part ← slice b.buf b.r b.w
        ret (record b { r = 0; w = 0 }, copy made part))
      else (do
        let made = replicate (length b.buf - b.r + b.w) zero_value
        tail ← slice b.buf b.r (length b.buf)
        head ← slice b.buf 0 b.w
        filled ← copy_at (length b.buf - b.r) (copy made tail) head
        ret (record b { r = 0; w = 0 }, filled))

  unfoldable pub grow : Ring A → Go (Ring A)
  grow b = do
    let size = grown b.size
    let made = replicate size zero_value
    tail ← slice b.buf b.r (length b.buf)
    head ← slice b.buf 0 b.r
    filled ← copy_at (b.size - b.r) (copy made tail) head
    ret (record b { r = 0; w = b.size; size = size; buf = filled })

  unfoldable pub write : Ring A → A → Go (Ring A)
  write b v = do
    buf ← store b.buf b.w v
    let w' = if b.w + 1 == b.size then 0 else b.w + 1
    let b' = record b { buf = buf; w = w' }
    if w' == b.r then grow b' else ret b'

  unfoldable pub reset : Ring A → Ring A
  reset b = record b { r = 0; w = 0; size = b.init_size; buf = replicate b.init_size zero_value }

unfoldable pub is_empty : {A : Type 0} → Ring A → Bool
is_empty b = b.r == b.w

unfoldable pub cap : {A : Type 0} → Ring A → ℕ
cap b = b.size

unfoldable pub len : {A : Type 0} → Ring A → ℕ
len b = if b.r == b.w then 0 else if ltb b.r b.w then b.w - b.r else b.size - b.r + b.w
