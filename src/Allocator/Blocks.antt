-- ===== src/Allocator/Blocks.antt =====
-- p1/allocator.h and the list operations that p1/allocator.cpp uses: memory blocks, pointers,
-- the allocator's fields, and iterators of `list_blocks`.
use multithread.Base.{ℕ, ◌+◌, ◌-◌, Bool, ◌&&◌, Option, List, [], ◌∷◌, ltb, if◌then◌else◌}

pub data AllocErrorType : Type 0 where
  invalid_free no_memory : AllocErrorType

-- What a call does: it returns, throws an `AllocError` with its type (always before any state
-- is changed), or runs into undefined behaviour: a dangling pointer, `end()` dereferenced or
-- passed, `memcpy` between ranges that overlap.
pub data Outcome {ℓ} (A : Type ℓ) : Type ℓ where
  ok : A → Outcome A
  throws : AllocErrorType → Outcome A
  fault : Outcome A

infixl 5 ◌>>=◌
abbrev pub ◌>>=◌ {ℓ κ} : {A : Type ℓ} {B : Type κ} → Outcome A → (A → Outcome B) → Outcome B
ok a >>= f = f a
throws e >>= f = throws e
fault >>= f = fault

-- `block` is the address of the object: what a `MemoryBlock *` holds.
pub record MemoryBlock : Type 0 where
  pub block : ℕ
  pub ptr_memory : ℕ
  pub size : ℕ
  pub is_free : Bool

-- `none` is `nullptr`.
pub record Pointer : Type 0 where
  pub ptr_block : Option ℕ

-- The bytes that addresses hold.
abbrev pub Memory : Type 0
Memory = ℕ → ℕ

-- The fields of `Allocator`, and behind them the two parts of the machine that it changes: the
-- memory, and the supply of addresses that `new MemoryBlock` draws on. A block object is owned
-- by `list_blocks`, so the list holds the objects themselves, each with its address.
pub record Allocator : Type 0 where
  pub ping_pong : Bool
  pub ptr_memory : ℕ
  pub size_memory : ℕ
  pub ptr_memory_part1 : ℕ
  pub ptr_memory_part2 : ℕ
  pub size_memory_part : ℕ
  pub list_blocks : List MemoryBlock
  pub size_free_memory : ℕ
  pub memory : Memory
  pub next_block : ℕ

-- An iterator of a list: the elements before it, nearest first, and those from it on. The list
-- itself is `rewind before from`.
pub record Iterator : Type 0 where
  pub before : List MemoryBlock
  pub from : List MemoryBlock

-- `iter++`
unfoldable pub advance : Iterator → Outcome Iterator
advance it = elim it.from [
  | [] ↦ fault
  | b ∷ rest ↦ ok (record { before = b ∷ it.before; from = rest })
]

-- `iter--`
unfoldable pub retreat : Iterator → Outcome Iterator
retreat it = elim it.before [
  | [] ↦ fault
  | b ∷ rest ↦ ok (record { before = rest; from = b ∷ it.from })
]

-- `**iter`
unfoldable pub deref : Iterator → Outcome MemoryBlock
deref it = elim it.from [ [] ↦ fault | b ∷ rest ↦ ok b ]

-- An assignment through `*iter`.
unfoldable pub assign : Iterator → MemoryBlock → Outcome Iterator
assign it b' = elim it.from [
  | [] ↦ fault
  | b ∷ rest ↦ ok (record { before = it.before; from = b' ∷ rest })
]

-- `iter = list.erase(iter)`
unfoldable pub erase : Iterator → Outcome Iterator
erase it = elim it.from [ [] ↦ fault | b ∷ rest ↦ ok (record { before = it.before; from = rest }) ]

-- `list.insert(iter, block)`: in front of `iter`, which stays at its element.
unfoldable pub insert : Iterator → MemoryBlock → Iterator
insert it b = record { before = b ∷ it.before; from = it.from }

-- The memory in which the `n` bytes from `src` on stand at `dst`.
abbrev pub copy_bytes : ℕ → ℕ → ℕ → Memory → Memory
copy_bytes dst src n m a =
    if ltb a dst then m a else if ltb a (dst + n) then m (src + (a - dst)) else m a

-- `memcpy(dst, src, n)`
unfoldable pub memcpy : ℕ → ℕ → ℕ → Memory → Outcome Memory
memcpy dst src n m =
    if ltb dst (src + n) && ltb src (dst + n) then fault else ok (copy_bytes dst src n m)
