-- ===== src/Allocator/Ops.antt =====
-- p1/allocator.cpp: the methods of `Allocator`, in the source's order. A method returns the
-- allocator that it leaves. `N` and the sizes are `size_t`, addresses are plain numbers.
use multithread.Base.{
  ℕ, suc, ◌+◌, ◌/◌, Bool, true, false, not, ◌&&◌, none, some, List, [], ◌∷◌, ◌++◌, ltb, leb, ◌==◌,
  if◌then◌else◌, rewind,
}
use multithread.Base.Size.{add_size, sub_size}
use multithread.Allocator.Blocks.{
  invalid_free, no_memory, Outcome, ok, throws, fault, ◌>>=◌, MemoryBlock, Pointer, Memory,
  Allocator, Iterator, advance, retreat, deref, assign, erase, insert, memcpy,
}

abbrev pub null : Pointer
null = record { ptr_block = none }

abbrev pub to_list : Iterator → List MemoryBlock
to_list it = rewind it.before it.from

abbrev pub block_at : ℕ → ℕ → ℕ → Bool → MemoryBlock
block_at j p n f = record { block = j; ptr_memory = p; size = n; is_free = f }

-- `Allocator::Allocator(base, size)`; `next` is where `new` finds the first block.
unfoldable pub construct : ℕ → ℕ → Memory → ℕ → Allocator
construct base size m next = record {
  ping_pong = false;
  ptr_memory = base;
  size_memory = size;
  ptr_memory_part1 = base;
  ptr_memory_part2 = base + size / 2;
  size_memory_part = size / 2;
  list_blocks = block_at next base (size / 2) true ∷ [];
  size_free_memory = size / 2;
  memory = m;
  next_block = suc next;
}

-- `Pointer::get`, through `MemoryBlock::get_ptr`; the null pointer is address 0.
find_address : ℕ → List MemoryBlock → Outcome ℕ
find_address j [] = fault
find_address j (b ∷ r) = if b.block == j then ok b.ptr_memory else find_address j r

unfoldable pub get : Pointer → Allocator → Outcome ℕ
unfolding find_address
get p a = elim p.ptr_block [ none ↦ ok 0 | some j ↦ find_address j a.list_blocks ]

-- The loop of `findblock`, from an iterator on: the first free block of size `N` at least.
unfoldable pub find_fit : ℕ → List MemoryBlock → List MemoryBlock → Iterator
find_fit N before [] = record { before = before; from = [] }
find_fit N before (b ∷ r) =
    if b.is_free && leb N b.size
    then record { before = before; from = b ∷ r }
    else find_fit N (b ∷ before) r

unfoldable pub findblock : ℕ → List MemoryBlock → Iterator
findblock N l = find_fit N [] l

-- `find(list_blocks.begin(), list_blocks.end(), ptr_block)`
unfoldable pub find_from : ℕ → List MemoryBlock → List MemoryBlock → Iterator
find_from j before [] = record { before = before; from = [] }
find_from j before (b ∷ r) =
    if b.block == j then record { before = before; from = b ∷ r } else find_from j (b ∷ before) r

unfoldable pub find : ℕ → List MemoryBlock → Iterator
find j l = find_from j [] l

-- The loop of `defrag` and `defragWithLast`: each used block that is not skipped is copied to
-- `cur`, and `cur` moves behind the copy. The result holds the moved blocks in their order.
unfoldable pub pack :
    (MemoryBlock → Bool) → ℕ → List MemoryBlock → Memory → Outcome (Memory × ℕ × List MemoryBlock)
pack skip cur [] m = ok (m, cur, [])
pack skip cur (b ∷ r) m = elim (not (skip b) && not b.is_free) [
  | true ↦ do
    m' ← memcpy cur b.ptr_memory b.size m
    (m'', cur', moved) ← pack skip (cur + b.size) r m'
    ok (m'', cur', record b { ptr_memory = cur } ∷ moved)
  | false ↦ pack skip cur r m
]

-- Where `defrag` copies to: the half that is not in use.
unfoldable pub other_part : Allocator → ℕ
other_part a = if a.ping_pong then a.ptr_memory_part1 else a.ptr_memory_part2

unfoldable pub defrag : Allocator → Outcome Allocator
defrag a = do
  (m, cur, moved) ← pack (λ _. false) (other_part a) a.list_blocks a.memory
  ok (record a {
    ping_pong = not a.ping_pong;
    list_blocks = moved ++ block_at a.next_block cur a.size_free_memory true ∷ [];
    memory = m;
    next_block = suc a.next_block;
  })

-- `defragWithLast(iter_block)`, with the iterator at block `j`.
unfoldable pub defrag_with_last : ℕ → Allocator → Outcome Allocator
defrag_with_last j a = do
  (m, cur, moved) ← pack (λ b. b.block == j) (other_part a) a.list_blocks a.memory
  last ← deref (find j a.list_blocks)
  m' ← memcpy cur last.ptr_memory last.size m
  ok (record a {
    ping_pong = not a.ping_pong;
    list_blocks =
        moved
        ++ record last { ptr_memory = cur }
          ∷ block_at a.next_block (cur + last.size) a.size_free_memory true
          ∷ [];
    memory = m';
    next_block = suc a.next_block;
  })

-- `findblock(N)`, and once more after `defrag` where that is `end()`.
unfoldable pub locate : ℕ → Allocator → Outcome (Allocator × Iterator)
locate N a =
    let it = findblock N a.list_blocks in
    elim it.from [ [] ↦ do a' ← defrag a; ok (a', findblock N a'.list_blocks) | b ∷ r ↦ ok (a, it) ]

-- The rest of `alloc`, at the block that was found.
unfoldable pub take_block : ℕ → Allocator → Iterator → Outcome (Pointer × Allocator)
take_block N a it = do
  b ← deref it
  if b.size == N
      then (do
        it' ← assign it (record b { is_free = false })
        ok (
          record { ptr_block = some b.block },
          record a { list_blocks = to_list it'; size_free_memory = sub_size a.size_free_memory N },
        ))
      else (do
        it' ← assign it (record b { size = sub_size b.size N; ptr_memory = b.ptr_memory + N })
        ok (
          record { ptr_block = some a.next_block },
          record a {
            list_blocks = to_list (insert it' (block_at a.next_block b.ptr_memory N false));
            size_free_memory = sub_size a.size_free_memory N;
            next_block = suc a.next_block;
          },
        ))

unfoldable pub alloc : ℕ → Allocator → Outcome (Pointer × Allocator)
alloc N a =
    if ltb a.size_free_memory N
    then throws no_memory
    else do (a', it) ← locate N a; take_block N a' it

-- `appendfollow(iter)`: the next block is deleted, and its size added to that of `iter`'s.
unfoldable pub appendfollow : Iterator → Outcome Iterator
appendfollow it = do
  next ← advance it
  follow ← deref next
  rest ← erase next
  here ← retreat rest
  b ← deref here
  assign here (record b { size = add_size b.size follow.size })

-- "check before element"
unfoldable pub join_before : Iterator → Outcome Iterator
join_before it = elim it.before [
  | [] ↦ ok it
  | x ∷ xs ↦ do
    prev ← retreat it
    b ← deref prev
    if b.is_free then appendfollow prev else advance prev
]

-- "check follow element"
unfoldable pub join_after : Iterator → Outcome Iterator
join_after it = do
  next ← advance it
  elim next.from [
    | [] ↦ ok next
    | b ∷ r ↦ if b.is_free then (do prev ← retreat next; appendfollow prev) else ok next
  ]

unfoldable pub joinfree : Iterator → Outcome Iterator
joinfree it = do it' ← join_before it; join_after it'

-- `Allocator::free`; the write `ptr_block->free = true` goes through the iterator.
unfoldable pub free : Pointer → Allocator → Outcome (Pointer × Allocator)
free p a = elim p.ptr_block [
  | none ↦ throws invalid_free
  | some j ↦ do
    let it = find j a.list_blocks
    b ← deref it
    it' ← assign it (record b { is_free = true })
    joined ← joinfree it'
    ok (
      null,
      record a {
        list_blocks = to_list joined;
        size_free_memory = add_size a.size_free_memory b.size;
      },
    )
]

-- `shortSizeBlock(iter, N)`: a block of size `N`, at address `fresh`, is split off in front.
unfoldable pub short_size_block : Iterator → ℕ → ℕ → Outcome Iterator
short_size_block it N fresh = do
  b ← deref it
  it' ←
      assign it
        (record b { size = sub_size b.size N; ptr_memory = b.ptr_memory + N; is_free = true })
  retreat (insert it' (block_at fresh b.ptr_memory N b.is_free))

-- `if (size != n) iter = shortSizeBlock(iter, n)`
unfoldable pub split_to : Iterator → ℕ → ℕ → Outcome Iterator
split_to it n fresh = do b ← deref it; if b.size == n then ok it else short_size_block it n fresh

-- `realloc` to a smaller size.
unfoldable pub shrink : ℕ → ℕ → Allocator → Outcome Allocator
shrink j N a = do
  let it = find j a.list_blocks
  b ← deref it
  it' ← assign it (record b { size = N })
  next ← advance it'
  let rest = sub_size b.size N
  new_block ← retreat (insert next (block_at a.next_block (b.ptr_memory + N) rest true))
  joined ← joinfree new_block
  ok (record a {
    list_blocks = to_list joined;
    size_free_memory = add_size a.size_free_memory rest;
    next_block = suc a.next_block;
  })

-- Is the block at the iterator free, and of size `delta` at least?
unfoldable pub fits : ℕ → Iterator → Bool
fits delta it = elim it.from [ [] ↦ false | b ∷ r ↦ b.is_free && leb delta b.size ]

-- `realloc` into the free block behind, at the iterator.
unfoldable pub extend : ℕ → Iterator → Allocator → Outcome Allocator
extend delta it a = do
  it' ← split_to it delta a.next_block
  block ← retreat it'
  joined ← appendfollow block
  ok (record a { list_blocks = to_list joined; next_block = suc a.next_block })

-- `realloc` into another free block: the block object `j` takes its place, and a new free
-- block the place that `j` leaves. The iterators `find_iter` and `iter_block` stay at their
-- nodes; here each is found again by the block that its node holds.
unfoldable pub move : ℕ → ℕ → Allocator → Outcome Allocator
move j N a = do
  (a', found) ← locate N a
  find_iter ← split_to found N a'.next_block
  target ← deref find_iter
  let iter_block = find j (to_list find_iter)
  b ← deref iter_block
  m ← memcpy target.ptr_memory b.ptr_memory b.size a'.memory
  left ← assign iter_block (block_at (suc a'.next_block) b.ptr_memory b.size true)
  placed ←
      assign (find target.block (to_list left))
        (record b { ptr_memory = target.ptr_memory; size = N })
  joined ← joinfree (find (suc a'.next_block) (to_list placed))
  ok (record a' { list_blocks = to_list joined; memory = m; next_block = suc (suc a'.next_block) })

-- `realloc` into the block behind, or else into another one.
unfoldable pub find_room : ℕ → ℕ → ℕ → Allocator → Outcome Allocator
find_room j N delta a = do
  behind ← advance (find j a.list_blocks)
  if fits delta behind then extend delta behind a else move j N a

-- `realloc` to a larger size, the size of block `j` being `size`.
unfoldable pub grow : ℕ → ℕ → ℕ → Allocator → Outcome Allocator
grow j size N a =
    let delta = sub_size N size in
    if ltb a.size_free_memory delta then throws no_memory else do
      a' ← (if ltb a.size_free_memory N then defrag_with_last j a else ok a)
      a'' ← find_room j N delta a'
      ok (record a'' { size_free_memory = sub_size a''.size_free_memory delta })

unfoldable pub realloc : Pointer → ℕ → Allocator → Outcome (Pointer × Allocator)
realloc p N a = elim p.ptr_block [
  | none ↦ alloc N a
  | some j ↦ do
    b ← deref (find j a.list_blocks)
    if b.size == N
        then ok (p, a)
        else (do a' ← (if ltb N b.size then shrink j N a else grow j b.size N a); ok (p, a'))
]
