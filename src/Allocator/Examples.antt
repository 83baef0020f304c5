-- ===== src/Allocator/Examples.antt =====
-- The allocator's theorems at a concrete arena, and a few runs.
use multithread.Base.{ℕ, ◌/◌, ◌≡◌, refl, none, true, false, [], ◌∷◌, arith}
use multithread.Allocator.Blocks.{Memory, Allocator, ok}
use multithread.Allocator.Ops.{construct, block_at, alloc, realloc, free}
use multithread.Allocator.Layout.{IsValid}
use multithread.Allocator.Edit.{view}
use multithread.Allocator.Defrag.{Defragged, defrag_total}
use multithread.Allocator.Alloc.{Allocated, alloc_total}
use multithread.Allocator.Free.{Freed, free_total, pointer_to}
use multithread.Allocator.Shrink.{Resized}
use multithread.Allocator.Realloc.{realloc_total}
use multithread.Allocator.Store.{resize, Served, call_serves, construct-IsValid}

abbrev digits : Memory
digits a = a

-- Two handles in use with a hole between them, in a half of 20 bytes at address 100.
abbrev busy : Allocator
busy = record {
  ping_pong = false;
  ptr_memory = 100;
  size_memory = 40;
  ptr_memory_part1 = 100;
  ptr_memory_part2 = 120;
  size_memory_part = 20;
  list_blocks =
      block_at 1 100 3 false
      ∷ block_at 2 103 4 true
      ∷ block_at 3 107 5 false
      ∷ block_at 4 112 8 true
      ∷ [];
  size_free_memory = 12;
  memory = digits;
  next_block = 5;
}

busy-IsValid : IsValid busy
busy-IsValid = record {
  halves = refl;
  bounded = omega arith;
  tiles = (refl, (refl, (refl, (refl, refl))));
  counted = refl;
  distinct = λ j. ground arith;
  fresh = λ j h. ground arith;
}

call_serves_example : Served (resize 1 14) busy
call_serves_example =
    call_serves (resize 1 14) busy busy-IsValid (omega arith, (100 ∷ 101 ∷ 102 ∷ [], refl))

alloc_total_example : Allocated 10 busy (alloc 10 busy)
alloc_total_example = alloc_total 10 busy busy-IsValid (omega arith)

free_total_example : Freed 1 (100 ∷ 101 ∷ 102 ∷ []) busy (free (pointer_to 1) busy)
free_total_example = free_total busy 1 (100 ∷ 101 ∷ 102 ∷ []) busy-IsValid refl

realloc_total_example :
    (a' : Allocator) × (realloc (pointer_to 1) 14 busy ≡ ok (pointer_to 1, a'))
    × Resized 1 (100 ∷ 101 ∷ 102 ∷ []) 14 busy (ok a')
realloc_total_example =
    realloc_total busy 1 (100 ∷ 101 ∷ 102 ∷ []) 14 busy-IsValid refl (omega arith) (omega arith)

defrag_total_example : Defragged busy
defrag_total_example = defrag_total busy busy-IsValid

construct-IsValid_example :
    IsValid (construct 100 41 digits 0)
    × (((j : ℕ) → view (construct 100 41 digits 0) j ≡ none)
        × ((construct 100 41 digits 0).size_free_memory ≡ 41 / 2))
construct-IsValid_example = construct-IsValid 100 41 digits 0 (omega arith)
