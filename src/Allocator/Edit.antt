-- ===== src/Allocator/Edit.antt =====
-- A change of the block list at an iterator, and what it must meet to keep the allocator valid.
use multithread.Base.{ℕ, ◌+◌, ◌-◌, ◌≤◌, ◌<◌, ◌≡◌, ◌⊎◌, List, rewind, arith, subst, Option, ◌∙◌, sym}
use multithread.Base.Size.{IsSize}
use multithread.Allocator.Blocks.{MemoryBlock, Memory, Allocator}
use multithread.Allocator.Layout.{
  Tiles, free_size, total_size, count, IsValid, this_part, Tiles-rewind, Tiles-size,
  free_size-rewind, total_size-rewind, count-rewind, free_size-le-total_size,
}
use multithread.Allocator.Content.{content}

-- The bytes behind handle `j`.
abbrev pub view : Allocator → ℕ → Option (List ℕ)
view a j = content a.memory a.list_blocks j

-- `a'` serves every client of `a` as before.
pub record Serves (a a' : Allocator) : Type 0 where
  pub valid : IsValid a'
  pub same_free : a'.size_free_memory ≡ a.size_free_memory
  pub same_view : (j : ℕ) → view a' j ≡ view a j

-- The address `k` of a block object may be added to a list that does not hold it.
abbrev pub Adds : ℕ → ℕ → List MemoryBlock → List MemoryBlock → List MemoryBlock → Type 0
Adds next k bs xs ys =
    (count k ys ≤ count k xs) ⊎ ((count k bs + count k xs ≡ 0) × (k < next) × (count k ys ≤ 1))

module _ (a : Allocator) (v : IsValid a) (bs xs : List MemoryBlock)
    (e : a.list_blocks ≡ rewind bs xs) where
  pub here_counted : free_size bs + free_size xs ≡ a.size_free_memory
  here_counted =
      sym (free_size-rewind bs xs) ∙ subst (λ l. free_size l ≡ a.size_free_memory) e v.counted

  here_count : (k : ℕ) → count k a.list_blocks ≡ count k bs + count k xs
  here_count k = subst (λ l. count k l ≡ count k bs + count k xs) (sym e) (count-rewind k bs xs)

  pub here_distinct : (k : ℕ) → count k bs + count k xs ≤ 1
  here_distinct k = omega (arith, here_count k, v.distinct k)

  pub here_fresh : (k : ℕ) → a.next_block ≤ k → count k bs + count k xs ≡ 0
  here_fresh k le = omega (arith, here_count k, v.fresh k le)

  pub here_total : total_size bs + total_size xs ≡ a.size_memory_part
  here_total = omega (
    arith,
    total_size-rewind bs xs,
    Tiles-size (rewind bs xs) (this_part a) (this_part a + a.size_memory_part)
        (subst (λ l. Tiles (this_part a) l (this_part a + a.size_memory_part)) e v.tiles),
  )

  -- Every size in the list is one.
  pub here-IsSize : IsSize (total_size xs)
  here-IsSize = omega (arith, here_total, v.bounded)

  pub here_free_size : IsSize (a.size_free_memory + (total_size xs - free_size xs))
  here_free_size = omega (
    arith,
    here_total,
    here_counted,
    v.bounded,
    free_size-le-total_size bs,
    free_size-le-total_size xs,
  )

  pub edit-IsValid :
      (ys : List MemoryBlock) (free' next' : ℕ)
      → ((p q : ℕ) → Tiles p xs q → Tiles p ys q)
      → free' + free_size xs ≡ a.size_free_memory + free_size ys
      → a.next_block ≤ next'
      → ((k : ℕ) → Adds next' k bs xs ys)
      → IsValid
          (record a { list_blocks = rewind bs ys; size_free_memory = free'; next_block = next' })
  edit-IsValid ys free' next' tiling sizes le adds = record {
    halves = v.halves;
    bounded = v.bounded;
    tiles =
        Tiles-rewind bs xs ys _ (λ p. tiling p _) (this_part a)
          (subst (λ l. Tiles (this_part a) l (this_part a + a.size_memory_part)) e v.tiles);
    counted = omega (arith, here_counted, free_size-rewind bs ys);
    distinct = λ k. ground (arith, adds k, here_distinct k, count-rewind k bs ys);
    fresh = λ k lt. ground (arith, adds k, here_fresh k (omega arith), count-rewind k bs ys);
  }

-- Validity does not depend on the bytes.
pub memory-IsValid : (a : Allocator) (m : Memory) → IsValid a → IsValid (record a { memory = m })
memory-IsValid a m v = record {
  halves = v.halves;
  bounded = v.bounded;
  tiles = v.tiles;
  counted = v.counted;
  distinct = v.distinct;
  fresh = v.fresh;
}
