-- ===== src/Allocator/Last.antt =====
-- `defragWithLast`: as `defrag`, with the block of one handle copied last, right before the free
-- block.
use multithread.Base.{
  ℕ, suc, ◌+◌, ◌≤◌, ◌≡◌, refl, ◌∙◌, sym, inl, inr, true, false, not, List, [], ◌∷◌, ◌++◌, ◌==◌,
  rewind, arith, Bool-cases, some, subst, ap, ==→eq,
}
use multithread.Allocator.Blocks.{MemoryBlock, Memory, Allocator, ok, deref, memcpy, copy_bytes}
use multithread.Allocator.Ops.{defrag_with_last, other_part, find, block_at}
use multithread.Allocator.Layout.{
  Tiles, IsValid, free_size, total_size, count, one_if, this_part, count-rewind, count-append,
  free_size-append, Tiles-append, Tiles-size, Tiles-from,
}
use multithread.Allocator.Content.{
  content, bytes, bytes-congr, content-append, content-append_absent, content-Agrees,
  content-rewind_absent,
}
use multithread.Allocator.Pack.{
  Apart, Packed, pack_lem, kept, memcpy-Apart, copy_bytes_outside, copy_bytes_inside,
}
use multithread.Allocator.Edit.{view, Serves, here_total, here_counted}
use multithread.Allocator.Defrag.{flip-IsValid, halves-Apart, count-kept-le}
use multithread.Allocator.Kept.{
  is_block, count-kept_self, content-kept_ne, total_size-kept_absent, total_size-kept-rewind,
  find_from_skip, rewind-rewind, Agrees-Tiles,
}

-- Handle `j` stands at block `b` of the allocator, in use.
pub record Stands (j : ℕ) (bs : List MemoryBlock) (b : MemoryBlock) (r : List MemoryBlock)
    (a : Allocator) : Type 0 where
  pub splits : a.list_blocks ≡ rewind bs (b ∷ r)
  pub found : find j a.list_blocks ≡ record { before = bs; from = b ∷ r }
  pub named : b.block ≡ j
  pub in_use : b.is_free ≡ false
  pub alone : count j bs + count j r ≡ 0

-- What `defragWithLast` leaves: handle `j` stands right before one free block, of all the free
-- size, and every handle has its bytes.
pub record LastPacked (j : ℕ) (a : Allocator) : Type 0 where
  pub after : Allocator
  pub bs : List MemoryBlock
  pub b : MemoryBlock
  pub last : MemoryBlock
  pub runs : defrag_with_last j a ≡ ok after
  pub serves : Serves a after
  pub stands : Stands j bs b (last ∷ []) after
  pub last_free : last.is_free ≡ true
  pub last_size : last.size ≡ a.size_free_memory

module _ (a : Allocator) (v : IsValid a) (j : ℕ) (bs : List MemoryBlock) (b : MemoryBlock)
    (r : List MemoryBlock) (s : Stands j bs b r a)
    (p : Packed (is_block j) (other_part a) a.list_blocks a.memory) where
  abbrev here : MemoryBlock
  here = record b { ptr_memory = p.end }

  abbrev last_block : MemoryBlock
  last_block = block_at a.next_block (p.end + b.size) a.size_free_memory true

  abbrev new_list : List MemoryBlock
  new_list = p.moved ++ here ∷ last_block ∷ []

  abbrev new_memory : Memory
  new_memory = copy_bytes p.end b.ptr_memory b.size p.memory'

  abbrev after_last : Allocator
  after_last = record a {
    ping_pong = not a.ping_pong;
    list_blocks = new_list;
    memory = new_memory;
    next_block = suc a.next_block;
  }

  moved_absent : count j p.moved ≡ 0
  moved_absent = p.counts j ∙ count-kept_self j a.list_blocks

  kept_here : total_size (kept (is_block j) (b ∷ r)) + free_size r ≡ total_size r
  kept_here = ground (arith, s.named, s.in_use, s.alone, total_size-kept_absent j r)

  kept_total :
      total_size (kept (is_block j) (rewind bs (b ∷ r))) + b.size + a.size_free_memory
      ≡ a.size_memory_part
  kept_total = ground (
    arith,
    s.in_use,
    s.alone,
    here_total a v bs (b ∷ r) s.splits,
    here_counted a v bs (b ∷ r) s.splits,
    total_size-kept-rewind j bs (b ∷ r),
    total_size-kept_absent j bs,
    kept_here,
  )

  end_eq : p.end + b.size + a.size_free_memory ≡ other_part a + a.size_memory_part
  end_eq = omega (
    arith,
    kept_total,
    subst (λ l. p.end ≡ other_part a + total_size (kept (is_block j) l)) s.splits p.ends,
  )

  -- Where the block is copied from, in the half that is left.
  source : Tiles (this_part a + total_size bs) (b ∷ r) (this_part a + a.size_memory_part)
  source =
      Tiles-from bs (b ∷ r) (this_part a) _
        (subst (λ l. Tiles (this_part a) l (this_part a + a.size_memory_part)) s.splits v.tiles)

  source_bounds :
      (this_part a ≤ b.ptr_memory) × (b.ptr_memory + b.size ≤ this_part a + a.size_memory_part)
  source_bounds = (omega (arith, source.0), omega (arith, source.0, Tiles-size r _ _ source.1))

  halves : Apart (other_part a) a.size_memory_part (this_part a) (this_part a + a.size_memory_part)
  halves = ground (arith, halves-Apart a v, Tiles-size a.list_blocks _ _ v.tiles)

  copy_runs : memcpy p.end b.ptr_memory b.size p.memory' ≡ ok new_memory
  copy_runs =
      memcpy-Apart p.end b.ptr_memory b.size p.memory'
        (ground (arith, halves, source_bounds.0, source_bounds.1, end_eq, p.ends))

  same_bytes : bytes new_memory p.end b.size ≡ bytes a.memory b.ptr_memory b.size
  same_bytes = bytes-congr new_memory a.memory b.size p.end b.ptr_memory λ k lt.
      copy_bytes_inside p.end b.ptr_memory b.size p.memory' k lt
      ∙ p.outside (b.ptr_memory + k)
          (ground (arith, halves, source_bounds.0, source_bounds.1, end_eq, p.ends))

  moved_content :
      (k : ℕ) → content new_memory p.moved k ≡ content a.memory (kept (is_block j) a.list_blocks) k
  moved_content k =
      content-Agrees new_memory p.memory' k p.moved (
        Agrees-Tiles new_memory p.memory' p.moved _ _ p.tiles λ c lo hi.
          copy_bytes_outside p.end b.ptr_memory b.size p.memory' c
            (inl (omega (arith, Tiles-size p.moved _ _ p.tiles))))
      ∙ p.contents k

  old_view : view a j ≡ some (bytes a.memory b.ptr_memory b.size)
  old_view =
      subst (λ l. content a.memory l j ≡ some (bytes a.memory b.ptr_memory b.size)) (sym s.splits)
        (content-rewind_absent a.memory j bs (b ∷ r) (omega (arith, s.alone))
          ∙ ground (arith, s.named, s.in_use))

  new_view_self : view after_last j ≡ view a j
  new_view_self =
      content-append_absent new_memory j p.moved (here ∷ last_block ∷ []) moved_absent
      ∙ ground (arith, s.named, s.in_use, same_bytes)
      ∙ sym old_view

  new_view_ne : (k : ℕ) → (j == k) ≡ false → view after_last k ≡ view a k
  new_view_ne k ne =
      content-append new_memory k p.moved (here ∷ last_block ∷ []) (ground (arith, s.named))
      ∙ moved_content k
      ∙ content-kept_ne j a.memory k a.list_blocks ne

  after_last-IsValid : IsValid after_last
  after_last-IsValid =
      flip-IsValid a new_list new_memory v
        (Tiles-append p.moved (here ∷ last_block ∷ []) (other_part a) p.end _ p.tiles
          (refl, (refl, end_eq)))
        (ground (arith, free_size-append p.moved (here ∷ last_block ∷ []), p.none_free, s.in_use))
        counts
    where
      counts : (k : ℕ) → count k new_list ≤ count k a.list_blocks + one_if (a.next_block == k)
      counts k = ground (
        arith,
        count-append k p.moved (here ∷ last_block ∷ []),
        p.counts k,
        count-kept-le (is_block j) k a.list_blocks,
        count-rewind k bs (b ∷ r),
        ap (count k) s.splits,
        moved_absent,
        s.named,
      )

  abbrev new_before : List MemoryBlock
  new_before = rewind p.moved []

  pub LastPacked-of_Packed : LastPacked j a
  unfolding defrag_with_last deref find
  LastPacked-of_Packed = record {
    after = after_last;
    bs = new_before;
    b = here;
    last = last_block;
    runs = rw (p.runs, s.found, copy_runs) refl;
    serves = record {
      valid = after_last-IsValid;
      same_free = refl;
      same_view = λ k. elim (Bool-cases (j == k)) [
        | inl e ↦ subst (λ i. view after_last i ≡ view a i) (==→eq j k e) new_view_self
        | inr ne ↦ new_view_ne k ne
      ];
    };
    stands = record {
      splits = sym (rewind-rewind p.moved [] (here ∷ last_block ∷ []));
      found = find_from_skip j [] p.moved here (last_block ∷ []) s.named moved_absent;
      named = s.named;
      in_use = s.in_use;
      alone = ground (
        arith,
        count-rewind j p.moved [],
        moved_absent,
        v.fresh j,
        count-rewind j bs (b ∷ r),
        ap (count j) s.splits,
        s.named,
      );
    };
    last_free = refl;
    last_size = refl;
  }

-- `defragWithLast` never faults at a handle in use.
pub defrag_with_last_lem :
    (a : Allocator)
    → IsValid a
    → (j : ℕ) (bs : List MemoryBlock) (b : MemoryBlock) (r : List MemoryBlock) → Stands j bs b r a
    → LastPacked j a
defrag_with_last_lem a v j bs b r s =
    LastPacked-of_Packed a v j bs b r s
      (pack_lem (is_block j) (other_part a) a.list_blocks a.memory _ _ v.tiles (halves-Apart a v))
