-- ===== src/Allocator/Defrag.antt =====
-- `defrag`: it never faults, moves the used blocks to the other half with their bytes, and leaves
-- one free block behind them.
use multithread.Base.{
  ℕ, suc, ◌+◌, ◌≤◌, ◌≡◌, refl, ◌∙◌, Bool, true, false, not, List, [], ◌∷◌, ◌++◌, ◌==◌,
  if◌then◌else◌, arith, none,
}
use multithread.Allocator.Blocks.{MemoryBlock, Memory, Allocator, ok}
use multithread.Allocator.Ops.{other_part, defrag, block_at}
use multithread.Allocator.Layout.{
  Tiles, free_size, total_size, count, one_if, IsValid, this_part, Tiles-size, Tiles-append,
  free_size-append, count-append,
}
use multithread.Allocator.Content.{content, content-append}
use multithread.Allocator.Pack.{Apart, Packed, pack_lem, kept, lay}
use multithread.Allocator.Edit.{view, Serves}

pub count-kept-le :
    (skip : MemoryBlock → Bool) (j : ℕ) (l : List MemoryBlock) → count j (kept skip l) ≤ count j l
count-kept-le skip j [] = omega arith
count-kept-le skip j (b ∷ r) = ground (arith, count-kept-le skip j r)

abbrev pub skip_none : MemoryBlock → Bool
skip_none b = false

total_size-kept_none :
    (l : List MemoryBlock) → total_size (kept skip_none l) + free_size l ≡ total_size l
total_size-kept_none [] = refl
total_size-kept_none (b ∷ r) = ground (arith, total_size-kept_none r)

content-kept_none :
    (m : Memory) (j : ℕ) (l : List MemoryBlock) → content m (kept skip_none l) j ≡ content m l j
content-kept_none m j [] = refl
content-kept_none m j (b ∷ r) = ground (arith, content-kept_none m j r)

-- The two halves do not meet.
pub halves-Apart :
    (a : Allocator)
    → IsValid a
    → Apart
        (other_part a)
        (total_size a.list_blocks)
        (this_part a)
        (this_part a + a.size_memory_part)
unfolding other_part
halves-Apart a v = ground (arith, v.halves, Tiles-size a.list_blocks _ _ v.tiles)

-- A new list that fills the other half, with the same free size.
pub flip-IsValid :
    (a : Allocator) (l : List MemoryBlock) (m : Memory)
    → IsValid a
    → Tiles (other_part a) l (other_part a + a.size_memory_part)
    → free_size l ≡ a.size_free_memory
    → ((j : ℕ) → count j l ≤ count j a.list_blocks + one_if (a.next_block == j))
    → IsValid (record a {
      ping_pong = not a.ping_pong;
      list_blocks = l;
      memory = m;
      next_block = suc a.next_block;
    })
unfolding other_part
flip-IsValid a l m v t c le = record {
  halves = v.halves;
  bounded = v.bounded;
  tiles = flip a.ping_pong a.ptr_memory_part1 a.ptr_memory_part2 a.size_memory_part l t;
  counted = c;
  distinct = λ j. ground (arith, le j, v.distinct j, v.fresh j);
  fresh = λ j h. ground (arith, le j, v.fresh j);
}
  where
    flip :
        (pp : Bool) (p1 p2 n : ℕ) (l : List MemoryBlock)
        → Tiles (if pp then p1 else p2) l ((if pp then p1 else p2) + n)
        → Tiles (if not pp then p2 else p1) l ((if not pp then p2 else p1) + n)
    flip true p1 p2 n l t = t
    flip false p1 p2 n l t = t

-- What `defrag` leaves: `moved` and one free block, of all the free size.
pub record Defragged (a : Allocator) : Type 0 where
  pub after : Allocator
  pub moved : List MemoryBlock
  pub last : MemoryBlock
  pub runs : defrag a ≡ ok after
  pub serves : Serves a after
  pub half : after.ping_pong ≡ not a.ping_pong
  pub blocks : after.list_blocks ≡ moved ++ last ∷ []
  pub laid : moved ≡ lay (other_part a) (kept skip_none a.list_blocks)
  pub all_used : free_size moved ≡ 0
  pub last_free : last.is_free ≡ true
  pub last_size : last.size ≡ a.size_free_memory

module _ (a : Allocator) (v : IsValid a)
    (p : Packed skip_none (other_part a) a.list_blocks a.memory) where
  abbrev last_block : MemoryBlock
  last_block = block_at a.next_block p.end a.size_free_memory true

  abbrev after_defrag : Allocator
  after_defrag = record a {
    ping_pong = not a.ping_pong;
    list_blocks = p.moved ++ last_block ∷ [];
    memory = p.memory';
    next_block = suc a.next_block;
  }

  fills : p.end + a.size_free_memory ≡ other_part a + a.size_memory_part
  fills = omega (
    arith,
    p.ends,
    v.counted,
    total_size-kept_none a.list_blocks,
    Tiles-size a.list_blocks _ _ v.tiles,
  )

  after_defrag-IsValid : IsValid after_defrag
  after_defrag-IsValid =
      flip-IsValid a (p.moved ++ last_block ∷ []) p.memory' v
        (Tiles-append p.moved (last_block ∷ []) (other_part a) p.end _ p.tiles (refl, fills))
        (omega (arith, free_size-append p.moved (last_block ∷ []), p.none_free))
        (λ j. omega (
          arith,
          count-append j p.moved (last_block ∷ []),
          p.counts j,
          count-kept-le skip_none j a.list_blocks,
        ))

  last_block-content : (j : ℕ) → content p.memory' (last_block ∷ []) j ≡ none
  last_block-content j = ground arith

  same_view : (j : ℕ) → view after_defrag j ≡ view a j
  same_view j =
      content-append p.memory' j p.moved (last_block ∷ []) (last_block-content j)
      ∙ p.contents j
      ∙ content-kept_none a.memory j a.list_blocks

  Defragged-of_Packed : Defragged a
  unfolding defrag
  Defragged-of_Packed = record {
    after = after_defrag;
    moved = p.moved;
    last = last_block;
    runs = rw p.runs;
    serves = record { valid = after_defrag-IsValid; same_free = refl; same_view = same_view };
    blocks = refl;
    half = refl;
    laid = p.laid;
    all_used = p.none_free;
    last_free = refl;
    last_size = refl;
  }

-- `defrag` of a valid allocator never faults: it changes the half, the used blocks stand one behind
-- another from the start of the other half on, in their order, one free block of the whole free size stands behind them, the allocator stays valid, and
-- every handle keeps its bytes.
pub defrag_total : (a : Allocator) → IsValid a → Defragged a
defrag_total a v =
    Defragged-of_Packed a v
      (pack_lem skip_none (other_part a) a.list_blocks a.memory _ _ v.tiles (halves-Apart a v))
