-- ===== src/Allocator/Move.antt =====
-- `realloc` into another free block: the nodes that it changes, one by one.
use multithread.Base.{
  ℕ, suc, ◌+◌, ◌≤◌, ◌≡◌, refl, ◌∙◌, sym, ◌≢◌, true, false, List, ◌∷◌, ◌==◌, if◌then◌else◌, rewind,
  arith, none, some, subst, ap,
}
use multithread.Base.Size.{IsSize, sub_size, sub_size-eq-sub}
use multithread.Allocator.Blocks.{MemoryBlock, Memory, Allocator, ok, memcpy, copy_bytes}
use multithread.Allocator.Ops.{find, joinfree, to_list, block_at}
use multithread.Allocator.Layout.{
  Tiles, IsValid, IsSize-free, total_size, count, one_if, this_part, count-rewind, Tiles-size,
}
use multithread.Allocator.Content.{
  content, bytes, length-bytes, content-Agrees, content-rewind_update, content-absent,
}
use multithread.Allocator.Pack.{Apart, memcpy-Apart, copy_bytes_inside}
use multithread.Allocator.Edit.{view, edit-IsValid, memory-IsValid, here_distinct, here_fresh}
use multithread.Allocator.Objects.{
  object, object-rewind, object-rewind_absent, FoundAt, find_object,
}
use multithread.Allocator.Clear.{Clear, Clear-of_Tiles, Clear-at, Clear-Agrees}
use multithread.Allocator.Join.{Joined, joinfree_lem, SameBlocks-IsValid}
use multithread.Allocator.Shrink.{Resized, Keeps-bytes}

-- A free block `t` of size `N`, and the block `b` of handle `j`, which is to grow by `delta`.
pub record Targets (s : Allocator) (j N delta : ℕ) : Type 0 where
  pub bs : List MemoryBlock
  pub t : MemoryBlock
  pub rest : List MemoryBlock
  pub at_t : s.list_blocks ≡ rewind bs (t ∷ rest)
  pub t_free : t.is_free ≡ true
  pub t_size : t.size ≡ N
  pub cs : List MemoryBlock
  pub b : MemoryBlock
  pub r : List MemoryBlock
  pub at_b : s.list_blocks ≡ rewind cs (b ∷ r)
  pub named : b.block ≡ j
  pub in_use : b.is_free ≡ false
  pub alone : count j cs + count j r ≡ 0
  pub grows : delta + b.size ≡ N
  pub enough : delta ≤ s.size_free_memory

module _ (s : Allocator) (v : IsValid s) (j N delta : ℕ) (c : Targets s j N delta) where
  open c use {
    bs, t, rest, at_t, t_free, t_size, cs, b, r, at_b, named, in_use, alone, grows, enough,
  }

  clear : Clear t.ptr_memory t.size s.list_blocks
  clear = subst (Clear t.ptr_memory t.size) (sym at_t) (
      Clear-of_Tiles bs t rest _ _ t_free
        (subst (λ l. Tiles (this_part s) l (this_part s + s.size_memory_part)) at_t v.tiles))

  apart : Apart t.ptr_memory t.size b.ptr_memory (b.ptr_memory + b.size)
  apart = Clear-at t.ptr_memory t.size cs b r in_use (subst (Clear t.ptr_memory t.size) at_b clear)

  abbrev pub new_memory : Memory
  new_memory = copy_bytes t.ptr_memory b.ptr_memory b.size s.memory

  pub copy_runs : memcpy t.ptr_memory b.ptr_memory b.size s.memory ≡ ok new_memory
  copy_runs = memcpy-Apart t.ptr_memory b.ptr_memory b.size s.memory (ground (arith, apart, t_size))

  -- The free block that takes the place of `b`.
  abbrev pub vacated : MemoryBlock
  vacated = block_at s.next_block b.ptr_memory b.size true

  abbrev pub left_list : List MemoryBlock
  left_list = rewind cs (vacated ∷ r)

  abbrev left : Allocator
  left = record s {
    list_blocks = left_list;
    size_free_memory = s.size_free_memory + b.size;
    next_block = suc s.next_block;
  }

  left-IsValid : IsValid left
  left-IsValid =
      edit-IsValid s v cs (b ∷ r) at_b (vacated ∷ r) _ (suc s.next_block) (λ p q u. u)
        (ground (arith, in_use)) (omega arith)
        (λ k. ground (arith, here_fresh s v cs (b ∷ r) at_b k, here_distinct s v cs (b ∷ r) at_b k))

  left_view : (k : ℕ) → content s.memory left_list k ≡ (if j == k then none else view s k)
  left_view k =
      subst (λ l. content s.memory left_list k ≡ (if j == k then none else content s.memory l k))
        (sym at_b)
        (content-rewind_update s.memory j k none cs (b ∷ r) (vacated ∷ r) (omega (arith, alone))
          (ground (arith, named, alone, content-absent s.memory j r)))

  fresh_b : count s.next_block cs + count s.next_block (b ∷ r) ≡ 0
  fresh_b = here_fresh s v cs (b ∷ r) at_b s.next_block (omega arith)

  fresh_t : count s.next_block bs + count s.next_block (t ∷ rest) ≡ 0
  fresh_t = here_fresh s v bs (t ∷ rest) at_t s.next_block (omega arith)

  object_t : object t.block s.list_blocks ≡ some t
  object_t =
      subst (λ l. object t.block l ≡ some t) (sym at_t)
        (object-rewind_absent t.block bs (t ∷ rest)
            (ground (arith, here_distinct s v bs (t ∷ rest) at_t t.block))
          ∙ ground arith)

  object_b : object j s.list_blocks ≡ some b
  object_b =
      subst (λ l. object j l ≡ some b) (sym at_b)
        (object-rewind_absent j cs (b ∷ r) (omega (arith, alone)) ∙ ground (arith, named))

  other : t.block ≢ j
  other e = ground (arith, subst (λ k. object k s.list_blocks ≡ some t) e object_t, object_b)

  object_left : object t.block left_list ≡ some t
  object_left =
      object-rewind t.block cs (vacated ∷ r) (b ∷ r) (ground (arith, other, named, fresh_t))
      ∙ subst (λ l. object t.block l ≡ some t) at_b object_t

  pub found_t : FoundAt t (find t.block left_list) left_list
  found_t = find_object t.block t left_list object_left

  -- The block `b` in its new place.
  abbrev pub placed : MemoryBlock
  placed = record b { ptr_memory = t.ptr_memory; size = N }

  module _ (f : FoundAt t (find t.block left_list) left_list) where
    abbrev pub placed_list : List MemoryBlock
    placed_list = rewind f.bs (placed ∷ f.r)

    abbrev pub moved : Allocator
    moved = record s {
      list_blocks = placed_list;
      size_free_memory = sub_size s.size_free_memory delta;
      memory = new_memory;
      next_block = suc s.next_block;
    }

    less : sub_size s.size_free_memory delta + delta ≡ s.size_free_memory
    less = omega (arith, sub_size-eq-sub s.size_free_memory delta (IsSize-free s v) enough)

    left_count : (k : ℕ) → count k left_list ≡ count k cs + (one_if (s.next_block == k) + count k r)
    left_count k = count-rewind k cs (vacated ∷ r)

    absent_j : count j f.bs + count j (t ∷ f.r) ≡ 0
    absent_j = ground (
      arith,
      sym (count-rewind j f.bs (t ∷ f.r)),
      ap (count j) f.splits,
      left_count j,
      alone,
      named,
      fresh_b,
    )

    moved-Tiles : (p q : ℕ) → Tiles p (t ∷ f.r) q → Tiles p (placed ∷ f.r) q
    moved-Tiles p q u = (u.0, subst (λ n. Tiles (p + n) f.r q) t_size u.1)

    pub moved-IsValid : IsValid moved
    moved-IsValid =
        edit-IsValid (record left { memory = new_memory })
          (memory-IsValid left new_memory left-IsValid) f.bs (t ∷ f.r) f.splits (placed ∷ f.r) _
          (suc s.next_block) moved-Tiles (ground (arith, less, t_free, t_size, in_use, grows))
          (omega arith) (λ k. ground (arith, absent_j, named, here_fresh s v cs (b ∷ r) at_b j))

    agrees : (k : ℕ) → content new_memory left_list k ≡ content s.memory left_list k
    agrees k = sym (
        content-Agrees s.memory new_memory k left_list (
          Clear-Agrees t.ptr_memory t.size b.ptr_memory b.size s.memory left_list
            (omega (arith, t_size))
            (subst (Clear t.ptr_memory t.size) (sym f.splits) (
              Clear-of_Tiles f.bs t f.r _ _ t_free (
                subst (λ l. Tiles (this_part s) l (this_part s + s.size_memory_part)) f.splits
                  left-IsValid.tiles)))))

    pub moved_view :
        (k : ℕ)
        → view moved k ≡ (if j == k then some (bytes new_memory t.ptr_memory N) else view s k)
    moved_view k =
        content-rewind_update new_memory j k (some (bytes new_memory t.ptr_memory N)) f.bs (t ∷ f.r)
          (placed ∷ f.r) (omega (arith, absent_j)) (ground (arith, named, in_use, t_free))
        ∙ ground (arith, ap (λ l. content new_memory l k) f.splits, agrees k, left_view k)

    object-vacated : object s.next_block placed_list ≡ some vacated
    object-vacated =
        object-rewind s.next_block f.bs (placed ∷ f.r) (t ∷ f.r)
          (ground (arith, fresh_t, fresh_b, named))
        ∙ subst (λ l. object s.next_block l ≡ some vacated) f.splits
            (object-rewind_absent s.next_block cs (vacated ∷ r) (omega (arith, fresh_b))
              ∙ ground arith)

    pub found_vacated : FoundAt vacated (find s.next_block placed_list) placed_list
    found_vacated = find_object s.next_block vacated placed_list object-vacated

    moved-IsSize : IsSize (total_size placed_list)
    moved-IsSize = omega (arith, Tiles-size placed_list _ _ moved-IsValid.tiles, v.bounded)

    pub joined_lem :
        (g : FoundAt vacated (find s.next_block placed_list) placed_list)
        → Joined placed_list (joinfree (find s.next_block placed_list))
    joined_lem g = subst (Joined placed_list) (ap joinfree (sym g.stands)) (
        subst (λ l. Joined l (joinfree (record { before = g.bs; from = vacated ∷ g.r })))
          (sym g.splits)
          (joinfree_lem g.bs vacated g.r refl
            (subst (λ l. IsSize (total_size l)) g.splits moved-IsSize)))

    -- The whole change, once the free neighbours of the vacated block are joined.
    pub Moved :
        (res : Joined placed_list (joinfree (find s.next_block placed_list)))
        → Resized j
            (bytes s.memory b.ptr_memory b.size)
            N
            s
            (ok (record moved { list_blocks = to_list res.it }))
    Moved res = record {
      after = record moved { list_blocks = to_list res.it };
      new_bytes = bytes new_memory t.ptr_memory N;
      runs = refl;
      valid = SameBlocks-IsValid moved _ moved-IsValid res.same;
      balance = omega (arith, less, grows, length-bytes s.memory b.size b.ptr_memory);
      long = length-bytes new_memory N t.ptr_memory;
      keeps =
          Keeps-bytes s.memory new_memory b.size N b.ptr_memory t.ptr_memory
            λ k l1 l2. sym (copy_bytes_inside t.ptr_memory b.ptr_memory b.size s.memory k l1);
      views = λ k. res.same.contents new_memory k ∙ moved_view k;
    }
