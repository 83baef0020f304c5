-- ===== src/Allocator/Free.antt =====
-- `free`: the handle's block becomes free memory, and joins its free neighbours.
use multithread.Base.{
  ℕ, ◌+◌, ◌≡◌, refl, ◌∙◌, sym, inl, true, false, List, ◌∷◌, ◌==◌, if◌then◌else◌, rewind, arith,
  none, some, subst, ap, length,
}
use multithread.Base.Size.{IsSize, add_size, add_size-eq-add}
use multithread.Allocator.Blocks.{MemoryBlock, Allocator, Pointer, Outcome, ok, deref, assign}
use multithread.Allocator.Ops.{free, to_list, null}
use multithread.Allocator.Layout.{
  IsValid, total_size, count, free_size-le-total_size, total_size-rewind,
}
use multithread.Allocator.Content.{content, length-bytes, content-rewind_update, content-absent}
use multithread.Allocator.Edit.{view, edit-IsValid, here_free_size, here_total}
use multithread.Allocator.Fit.{find_used}
use multithread.Allocator.Join.{joinfree_lem, SameBlocks-IsValid}

abbrev pub pointer_to : ℕ → Pointer
pointer_to j = record { ptr_block = some j }

-- What `free` of handle `j`, with the bytes `ys`, leaves.
pub record Freed (j : ℕ) (ys : List ℕ) (a : Allocator) (r : Outcome (Pointer × Allocator))
    : Type 0 where
  pub after : Allocator
  pub runs : r ≡ ok (null, after)
  pub valid : IsValid after
  pub more_free : after.size_free_memory ≡ a.size_free_memory + length ys
  pub views : (k : ℕ) → view after k ≡ (if j == k then none else view a k)

module _ (a : Allocator) (v : IsValid a) (j : ℕ) (bs : List MemoryBlock) (b : MemoryBlock)
    (r : List MemoryBlock) (e : a.list_blocks ≡ rewind bs (b ∷ r)) (named : b.block ≡ j)
    (in_use : b.is_free ≡ false) (alone : count j bs + count j r ≡ 0) where
  abbrev pub opened : MemoryBlock
  opened = record b { is_free = true }

  pub new_free : add_size a.size_free_memory b.size ≡ a.size_free_memory + b.size
  new_free =
      add_size-eq-add a.size_free_memory b.size
        (ground (arith, in_use, here_free_size a v bs (b ∷ r) e, free_size-le-total_size r))

  abbrev pub marked : Allocator
  marked = record a {
    list_blocks = rewind bs (opened ∷ r);
    size_free_memory = add_size a.size_free_memory b.size;
  }

  pub marked-IsValid : IsValid marked
  marked-IsValid =
      edit-IsValid a v bs (b ∷ r) e (opened ∷ r) _ a.next_block (λ p q t. t)
        (ground (arith, in_use, new_free)) (omega arith) (λ k. inl (omega arith))

  pub marked-view : (k : ℕ) → view marked k ≡ (if j == k then none else view a k)
  marked-view k =
      subst
        (λ l.
          content a.memory (rewind bs (opened ∷ r)) k
          ≡ (if j == k then none else content a.memory l k))
        (sym e)
        (content-rewind_update a.memory j k none bs (b ∷ r) (opened ∷ r) (omega arith)
          (ground (arith, named, alone, content-absent a.memory j r)))

  pub marked-IsSize : IsSize (total_size (rewind bs (opened ∷ r)))
  marked-IsSize =
      omega (arith, here_total a v bs (b ∷ r) e, v.bounded, total_size-rewind bs (opened ∷ r))

-- `free` of a handle in use never faults: its bytes are gone, their number is free again, and
-- every other handle keeps its bytes.
pub free_total :
    (a : Allocator) (j : ℕ) (ys : List ℕ)
    → IsValid a
    → view a j ≡ some ys
    → Freed j ys a (free (pointer_to j) a)
unfolding free deref assign
free_total a j ys v h =
    let u = find_used a j ys v h in
    let b = u.place.b in
    let m = marked a v j u.place.bs b u.place.r u.place.splits u.named u.in_use u.alone in
    let joined =
      joinfree_lem u.place.bs (record b { is_free = true }) u.place.r refl
        (marked-IsSize a v j u.place.bs b u.place.r u.place.splits u.named u.in_use u.alone) in
    record {
      after = record m { list_blocks = to_list joined.it };
      runs = rw (u.place.stands, joined.runs) refl;
      valid =
          SameBlocks-IsValid m _
            (marked-IsValid a v j u.place.bs b u.place.r u.place.splits u.named u.in_use u.alone)
            joined.same;
      more_free =
          new_free a v j u.place.bs b u.place.r u.place.splits u.named u.in_use u.alone
          ∙ ap (◌+◌ a.size_free_memory)
              (sym (length-bytes a.memory b.size b.ptr_memory) ∙ ap length u.here);
      views = λ k.
          joined.same.contents a.memory k
          ∙ marked-view a v j u.place.bs b u.place.r u.place.splits u.named u.in_use u.alone k;
    }
