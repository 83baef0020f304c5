-- ===== src/Allocator/Shrink.antt =====
-- `realloc` to a smaller size: the bytes behind the new size become a free block.
use multithread.Base.{
  ℕ, zero, suc, ◌+◌, ◌<◌, ◌≡◌, refl, ◌∙◌, sym, true, false, List, ◌∷◌, ◌==◌, if◌then◌else◌, rewind,
  arith, some, subst, ap, length, take,
}
use multithread.Base.Size.{IsSize, add_size, add_size-eq-add, sub_size, sub_size-eq-sub}
use multithread.Allocator.Blocks.{
  MemoryBlock, Memory, Allocator, Outcome, ok, deref, assign, advance, retreat, insert,
}
use multithread.Allocator.Ops.{find, to_list, shrink, block_at}
use multithread.Allocator.Layout.{
  Tiles, IsValid, total_size, count, free_size-le-total_size, total_size-rewind,
}
use multithread.Allocator.Content.{content, bytes, length-bytes, content-rewind_update}
use multithread.Allocator.Edit.{
  view, edit-IsValid, here-IsSize, here_free_size, here_distinct, here_fresh, here_total,
}
use multithread.Allocator.Join.{joinfree_lem, SameBlocks-IsValid}

-- Two byte strings agree as far as both go.
abbrev pub Keeps : List ℕ → List ℕ → Type 0
Keeps ys zs = take (length ys) zs ≡ take (length zs) ys

-- A call that changes the size of handle `j` from `ys` to `N` bytes.
pub record Resized (j : ℕ) (ys : List ℕ) (N : ℕ) (a : Allocator) (r : Outcome Allocator)
    : Type 0 where
  pub after : Allocator
  pub new_bytes : List ℕ
  pub runs : r ≡ ok after
  pub valid : IsValid after
  pub balance : after.size_free_memory + N ≡ a.size_free_memory + length ys
  pub long : length new_bytes ≡ N
  pub keeps : Keeps ys new_bytes
  pub views : (k : ℕ) → view after k ≡ (if j == k then some new_bytes else view a k)

-- The first bytes of a range, against those of another.
pub take-bytes :
    (m m' : Memory) (s n p q : ℕ)
    → ((k : ℕ) → k < s → k < n → m (p + k) ≡ m' (q + k))
    → take s (bytes m' q n) ≡ take n (bytes m p s)
take-bytes m m' zero zero p q h = refl
take-bytes m m' zero (suc n) p q h = refl
take-bytes m m' (suc s) zero p q h = refl
take-bytes m m' (suc s) (suc n) p q h = cons_eq (ground (arith, h 0 (omega arith) (omega arith))) (
    take-bytes m m' s n (p + 1) (q + 1)
      (λ k l1 l2. ground (arith, h (suc k) (omega arith) (omega arith))))
  where
    cons_eq : {x y : ℕ} {xs ys : List ℕ} → x ≡ y → xs ≡ ys → x ∷ xs ≡ y ∷ ys
    cons_eq e f = cc

pub Keeps-bytes :
    (m m' : Memory) (s n p q : ℕ)
    → ((k : ℕ) → k < s → k < n → m (p + k) ≡ m' (q + k))
    → Keeps (bytes m p s) (bytes m' q n)
Keeps-bytes m m' s n p q h =
    rw (length-bytes m s p, length-bytes m' n q) (take-bytes m m' s n p q h)

module _ (a : Allocator) (v : IsValid a) (j N : ℕ) (bs : List MemoryBlock) (b : MemoryBlock)
    (r : List MemoryBlock) (e : a.list_blocks ≡ rewind bs (b ∷ r)) (named : b.block ≡ j)
    (in_use : b.is_free ≡ false) (alone : count j bs + count j r ≡ 0) (less : N < b.size) where
  abbrev short : MemoryBlock
  short = record b { size = N }

  abbrev tail_block : MemoryBlock
  tail_block = block_at a.next_block (b.ptr_memory + N) (sub_size b.size N) true

  tail_size : sub_size b.size N + N ≡ b.size
  tail_size = omega (arith, sub_size-eq-sub b.size N (omega (arith, here-IsSize a v bs (b ∷ r) e)))

  new_free : add_size a.size_free_memory (sub_size b.size N) + N ≡ a.size_free_memory + b.size
  new_free = ground (
    arith,
    tail_size,
    in_use,
    here_free_size a v bs (b ∷ r) e,
    free_size-le-total_size r,
    add_size-eq-add a.size_free_memory (sub_size b.size N),
  )

  abbrev cut : Allocator
  cut = record a {
    list_blocks = rewind bs (short ∷ tail_block ∷ r);
    size_free_memory = add_size a.size_free_memory (sub_size b.size N);
    next_block = suc a.next_block;
  }

  cut-IsValid : IsValid cut
  cut-IsValid =
      edit-IsValid a v bs (b ∷ r) e (short ∷ tail_block ∷ r) _ (suc a.next_block)
        (λ p q t.
          (t.0, (ap (λ x. x + N) t.0, subst (λ s. Tiles s r q) (omega (arith, tail_size)) t.1)))
        (ground (arith, in_use, new_free, tail_size)) (omega arith)
        (λ k. ground (arith, here_fresh a v bs (b ∷ r) e k, here_distinct a v bs (b ∷ r) e k))

  cut-view :
      (k : ℕ) → view cut k ≡ (if j == k then some (bytes a.memory b.ptr_memory N) else view a k)
  cut-view k =
      subst
        (λ l.
          content a.memory (rewind bs (short ∷ tail_block ∷ r)) k
          ≡ (if j == k then some (bytes a.memory b.ptr_memory N) else content a.memory l k))
        (sym e)
        (content-rewind_update a.memory j k _ bs (b ∷ r) (short ∷ tail_block ∷ r) (omega arith)
          (ground (arith, named, in_use)))

  cut-IsSize : IsSize (total_size (rewind bs (short ∷ tail_block ∷ r)))
  cut-IsSize = omega (
    arith,
    here_total a v bs (b ∷ r) e,
    v.bounded,
    tail_size,
    total_size-rewind bs (short ∷ tail_block ∷ r),
  )

  pub shrink_here :
      find j a.list_blocks ≡ record { before = bs; from = b ∷ r }
      → Resized j (bytes a.memory b.ptr_memory b.size) N a (shrink j N a)
  unfolding shrink deref assign advance retreat insert
  shrink_here stands =
      let joined = joinfree_lem (short ∷ bs) tail_block r refl cut-IsSize in
      record {
        after = record cut { list_blocks = to_list joined.it };
        new_bytes = bytes a.memory b.ptr_memory N;
        runs = rw (stands, joined.runs) refl;
        valid = SameBlocks-IsValid cut _ cut-IsValid joined.same;
        balance =
            new_free
            ∙ ap (◌+◌ a.size_free_memory) (sym (length-bytes a.memory b.size b.ptr_memory));
        long = length-bytes a.memory N b.ptr_memory;
        keeps = Keeps-bytes a.memory a.memory b.size N b.ptr_memory b.ptr_memory (λ k l1 l2. refl);
        views = λ k. joined.same.contents a.memory k ∙ cut-view k;
      }
