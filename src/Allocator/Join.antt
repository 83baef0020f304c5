-- ===== src/Allocator/Join.antt =====
-- `appendfollow` and `joinfree`: free neighbours become one block, and nothing else changes.
use multithread.Base.{
  ℕ, ◌+◌, ◌≤◌, ◌≡◌, refl, ◌∙◌, sym, inl, inr, true, List, [], ◌∷◌, rewind, arith, Bool-cases, subst,
  if-true,
}
use multithread.Base.Size.{IsSize, add_size, add_size-eq-add}
use multithread.Allocator.Blocks.{
  MemoryBlock, Memory, Allocator, Iterator, Outcome, ok, advance, retreat, deref, assign, erase,
}
use multithread.Allocator.Ops.{appendfollow, join_before, join_after, joinfree, to_list}
use multithread.Allocator.Layout.{
  Tiles, IsValid, free_size, total_size, count, Tiles-rewind, free_size-rewind, total_size-rewind,
  count-rewind,
}
use multithread.Allocator.Content.{content, content-rewind}

-- `l'` has the used blocks of `l`, covers the same addresses, and has the same free size.
pub record SameBlocks (l l' : List MemoryBlock) : Type 0 where
  pub tiling : (p q : ℕ) → Tiles p l q → Tiles p l' q
  pub frees : free_size l' ≡ free_size l
  pub totals : total_size l' ≡ total_size l
  pub counts : (k : ℕ) → count k l' ≤ count k l
  pub contents : (m : Memory) (k : ℕ) → content m l' k ≡ content m l k

SameBlocks-refl : (l : List MemoryBlock) → SameBlocks l l
SameBlocks-refl l = record {
  tiling = λ p q t. t;
  frees = refl;
  totals = refl;
  counts = λ k. omega arith;
  contents = λ m k. refl;
}

SameBlocks-trans :
    {l l' l'' : List MemoryBlock} → SameBlocks l l' → SameBlocks l' l'' → SameBlocks l l''
SameBlocks-trans s s' = record {
  tiling = λ p q t. s'.tiling p q (s.tiling p q t);
  frees = s'.frees ∙ s.frees;
  totals = s'.totals ∙ s.totals;
  counts = λ k. omega (arith, s.counts k, s'.counts k);
  contents = λ m k. s'.contents m k ∙ s.contents m k;
}

abbrev pub merged : MemoryBlock → MemoryBlock → MemoryBlock
merged x y = record x { size = add_size x.size y.size }

pub appendfollow_lem :
    (bs : List MemoryBlock) (x y : MemoryBlock) (r : List MemoryBlock)
    → appendfollow (record { before = bs; from = x ∷ y ∷ r })
      ≡ ok (record { before = bs; from = merged x y ∷ r })
unfolding appendfollow advance retreat deref assign erase
appendfollow_lem bs x y r = refl

pub merged_size :
    (bs : List MemoryBlock) (x y : MemoryBlock) (r : List MemoryBlock)
    → IsSize (total_size (rewind bs (x ∷ y ∷ r)))
    → (merged x y).size ≡ x.size + y.size
merged_size bs x y r h =
    add_size-eq-add x.size y.size (omega (arith, total_size-rewind bs (x ∷ y ∷ r)))

merged-SameBlocks :
    (bs : List MemoryBlock) (x y : MemoryBlock) (r : List MemoryBlock)
    → x.is_free ≡ true
    → y.is_free ≡ true
    → (merged x y).size ≡ x.size + y.size
    → SameBlocks (rewind bs (x ∷ y ∷ r)) (rewind bs (merged x y ∷ r))
merged-SameBlocks bs x y r fx fy e = record {
  tiling = λ p q.
      Tiles-rewind bs (x ∷ y ∷ r) (merged x y ∷ r) q
        (λ p' t. (t.0, subst (λ s. Tiles s r q) (omega (arith, e)) (t.1).1)) p;
  frees =
      ground
        (arith, e, fx, fy, free_size-rewind bs (x ∷ y ∷ r), free_size-rewind bs (merged x y ∷ r));
  totals =
      omega (arith, e, total_size-rewind bs (x ∷ y ∷ r), total_size-rewind bs (merged x y ∷ r));
  counts = λ k. omega (arith, count-rewind k bs (x ∷ y ∷ r), count-rewind k bs (merged x y ∷ r));
  contents = λ m k. content-rewind m k bs (merged x y ∷ r) (x ∷ y ∷ r) (ground (arith, fx, fy));
}

-- What `join_before` leaves: an iterator at the free block, perhaps grown to the front.
record JoinedBefore (l : List MemoryBlock) (res : Outcome Iterator) : Type 0 where
  bs : List MemoryBlock
  g : MemoryBlock
  r : List MemoryBlock
  runs : res ≡ ok (record { before = bs; from = g ∷ r })
  g_free : g.is_free ≡ true
  same : SameBlocks l (rewind bs (g ∷ r))

join_before_lem :
    (bs : List MemoryBlock) (f : MemoryBlock) (r : List MemoryBlock)
    → f.is_free ≡ true
    → IsSize (total_size (rewind bs (f ∷ r)))
    → JoinedBefore (rewind bs (f ∷ r)) (join_before (record { before = bs; from = f ∷ r }))
unfolding join_before retreat deref advance
join_before_lem [] f r free small = record {
  bs = [];
  g = f;
  r = r;
  runs = refl;
  g_free = free;
  same = SameBlocks-refl (f ∷ r);
}
join_before_lem (x ∷ xs) f r free small = elim (Bool-cases x.is_free) [
  | inl e ↦ record {
    bs = xs;
    g = merged x f;
    r = r;
    runs = if-true x.is_free _ _ e ∙ appendfollow_lem xs x f r;
    g_free = e;
    same = merged-SameBlocks xs x f r e free (merged_size xs x f r small);
  }
  | inr e ↦ record {
    bs = x ∷ xs;
    g = f;
    r = r;
    runs = simp e;
    g_free = free;
    same = SameBlocks-refl (rewind (x ∷ xs) (f ∷ r));
  }
]

pub record Joined (l : List MemoryBlock) (res : Outcome Iterator) : Type 0 where
  pub it : Iterator
  pub runs : res ≡ ok it
  pub same : SameBlocks l (to_list it)

join_after_lem :
    (bs : List MemoryBlock) (g : MemoryBlock) (r : List MemoryBlock)
    → g.is_free ≡ true
    → IsSize (total_size (rewind bs (g ∷ r)))
    → Joined (rewind bs (g ∷ r)) (join_after (record { before = bs; from = g ∷ r }))
unfolding join_after advance retreat
join_after_lem bs g [] free small = record {
  it = record { before = g ∷ bs; from = [] };
  runs = refl;
  same = SameBlocks-refl _;
}
join_after_lem bs g (y ∷ r) free small = elim (Bool-cases y.is_free) [
  | inl e ↦ record {
    it = record { before = bs; from = merged g y ∷ r };
    runs = simp e (appendfollow_lem bs g y r);
    same = merged-SameBlocks bs g y r free e (merged_size bs g y r small);
  }
  | inr e ↦ record {
    it = record { before = g ∷ bs; from = y ∷ r };
    runs = simp e;
    same = SameBlocks-refl (rewind (g ∷ bs) (y ∷ r));
  }
]

-- At a free block `joinfree` never faults, and leaves the same blocks in use.
pub joinfree_lem :
    (bs : List MemoryBlock) (f : MemoryBlock) (r : List MemoryBlock)
    → f.is_free ≡ true
    → IsSize (total_size (rewind bs (f ∷ r)))
    → Joined (rewind bs (f ∷ r)) (joinfree (record { before = bs; from = f ∷ r }))
unfolding joinfree
joinfree_lem bs f r free small =
    let b = join_before_lem bs f r free small in
    let a = join_after_lem b.bs b.g b.r b.g_free (subst IsSize (sym b.same.totals) small) in
    record { it = a.it; runs = rw b.runs a.runs; same = SameBlocks-trans b.same a.same }

-- Such a change keeps a valid allocator valid.
pub SameBlocks-IsValid :
    (a : Allocator) (l : List MemoryBlock)
    → IsValid a
    → SameBlocks a.list_blocks l
    → IsValid (record a { list_blocks = l })
SameBlocks-IsValid a l v s = record {
  halves = v.halves;
  bounded = v.bounded;
  tiles = s.tiling _ _ v.tiles;
  counted = s.frees ∙ v.counted;
  distinct = λ k. omega (arith, s.counts k, v.distinct k);
  fresh = λ k le. omega (arith, s.counts k, v.fresh k le);
}
