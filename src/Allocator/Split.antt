-- ===== src/Allocator/Split.antt =====
-- `shortSizeBlock` at a free block: its front becomes a free block of the size asked for.
use multithread.Base.{
  ℕ, ◌+◌, ◌≤◌, ◌≡◌, refl, ◌∙◌, inl, inr, true, List, ◌∷◌, ◌==◌, arith, Bool-cases, subst, ap, ==→eq,
  if-true, if-false,
}
use multithread.Base.Size.{IsSize, sub_size, sub_size-eq-sub}
use multithread.Allocator.Blocks.{
  MemoryBlock, Memory, Iterator, Outcome, ok, deref, assign, retreat, insert,
}
use multithread.Allocator.Ops.{split_to, short_size_block, block_at}
use multithread.Allocator.Layout.{Tiles, free_size, total_size, count, one_if}
use multithread.Allocator.Content.{content}

-- What `split_to` leaves at the free block `y`, with `bs` before it and `r` behind.
pub record Split (fresh n : ℕ) (bs : List MemoryBlock) (y : MemoryBlock) (r : List MemoryBlock)
    (res : Outcome Iterator) : Type 0 where
  pub t : MemoryBlock
  pub rest : List MemoryBlock
  pub runs : res ≡ ok (record { before = bs; from = t ∷ rest })
  pub t_free : t.is_free ≡ true
  pub t_size : t.size ≡ n
  pub tiling : (p q : ℕ) → Tiles p (y ∷ r) q → Tiles p (t ∷ rest) q
  pub frees : free_size (t ∷ rest) ≡ free_size (y ∷ r)
  pub totals : total_size (t ∷ rest) ≡ total_size (y ∷ r)
  pub counts : (k : ℕ) → count k (t ∷ rest) ≤ count k (y ∷ r) + one_if (fresh == k)
  pub contents : (m : Memory) (k : ℕ) → content m (t ∷ rest) k ≡ content m (y ∷ r) k

module _ (fresh n : ℕ) (bs : List MemoryBlock) (y : MemoryBlock) (r : List MemoryBlock)
    (y_free : y.is_free ≡ true) (fits : n ≤ y.size) (small : IsSize y.size) where
  abbrev front : MemoryBlock
  front = block_at fresh y.ptr_memory n y.is_free

  abbrev back : MemoryBlock
  back = record y { size = sub_size y.size n; ptr_memory = y.ptr_memory + n; is_free = true }

  back_size : sub_size y.size n + n ≡ y.size
  back_size = omega (arith, sub_size-eq-sub y.size n small fits)

  short_size_block_lem :
      short_size_block (record { before = bs; from = y ∷ r }) n fresh
      ≡ ok (record { before = bs; from = front ∷ back ∷ r })
  unfolding short_size_block deref assign retreat insert
  short_size_block_lem = refl

  pub split_to_lem : Split fresh n bs y r (split_to (record { before = bs; from = y ∷ r }) n fresh)
  unfolding split_to deref
  split_to_lem = elim (Bool-cases (y.size == n)) [
    | inl e ↦ record {
      t = y;
      rest = r;
      runs = if-true (y.size == n) _ _ e;
      t_free = y_free;
      t_size = ==→eq y.size n e;
      tiling = λ p q t. t;
      frees = refl;
      totals = refl;
      counts = λ k. omega arith;
      contents = λ m k. refl;
    }
    | inr e ↦ record {
      t = front;
      rest = back ∷ r;
      runs = if-false (y.size == n) _ _ e ∙ short_size_block_lem;
      t_free = y_free;
      t_size = refl;
      tiling = λ p q t.
          (t.0, (ap (λ x. x + n) t.0, subst (λ s. Tiles s r q) (omega (arith, back_size)) t.1));
      frees = ground (arith, y_free, back_size);
      totals = omega (arith, back_size);
      counts = λ k. omega arith;
      contents = λ m k. ground (arith, y_free);
    }
  ]
