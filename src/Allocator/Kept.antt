-- ===== src/Allocator/Kept.antt =====
-- The blocks that `defragWithLast` (p1/allocator.cpp) copies first: all used ones but one.
use multithread.Base.{
  ℕ, ◌+◌, ◌≤◌, ◌<◌, ◌≡◌, refl, Bool, false, List, [], ◌∷◌, ◌++◌, ◌==◌, rewind, arith,
}
use multithread.Allocator.Blocks.{MemoryBlock, Memory}
use multithread.Allocator.Ops.{find_from}
use multithread.Allocator.Layout.{Tiles, free_size, total_size, count}
use multithread.Allocator.Content.{content, Agrees}
use multithread.Allocator.Pack.{kept}

abbrev pub is_block : ℕ → MemoryBlock → Bool
is_block j b = b.block == j

module _ (j : ℕ) where
  pub count-kept_self : (l : List MemoryBlock) → count j (kept (is_block j) l) ≡ 0
  count-kept_self [] = refl
  count-kept_self (x ∷ xs) = ground (arith, count-kept_self xs)

  pub content-kept_ne :
      (m : Memory) (k : ℕ) (l : List MemoryBlock)
      → (j == k) ≡ false
      → content m (kept (is_block j) l) k ≡ content m l k
  content-kept_ne m k [] h = refl
  content-kept_ne m k (x ∷ xs) h = ground (arith, content-kept_ne m k xs h)

  pub total_size-kept_absent :
      (l : List MemoryBlock)
      → count j l ≡ 0
      → total_size (kept (is_block j) l) + free_size l ≡ total_size l
  total_size-kept_absent [] h = refl
  total_size-kept_absent (x ∷ xs) h = ground (arith, total_size-kept_absent xs)

  pub total_size-kept-rewind :
      (bs xs : List MemoryBlock)
      → total_size (kept (is_block j) (rewind bs xs))
        ≡ total_size (kept (is_block j) bs) + total_size (kept (is_block j) xs)
  total_size-kept-rewind [] xs = omega arith
  total_size-kept-rewind (b ∷ bs) xs = ground (arith, total_size-kept-rewind bs (b ∷ xs))

  -- `find` passes over blocks at other addresses.
  pub find_from_skip :
      (before xs : List MemoryBlock) (b : MemoryBlock) (r : List MemoryBlock)
      → b.block ≡ j
      → count j xs ≡ 0
      → find_from j before (xs ++ b ∷ r) ≡ record { before = rewind xs before; from = b ∷ r }
  unfolding find_from
  find_from_skip before [] b r e z = ground (arith, e)
  find_from_skip before (x ∷ xs) b r e z = ground (arith, find_from_skip (x ∷ before) xs b r e)

pub rewind-rewind : (xs bs ys : List MemoryBlock) → rewind (rewind xs bs) ys ≡ rewind bs (xs ++ ys)
rewind-rewind [] bs ys = refl
rewind-rewind (x ∷ xs) bs ys = rewind-rewind xs (x ∷ bs) ys

pub Agrees-Tiles :
    (m m' : Memory) (l : List MemoryBlock) (p q : ℕ)
    → Tiles p l q
    → ((a : ℕ) → p ≤ a → a < p + total_size l → m a ≡ m' a)
    → Agrees m m' l
Agrees-Tiles m m' [] p q t h = tt
Agrees-Tiles m m' (b ∷ r) p q (e, t) h = (
  (λ used k lt. h (b.ptr_memory + k) (omega arith) (omega arith)),
  Agrees-Tiles m m' r (p + b.size) q t (λ a lo hi. h a (omega arith) (omega arith)),
)
