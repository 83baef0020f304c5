-- ===== src/Allocator/Fit.antt =====
-- `findblock` and `find`: where they stop.
use multithread.Base.{
  ℕ, ◌+◌, ◌≤◌, ◌≡◌, refl, ◌⊎◌, inl, inr, true, false, ◌&&◌, List, [], ◌∷◌, ◌++◌, leb, ◌==◌, rewind,
  arith, Bool-cases, some, ==→eq,
}
use multithread.Allocator.Blocks.{MemoryBlock, Memory, Iterator, Allocator}
use multithread.Allocator.Ops.{find_fit, find_from, find}
use multithread.Allocator.Layout.{count, IsValid}
use multithread.Allocator.Content.{content, bytes, content-absent}

-- `it` stands at block `b` of the list `l`, between `bs` and `r`.
pub record At (it : Iterator) (l : List MemoryBlock) : Type 0 where
  pub bs : List MemoryBlock
  pub b : MemoryBlock
  pub r : List MemoryBlock
  pub stands : it ≡ record { before = bs; from = b ∷ r }
  pub splits : l ≡ rewind bs (b ∷ r)

pub record FitsAt (N : ℕ) (it : Iterator) (l : List MemoryBlock) : Type 0 where
  pub place : At it l
  pub open place use *
  pub is_free : place.b.is_free ≡ true
  pub fits : N ≤ place.b.size

-- `findblock` stops at a free block of size `N` at least, or at `end()`.
pub find_fit_cases :
    (N : ℕ) (before l : List MemoryBlock)
    → ((find_fit N before l).from ≡ []) ⊎ FitsAt N (find_fit N before l) (rewind before l)
unfolding find_fit
find_fit_cases N before [] = inl refl
find_fit_cases N before (b ∷ r) = elim (Bool-cases (b.is_free && leb N b.size)) [
  | inl e ↦ inr (record {
    place = record { bs = before; b = b; r = r; stands = rw e; splits = refl };
    is_free = ground arith;
    fits = ground arith;
  })
  | inr e ↦ rw e (find_fit_cases N (b ∷ before) r)
]

-- It finds one where the last block is one.
pub find_fit_last :
    (N : ℕ) (before xs : List MemoryBlock) (f : MemoryBlock)
    → f.is_free ≡ true
    → N ≤ f.size
    → (find_fit N before (xs ++ f ∷ [])).from ≡ []
    → ⊥
unfolding find_fit
find_fit_last N before [] f free le e = ground arith
find_fit_last N before (x ∷ xs) f free le e = elim (Bool-cases (x.is_free && leb N x.size)) [
  | inl h ↦ cc (rw h at e)
  | inr h ↦ find_fit_last N (x ∷ before) xs f free le (rw h at e)
]

-- A handle with contents is found, at its block, which is in use and in no other place.
pub record UsedAt (m : Memory) (j : ℕ) (ys : List ℕ) (it : Iterator) (l : List MemoryBlock)
    : Type 0 where
  pub place : At it l
  pub named : place.b.block ≡ j
  pub in_use : place.b.is_free ≡ false
  pub here : bytes m place.b.ptr_memory place.b.size ≡ ys
  pub alone : count j place.bs + count j place.r ≡ 0

-- `find` stops at the first block object at address `j`.
pub find_from_used :
    (m : Memory) (j : ℕ) (ys : List ℕ) (before l : List MemoryBlock)
    → count j before + count j l ≤ 1
    → count j before ≡ 0
    → content m l j ≡ some ys
    → UsedAt m j ys (find_from j before l) (rewind before l)
unfolding find_from
find_from_used m j ys before [] le z h = cc
find_from_used m j ys before (b ∷ r) le z h = elim (Bool-cases (b.block == j)) [
  | inl e ↦ record {
    place = record { bs = before; b = b; r = r; stands = rw e; splits = refl };
    named = ==→eq b.block j e;
    in_use = ground (arith, content-absent m j r);
    here = ground (arith, content-absent m j r);
    alone = ground arith;
  }
  | inr e ↦ rw e (find_from_used m j ys (b ∷ before) r (ground arith) (ground arith) (ground arith))
]

pub find_used :
    (a : Allocator) (j : ℕ) (ys : List ℕ)
    → IsValid a
    → content a.memory a.list_blocks j ≡ some ys
    → UsedAt a.memory j ys (find j a.list_blocks) a.list_blocks
unfolding find
find_used a j ys v h =
    find_from_used a.memory j ys [] a.list_blocks (omega (arith, v.distinct j)) refl h
