-- ===== src/Allocator/Pack.antt =====
-- The copying loop of `defrag` and `defragWithLast`.
use multithread.Base.{
  ℕ, ◌+◌, ◌≤◌, ◌<◌, ◌≡◌, refl, ◌∙◌, ap, Bool, true, false, not, ◌&&◌, ◌⊎◌, inl, inr, some, List, [],
  ◌∷◌, if◌then◌else◌, arith, Bool-cases,
}
use multithread.Allocator.Blocks.{MemoryBlock, Memory, ok, memcpy, copy_bytes}
use multithread.Allocator.Ops.{pack}
use multithread.Allocator.Layout.{Tiles, Tiles-size, free_size, total_size, count}
use multithread.Allocator.Content.{content, holds, Agrees, bytes-congr, content-Agrees}

-- Ranges of `n` bytes at `d` and from `p` to `q` that do not meet.
abbrev pub Apart : ℕ → ℕ → ℕ → ℕ → Type 0
Apart d n p q = (d + n ≤ p) ⊎ (q ≤ d)

pub memcpy-Apart :
    (d s n : ℕ) (m : Memory) → Apart d n s (s + n) → memcpy d s n m ≡ ok (copy_bytes d s n m)
unfolding memcpy
memcpy-Apart d s n m h = ground arith

pub copy_bytes_outside :
    (d s n : ℕ) (m : Memory) (a : ℕ) → (a < d) ⊎ (d + n ≤ a) → copy_bytes d s n m a ≡ m a
copy_bytes_outside d s n m a h = ground arith

pub copy_bytes_inside :
    (d s n : ℕ) (m : Memory) (k : ℕ) → k < n → copy_bytes d s n m (d + k) ≡ m (s + k)
copy_bytes_inside d s n m k h = ground arith

outside_copy :
    (cur n k p q a : ℕ)
    → Apart cur (n + k) p q
    → p + n + k ≡ q
    → p + n ≤ a
    → a < p + n + k
    → (a < cur) ⊎ (cur + n ≤ a)
outside_copy cur n k p q a (inl h) e lo hi = inr (omega arith)
outside_copy cur n k p q a (inr h) e lo hi = inl (omega arith)

-- The blocks that the loop copies.
abbrev pub copied : (MemoryBlock → Bool) → MemoryBlock → Bool
copied skip b = not (skip b) && not b.is_free

abbrev pub kept : (MemoryBlock → Bool) → List MemoryBlock → List MemoryBlock
kept skip [] = []
kept skip (b ∷ r) = if copied skip b then b ∷ kept skip r else kept skip r

-- Blocks one behind another, from an address on.
abbrev pub lay : ℕ → List MemoryBlock → List MemoryBlock
lay cur [] = []
lay cur (b ∷ r) = record b { ptr_memory = cur } ∷ lay (cur + b.size) r

total_size-kept :
    (skip : MemoryBlock → Bool) (l : List MemoryBlock)
    → total_size (kept skip l) + free_size l ≤ total_size l
total_size-kept skip [] = omega arith
total_size-kept skip (b ∷ r) = ground (arith, total_size-kept skip r)

copied→used :
    (skip : MemoryBlock → Bool) (b : MemoryBlock) → copied skip b ≡ true → b.is_free ≡ false
copied→used skip b h = ground arith

-- A memory that agrees from `p` to `q` agrees on the blocks that tile it.
Agrees-kept :
    (m m' : Memory) (skip : MemoryBlock → Bool) (l : List MemoryBlock) (p q : ℕ)
    → Tiles p l q
    → ((a : ℕ) → p ≤ a → a < p + total_size l → m a ≡ m' a)
    → Agrees m m' (kept skip l)
Agrees-kept m m' skip [] p q t h = tt
Agrees-kept m m' skip (b ∷ r) p q (e, t) h =
    let rest =
      Agrees-kept m m' skip r (p + b.size) q t (λ a lo hi. h a (omega arith) (omega arith)) in
    elim (Bool-cases (copied skip b)) [
      | inl c ↦ rw c ((λ used k lt. h (b.ptr_memory + k) (omega arith) (omega arith)), rest)
      | inr c ↦ rw c rest
    ]

-- What the loop leaves, started at `cur` with memory `m`.
pub record Packed (skip : MemoryBlock → Bool) (cur : ℕ) (l : List MemoryBlock) (m : Memory)
    : Type 0 where
  pub memory' : Memory
  pub end : ℕ
  pub moved : List MemoryBlock
  pub runs : pack skip cur l m ≡ ok (memory', end, moved)
  pub ends : end ≡ cur + total_size (kept skip l)
  pub tiles : Tiles cur moved end
  pub laid : moved ≡ lay cur (kept skip l)
  pub outside : (a : ℕ) → (a < cur) ⊎ (end ≤ a) → memory' a ≡ m a
  pub none_free : free_size moved ≡ 0
  pub contents : (j : ℕ) → content memory' moved j ≡ content m (kept skip l) j
  pub counts : (j : ℕ) → count j moved ≡ count j (kept skip l)

module _ (skip : MemoryBlock → Bool) (cur : ℕ) (b : MemoryBlock) (r : List MemoryBlock)
    (m : Memory) where
  Packed-skip : copied skip b ≡ false → Packed skip cur r m → Packed skip cur (b ∷ r) m
  unfolding pack
  Packed-skip c v = record {
    memory' = v.memory';
    end = v.end;
    moved = v.moved;
    runs = rw (c, pack) v.runs;
    ends = rw c v.ends;
    tiles = v.tiles;
    laid = rw c v.laid;
    outside = v.outside;
    none_free = v.none_free;
    contents = λ j. rw c (v.contents j);
    counts = λ j. rw c (v.counts j);
  }

  -- A moved block keeps its bytes, and the copy does not touch the blocks that follow.
  content_moved :
      (v : Packed skip (cur + b.size) r (copy_bytes cur b.ptr_memory b.size m)) (j p q : ℕ)
      → Tiles p (b ∷ r) q
      → Apart cur (total_size (b ∷ r)) p q
      → content v.memory' (record b { ptr_memory = cur } ∷ v.moved) j
        ≡ content m (b ∷ kept skip r) j
  content_moved v j p q (e, t) apart = elim (Bool-cases (holds j b)) [
    | inl h ↦ rw h (
        ap some (
          bytes-congr v.memory' m b.size cur b.ptr_memory λ k lt.
            v.outside (cur + k) (inl (omega arith))
            ∙ copy_bytes_inside cur b.ptr_memory b.size m k lt))
    | inr h ↦ rw h (
        v.contents j
        ∙ content-Agrees (copy_bytes cur b.ptr_memory b.size m) m j (kept skip r) (
            Agrees-kept _ m skip r (p + b.size) q t λ a lo hi.
              copy_bytes_outside cur b.ptr_memory b.size m a
                (outside_copy cur b.size (total_size r) p q a apart (Tiles-size r _ q t) lo hi)))
  ]

  -- A copied block: its bytes are read before the copies of the later ones are written.
  Packed-copy :
      (p q : ℕ)
      → copied skip b ≡ true
      → Tiles p (b ∷ r) q
      → Apart cur (total_size (b ∷ r)) p q
      → Packed skip (cur + b.size) r (copy_bytes cur b.ptr_memory b.size m)
      → Packed skip cur (b ∷ r) m
  unfolding pack
  Packed-copy p q c (e, t) apart v = record {
    memory' = v.memory';
    end = v.end;
    moved = record b { ptr_memory = cur } ∷ v.moved;
    runs =
        rw
          (
            c,
            pack,
            memcpy-Apart cur b.ptr_memory b.size m (ground (arith, Tiles-size r _ q t)),
            v.runs,
          )
          refl;
    ends = rw c (omega (arith, v.ends));
    tiles = (refl, v.tiles);
    laid = rw c (ap (◌∷◌ (record b { ptr_memory = cur })) v.laid);
    outside = λ a h.
        v.outside a (ground (arith, v.ends))
        ∙ copy_bytes_outside cur _ _ m a (ground (arith, v.ends));
    none_free = ground (arith, v.none_free, copied→used skip b c);
    contents = λ j. rw c (content_moved v j p q (e, t) apart);
    counts = λ j. rw c (omega (arith, v.counts j));
  }

pub pack_lem :
    (skip : MemoryBlock → Bool) (cur : ℕ) (l : List MemoryBlock) (m : Memory) (p q : ℕ)
    → Tiles p l q
    → Apart cur (total_size l) p q
    → Packed skip cur l m
unfolding pack
pack_lem skip cur [] m p q t apart = record {
  memory' = m;
  end = cur;
  moved = [];
  runs = refl;
  ends = omega arith;
  tiles = refl;
  laid = refl;
  outside = λ a h. refl;
  none_free = refl;
  contents = λ j. refl;
  counts = λ j. refl;
}
pack_lem skip cur (b ∷ r) m p q (e, t) apart = elim (Bool-cases (copied skip b)) [
  | inl c ↦
      Packed-copy skip cur b r m p q c (e, t) apart
        (pack_lem skip (cur + b.size) r _ (p + b.size) q t (ground arith))
  | inr c ↦ Packed-skip skip cur b r m c (pack_lem skip cur r m (p + b.size) q t (ground arith))
]
