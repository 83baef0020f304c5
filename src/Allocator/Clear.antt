-- ===== src/Allocator/Clear.antt =====
-- A free block and the blocks in use do not meet, so a copy into it leaves them as they are.
use multithread.Base.{ℕ, ◌+◌, ◌≤◌, ◌≡◌, sym, inl, inr, true, false, List, [], ◌∷◌, rewind, arith}
use multithread.Allocator.Blocks.{MemoryBlock, Memory, copy_bytes}
use multithread.Allocator.Layout.{Tiles}
use multithread.Allocator.Content.{Agrees}
use multithread.Allocator.Pack.{Apart, copy_bytes_outside}

-- The blocks in use are apart from the `n` bytes at `d`.
abbrev pub Clear : ℕ → ℕ → List MemoryBlock → Type 0
Clear d n [] = Unit
Clear d n (b ∷ r) =
    (b.is_free ≡ false → Apart d n b.ptr_memory (b.ptr_memory + b.size)) × Clear d n r

Clear-behind : (d n : ℕ) (l : List MemoryBlock) (p q : ℕ) → d + n ≤ p → Tiles p l q → Clear d n l
Clear-behind d n [] p q le t = tt
Clear-behind d n (b ∷ r) p q le (e, t) =
    (λ used. inl (omega arith), Clear-behind d n r (p + b.size) q (omega arith) t)

Clear-before :
    (d n : ℕ) (bs xs : List MemoryBlock) (q : ℕ)
    → ((p : ℕ) → Tiles p xs q → (p ≤ d) × Clear d n xs)
    → (p : ℕ) → Tiles p (rewind bs xs) q
    → (p ≤ d) × Clear d n (rewind bs xs)
Clear-before d n [] xs q f p t = f p t
Clear-before d n (b ∷ bs) xs q f p t =
    Clear-before d n bs (b ∷ xs) q
      (λ p' (e, u).
        let h = f (p' + b.size) u in (omega (arith, h.0), (λ used. inr (omega (arith, h.0)), h.1)))
      p t

-- At a free block of a tiling, all others are clear of it.
pub Clear-of_Tiles :
    (bs : List MemoryBlock) (t : MemoryBlock) (r : List MemoryBlock) (p q : ℕ)
    → t.is_free ≡ true
    → Tiles p (rewind bs (t ∷ r)) q
    → Clear t.ptr_memory t.size (rewind bs (t ∷ r))
Clear-of_Tiles bs t r p q free tiles =
    (Clear-before t.ptr_memory t.size bs (t ∷ r) q
      (λ p' (e, u). (
        omega arith,
        (λ used. cc, Clear-behind t.ptr_memory t.size r (p' + t.size) q (omega arith) u),
      ))
      p tiles).1

Clear-from : (d n : ℕ) (cs xs : List MemoryBlock) → Clear d n (rewind cs xs) → Clear d n xs
Clear-from d n [] xs c = c
Clear-from d n (x ∷ cs) xs c = (Clear-from d n cs (x ∷ xs) c).1

pub Clear-at :
    (d n : ℕ) (cs : List MemoryBlock) (b : MemoryBlock) (r : List MemoryBlock)
    → b.is_free ≡ false
    → Clear d n (rewind cs (b ∷ r))
    → Apart d n b.ptr_memory (b.ptr_memory + b.size)
Clear-at d n cs b r used c = (Clear-from d n cs (b ∷ r) c).0 used

-- A copy of at most `n` bytes to `d` leaves the blocks in use as they are.
pub Clear-Agrees :
    (d n s k : ℕ) (m : Memory) (l : List MemoryBlock)
    → k ≤ n
    → Clear d n l
    → Agrees m (copy_bytes d s k m) l
Clear-Agrees d n s k m [] le c = tt
Clear-Agrees d n s k m (b ∷ r) le c = (
  (λ used i lt. sym (copy_bytes_outside d s k m (b.ptr_memory + i) (ground (arith, c.0 used)))),
  Clear-Agrees d n s k m r le c.1,
)
