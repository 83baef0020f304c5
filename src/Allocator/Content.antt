-- ===== src/Allocator/Content.antt =====
-- What a client sees through its pointers: the bytes of the block behind each handle.
use multithread.Base.{
  ℕ, zero, suc, ◌+◌, ◌<◌, ◌≡◌, refl, ap, Bool, true, false, not, ◌&&◌, inl, inr, Option, none, some,
  List, [], ◌∷◌, ◌++◌, ◌==◌, if◌then◌else◌, rewind, arith, length, Bool-cases, subst, ==→eq, ◌∙◌,
  subst, ==→eq, ◌∙◌,
}
use mathlib.Core.Path.{ap₂}
use multithread.Allocator.Blocks.{MemoryBlock, Memory}
use multithread.Allocator.Layout.{count}

-- The `n` bytes from address `p` on.
abbrev pub bytes : Memory → ℕ → ℕ → List ℕ
bytes m p zero = []
bytes m p (suc n) = m p ∷ bytes m (p + 1) n

-- Is this the block of handle `j`, in use?
abbrev pub holds : ℕ → MemoryBlock → Bool
holds j b = (b.block == j) && not b.is_free

-- The contents of the block in use whose object is at address `j`; `none` if there is none.
abbrev pub content : Memory → List MemoryBlock → ℕ → Option (List ℕ)
content m [] j = none
content m (b ∷ r) j = if holds j b then some (bytes m b.ptr_memory b.size) else content m r j

pub length-bytes : (m : Memory) (n p : ℕ) → length (bytes m p n) ≡ n
length-bytes m zero p = refl
length-bytes m (suc n) p = ap suc (length-bytes m n (p + 1))

bytes_first : (m m' : Memory) (p q : ℕ) → m (p + 0) ≡ m' (q + 0) → m p ≡ m' q
bytes_first m m' p q h = ground arith

bytes_shift :
    (m m' : Memory) (p q k : ℕ) → m (p + suc k) ≡ m' (q + suc k) → m (p + 1 + k) ≡ m' (q + 1 + k)
bytes_shift m m' p q k h = ground arith

-- Two ranges that agree byte by byte.
pub bytes-congr :
    (m m' : Memory) (n p q : ℕ)
    → ((k : ℕ) → k < n → m (p + k) ≡ m' (q + k))
    → bytes m p n ≡ bytes m' q n
bytes-congr m m' zero p q h = refl
bytes-congr m m' (suc n) p q h =
    ap₂ ◌∷◌ (bytes_first m m' p q (h 0 (omega arith))) (
      bytes-congr m m' n (p + 1) (q + 1) (λ k lt. bytes_shift m m' p q k (h (suc k) (omega arith))))

module _ (m : Memory) (j : ℕ) where
  -- What stands before an iterator changes nothing.
  pub content-rewind :
      (bs xs ys : List MemoryBlock)
      → content m xs j ≡ content m ys j
      → content m (rewind bs xs) j ≡ content m (rewind bs ys) j
  content-rewind [] xs ys e = e
  content-rewind (b ∷ bs) xs ys e = content-rewind bs (b ∷ xs) (b ∷ ys) (rw e)

  -- A handle that is not before the iterator is looked up from it on.
  pub content-rewind_absent :
      (bs xs : List MemoryBlock) → count j bs ≡ 0 → content m (rewind bs xs) j ≡ content m xs j
  content-rewind_absent [] xs h = refl
  content-rewind_absent (b ∷ bs) xs h = ground (arith, content-rewind_absent bs (b ∷ xs))

  pub content-append :
      (xs ys : List MemoryBlock) → content m ys j ≡ none → content m (xs ++ ys) j ≡ content m xs j
  content-append [] ys h = h
  content-append (x ∷ xs) ys h = rw (content-append xs ys h)

  pub content-append_absent :
      (xs ys : List MemoryBlock) → count j xs ≡ 0 → content m (xs ++ ys) j ≡ content m ys j
  content-append_absent [] ys h = refl
  content-append_absent (x ∷ xs) ys h = ground (arith, content-append_absent xs ys)

  pub content-absent : (xs : List MemoryBlock) → count j xs ≡ 0 → content m xs j ≡ none
  content-absent [] h = refl
  content-absent (x ∷ xs) h = ground (arith, content-absent xs)

-- The memories agree on the blocks in use.
abbrev pub Agrees : Memory → Memory → List MemoryBlock → Type 0
Agrees m m' [] = Unit
Agrees m m' (b ∷ r) =
    (b.is_free ≡ false → (k : ℕ) → k < b.size → m (b.ptr_memory + k) ≡ m' (b.ptr_memory + k))
    × Agrees m m' r

pub holds→used : (j : ℕ) (b : MemoryBlock) → holds j b ≡ true → b.is_free ≡ false
holds→used j b h = ground arith

-- The contents depend only on the bytes of the blocks in use.
pub content-Agrees :
    (m m' : Memory) (j : ℕ) (xs : List MemoryBlock)
    → Agrees m m' xs
    → content m xs j ≡ content m' xs j
content-Agrees m m' j [] h = refl
content-Agrees m m' j (x ∷ xs) h = elim (Bool-cases (holds j x)) [
  | inl e ↦
      rw e (ap some (bytes-congr m m' x.size x.ptr_memory x.ptr_memory (h.0 (holds→used j x e))))
  | inr e ↦ rw e (content-Agrees m m' j xs h.1)
]

-- A change from an iterator on that concerns handle `j` alone, which stands nowhere before it.
pub content-rewind_update :
    (m : Memory) (j k : ℕ) (o : Option (List ℕ)) (bs xs ys : List MemoryBlock)
    → count j bs ≡ 0
    → content m ys k ≡ (if j == k then o else content m xs k)
    → content m (rewind bs ys) k ≡ (if j == k then o else content m (rewind bs xs) k)
content-rewind_update m j k o bs xs ys z h = elim (Bool-cases (j == k)) [
  | inl e ↦
      rw e
        (content-rewind_absent m k bs ys (subst (λ i. count i bs ≡ 0) (==→eq j k e) z) ∙ h ∙ rw e)
  | inr e ↦ rw e (content-rewind m k bs ys xs (h ∙ rw e))
]
