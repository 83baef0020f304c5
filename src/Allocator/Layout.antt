-- ===== src/Allocator/Layout.antt =====
-- The block list as a tiling of a half: the addresses that it covers, its free size, and the
-- addresses of its block objects. Each is stated for a list cut at an iterator.
use multithread.Base.{
  ℕ, ◌+◌, ◌≤◌, ◌≡◌, Bool, true, false, List, [], ◌∷◌, ◌++◌, ◌==◌, if◌then◌else◌, rewind, arith,
  subst,
}
use multithread.Base.Size.{IsSize}
use multithread.Allocator.Blocks.{MemoryBlock, Allocator}

-- The blocks lie one behind the other from `p` up to `q`.
abbrev pub Tiles : ℕ → List MemoryBlock → ℕ → Type 0
Tiles p [] q = p ≡ q
Tiles p (b ∷ r) q = (b.ptr_memory ≡ p) × Tiles (p + b.size) r q

abbrev pub free_part : Bool → ℕ → ℕ
free_part true n = n
free_part false n = 0

-- The sum of the sizes of the free blocks.
abbrev pub free_size : List MemoryBlock → ℕ
free_size [] = 0
free_size (b ∷ r) = free_part b.is_free b.size + free_size r

-- The sum of all sizes.
abbrev pub total_size : List MemoryBlock → ℕ
total_size [] = 0
total_size (b ∷ r) = b.size + total_size r

abbrev pub one_if : Bool → ℕ
one_if true = 1
one_if false = 0

-- How many objects of the list are at address `j`.
abbrev pub count : ℕ → List MemoryBlock → ℕ
count j [] = 0
count j (b ∷ r) = one_if (b.block == j) + count j r

pub Tiles-rewind :
    (bs xs ys : List MemoryBlock) (q : ℕ)
    → ((p : ℕ) → Tiles p xs q → Tiles p ys q)
    → (p : ℕ) → Tiles p (rewind bs xs) q
    → Tiles p (rewind bs ys) q
Tiles-rewind [] xs ys q f p t = f p t
Tiles-rewind (b ∷ bs) xs ys q f p t =
    Tiles-rewind bs (b ∷ xs) (b ∷ ys) q (λ p' (e, u). (e, f (p' + b.size) u)) p t

pub Tiles-append :
    (xs ys : List MemoryBlock) (p m q : ℕ) → Tiles p xs m → Tiles m ys q → Tiles p (xs ++ ys) q
Tiles-append [] ys p m q e t = rw e t
Tiles-append (x ∷ xs) ys p m q (e, t) u = (e, Tiles-append xs ys (p + x.size) m q t u)

pub Tiles-size : (xs : List MemoryBlock) (p q : ℕ) → Tiles p xs q → p + total_size xs ≡ q
Tiles-size [] p q e = omega arith
Tiles-size (x ∷ xs) p q (e, t) = omega (arith, Tiles-size xs (p + x.size) q t)

pub free_size-rewind :
    (bs xs : List MemoryBlock) → free_size (rewind bs xs) ≡ free_size bs + free_size xs
free_size-rewind [] xs = omega arith
free_size-rewind (b ∷ bs) xs = omega (arith, free_size-rewind bs (b ∷ xs))

pub total_size-rewind :
    (bs xs : List MemoryBlock) → total_size (rewind bs xs) ≡ total_size bs + total_size xs
total_size-rewind [] xs = omega arith
total_size-rewind (b ∷ bs) xs = omega (arith, total_size-rewind bs (b ∷ xs))

pub count-rewind :
    (j : ℕ) (bs xs : List MemoryBlock) → count j (rewind bs xs) ≡ count j bs + count j xs
count-rewind j [] xs = omega arith
count-rewind j (b ∷ bs) xs = omega (arith, count-rewind j bs (b ∷ xs))

pub free_size-append :
    (xs ys : List MemoryBlock) → free_size (xs ++ ys) ≡ free_size xs + free_size ys
free_size-append [] ys = omega arith
free_size-append (x ∷ xs) ys = omega (arith, free_size-append xs ys)

pub count-append : (j : ℕ) (xs ys : List MemoryBlock) → count j (xs ++ ys) ≡ count j xs + count j ys
count-append j [] ys = omega arith
count-append j (x ∷ xs) ys = omega (arith, count-append j xs ys)

pub free_size-le-total_size : (xs : List MemoryBlock) → free_size xs ≤ total_size xs
free_size-le-total_size [] = omega arith
free_size-le-total_size (x ∷ xs) = ground (arith, free_size-le-total_size xs)

-- The half in use.
abbrev pub this_part : Allocator → ℕ
this_part a = if a.ping_pong then a.ptr_memory_part2 else a.ptr_memory_part1

-- The blocks tile the half in use, `size_free_memory` is the size of the free ones, and the
-- block objects are distinct, at addresses that `new` has passed.
pub record IsValid (a : Allocator) : Type 0 where
  pub halves : a.ptr_memory_part2 ≡ a.ptr_memory_part1 + a.size_memory_part
  pub bounded : IsSize a.size_memory_part
  pub tiles : Tiles (this_part a) a.list_blocks (this_part a + a.size_memory_part)
  pub counted : free_size a.list_blocks ≡ a.size_free_memory
  pub distinct : (j : ℕ) → count j a.list_blocks ≤ 1
  pub fresh : (j : ℕ) → a.next_block ≤ j → count j a.list_blocks ≡ 0

pub IsSize-free : (a : Allocator) → IsValid a → IsSize a.size_free_memory
IsSize-free a v = omega (
  arith,
  free_size-le-total_size a.list_blocks,
  Tiles-size a.list_blocks _ _ v.tiles,
  v.counted,
  v.bounded,
)

-- The blocks from an iterator on tile what the ones before it leave.
pub Tiles-from :
    (bs xs : List MemoryBlock) (p q : ℕ) → Tiles p (rewind bs xs) q → Tiles (p + total_size bs) xs q
Tiles-from [] xs p q t = subst (λ x. Tiles x xs q) (omega arith) t
Tiles-from (b ∷ bs) xs p q t =
    subst (λ x. Tiles x xs q) (omega arith) (Tiles-from bs (b ∷ xs) p q t).1
