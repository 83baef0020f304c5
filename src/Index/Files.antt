-- ===== src/Index/Files.antt =====
-- The files of p4/main.cpp: `fread` and `fwrite` of numbers, `saveIndexFile`, and how `mergeIndex`
-- reads the entries of such a file. A file is the list of its bytes.
use multithread.Base.{
  ℕ, zero, suc, ◌+◌, ◌*◌, ◌/◌, ◌%◌, ◌^◌, ◌<◌, ◌≡◌, refl, ap, Option, none, some, List, [], ◌∷◌,
  ◌++◌, length, arith, append_assoc, leb, le→leb, if◌then◌else◌,
}
use multithread.Messages.Bytes.{store32, load32, load32-store32}
use multithread.Messages.Message.{◌>>=◌}

-- `fwrite` of a `uint64_t`, and `fread`; `none` is the end of the file.
unfoldable pub write64 : ℕ → List ℕ
write64 n = store32 (n % 2 ^ 32) ++ store32 (n / 2 ^ 32)

unfoldable pub read64 : List ℕ → Option (ℕ × List ℕ)
read64 (a ∷ b ∷ c ∷ d ∷ e ∷ f ∷ g ∷ h ∷ rest) =
    some (load32 (a ∷ b ∷ c ∷ d ∷ []) + 2 ^ 32 * load32 (e ∷ f ∷ g ∷ h ∷ []), rest)
read64 bytes = none

unfoldable pub read32 : List ℕ → Option (ℕ × List ℕ)
read32 (a ∷ b ∷ c ∷ d ∷ rest) = some (load32 (a ∷ b ∷ c ∷ d ∷ []), rest)
read32 bytes = none

-- `fread` and `fwrite` of an array of `uint64_t`. A read that ends too early leaves the rest of
-- the array as `realloc` gave it: `none`.
unfoldable pub write_all : List ℕ → List ℕ
write_all [] = []
write_all (n ∷ ns) = write64 n ++ write_all ns

unfoldable pub read_many : ℕ → List ℕ → Option (List ℕ × List ℕ)
read_many zero bytes = some ([], bytes)
read_many (suc n) bytes = do
  (x, more) ← read64 bytes
  (xs, rest) ← read_many n more
  some (x ∷ xs, rest)

-- `realloc(array, n * 8)` in 32 bits, and the `fread` of `n` numbers; `none` is a write past the end
-- of the array.
unfoldable pub read_array : ℕ → List ℕ → Option (List ℕ × List ℕ)
read_array n bytes = if leb (8 * n) (8 * n % 2 ^ 32) then read_many n bytes else none

-- `saveIndexFile` on the map, in the order of its keys.
unfoldable pub save_index_file : List (ℕ × List ℕ) → List ℕ
save_index_file [] = []
save_index_file ((wordid, docids) ∷ dict) =
    write64 wordid ++ (store32 (length docids) ++ (write_all docids ++ save_index_file dict))

-- An entry of an index file, as `mergeIndex` reads it; the number of the word is read already.
unfoldable pub read_docids : List ℕ → Option (List ℕ × List ℕ)
read_docids bytes = do (count, more) ← read32 bytes; read_array count more

abbrev pub AreWords : List ℕ → Type 0
AreWords [] = Unit
AreWords (n ∷ ns) = (n < 2 ^ 64) × AreWords ns

abbrev pub AreEntries : List (ℕ × List ℕ) → Type 0
AreEntries [] = Unit
AreEntries ((wordid, docids) ∷ dict) =
    (wordid < 2 ^ 64) × (length docids < 2 ^ 29) × AreWords docids × AreEntries dict

pub read64-write64 :
    (n : ℕ) (rest : List ℕ) → n < 2 ^ 64 → read64 (write64 n ++ rest) ≡ some (n, rest)
unfolding read64 write64
read64-write64 n rest small =
    ap (λ k. some (k, rest))
      (omega (
        arith,
        load32-store32 (n % 2 ^ 32) [] (omega arith),
        load32-store32 (n / 2 ^ 32) [] (omega arith),
      ))

pub read32-store32 :
    (n : ℕ) (rest : List ℕ) → n < 2 ^ 32 → read32 (store32 n ++ rest) ≡ some (n, rest)
unfolding read32
read32-store32 n rest small = ap (λ k. some (k, rest)) (load32-store32 n [] small)

read_many-write_all :
    (ns rest : List ℕ)
    → AreWords ns
    → read_many (length ns) (write_all ns ++ rest) ≡ some (ns, rest)
unfolding read_many write_all
read_many-write_all [] rest h = refl
read_many-write_all (n ∷ ns) rest (small, h) =
    rw
      (
        append_assoc (write64 n) (write_all ns) rest,
        read64-write64 n (write_all ns ++ rest) small,
        read_many-write_all ns rest h,
      )
      refl

pub read_array-write_all :
    (ns rest : List ℕ)
    → length ns < 2 ^ 29
    → AreWords ns
    → read_array (length ns) (write_all ns ++ rest) ≡ some (ns, rest)
unfolding read_array
read_array-write_all ns rest few h =
    rw (le→leb (8 * length ns) (8 * length ns % 2 ^ 32) (omega arith))
      (read_many-write_all ns rest h)

pub length-write64 : (n : ℕ) → length (write64 n) ≡ 8
unfolding write64
length-write64 n = refl

pub read64-nil : read64 [] ≡ none
unfolding read64
read64-nil = refl
