-- ===== src/Messages/Bytes.antt =====
-- Bytes, buffers and C strings as the message classes of p2 use them.
use multithread.Base.{
  ℕ, zero, suc, ◌+◌, ◌*◌, ◌/◌, ◌%◌, ◌^◌, ◌<◌, ◌≡◌, refl, ap, Option, none, some, List, [], ◌∷◌,
  ◌++◌, length, take, drop, ltb, ◌==◌, if◌then◌else◌, arith,
}

-- A `uint32_t` as four bytes, least significant first, and back.
abbrev pub store32 : ℕ → List ℕ
store32 n = n % 256 ∷ n / 256 % 256 ∷ n / 65536 % 256 ∷ n / 16777216 % 256 ∷ []

abbrev pub load32 : List ℕ → ℕ
load32 (a ∷ b ∷ c ∷ d ∷ rest) = a + 256 * b + 65536 * c + 16777216 * d
load32 bs = 0

-- A message on the wire: its length in four bytes, then its bytes.
unfoldable pub encode : List ℕ → List ℕ
encode m = store32 (length m) ++ m

unfoldable pub encode_all : List (List ℕ) → List ℕ
encode_all [] = []
encode_all (m ∷ ms) = encode m ++ encode_all ms

-- `memcpy(buffer + offset, bytes, len)`; `none` is a write past the end of the array.
unfoldable pub write : List ℕ → ℕ → List ℕ → Option (List ℕ)
write buffer offset bytes =
    if ltb (length buffer) (offset + length bytes)
    then none
    else some (take offset buffer ++ bytes ++ drop (offset + length bytes) buffer)

-- The C string at the start of a buffer.
unfoldable pub c_string : List ℕ → List ℕ
c_string [] = []
c_string (b ∷ bs) = if b == 0 then [] else b ∷ c_string bs

-- No byte is NUL.
abbrev pub IsText : List ℕ → Type 0
IsText [] = Unit
IsText (b ∷ bs) = (0 < b) × IsText bs

pub load32-store32 : (n : ℕ) (rest : List ℕ) → n < 2 ^ 32 → load32 (store32 n ++ rest) ≡ n
load32-store32 n rest h = omega arith

pub c_string_text : (xs rest : List ℕ) → IsText xs → c_string (xs ++ 0 ∷ rest) ≡ xs
unfolding c_string
c_string_text [] rest t = refl
c_string_text (x ∷ xs) rest t = ground (arith, c_string_text xs rest t.1)

module _ {ℓ} {A : Type ℓ} where
  pub take-append : (xs ys : List A) (n : ℕ) → length xs ≡ n → take n (xs ++ ys) ≡ xs
  take-append [] ys zero e = refl
  take-append [] ys (suc n) e = absurd (omega arith)
  take-append (x ∷ xs) ys zero e = absurd (omega arith)
  take-append (x ∷ xs) ys (suc n) e = ap (◌∷◌ x) (take-append xs ys n (omega arith))

  pub drop-append : (xs ys : List A) (n : ℕ) → length xs ≡ n → drop n (xs ++ ys) ≡ ys
  drop-append [] ys zero e = refl
  drop-append [] ys (suc n) e = absurd (omega arith)
  drop-append (x ∷ xs) ys zero e = absurd (omega arith)
  drop-append (x ∷ xs) ys (suc n) e = drop-append xs ys n (omega arith)
