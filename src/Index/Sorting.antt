-- ===== src/Index/Sorting.antt =====
-- `sort` as `mergeIndex` (p4/main.cpp) uses it, and the map of offsets, which grows at its end.
use multithread.Base.{
  ℕ, suc, ◌*◌, ◌^◌, ◌≤◌, ◌<◌, ◌≡◌, refl, ◌∙◌, ap, Bool, true, false, inl, inr, ◌||◌, none, List, [],
  ◌∷◌, ◌++◌, length, ◌==◌, leb, arith, Bool-cases, length-append,
}
use multithread.Messages.Dictionary.{lookup, emplace, assign}
use multithread.Index.Files.{AreWords, write64, write_all, length-write64}
use multithread.Index.Postings.{mem}
use multithread.Index.Merge.{place, sort}

abbrev pub SortedFrom : ℕ → List ℕ → Type 0
SortedFrom b [] = Unit
SortedFrom b (x ∷ xs) = (b ≤ x) × SortedFrom x xs

or_swap : (a b c : Bool) → (a || (b || c)) ≡ (b || (a || c))
or_swap true true c = refl
or_swap true false c = refl
or_swap false b c = refl

mem-place : (x d : ℕ) (xs : List ℕ) → mem x (place d xs) ≡ ((d == x) || mem x xs)
unfolding place
mem-place x d [] = refl
mem-place x d (y ∷ ys) = elim (Bool-cases (leb d y)) [
  | inl e ↦ rw (place, e) refl
  | inr e ↦
      rw (place, e)
        (ap (λ k. (y == x) || k) (mem-place x d ys) ∙ or_swap (y == x) (d == x) (mem x ys))
]

pub mem-sort : (x : ℕ) (xs : List ℕ) → mem x (sort xs) ≡ mem x xs
unfolding sort
mem-sort x [] = refl
mem-sort x (y ∷ ys) = mem-place x y (sort ys) ∙ ap (λ k. (y == x) || k) (mem-sort x ys)

length-place : (d : ℕ) (xs : List ℕ) → length (place d xs) ≡ suc (length xs)
unfolding place
length-place d [] = refl
length-place d (y ∷ ys) = ground (arith, length-place d ys)

pub length-sort : (xs : List ℕ) → length (sort xs) ≡ length xs
unfolding sort
length-sort [] = refl
length-sort (y ∷ ys) = length-place y (sort ys) ∙ ap suc (length-sort ys)

AreWords-place : (d : ℕ) (xs : List ℕ) → d < 2 ^ 64 → AreWords xs → AreWords (place d xs)
unfolding place
AreWords-place d [] small h = (small, tt)
AreWords-place d (y ∷ ys) small (first, h) = elim (Bool-cases (leb d y)) [
  | inl e ↦ rw (place, e) (small, (first, h))
  | inr e ↦ rw (place, e) (first, AreWords-place d ys small h)
]

pub sort-AreWords : (xs : List ℕ) → AreWords xs → AreWords (sort xs)
unfolding sort
sort-AreWords [] h = tt
sort-AreWords (y ∷ ys) (small, h) = AreWords-place y (sort ys) small (sort-AreWords ys h)

place-SortedFrom : (b d : ℕ) (xs : List ℕ) → b ≤ d → SortedFrom b xs → SortedFrom b (place d xs)
unfolding place
place-SortedFrom b d [] le h = (le, tt)
place-SortedFrom b d (y ∷ ys) le (first, h) = elim (Bool-cases (leb d y)) [
  | inl e ↦ rw (place, e) (le, (ground (arith, e), h))
  | inr e ↦ rw (place, e) (first, place-SortedFrom y d ys (ground (arith, e)) h)
]

pub sort-SortedFrom : (xs : List ℕ) → SortedFrom 0 (sort xs)
unfolding sort
sort-SortedFrom [] = tt
sort-SortedFrom (y ∷ ys) = place-SortedFrom 0 y (sort ys) (omega arith) (sort-SortedFrom ys)

pub length-write_all : (ns : List ℕ) → length (write_all ns) ≡ 8 * length ns
unfolding write_all
length-write_all [] = refl
length-write_all (n ∷ ns) =
    omega (arith, length-append (write64 n) (write_all ns), length-write64 n, length-write_all ns)

-- All keys are below `m`.
abbrev pub KeysBelow : ℕ → List (ℕ × ℕ) → Type 0
KeysBelow m [] = Unit
KeysBelow m ((k, v) ∷ offsets) = (k < m) × KeysBelow m offsets

pub KeysBelow-from :
    (a b : ℕ) (offsets : List (ℕ × ℕ)) → a ≤ b → KeysBelow a offsets → KeysBelow b offsets
KeysBelow-from a b [] le h = tt
KeysBelow-from a b ((k, v) ∷ offsets) le (lt, h) = (omega arith, KeysBelow-from a b offsets le h)

pub KeysBelow-append :
    (m k v : ℕ) (offsets : List (ℕ × ℕ))
    → k < m
    → KeysBelow m offsets
    → KeysBelow m (offsets ++ (k, v) ∷ [])
KeysBelow-append m k v [] lt h = (lt, tt)
KeysBelow-append m k v ((j, u) ∷ offsets) lt (first, h) =
    (first, KeysBelow-append m k v offsets lt h)

absent_key : (m : ℕ) (offsets : List (ℕ × ℕ)) → KeysBelow m offsets → lookup m offsets ≡ none
unfolding lookup
absent_key m [] h = refl
absent_key m ((k, v) ∷ offsets) (lt, h) = ground (arith, lt, absent_key m offsets h)

emplace_last :
    (m v : ℕ) (offsets : List (ℕ × ℕ))
    → KeysBelow m offsets
    → emplace m v offsets ≡ offsets ++ (m, v) ∷ []
unfolding emplace
emplace_last m v [] h = refl
emplace_last m v ((k, u) ∷ offsets) (lt, h) = ground (arith, lt, emplace_last m v offsets h)

pub assign_last :
    (m v : ℕ) (offsets : List (ℕ × ℕ))
    → KeysBelow m offsets
    → assign m v offsets ≡ offsets ++ (m, v) ∷ []
unfolding assign
assign_last m v offsets h = rw (assign, absent_key m offsets h) (emplace_last m v offsets h)
