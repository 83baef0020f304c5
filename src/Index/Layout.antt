-- ===== src/Index/Layout.antt =====
-- The file that `mergeIndex` (p4/main.cpp) writes: the words with their offsets, 16 zero bytes, and
-- then the documents of each word.
use multithread.Base.{
  ℕ, suc, ◌+◌, ◌*◌, ◌^◌, ◌≤◌, ◌<◌, ◌≡◌, refl, ◌∙◌, sym, ap, subst, Bool, true, false, inl, inr,
  ◌||◌, some, List, [], ◌∷◌, ◌++◌, length, map, ◌==◌, ltb, arith, length-append, Bool-cases, ==→eq,
  ne→==, ==-refl,
}
use multithread.Messages.Bytes.{store32}
use multithread.Index.Files.{write64, write_all, save_index_file, length-write64}
use multithread.Index.Create.{Dict}
use multithread.Index.Postings.{mem}
use multithread.Index.Merge.{Cursor, save_wordids, save_offsets, open_files, last_word, total_bytes}
use multithread.Index.Cursors.{ShowAll}
use multithread.Index.Gathering.{open_file-Shows}
use multithread.Index.Least.{Fine, AllFine, Fine-AreEntries, keys, entries}
use multithread.Index.Merging.{block, blocks, offsets_of}

-- The words with their offsets.
abbrev pub header : List (ℕ × ℕ) → List ℕ
header [] = write64 0 ++ write64 0
header ((w, offset) ∷ offsets) = write64 w ++ (write64 offset ++ header offsets)

abbrev pub body_offset : Dict → ℕ
body_offset dict = 16 * length dict + 16

abbrev pub print_index : Dict → List ℕ
print_index dict = header (offsets_of (body_offset dict) dict) ++ blocks dict

pub save_offsets-header :
    (at : ℕ) (dict : Dict) (body : List ℕ)
    → save_offsets (offsets_of at dict) (save_wordids (keys dict) ++ body)
      ≡ header (offsets_of at dict) ++ body
unfolding save_offsets save_wordids write64
save_offsets-header at [] body = refl
save_offsets-header at ((w, docids) ∷ dict) body =
    ap (λ l. write64 w ++ (write64 at ++ l))
      (save_offsets-header (at + length (block docids)) dict body)

pub length-save_wordids : (words : List ℕ) → length (save_wordids words) ≡ 16 * length words + 16
unfolding save_wordids
length-save_wordids [] = omega (arith, length-append (write64 0) (write64 0), length-write64 0)
length-save_wordids (w ∷ words) = omega (
  arith,
  length-append (write64 w) (write64 0 ++ save_wordids words),
  length-append (write64 0) (save_wordids words),
  length-write64 w,
  length-write64 0,
  length-save_wordids words,
)

pub length-keys : (dict : Dict) → length (keys dict) ≡ length dict
length-keys [] = refl
length-keys (e ∷ dict) = ap suc (length-keys dict)

length-save_index_file : (dict : Dict) → length dict ≤ length (save_index_file dict)
unfolding save_index_file
length-save_index_file [] = omega arith
length-save_index_file ((w, docids) ∷ dict) = omega (
  arith,
  length-append (write64 w) (store32 (length docids) ++ (write_all docids ++ save_index_file dict)),
  length-write64 w,
  length-append (store32 (length docids)) (write_all docids ++ save_index_file dict),
  length-append (write_all docids) (save_index_file dict),
  length-save_index_file dict,
)

pub entries-total_bytes :
    (dicts : List Dict) → entries dicts ≤ total_bytes (map save_index_file dicts)
entries-total_bytes [] = omega arith
entries-total_bytes (dict ∷ dicts) =
    omega (arith, length-save_index_file dict, entries-total_bytes dicts)

-- Every map has a word.
abbrev pub AllFull : List Dict → Type 0
AllFull [] = Unit
AllFull (dict ∷ dicts) = (0 < length dict) × AllFull dicts

pub open_files-ShowAll :
    (max_wordid b : ℕ) (dicts : List Dict)
    → max_wordid < 2 ^ 64
    → AllFine max_wordid b dicts
    → AllFull dicts
    → (cursors : List Cursor) × (open_files (map save_index_file dicts) ≡ some cursors)
      × ShowAll max_wordid cursors dicts
unfolding open_files
open_files-ShowAll max_wordid b [] small h full = ([], refl, tt)
open_files-ShowAll max_wordid b ([] ∷ dicts) small h (more, full) = absurd (omega arith)
open_files-ShowAll max_wordid b (((w, docids) ∷ dict) ∷ dicts) small (f, h) (more, full) =
    let (c, opened, s) =
      open_file-Shows max_wordid w docids dict
        (Fine-AreEntries max_wordid b ((w, docids) ∷ dict) small f) in
    let (cursors, all_opened, shows) = open_files-ShowAll max_wordid b dicts small h full in
    (c ∷ cursors, rw (opened, all_opened) refl, (s, shows))

-- Words in ascending order, from `b` on.
abbrev pub Rises : ℕ → List ℕ → Type 0
Rises b [] = Unit
Rises b (w ∷ words) = (b ≤ w) × Rises (suc w) words

Rises-absent : (w b : ℕ) (words : List ℕ) → w < b → Rises b words → mem w words ≡ false
Rises-absent w b [] lt h = refl
Rises-absent w b (v ∷ words) lt (le, h) =
    rw (ne→== v w (λ e. omega (arith, e, le, lt)), Rises-absent w (suc v) words (omega arith) h)
      refl

pub Fine-Rises : (max_wordid b : ℕ) (dict : Dict) → Fine max_wordid b dict → Rises b (keys dict)
Fine-Rises max_wordid b [] h = tt
Fine-Rises max_wordid b ((w, docids) ∷ dict) (le, below, few, words, h) =
    (le, Fine-Rises max_wordid (suc w) dict h)

mem-head : (w : ℕ) (words : List ℕ) → mem w (w ∷ words) ≡ true
mem-head w words = rw (==-refl w) refl

false-ne-true : {b : Bool} → b ≡ false → b ≡ true → ⊥
false-ne-true e i = cc

-- The first of a list is not below that of another one with its elements.
first-le : (x y : ℕ) (xs ys : List ℕ) → Rises (suc y) ys → mem x (x ∷ xs) ≡ mem x (y ∷ ys) → y ≤ x
first-le x y xs ys hy same = elim (Bool-cases (ltb x y)) [
  | inl e ↦ absurd (
      false-ne-true (Rises-absent x y (y ∷ ys) (ground (arith, e)) (omega arith, hy))
        (sym same ∙ mem-head x xs))
  | inr e ↦ ground (arith, e)
]

same_rest :
    (x w : ℕ) (xs ys : List ℕ)
    → Rises (suc x) xs
    → Rises (suc x) ys
    → mem w (x ∷ xs) ≡ mem w (x ∷ ys)
    → mem w xs ≡ mem w ys
same_rest x w xs ys hx hy same = elim (Bool-cases (x == w)) [
  | inl e ↦
      Rises-absent w (suc x) xs (omega (arith, ==→eq x w e)) hx
      ∙ sym (Rises-absent w (suc x) ys (omega (arith, ==→eq x w e)) hy)
  | inr e ↦ sym (ap (λ k. k || mem w xs) e) ∙ same ∙ ap (λ k. k || mem w ys) e
]

-- A list in ascending order is known from its elements.
pub Rises-unique :
    (a b : ℕ) (xs ys : List ℕ) → Rises a xs → Rises b ys → ((w : ℕ) → mem w xs ≡ mem w ys) → xs ≡ ys
Rises-unique a b [] [] hx hy same = refl
Rises-unique a b [] (y ∷ ys) hx hy same = absurd (false-ne-true (sym (same y)) (mem-head y ys))
Rises-unique a b (x ∷ xs) [] hx hy same = absurd (false-ne-true (same x) (mem-head x xs))
Rises-unique a b (x ∷ xs) (y ∷ ys) (lx, hx) (ly, hy) same =
    let e : x ≡ y =
      omega (arith, first-le x y xs ys hy (same x), first-le y x ys xs hx (sym (same y))) in
    let hx' : Rises (suc y) xs = subst (λ k. Rises (suc k) xs) e hx in
    let same' = λ (w : ℕ). ap (λ k. mem w (k ∷ xs)) (sym e) ∙ same w in
    ap (λ k. k ∷ xs) e
    ∙ ap (◌∷◌ y)
        (Rises-unique (suc y) (suc y) xs ys hx' hy (λ w. same_rest y w xs ys hx' hy (same' w)))

-- The last word is the greatest.
pub last_word-greatest :
    (b : ℕ) (words : List ℕ)
    → Rises b words
    → 0 < length words
    → (last : ℕ) × (last_word words ≡ some last)
      × (b ≤ last)
      × ((w : ℕ) → mem w words ≡ true → w ≤ last)
      × (mem last words ≡ true)
unfolding last_word
last_word-greatest b [] h more = absurd (omega arith)
last_word-greatest b (v ∷ []) (le, h) more = (v, refl, le, λ w e. only w e, mem-head v [])
  where
    only : (w : ℕ) → mem w (v ∷ []) ≡ true → w ≤ v
    only w e = ground (arith, e)
last_word-greatest b (v ∷ u ∷ words) (le, h) more =
    let (last, runs, above, greatest, there) =
      last_word-greatest (suc v) (u ∷ words) h (omega arith) in
    (
      last,
      runs,
      omega (arith, above, le),
      λ w e. elim (Bool-cases (v == w)) [
        | inl i ↦ omega (arith, ==→eq v w i, above)
        | inr i ↦ greatest w (sym (ap (λ k. k || mem w (u ∷ words)) i) ∙ e)
      ],
      ap (λ k. (v == last) || k) there ∙ or_right (v == last),
    )
  where
    or_right : (a : Bool) → (a || true) ≡ true
    or_right true = refl
    or_right false = refl
