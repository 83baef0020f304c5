-- ===== src/Index/Reading.antt =====
-- `readIndex` of p4/main.cpp reads the file that `mergeIndex` writes.
use multithread.Base.{
  ℕ, zero, suc, ◌+◌, ◌-◌, ◌^◌, ◌<◌, ◌≡◌, refl, ◌∙◌, sym, ap, some, List, [], ◌∷◌, ◌++◌, length,
  take, drop, arith, append_assoc, append-nil, length-append, ne→==,
}
use multithread.Messages.Bytes.{store32, drop-append}
use multithread.Messages.Dictionary.{assign}
use multithread.Index.Files.{
  write64, write_all, read_docids, AreEntries, read64-write64, length-write64,
}
use multithread.Index.Create.{Dict}
use multithread.Index.Merge.{read_offsets, read_words, read_index}
use multithread.Index.Least.{Fine, Fine-AreEntries}
use multithread.Index.Sorting.{KeysBelow, KeysBelow-from, KeysBelow-append, assign_last}
use multithread.Index.Merging.{block, blocks, offsets_of}
use multithread.Index.Gathering.{read_docids-write_all}
use multithread.Index.Layout.{header, body_offset, print_index}

-- What `readIndex` prints of each word.
abbrev pub listing : ℕ → Dict → List (ℕ × ℕ × List ℕ)
listing at [] = []
listing at ((w, docids) ∷ dict) = (w, at, docids) ∷ listing (at + length (block docids)) dict

-- A pair that is not the last.
next_offset :
    (fuel w offset : ℕ) (rest : List ℕ) (offsets : List (ℕ × ℕ))
    → 0 < w
    → w < 2 ^ 64
    → offset < 2 ^ 64
    → read_offsets (suc fuel) (write64 w ++ (write64 offset ++ rest)) offsets
      ≡ read_offsets fuel rest (assign w offset offsets)
unfolding read_offsets
next_offset fuel w offset rest offsets positive small fits =
    rw
      (
        read_offsets,
        read64-write64 w (write64 offset ++ rest) small,
        read64-write64 offset rest fits,
        ne→== w 0 (λ e. omega (arith, e, positive)),
      )
      refl

last_offset :
    (fuel : ℕ) (body : List ℕ) (offsets : List (ℕ × ℕ))
    → read_offsets (suc fuel) (write64 0 ++ (write64 0 ++ body)) offsets ≡ some offsets
unfolding read_offsets
last_offset fuel body offsets =
    rw
      (
        read_offsets,
        read64-write64 0 (write64 0 ++ body) (omega arith),
        read64-write64 0 body (omega arith),
      )
      refl

read_offsets-header :
    (m b fuel at : ℕ) (dict : Dict) (body : List ℕ) (offsets : List (ℕ × ℕ))
    → m < 2 ^ 64
    → 0 < b
    → Fine m b dict
    → KeysBelow b offsets
    → length dict < fuel
    → at + length (blocks dict) < 2 ^ 64
    → read_offsets fuel (header (offsets_of at dict) ++ body) offsets
      ≡ some (offsets ++ offsets_of at dict)
read_offsets-header m b zero at dict body offsets small positive h below more fits =
    absurd (omega arith)
read_offsets-header m b (suc fuel) at [] body offsets small positive h below more fits =
    ap (λ l. read_offsets (suc fuel) l offsets) (append_assoc (write64 0) (write64 0) body)
    ∙ last_offset fuel body offsets
    ∙ ap some (sym (append-nil offsets))
read_offsets-header m b (suc fuel) at ((w, docids) ∷ dict) body offsets small positive
      (le, lt, few, words, h) below more fits =
    let later = at + length (block docids) in
    let rest = header (offsets_of later dict) in
    ap (λ l. read_offsets (suc fuel) l offsets)
      (append_assoc (write64 w) (write64 at ++ rest) body
        ∙ ap (◌++◌ (write64 w)) (append_assoc (write64 at) rest body))
    ∙ next_offset fuel w at (rest ++ body) offsets (omega (arith, le)) (omega (arith, lt))
        (omega (arith, fits, length-append (block docids) (blocks dict)))
    ∙ ap (read_offsets fuel (rest ++ body))
        (assign_last w at offsets (KeysBelow-from b w offsets le below))
    ∙ read_offsets-header m (suc w) fuel later dict body (offsets ++ (w, at) ∷ []) small
        (omega arith) h
        (KeysBelow-append (suc w) w at offsets (omega arith)
          (KeysBelow-from b (suc w) offsets (omega (arith, le)) below))
        (omega arith) (omega (arith, fits, length-append (block docids) (blocks dict)))
    ∙ ap some (append_assoc offsets ((w, at) ∷ []) (offsets_of later dict))

read_words-blocks :
    (n at : ℕ) (dict : Dict) (before : List ℕ)
    → AreEntries dict
    → length before ≡ at
    → read_words (before ++ blocks dict) (take n (offsets_of at dict))
      ≡ some (take n (listing at dict))
unfolding read_words
read_words-blocks zero at dict before h e = refl
read_words-blocks (suc n) at [] before h e = refl
read_words-blocks (suc n) at ((w, docids) ∷ dict) before h e =
    let here : read_docids (drop at (before ++ (block docids ++ blocks dict)))
        ≡ some (docids, blocks dict) =
      ap read_docids (
        drop-append before (block docids ++ blocks dict) at e
        ∙ append_assoc (store32 (length docids)) (write_all docids) (blocks dict))
      ∙ read_docids-write_all docids (blocks dict) dict w h in
    let rest = offsets_of (at + length (block docids)) dict in
    let later =
      ap (λ l. read_words l (take n rest)) (sym (append_assoc before (block docids) (blocks dict)))
      ∙ read_words-blocks n (at + length (block docids)) dict (before ++ block docids) h.3
          (omega (arith, length-append before (block docids), e)) in
    rw (here, later) refl

length-header : (at : ℕ) (dict : Dict) → length (header (offsets_of at dict)) ≡ body_offset dict
length-header at [] = omega (arith, length-append (write64 0) (write64 0), length-write64 0)
length-header at ((w, docids) ∷ dict) =
    let rest = header (offsets_of (at + length (block docids)) dict) in
    omega (
      arith,
      length-append (write64 w) (write64 at ++ rest),
      length-append (write64 at) rest,
      length-write64 w,
      length-write64 at,
      length-header (at + length (block docids)) dict,
    )

-- Take an index as `mergeIndex` writes it, with the words in ascending order, none of them 0, in a
-- file of fewer than 2^64 bytes. Then `readIndex` ends, and prints the first ten words, or all if
-- there are fewer, each with its offset and with its documents.
pub read_index-print_index :
    (dict : Dict)
    → Fine (2 ^ 64 - 1) 1 dict
    → length (print_index dict) < 2 ^ 64
    → read_index (print_index dict) ≡ some (take 10 (listing (body_offset dict) dict))
unfolding read_index
read_index-print_index dict h fits =
    let at = body_offset dict in
    let sizes = length-append (header (offsets_of at dict)) (blocks dict) in
    rw
      (read_offsets-header (2 ^ 64 - 1) 1 (length (print_index dict)) at dict (blocks dict) []
        (omega arith) (omega arith) h tt (omega (arith, sizes, length-header at dict))
        (omega (arith, sizes, length-header at dict, fits)))
      (read_words-blocks 10 at dict (header (offsets_of at dict))
        (Fine-AreEntries (2 ^ 64 - 1) 1 dict (omega arith) h) (length-header at dict))
