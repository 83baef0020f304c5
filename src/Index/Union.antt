-- ===== src/Index/Union.antt =====
-- `mergeIndex` (p4/main.cpp) makes the index of all files from the index files.
use multithread.Base.{
  ℕ, suc, ◌+◌, ◌-◌, ◌%◌, ◌^◌, ◌<◌, ◌≡◌, ◌∙◌, sym, ap, true, inl, inr, ◌||◌, some, List, [], ◌∷◌,
  ◌++◌, length, map, ◌==◌, arith, Bool-cases, ==→eq, ==-refl,
}
use multithread.Index.Files.{save_index_file}
use multithread.Index.Create.{Dict}
use multithread.Index.Postings.{mem, docs_of, found}
use multithread.Index.Merge.{save_wordids, save_offsets, total_bytes, merge_index}
use multithread.Index.Least.{or_left, or_right, Fine, AllFine, keys, any_key, total}
use multithread.Index.Merging.{blocks, offsets_of, AllSorted, merge_loop_lem}
use multithread.Index.Layout.{
  body_offset, print_index, AllFull, Rises, save_offsets-header, length-save_wordids, length-keys,
  entries-total_bytes, open_files-ShowAll, Fine-Rises, Rises-unique, last_word-greatest,
}

key-below :
    (max_wordid b w : ℕ) (dict : Dict)
    → Fine max_wordid b dict
    → mem w (keys dict) ≡ true
    → w < max_wordid
key-below max_wordid b w [] h there = cc
key-below max_wordid b w ((k, docids) ∷ dict) (le, below, few, words, h) there =
    elim (Bool-cases (k == w)) [
      | inl e ↦ omega (arith, ==→eq k w e, below)
      | inr e ↦
          key-below max_wordid (suc k) w dict h (sym (ap (λ a. a || mem w (keys dict)) e) ∙ there)
    ]

any_key-below :
    (max_wordid b w : ℕ) (dicts : List Dict)
    → AllFine max_wordid b dicts
    → any_key w dicts ≡ true
    → w < max_wordid
any_key-below max_wordid b w [] h there = cc
any_key-below max_wordid b w (dict ∷ dicts) (f, h) there = elim (Bool-cases (mem w (keys dict))) [
  | inl e ↦ key-below max_wordid b w dict f e
  | inr e ↦ any_key-below max_wordid b w dicts h (sym (ap (λ a. a || any_key w dicts) e) ∙ there)
]

-- A bound on all words.
Fine-below :
    (m max_wordid b : ℕ) (dict : Dict)
    → Fine m b dict
    → ((w : ℕ) → mem w (keys dict) ≡ true → w < max_wordid)
    → Fine max_wordid b dict
Fine-below m max_wordid b [] h all = tt
Fine-below m max_wordid b ((k, docids) ∷ dict) (le, below, few, words, h) all = (
  le,
  all k (or_left (k == k) (mem k (keys dict)) (==-refl k)),
  few,
  words,
  Fine-below m max_wordid (suc k) dict h (λ w e. all w (or_right (k == w) (mem w (keys dict)) e)),
)

AllFine-below :
    (m max_wordid b : ℕ) (dicts : List Dict)
    → AllFine m b dicts
    → ((w : ℕ) → any_key w dicts ≡ true → w < max_wordid)
    → AllFine max_wordid b dicts
AllFine-below m max_wordid b [] h all = tt
AllFine-below m max_wordid b (dict ∷ dicts) (f, h) all = (
  Fine-below m max_wordid b dict f (λ w e. all w (or_left (mem w (keys dict)) (any_key w dicts) e)),
  AllFine-below m max_wordid b dicts h
      (λ w e. all w (or_right (mem w (keys dict)) (any_key w dicts) e)),
)

-- Take index files that hold a map each, with a word at least, its words in ascending order and
-- below 2^64 - 1, and fewer than 2^29 numbers of documents in all; and let `set_wordid` be the
-- words of all of them, in ascending order, and not empty. Then `mergeIndex` ends without undefined
-- behaviour, and writes the words with their offsets and then the documents of each word, in
-- ascending order, so that a word has the documents that it has in the index files.
pub merge_index-total :
    (dicts : List Dict) (set_wordid : List ℕ)
    → AllFine (2 ^ 64 - 1) 0 dicts
    → AllFull dicts
    → total dicts < 2 ^ 29
    → Rises 0 set_wordid
    → 0 < length set_wordid
    → ((w : ℕ) → mem w set_wordid ≡ any_key w dicts)
    → (union : Dict) × (merge_index (map save_index_file dicts) set_wordid
        ≡ some (print_index union))
      × (keys union ≡ set_wordid)
      × Fine (2 ^ 64 - 1) 0 union
      × AllSorted union
      × ((w x : ℕ) → mem x (docs_of w union) ≡ found w x dicts)
unfolding merge_index
merge_index-total dicts set_wordid fine full few rises more words =
    let (last, last_runs, above, greatest, there) = last_word-greatest 0 set_wordid rises more in
    let small : last < 2 ^ 64 - 1 =
      any_key-below (2 ^ 64 - 1) 0 last dicts fine (sym (words last) ∙ there) in
    let fine' =
      AllFine-below (2 ^ 64 - 1) (last + 1) 0 dicts fine
        (λ w e. omega (arith, greatest w (words w ∙ e))) in
    let (cursors, opened, shows) =
      open_files-ShowAll (last + 1) 0 dicts (omega (arith, small)) fine' full in
    let r =
      merge_loop_lem (suc (total_bytes (map save_index_file dicts))) (last + 1) 0 cursors dicts
        (save_wordids set_wordid) [] (omega arith) fine' few shows tt
        (omega (arith, entries-total_bytes dicts)) in
    let same : keys r.union ≡ set_wordid =
      Rises-unique 0 0 (keys r.union) set_wordid (Fine-Rises (last + 1) 0 r.union r.fine) rises
        (λ w. r.words w ∙ sym (words w)) in
    let wraps : (last + 1) % 2 ^ 64 ≡ last + 1 = omega (arith, small) in
    let at : length (save_wordids set_wordid) ≡ body_offset r.union =
      omega (arith, length-save_wordids set_wordid, length-keys r.union, ap length same) in
    (
      r.union,
      rw (last_runs, opened, wraps, r.runs)
          (ap
              (λ k.
                some
                  (save_offsets (offsets_of k r.union) (save_wordids set_wordid ++ blocks r.union)))
              at
            ∙ ap
                (λ l. some (
                  save_offsets (offsets_of (body_offset r.union) r.union)
                    (save_wordids l ++ blocks r.union)))
                (sym same)
            ∙ ap some (save_offsets-header (body_offset r.union) r.union (blocks r.union))),
      same,
      Fine-below (last + 1) (2 ^ 64 - 1) 0 r.union r.fine
          (λ w e. omega (arith, greatest w (sym (ap (mem w) same) ∙ e), small)),
      r.sorted,
      r.holds,
    )
