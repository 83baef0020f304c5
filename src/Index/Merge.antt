-- ===== src/Index/Merge.antt =====
-- `mergeIndex` of p4/main.cpp with `saveWordids` and `saveOffsets`, and `readIndex`. `none` is
-- undefined behaviour.
use multithread.Base.{
  ℕ, zero, suc, ◌+◌, ◌*◌, ◌%◌, ◌^◌, true, false, Option, none, some, List, [], ◌∷◌, ◌++◌, length,
  take, drop, ◌==◌, ltb, leb, if◌then◌else◌,
}
use multithread.Messages.Bytes.{store32}
use multithread.Messages.Message.{◌>>=◌}
use multithread.Messages.Dictionary.{assign}
use multithread.Index.Files.{write64, read64, write_all, read_docids}
use multithread.Index.Create.{create_index_files}

-- `saveWordids` at the start of the new file.
unfoldable pub save_wordids : List ℕ → List ℕ
save_wordids [] = write64 0 ++ write64 0
save_wordids (wordid ∷ set_wordid) = write64 wordid ++ (write64 0 ++ save_wordids set_wordid)

-- `saveOffsets` on the bytes from the file's position on. It skips a word, with zeros where the file
-- has ended, and writes over the next eight bytes.
unfoldable pub save_offsets : List (ℕ × ℕ) → List ℕ → List ℕ
save_offsets [] file = file
save_offsets ((wordid, offset) ∷ offsets) file =
    take 8 (file ++ (write64 0)) ++ (write64 offset ++ save_offsets offsets (drop 16 file))

-- One of the `in_files`: `wordids[i]`, the `counts[i]` numbers at `docids[i]`, and what is left of
-- the file.
pub record Cursor : Type 0 where
  pub wordid : ℕ
  pub docids : List ℕ
  pub rest : List ℕ

-- The first entry of a file. If it is not there, the variables hold what was there before.
unfoldable pub open_file : List ℕ → Option Cursor
open_file bytes = do
  (wordid, more) ← read64 bytes
  (docids, rest) ← read_docids more
  some (record { wordid = wordid; docids = docids; rest = rest })

unfoldable pub open_files : List (List ℕ) → Option (List Cursor)
open_files [] = some []
open_files (file ∷ files) = do c ← open_file file; cursors ← open_files files; some (c ∷ cursors)

-- The `for` loop that finds the least word and the files that have it, from place `i` on.
unfoldable pub find_min : ℕ → List Cursor → ℕ → List ℕ → ℕ × List ℕ
find_min i [] min_value indexs = (min_value, indexs)
find_min i (c ∷ cursors) min_value indexs =
    find_min (suc i) cursors (if ltb c.wordid min_value then c.wordid else min_value) (
      if ltb c.wordid min_value
      then i ∷ []
      else if c.wordid == min_value
      then indexs ++ i ∷ []
      else indexs)

-- The next entry of a file, or `max_wordid` at its end.
unfoldable pub advance : ℕ → Cursor → Option Cursor
advance max_wordid c = elim (read64 c.rest) [
  | none ↦ some (record c { wordid = max_wordid; docids = [] })
  | some (wordid, more) ↦ do
    (docids, rest) ← read_docids more
    some (record { wordid = wordid; docids = docids; rest = rest })
]

-- A round of the loop on `indexs`: the numbers that it copies, and the files.
unfoldable pub advance_at : ℕ → ℕ → List Cursor → Option (List ℕ × List Cursor)
advance_at max_wordid i [] = none
advance_at max_wordid zero (c ∷ cursors) = do
  c' ← advance max_wordid c
  some (c.docids, c' ∷ cursors)
advance_at max_wordid (suc i) (c ∷ cursors) = do
  (docids, cursors') ← advance_at max_wordid i cursors
  some (docids, c ∷ cursors')

unfoldable pub gather : ℕ → List ℕ → List Cursor → Option (List ℕ × List Cursor)
gather max_wordid [] cursors = some ([], cursors)
gather max_wordid (i ∷ indexs) cursors = do
  (docids, cursors') ← advance_at max_wordid i cursors
  (more, cursors'') ← gather max_wordid indexs cursors'
  some (docids ++ more, cursors'')

-- `sort`
unfoldable pub place : ℕ → List ℕ → List ℕ
place d [] = d ∷ []
place d (x ∷ xs) = if leb d x then d ∷ x ∷ xs else x ∷ place d xs

unfoldable pub sort : List ℕ → List ℕ
sort [] = []
sort (x ∷ xs) = place x (sort xs)

-- All copied numbers, in an array of `all_counts * 8` bytes, with `all_counts` and the product in 32
-- bits.
unfoldable pub gather_all : ℕ → List ℕ → List Cursor → Option (List ℕ × List Cursor)
gather_all max_wordid indexs cursors = do
  (all_docids, cursors') ← gather max_wordid indexs cursors
  let all_counts = length all_docids % 2 ^ 32
  (if leb (8 * length all_docids) (8 * all_counts % 2 ^ 32)
      then some (all_docids, cursors')
      else none)

-- The `while` loop, with the bytes of the new file so far. A round takes a byte or ends a file, so
-- one round more than there are bytes is enough.
unfoldable pub merge_loop :
    ℕ → ℕ → List Cursor → List ℕ → List (ℕ × ℕ) → Option (List ℕ × List (ℕ × ℕ))
merge_loop zero max_wordid cursors out offsets = none
merge_loop (suc fuel) max_wordid cursors out offsets =
    let least = find_min 0 cursors max_wordid [] in
    elim (least.0 == max_wordid) [
      | true ↦ some (out, offsets)
      | false ↦ do
        (all_docids, cursors') ← gather_all max_wordid least.1 cursors
        merge_loop fuel max_wordid cursors'
            (out ++ (store32 (length all_docids) ++ write_all (sort all_docids)))
            (assign least.0 (length out) offsets)
    ]

-- `*(set_wordid.rbegin())`
unfoldable pub last_word : List ℕ → Option ℕ
last_word [] = none
last_word (w ∷ []) = some w
last_word (w ∷ v ∷ words) = last_word (v ∷ words)

abbrev pub total_bytes : List (List ℕ) → ℕ
total_bytes [] = 0
total_bytes (file ∷ files) = length file + total_bytes files

-- `mergeIndex`, on the index files and the words, as the new file.
unfoldable pub merge_index : List (List ℕ) → List ℕ → Option (List ℕ)
merge_index files set_wordid = do
  last ← last_word set_wordid
  cursors ← open_files files
  (out, offsets) ←
      merge_loop (suc (total_bytes files)) ((last + 1) % 2 ^ 64) cursors (save_wordids set_wordid)
        []
  some (save_offsets offsets out)

-- `main`, from the file of documents to the file of the index.
unfoldable pub make_index : List ℕ → Option (List ℕ)
make_index file = do (files, set_wordid) ← create_index_files file; merge_index files set_wordid

-- The first loop of `readIndex`, up to the word 0. A file that ends before is read for ever.
unfoldable pub read_offsets : ℕ → List ℕ → List (ℕ × ℕ) → Option (List (ℕ × ℕ))
read_offsets zero file offsets = none
read_offsets (suc fuel) file offsets = do
  (wordid, more) ← read64 file
  (offset, rest) ← read64 more
  elim (wordid == 0) [
    | true ↦ some offsets
    | false ↦ read_offsets fuel rest (assign wordid offset offsets)
  ]

-- The second loop: what it prints of each word.
unfoldable pub read_words : List ℕ → List (ℕ × ℕ) → Option (List (ℕ × ℕ × List ℕ))
read_words file [] = some []
read_words file ((wordid, offset) ∷ offsets) = do
  (docids, rest) ← read_docids (drop offset file)
  more ← read_words file offsets
  some ((wordid, offset, docids) ∷ more)

-- `readIndex`: it prints ten words at most.
unfoldable pub read_index : List ℕ → Option (List (ℕ × ℕ × List ℕ))
read_index file = do offsets ← read_offsets (length file) file []; read_words file (take 10 offsets)
