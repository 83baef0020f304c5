-- ===== src/Index/Create.antt =====
-- `createIndexsFiles` of p4/main.cpp: the documents are read, and every 2000 of them make a file.
use multithread.Base.{
  ℕ, zero, suc, true, false, Option, none, some, List, [], ◌∷◌, length, ◌==◌, ltb, if◌then◌else◌,
}
use multithread.Messages.Message.{◌>>=◌}
use multithread.Messages.Dictionary.{lookup, emplace, put}
use multithread.Index.Files.{read64, read32, read_array, save_index_file}

-- `insert` of a `set<uint64_t>`, a list in ascending order.
unfoldable pub insert : ℕ → List ℕ → List ℕ
insert d [] = d ∷ []
insert d (x ∷ xs) = if x == d then x ∷ xs else if ltb d x then d ∷ x ∷ xs else x ∷ insert d xs

abbrev pub Dict : Type 0
Dict = List (ℕ × List ℕ)

-- `dict_wordid[wordid].insert(docid)`
unfoldable pub add_posting : ℕ → ℕ → Dict → Dict
add_posting docid wordid dict = elim (lookup wordid dict) [
  | none ↦ emplace wordid (insert docid []) dict
  | some docids ↦ put wordid (insert docid docids) dict
]

-- The `for` loop on the words of a document.
unfoldable pub add_document : ℕ → List ℕ → Dict → Dict
add_document docid [] dict = dict
add_document docid (wordid ∷ wordids) dict =
    add_document docid wordids (add_posting docid wordid dict)

-- The words of a map are added to `set_wordid`, as `saveIndexFile` does.
unfoldable pub add_words : Dict → List ℕ → List ℕ
add_words [] set_wordid = set_wordid
add_words ((wordid, docids) ∷ dict) set_wordid = add_words dict (insert wordid set_wordid)

-- The document behind the number that is read.
unfoldable pub read_wordids : List ℕ → Option (List ℕ × List ℕ)
read_wordids file = do (n, more) ← read32 file; read_array n more

-- The end of `createIndexsFiles`: the files, and the words of all of them.
unfoldable pub last_file : Dict → List ℕ → List (List ℕ) × List ℕ
last_file [] set_wordid = ([], set_wordid)
last_file (e ∷ dict) set_wordid = (save_index_file (e ∷ dict) ∷ [], add_words (e ∷ dict) set_wordid)

-- The `while` loop and the end. Each round takes a byte, so one round more than there are bytes is
-- enough. `count_docid` is COUNT_DOCID.
unfoldable pub create_loop : ℕ → ℕ → List ℕ → ℕ → Dict → List ℕ → Option (List (List ℕ) × List ℕ)
create_loop count_docid zero file cur_count dict set_wordid = none
create_loop count_docid (suc fuel) file cur_count dict set_wordid = elim (read64 file) [
  | none ↦ some (last_file dict set_wordid)
  | some (docid, more) ↦ do
    (wordids, rest) ← read_wordids more
    let dict' = add_document docid wordids dict
    elim (suc cur_count == count_docid) [
      | true ↦ do
        (files, words) ← create_loop count_docid fuel rest 0 [] (add_words dict' set_wordid)
        some (save_index_file dict' ∷ files, words)
      | false ↦ create_loop count_docid fuel rest (suc cur_count) dict' set_wordid
    ]
]

-- `createIndexsFiles`, as the index files in the order of their numbers, and the words.
unfoldable pub create_index_files : List ℕ → Option (List (List ℕ) × List ℕ)
create_index_files file = create_loop 2000 (suc (length file)) file 0 [] []
