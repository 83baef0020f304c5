-- ===== src/Index/Batches.antt =====
-- How `createIndexsFiles` (p4/main.cpp) reads a file of documents, and cuts it into index files.
use multithread.Base.{
  ℕ, zero, suc, ◌^◌, ◌<◌, ◌≡◌, refl, ◌∙◌, sym, subst, true, false, inl, inr, Option, some, List, [],
  ◌∷◌, ◌++◌, length, map, arith, length-append, Bool-cases, ◌==◌,
}
use multithread.Messages.Bytes.{store32}
use multithread.Index.Files.{
  write64, write_all, save_index_file, AreWords, read64-write64, read32-store32,
  read_array-write_all, read64-nil, length-write64,
}
use multithread.Index.Create.{
  Dict, add_document, add_words, read_wordids, last_file, create_loop, create_index_files,
}

-- A document: its number, and its words.
pub record Document : Type 0 where
  pub docid : ℕ
  pub wordids : List ℕ

-- The file of the documents.
abbrev pub print_documents : List Document → List ℕ
print_documents [] = []
print_documents (doc ∷ docs) =
    write64 doc.docid
    ++ (store32 (length doc.wordids) ++ (write_all doc.wordids ++ print_documents docs))

abbrev pub AreDocuments : List Document → Type 0
AreDocuments [] = Unit
AreDocuments (doc ∷ docs) =
    (doc.docid < 2 ^ 64) × (length doc.wordids < 2 ^ 29) × AreWords doc.wordids × AreDocuments docs

-- The maps of the index files, with the map of the documents so far.
unfoldable pub batches : ℕ → ℕ → Dict → List Document → List Dict
batches count_docid cur_count [] [] = []
batches count_docid cur_count (e ∷ dict) [] = (e ∷ dict) ∷ []
batches count_docid cur_count dict (doc ∷ docs) =
    let dict' = add_document doc.docid doc.wordids dict in
    elim (suc cur_count == count_docid) [
      | true ↦ dict' ∷ batches count_docid 0 [] docs
      | false ↦ batches count_docid (suc cur_count) dict' docs
    ]

-- The words of all maps.
abbrev pub add_all : List Dict → List ℕ → List ℕ
add_all [] set_wordid = set_wordid
add_all (dict ∷ dicts) set_wordid = add_all dicts (add_words dict set_wordid)

pub batches-full :
    (count_docid cur_count : ℕ) (dict : Dict) (doc : Document) (docs : List Document)
    → (suc cur_count == count_docid) ≡ true
    → batches count_docid cur_count dict (doc ∷ docs)
      ≡ add_document doc.docid doc.wordids dict ∷ batches count_docid 0 [] docs
unfolding batches
batches-full count_docid cur_count [] doc docs e = rw (batches, e) refl
batches-full count_docid cur_count (d ∷ dict) doc docs e = rw (batches, e) refl

pub batches-part :
    (count_docid cur_count : ℕ) (dict : Dict) (doc : Document) (docs : List Document)
    → (suc cur_count == count_docid) ≡ false
    → batches count_docid cur_count dict (doc ∷ docs)
      ≡ batches count_docid (suc cur_count) (add_document doc.docid doc.wordids dict) docs
unfolding batches
batches-part count_docid cur_count [] doc docs e = rw (batches, e) refl
batches-part count_docid cur_count (d ∷ dict) doc docs e = rw (batches, e) refl

-- What `createIndexsFiles` returns for these maps.
abbrev pub Indexes : List Dict → List ℕ → Option (List (List ℕ) × List ℕ) → Type 0
Indexes dicts set_wordid res = res ≡ some (map save_index_file dicts, add_all dicts set_wordid)

last_file_lem :
    (count_docid cur_count : ℕ) (dict : Dict) (set_wordid : List ℕ)
    → Indexes (batches count_docid cur_count dict []) set_wordid (some (last_file dict set_wordid))
unfolding last_file batches
last_file_lem count_docid cur_count [] set_wordid = refl
last_file_lem count_docid cur_count (e ∷ dict) set_wordid = refl

module _ (count_docid fuel cur_count : ℕ) (doc : Document) (file : List ℕ) (dict : Dict)
    (set_wordid : List ℕ) (small : doc.docid < 2 ^ 64) (few : length doc.wordids < 2 ^ 29)
    (words : AreWords doc.wordids) where
  abbrev this_file : List ℕ
  this_file = write64 doc.docid ++ (store32 (length doc.wordids) ++ (write_all doc.wordids ++ file))

  abbrev dict_after : Dict
  dict_after = add_document doc.docid doc.wordids dict

  -- A round that writes an index file.
  loop_full :
      (files : List (List ℕ)) (all_words : List ℕ)
      → (suc cur_count == count_docid) ≡ true
      → create_loop count_docid fuel file 0 [] (add_words dict_after set_wordid)
        ≡ some (files, all_words)
      → create_loop count_docid (suc fuel) this_file cur_count dict set_wordid
        ≡ some (save_index_file dict_after ∷ files, all_words)
  unfolding create_loop read_wordids
  loop_full files all_words e later =
      rw
        (
          create_loop,
          read64-write64 doc.docid (store32 (length doc.wordids) ++ (write_all doc.wordids ++ file))
              small,
          read32-store32 (length doc.wordids) (write_all doc.wordids ++ file) (omega arith),
          read_array-write_all doc.wordids file few words,
          e,
          later,
        )
        refl

  -- A round that does not.
  loop_part :
      (suc cur_count == count_docid) ≡ false
      → create_loop count_docid (suc fuel) this_file cur_count dict set_wordid
        ≡ create_loop count_docid fuel file (suc cur_count) dict_after set_wordid
  unfolding create_loop read_wordids
  loop_part e =
      rw
        (
          create_loop,
          read64-write64 doc.docid (store32 (length doc.wordids) ++ (write_all doc.wordids ++ file))
              small,
          read32-store32 (length doc.wordids) (write_all doc.wordids ++ file) (omega arith),
          read_array-write_all doc.wordids file few words,
          e,
        )
        refl

  length-this_file : length file < length this_file
  length-this_file = omega (
    arith,
    length-append (write64 doc.docid)
        (store32 (length doc.wordids) ++ (write_all doc.wordids ++ file)),
    length-write64 doc.docid,
    length-append (store32 (length doc.wordids)) (write_all doc.wordids ++ file),
    length-append (write_all doc.wordids) file,
  )

create_loop_lem :
    (count_docid fuel : ℕ) (docs : List Document) (cur_count : ℕ) (dict : Dict)
    (set_wordid : List ℕ)
    → AreDocuments docs
    → length (print_documents docs) < fuel
    → Indexes
        (batches count_docid cur_count dict docs)
        set_wordid
        (create_loop count_docid fuel (print_documents docs) cur_count dict set_wordid)
unfolding create_loop
create_loop_lem count_docid zero docs cur_count dict set_wordid h more = absurd (omega arith)
create_loop_lem count_docid (suc fuel) [] cur_count dict set_wordid h more =
    rw (create_loop, read64-nil) (last_file_lem count_docid cur_count dict set_wordid)
create_loop_lem count_docid (suc fuel) (doc ∷ docs) cur_count dict set_wordid (small, few, words, h)
      more =
    let file = print_documents docs in
    let dict' = add_document doc.docid doc.wordids dict in
    let enough : length file < fuel = omega (
      arith,
      length-this_file count_docid fuel cur_count doc file dict set_wordid small few words,
    ) in
    elim (Bool-cases (suc cur_count == count_docid)) [
      | inl e ↦
          subst
            (λ l. Indexes l set_wordid (
              create_loop count_docid (suc fuel) (print_documents (doc ∷ docs)) cur_count dict
                set_wordid))
            (sym (batches-full count_docid cur_count dict doc docs e))
            (loop_full count_docid fuel cur_count doc file dict set_wordid small few words _ _ e
              (create_loop_lem count_docid fuel docs 0 [] (add_words dict' set_wordid) h enough))
      | inr e ↦
          subst
            (λ l. Indexes l set_wordid (
              create_loop count_docid (suc fuel) (print_documents (doc ∷ docs)) cur_count dict
                set_wordid))
            (sym (batches-part count_docid cur_count dict doc docs e))
            (loop_part count_docid fuel cur_count doc file dict set_wordid small few words e
              ∙ create_loop_lem count_docid fuel docs (suc cur_count) dict' set_wordid h enough)
    ]

pub create_index_files-batches :
    (docs : List Document)
    → AreDocuments docs
    → Indexes (batches 2000 0 [] docs) [] (create_index_files (print_documents docs))
unfolding create_index_files
create_index_files-batches docs h =
    create_loop_lem 2000 (suc (length (print_documents docs))) docs 0 [] [] h (omega arith)
