-- ===== src/Index/Examples.antt =====
-- Two documents, and the map of their words.
use multithread.Base.{
  ℕ, ◌^◌, ◌-◌, ◌≡◌, refl, some, List, [], ◌∷◌, map, take, none, ◌||◌, Bool, true, false, ◌==◌,
  arith,
}
use multithread.Index.Files.{write64, write_all, save_index_file}
use multithread.Index.Create.{Dict, create_index_files}
use multithread.Index.Batches.{Document, print_documents}
use multithread.Index.Postings.{mem, docs_of, found, posted, create_index_files_total}
use multithread.Index.Merge.{merge_index, make_index, read_index}
use multithread.Index.Least.{Fine, keys}
use multithread.Index.Merging.{AllSorted}
use multithread.Index.Layout.{print_index, body_offset}
use multithread.Index.Union.{merge_index-total}
use multithread.Index.Whole.{make_index_total}
use multithread.Index.Names.{
  create_name, Directory, file_of, remove_index_files, remove_index_files_total,
}
use multithread.Index.Reading.{listing, read_index-print_index}

abbrev two_documents : List Document
two_documents =
    record { docid = 7; wordids = 1 ∷ 2 ∷ [] } ∷ record { docid = 9; wordids = 2 ∷ [] } ∷ []

abbrev two_words : Dict
two_words = (1, 7 ∷ []) ∷ (2, 7 ∷ 9 ∷ []) ∷ []

abbrev other_words : Dict
other_words = (1, 8 ∷ []) ∷ (5, 3 ∷ []) ∷ []

same_words :
    (a b c : Bool)
    → (a || (b || (c || false))) ≡ ((a || (b || false)) || ((a || (c || false)) || false))
same_words true b c = refl
same_words false true c = refl
same_words false false true = refl
same_words false false false = refl

create_index_files_total_example :
    (dicts : List Dict) × (words : List ℕ) × (create_index_files (print_documents two_documents)
      ≡ some (map save_index_file dicts, words))
    × ((w x : ℕ) → found w x dicts ≡ posted w x two_documents)
create_index_files_total_example = create_index_files_total two_documents (
  omega arith,
  omega arith,
  (omega arith, (omega arith, tt)),
  (omega arith, omega arith, (omega arith, tt), tt),
)

merge_index-total_example :
    (union : Dict) × (merge_index
        (map save_index_file (two_words ∷ other_words ∷ []))
        (1 ∷ 2 ∷ 5 ∷ [])
      ≡ some (print_index union))
    × (keys union ≡ 1 ∷ 2 ∷ 5 ∷ [])
    × Fine (2 ^ 64 - 1) 0 union
    × AllSorted union
    × ((w x : ℕ) → mem x (docs_of w union) ≡ found w x (two_words ∷ other_words ∷ []))
merge_index-total_example =
    merge_index-total (two_words ∷ other_words ∷ []) (1 ∷ 2 ∷ 5 ∷ [])
      (
        (
          omega arith,
          omega arith,
          omega arith,
          (omega arith, tt),
          (omega arith, omega arith, omega arith, (omega arith, (omega arith, tt)), tt),
        ),
        (
          (
            omega arith,
            omega arith,
            omega arith,
            (omega arith, tt),
            (omega arith, omega arith, omega arith, (omega arith, tt), tt),
          ),
          tt,
        ),
      )
      (omega arith, (omega arith, tt)) (omega arith) (omega arith, (omega arith, (omega arith, tt)))
      (omega arith) (λ w. same_words (1 == w) (2 == w) (5 == w))

make_index_total_example :
    (union : Dict) × (make_index (print_documents two_documents) ≡ some (print_index union))
    × Fine (2 ^ 64 - 1) 0 union
    × AllSorted union
    × ((w x : ℕ) → mem x (docs_of w union) ≡ posted w x two_documents)
make_index_total_example =
    make_index_total two_documents
      (
        omega arith,
        omega arith,
        (omega arith, (omega arith, tt)),
        (omega arith, omega arith, (omega arith, tt), tt),
      )
      (omega arith) (omega arith)

read_index-print_index_example :
    read_index (print_index two_words) ≡ some (take 10 (listing (body_offset two_words) two_words))
unfolding write64 write_all
read_index-print_index_example =
    read_index-print_index two_words
      (
        omega arith,
        omega arith,
        omega arith,
        (omega arith, tt),
        (omega arith, omega arith, omega arith, (omega arith, (omega arith, tt)), tt),
      )
      (omega arith)

-- "index", the index itself and its first two files.
abbrev index : List ℕ
index = 105 ∷ 110 ∷ 100 ∷ 101 ∷ 120 ∷ []

abbrev files : Directory
files = (create_name index 0, 1 ∷ []) ∷ (index, 2 ∷ []) ∷ (create_name index 1, 3 ∷ []) ∷ []

remove_index_files_total_example :
    (file_of (create_name index 0) (remove_index_files index 1 files) ≡ none)
    × (file_of (create_name index 1) (remove_index_files index 1 files)
        ≡ file_of (create_name index 1) files)
    × (file_of index (remove_index_files index 1 files) ≡ file_of index files)
remove_index_files_total_example =
    remove_index_files_total index 1 0 1 files (omega arith) (omega arith)
