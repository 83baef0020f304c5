-- ===== src/Index/Whole.antt =====
-- p4/main.cpp as a whole: from the file of documents to the index.
use multithread.Base.{
  ℕ, ◌-◌, ◌^◌, ◌<◌, ◌≡◌, refl, ◌∙◌, true, some, List, [], ◌∷◌, length, arith, ==-refl,
}
use multithread.Index.Files.{AreWords}
use multithread.Index.Create.{Dict}
use multithread.Index.Batches.{
  Document, print_documents, AreDocuments, batches, add_all, create_index_files-batches,
}
use multithread.Index.Postings.{mem, docs_of, posted, found-all, or_false}
use multithread.Index.Merge.{make_index}
use multithread.Index.Least.{Fine, any_key}
use multithread.Index.Merging.{AllSorted}
use multithread.Index.Layout.{print_index, AllFull}
use multithread.Index.Union.{merge_index-total}
use multithread.Index.Sound.{AreIndexable, all_words, all-Sound}
use multithread.Index.Growing.{AllBelow}
use multithread.Index.Ordered.{add_all-Rises, mem-add_all}

AllBelow-AreWords : (m : ℕ) (words : List ℕ) → m < 2 ^ 64 → AllBelow m words → AreWords words
AllBelow-AreWords m [] small h = tt
AllBelow-AreWords m (w ∷ words) small (lt, h) =
    (omega (arith, lt), AllBelow-AreWords m words small h)

AreIndexable-AreDocuments :
    (docs : List Document)
    → AreIndexable (2 ^ 64 - 1) docs
    → all_words docs < 2 ^ 29
    → AreDocuments docs
AreIndexable-AreDocuments [] h few = tt
AreIndexable-AreDocuments (doc ∷ docs) (small, more, below, h) few = (
  small,
  omega arith,
  AllBelow-AreWords (2 ^ 64 - 1) doc.wordids (omega arith) below,
  AreIndexable-AreDocuments docs h (omega arith),
)

mem-nonempty : (w : ℕ) (words : List ℕ) → mem w words ≡ true → 0 < length words
mem-nonempty w [] e = cc
mem-nonempty w (v ∷ words) e = omega arith

words_given :
    (docs : List Document) → AreIndexable (2 ^ 64 - 1) docs → 0 < length docs → 0 < all_words docs
words_given [] h more = absurd (omega arith)
words_given (doc ∷ docs) (small, some_words, below, h) more = omega arith

-- The maps have a word if there is a document.
some_word :
    (dicts : List Dict) → AllFull dicts → 0 < length dicts → (w : ℕ) × (any_key w dicts ≡ true)
some_word [] full more = absurd (omega arith)
some_word ([] ∷ dicts) (first, full) more = absurd (omega arith)
some_word (((w, docids) ∷ dict) ∷ dicts) (first, full) more = (w, rw (==-refl w) refl)

-- Take a file of documents, one at least, each with a word at least, with the numbers of documents
-- below 2^64 and those of words below 2^64 - 1, and fewer than 2^29 words in all. Then the program
-- ends without undefined behaviour, and the file that it writes is the index of all documents: its
-- words are in ascending order, and so are the documents of each word, and a word has a document
-- exactly if a document with that number holds the word.
pub make_index_total :
    (docs : List Document)
    → AreIndexable (2 ^ 64 - 1) docs
    → 0 < length docs
    → all_words docs < 2 ^ 29
    → (union : Dict) × (make_index (print_documents docs) ≡ some (print_index union))
      × Fine (2 ^ 64 - 1) 0 union
      × AllSorted union
      × ((w x : ℕ) → mem x (docs_of w union) ≡ posted w x docs)
unfolding make_index
make_index_total docs h more few =
    let dicts = batches 2000 0 [] docs in
    let s = all-Sound (2 ^ 64 - 1) docs h few in
    let words = λ (w : ℕ). mem-add_all w dicts [] ∙ or_false (any_key w dicts) in
    let (w, there) = some_word dicts s.full (s.present (words_given docs h more)) in
    let (union, runs, same, fine, sorted, holds) =
      merge_index-total dicts (add_all dicts []) s.fine s.full (omega (arith, s.few))
        (add_all-Rises dicts [] tt) (mem-nonempty w (add_all dicts []) (words w ∙ there)) words in
    (
      union,
      rw (create_index_files-batches docs (AreIndexable-AreDocuments docs h few)) runs,
      fine,
      sorted,
      λ w x. holds w x ∙ found-all docs w x,
    )
