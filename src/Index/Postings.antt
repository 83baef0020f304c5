-- ===== src/Index/Postings.antt =====
-- What the index files of `createIndexsFiles` (p4/main.cpp) hold.
use multithread.Base.{
  ℕ, suc, ◌≡◌, refl, ◌∙◌, sym, ap, Bool, true, false, inl, inr, ◌||◌, ◌&&◌, Option, none, some,
  List, [], ◌∷◌, map, arith, Bool-cases, ◌==◌, if◌then◌else◌, ==→eq,
}
use multithread.Messages.Dictionary.{lookup, emplace, put, lookup-emplace, lookup-put}
use multithread.Index.Files.{save_index_file}
use multithread.Index.Create.{insert, Dict, add_posting, add_document, create_index_files}
use multithread.Index.Batches.{
  Document, print_documents, AreDocuments, batches, add_all, batches-full, batches-part,
  create_index_files-batches,
}

abbrev pub mem : ℕ → List ℕ → Bool
mem x [] = false
mem x (y ∷ ys) = (y == x) || mem x ys

-- Is document `x` stored for the word `w`?
abbrev pub docs_of : ℕ → Dict → List ℕ
docs_of w dict = elim (lookup w dict) [ none ↦ [] | some docids ↦ docids ]

abbrev pub found : ℕ → ℕ → List Dict → Bool
found w x [] = false
found w x (dict ∷ dicts) = mem x (docs_of w dict) || found w x dicts

-- Does a document with the number `x` hold the word `w`?
abbrev pub posted : ℕ → ℕ → List Document → Bool
posted w x [] = false
posted w x (doc ∷ docs) = ((doc.docid == x) && mem w doc.wordids) || posted w x docs

pub mem-insert : (x d : ℕ) (xs : List ℕ) → mem x (insert d xs) ≡ ((d == x) || mem x xs)
unfolding insert
mem-insert x d [] = refl
mem-insert x d (y ∷ ys) = ground (arith, mem-insert x d ys)

mem-add_posting :
    (w x docid wordid : ℕ) (dict : Dict)
    → mem x (docs_of w (add_posting docid wordid dict))
      ≡ (((wordid == w) && (docid == x)) || mem x (docs_of w dict))
unfolding add_posting
mem-add_posting w x docid wordid dict = go (lookup wordid dict) refl
  where
    stored : Option (List ℕ) → List ℕ
    stored res = elim res [ none ↦ [] | some docids ↦ docids ]

    same_word : (wordid == w) ≡ true → lookup w dict ≡ lookup wordid dict
    same_word e = ap (λ k. lookup k dict) (sym (==→eq wordid w e))

    at :
        (new : List ℕ) (old : Option (List ℕ))
        → lookup wordid dict ≡ old
        → mem x new ≡ ((docid == x) || mem x (stored old))
        → mem x (stored (if wordid == w then some new else lookup w dict))
          ≡ (((wordid == w) && (docid == x)) || mem x (stored (lookup w dict)))
    at new old e m = elim (Bool-cases (wordid == w)) [
      | inl i ↦ rw (i, same_word i, e) m
      | inr i ↦ rw i refl
    ]

    go :
        (old : Option (List ℕ))
        → lookup wordid dict ≡ old
        → mem x (
            docs_of w (elim old [
              | none ↦ emplace wordid (insert docid []) dict
              | some docids ↦ put wordid (insert docid docids) dict
            ]))
          ≡ (((wordid == w) && (docid == x)) || mem x (docs_of w dict))
    go none e =
        ap (λ r. mem x (stored r)) (lookup-emplace wordid w (insert docid []) dict e)
        ∙ at (insert docid []) none e (mem-insert x docid [])
    go (some docids) e =
        ap (λ r. mem x (stored r)) (lookup-put wordid w (insert docid docids) docids dict e)
        ∙ at (insert docid docids) (some docids) e (mem-insert x docid docids)

no_words : (a b : Bool) → b ≡ ((a && false) || b)
no_words true b = refl
no_words false b = refl

one_word : (a c m b : Bool) → ((a && m) || ((c && a) || b)) ≡ ((a && (c || m)) || b)
one_word true true true b = refl
one_word true true false b = refl
one_word true false true b = refl
one_word true false false b = refl
one_word false true m b = refl
one_word false false m b = refl

pub or_false : (b : Bool) → (b || false) ≡ b
or_false true = refl
or_false false = refl

batch_full : (a m p : Bool) → ((a || m) || (p || false)) ≡ ((a || p) || m)
batch_full true m p = refl
batch_full false true true = refl
batch_full false true false = refl
batch_full false false p = or_false p ∙ sym (or_false p)

batch_part : (a m p : Bool) → (p || (a || m)) ≡ ((a || p) || m)
batch_part true m true = refl
batch_part true m false = refl
batch_part false m p = refl

mem-add_document :
    (w x docid : ℕ) (wordids : List ℕ) (dict : Dict)
    → mem x (docs_of w (add_document docid wordids dict))
      ≡ (((docid == x) && mem w wordids) || mem x (docs_of w dict))
unfolding add_document
mem-add_document w x docid [] dict = no_words (docid == x) (mem x (docs_of w dict))
mem-add_document w x docid (wordid ∷ wordids) dict =
    mem-add_document w x docid wordids (add_posting docid wordid dict)
    ∙ ap (λ b. ((docid == x) && mem w wordids) || b) (mem-add_posting w x docid wordid dict)
    ∙ one_word (docid == x) (wordid == w) (mem w wordids) (mem x (docs_of w dict))

found-batches :
    (count_docid cur_count : ℕ) (dict : Dict) (docs : List Document) (w x : ℕ)
    → found w x (batches count_docid cur_count dict docs)
      ≡ (posted w x docs || mem x (docs_of w dict))
unfolding batches lookup
found-batches count_docid cur_count [] [] w x = refl
found-batches count_docid cur_count (e ∷ dict) [] w x = or_false (mem x (docs_of w (e ∷ dict)))
found-batches count_docid cur_count dict (doc ∷ docs) w x =
    let dict' = add_document doc.docid doc.wordids dict in
    let holds = (doc.docid == x) && mem w doc.wordids in
    elim (Bool-cases (suc cur_count == count_docid)) [
      | inl e ↦
          ap (found w x) (batches-full count_docid cur_count dict doc docs e)
          ∙ ap (λ b. mem x (docs_of w dict') || b) (found-batches count_docid 0 [] docs w x)
          ∙ ap (λ b. b || (posted w x docs || false))
              (mem-add_document w x doc.docid doc.wordids dict)
          ∙ batch_full holds (mem x (docs_of w dict)) (posted w x docs)
      | inr e ↦
          ap (found w x) (batches-part count_docid cur_count dict doc docs e)
          ∙ found-batches count_docid (suc cur_count) dict' docs w x
          ∙ ap (λ b. posted w x docs || b) (mem-add_document w x doc.docid doc.wordids dict)
          ∙ batch_part holds (mem x (docs_of w dict)) (posted w x docs)
    ]

pub found-all :
    (docs : List Document) (w x : ℕ) → found w x (batches 2000 0 [] docs) ≡ posted w x docs
unfolding lookup
found-all docs w x = found-batches 2000 0 [] docs w x ∙ or_false (posted w x docs)

-- Take a file of documents, with numbers below 2^64 and fewer than 2^29 words each. Then
-- `createIndexsFiles` reads it to its end, and each index file that it writes holds a map, so that
-- a map has a document `x` for a word `w` exactly if a document with that number holds that word.
pub create_index_files_total :
    (docs : List Document)
    → AreDocuments docs
    → (dicts : List Dict) × (words : List ℕ) × (create_index_files (print_documents docs)
        ≡ some (map save_index_file dicts, words))
      × ((w x : ℕ) → found w x dicts ≡ posted w x docs)
create_index_files_total docs h = (
  batches 2000 0 [] docs,
  add_all (batches 2000 0 [] docs) [],
  create_index_files-batches docs h,
  found-all docs,
)
