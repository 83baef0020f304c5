-- ===== src/Index/Sound.antt =====
-- The maps that `createIndexsFiles` (p4/main.cpp) makes are in order, and within the sizes that
-- `mergeIndex` can merge.
use multithread.Base.{
  ℕ, suc, ◌+◌, ◌^◌, ◌≤◌, ◌<◌, sym, subst, inl, inr, List, [], ◌∷◌, length, ◌==◌, arith, Bool-cases,
}
use multithread.Index.Create.{Dict, add_document}
use multithread.Index.Batches.{Document, batches, batches-full, batches-part}
use multithread.Index.Least.{AllFine, size, total}
use multithread.Index.Layout.{AllFull}
use multithread.Index.Growing.{AllBelow, Grows, add_document-Grows}

-- Documents that have words, with their numbers in range.
abbrev pub AreIndexable : ℕ → List Document → Type 0
AreIndexable m [] = Unit
AreIndexable m (doc ∷ docs) =
    (doc.docid < 2 ^ 64) × (0 < length doc.wordids) × AllBelow m doc.wordids × AreIndexable m docs

-- The number of their words.
abbrev pub all_words : List Document → ℕ
all_words [] = 0
all_words (doc ∷ docs) = length doc.wordids + all_words docs

-- What `mergeIndex` wants of the index files.
pub record Sound (m bound given : ℕ) (dicts : List Dict) : Type 0 where
  pub fine : AllFine m 0 dicts
  pub full : AllFull dicts
  pub few : total dicts ≤ bound
  pub present : 0 < given → 0 < length dicts

batches-Sound :
    (m count_docid cur_count : ℕ) (dict : Dict) (docs : List Document)
    → AreIndexable m docs
    → Grows m (all_words docs) dict
    → Sound m
        (size dict + all_words docs)
        (length dict + all_words docs)
        (batches count_docid cur_count dict docs)
unfolding batches
batches-Sound m count_docid cur_count [] [] h g = record {
  fine = tt;
  full = tt;
  few = omega arith;
  present = λ some_given. absurd (omega arith);
}
batches-Sound m count_docid cur_count (e ∷ dict) [] h g = record {
  fine = (g.fine, tt);
  full = (omega arith, tt);
  few = omega arith;
  present = λ some_given. omega arith;
}
batches-Sound m count_docid cur_count dict (doc ∷ docs) (small, more, below, h) g =
    let (g', full, le) =
      add_document-Grows m doc.docid small doc.wordids (all_words docs) dict below g in
    let dict' = add_document doc.docid doc.wordids dict in
    elim (Bool-cases (suc cur_count == count_docid)) [
      | inl e ↦
          let t =
            batches-Sound m count_docid 0 [] docs h
              (record { fine = tt; room = omega (arith, g'.room) }) in
          subst
            (Sound m (size dict + all_words (doc ∷ docs)) (length dict + all_words (doc ∷ docs)))
            (sym (batches-full count_docid cur_count dict doc docs e))
            (record {
              fine = (g'.fine, t.fine);
              full = (full (omega arith), t.full);
              few = omega (arith, le, t.few);
              present = λ some_given. omega arith;
            })
      | inr e ↦
          let t = batches-Sound m count_docid (suc cur_count) dict' docs h g' in
          subst
            (Sound m (size dict + all_words (doc ∷ docs)) (length dict + all_words (doc ∷ docs)))
            (sym (batches-part count_docid cur_count dict doc docs e))
            (record {
              fine = t.fine;
              full = t.full;
              few = omega (arith, le, t.few);
              present = λ some_given. t.present (omega (arith, full (omega arith)));
            })
    ]

pub all-Sound :
    (m : ℕ) (docs : List Document)
    → AreIndexable m docs
    → all_words docs < 2 ^ 29
    → Sound m (all_words docs) (all_words docs) (batches 2000 0 [] docs)
all-Sound m docs h few =
    let t = batches-Sound m 2000 0 [] docs h (record { fine = tt; room = omega arith }) in
    record {
      fine = t.fine;
      full = t.full;
      few = omega (arith, t.few);
      present = λ some_given. t.present (omega arith);
    }
