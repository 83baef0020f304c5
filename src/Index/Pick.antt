-- ===== src/Index/Pick.antt =====
-- What `mergeIndex` (p4/main.cpp) takes for a word out of its files, and what it leaves there.
use multithread.Base.{
  ℕ, ◌≤◌, ◌≡◌, refl, ◌∙◌, sym, ap, false, inl, inr, ◌||◌, List, [], ◌∷◌, ◌++◌, length, ◌==◌, arith,
  length-append, Bool-cases, ==→eq,
}
use multithread.Index.Files.{AreWords}
use multithread.Index.Create.{Dict}
use multithread.Index.Postings.{mem, docs_of, found}
use multithread.Index.Cursors.{first_docs, later, pick, leave}
use multithread.Index.Least.{
  Fine, AllFine, keys, any_key, size, total, AllFrom, docs_of-cons, first_docs-eq,
}

mem-append : (x : ℕ) (xs ys : List ℕ) → mem x (xs ++ ys) ≡ (mem x xs || mem x ys)
mem-append x [] ys = refl
mem-append x (y ∷ xs) ys = ground (arith, mem-append x xs ys)

AreWords-append : (xs ys : List ℕ) → AreWords xs → AreWords ys → AreWords (xs ++ ys)
AreWords-append [] ys h g = g
AreWords-append (x ∷ xs) ys (small, h) g = (small, AreWords-append xs ys h g)

module _ (max_wordid m b : ℕ) where
  pub mem-pick :
      (x : ℕ) (dicts : List Dict)
      → AllFine max_wordid b dicts
      → AllFrom max_wordid m dicts
      → mem x (pick m dicts) ≡ found m x dicts
  mem-pick x [] h from = refl
  mem-pick x (dict ∷ dicts) (f, h) (le, from) =
      mem-append x (first_docs m dict) (pick m dicts)
      ∙ ap (λ l. mem x l || mem x (pick m dicts)) (sym (first_docs-eq max_wordid m b dict f le))
      ∙ ap (λ k. mem x (docs_of m dict) || k) (mem-pick x dicts h from)

  AreWords-first_docs : (dict : Dict) → Fine max_wordid b dict → AreWords (first_docs m dict)
  AreWords-first_docs [] h = tt
  AreWords-first_docs ((w, docids) ∷ dict) h = elim (Bool-cases (w == m)) [
    | inl e ↦ rw e h.3
    | inr e ↦ rw e tt
  ]

  pub AreWords-pick : (dicts : List Dict) → AllFine max_wordid b dicts → AreWords (pick m dicts)
  AreWords-pick [] h = tt
  AreWords-pick (dict ∷ dicts) (f, h) =
      AreWords-append (first_docs m dict) (pick m dicts) (AreWords-first_docs dict f)
        (AreWords-pick dicts h)

length-first_docs : (m : ℕ) (dict : Dict) → length (first_docs m dict) ≤ size dict
length-first_docs m [] = omega arith
length-first_docs m ((w, docids) ∷ dict) = ground arith

pub length-pick : (m : ℕ) (dicts : List Dict) → length (pick m dicts) ≤ total dicts
length-pick m [] = omega arith
length-pick m (dict ∷ dicts) = omega (
  arith,
  length-append (first_docs m dict) (pick m dicts),
  length-first_docs m dict,
  length-pick m dicts,
)

-- Nothing but `m` is taken away.
later-other :
    (m w : ℕ) (dict : Dict)
    → (m == w) ≡ false
    → (docs_of w (later m dict) ≡ docs_of w dict)
      × (mem w (keys (later m dict)) ≡ mem w (keys dict))
later-other m w [] other = (refl, refl)
later-other m w ((k, docids) ∷ dict) other = elim (Bool-cases (k == m)) [
  | inl e ↦
      let not_here : (k == w) ≡ false = ap (λ n. n == w) (==→eq k m e) ∙ other in
      (
        rw e (sym (docs_of-cons w k docids dict ∙ rw not_here refl)),
        rw e (sym (ap (λ a. a || mem w (keys dict)) not_here)),
      )
  | inr e ↦ (rw e refl, rw e refl)
]

pub leave-other :
    (m w : ℕ) (dicts : List Dict)
    → (m == w) ≡ false
    → ((x : ℕ) → found w x (leave m dicts) ≡ found w x dicts)
      × (any_key w (leave m dicts) ≡ any_key w dicts)
leave-other m w [] other = (λ x. refl, refl)
leave-other m w (dict ∷ dicts) other =
    let (here, key) = later-other m w dict other in
    let (there, keys_there) = leave-other m w dicts other in
    (
      λ x.
          ap (λ l. mem x l || found w x (leave m dicts)) here
          ∙ ap (λ k. mem x (docs_of w dict) || k) (there x),
      ap (λ k. k || any_key w (leave m dicts)) key ∙ ap (λ k. mem w (keys dict) || k) keys_there,
    )
