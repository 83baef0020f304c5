-- ===== src/Index/Cursors.antt =====
-- A round of the merge (p4/main.cpp), on files that hold the rest of a map each.
use multithread.Base.{
  ℕ, suc, ◌≤◌, ◌<◌, ◌≡◌, refl, ◌∙◌, sym, ap, subst, true, false, inl, inr, List, [], ◌∷◌, ◌++◌,
  ◌==◌, ltb, if◌then◌else◌, arith, append_assoc, append-nil, Bool-cases, ==→eq, ==-refl,
}
use multithread.Index.Files.{save_index_file, AreEntries}
use multithread.Index.Create.{Dict}
use multithread.Index.Merge.{Cursor, find_min}

-- The word at which a file stands whose entries `dict` are not merged yet.
abbrev pub head_word : ℕ → Dict → ℕ
head_word max_wordid [] = max_wordid
head_word max_wordid ((w, docids) ∷ dict) = w

-- A file with the entries `dict` left.
abbrev pub Shows : ℕ → Cursor → Dict → Type 0
Shows max_wordid c [] = c.wordid ≡ max_wordid
Shows max_wordid c ((w, docids) ∷ dict) =
    (c.wordid ≡ w) × (c.docids ≡ docids) × (c.rest ≡ save_index_file dict) × AreEntries dict

abbrev pub ShowAll : ℕ → List Cursor → List Dict → Type 0
ShowAll max_wordid [] [] = Unit
ShowAll max_wordid (c ∷ cursors) (dict ∷ dicts) =
    Shows max_wordid c dict × ShowAll max_wordid cursors dicts
ShowAll max_wordid cursors dicts = ⊥

-- The least word at which a file stands, and at most `m`.
abbrev pub least : ℕ → ℕ → List Dict → ℕ
least max_wordid m [] = m
least max_wordid m (dict ∷ dicts) =
    least max_wordid (if ltb (head_word max_wordid dict) m then head_word max_wordid dict else m)
      dicts

-- What the files that stand at `m` have for it, and what is left.
abbrev pub first_docs : ℕ → Dict → List ℕ
first_docs m [] = []
first_docs m ((w, docids) ∷ dict) = if w == m then docids else []

abbrev pub later : ℕ → Dict → Dict
later m [] = []
later m ((w, docids) ∷ dict) = if w == m then dict else (w, docids) ∷ dict

abbrev pub pick : ℕ → List Dict → List ℕ
pick m [] = []
pick m (dict ∷ dicts) = first_docs m dict ++ pick m dicts

abbrev pub leave : ℕ → List Dict → List Dict
leave m [] = []
leave m (dict ∷ dicts) = later m dict ∷ leave m dicts

-- The places, from `i` on, of the files that stand at `m`.
abbrev pub places : ℕ → ℕ → List Cursor → List ℕ
places m i [] = []
places m i (c ∷ cursors) =
    if c.wordid == m then i ∷ places m (suc i) cursors else places m (suc i) cursors

Shows-head_word :
    (max_wordid : ℕ) (c : Cursor) (dict : Dict)
    → Shows max_wordid c dict
    → c.wordid ≡ head_word max_wordid dict
Shows-head_word max_wordid c [] h = h
Shows-head_word max_wordid c ((w, docids) ∷ dict) h = h.0

pub find_min-least :
    (max_wordid i m : ℕ) (cursors : List Cursor) (dicts : List Dict) (indexs : List ℕ)
    → ShowAll max_wordid cursors dicts
    → (find_min i cursors m indexs).0 ≡ least max_wordid m dicts
unfolding find_min
find_min-least max_wordid i m [] [] indexs h = refl
find_min-least max_wordid i m [] (dict ∷ dicts) indexs h = absurd h
find_min-least max_wordid i m (c ∷ cursors) [] indexs h = absurd h
find_min-least max_wordid i m (c ∷ cursors) (dict ∷ dicts) indexs (s, h) =
    find_min-least max_wordid (suc i) (if ltb c.wordid m then c.wordid else m) cursors dicts _ h
    ∙ ap (λ w. least max_wordid (if ltb w m then w else m) dicts)
        (Shows-head_word max_wordid c dict s)

least-le : (max_wordid m : ℕ) (dicts : List Dict) → least max_wordid m dicts ≤ m
least-le max_wordid m [] = omega arith
least-le max_wordid m (dict ∷ dicts) =
    ground
      (arith, least-le max_wordid m dicts, least-le max_wordid (head_word max_wordid dict) dicts)

find_min-le :
    (i m : ℕ) (cursors : List Cursor) (indexs : List ℕ) → (find_min i cursors m indexs).0 ≤ m
unfolding find_min
find_min-le i m [] indexs = omega arith
find_min-le i m (c ∷ cursors) indexs = elim (Bool-cases (ltb c.wordid m)) [
  | inl e ↦ rw (find_min, e) (ground (arith, e, find_min-le (suc i) c.wordid cursors (i ∷ [])))
  | inr e ↦ rw (find_min, e) (find_min-le (suc i) m cursors _)
]

-- What the loop holds: the places of all files at the least word `r`.
abbrev Holds : ℕ → List Cursor → ℕ → List ℕ → ℕ → List ℕ → Type 0
Holds i cursors m indexs r found =
    found ≡ (if r == m then indexs ++ places m i cursors else places r i cursors)

Holds-less :
    (i m r : ℕ) (c : Cursor) (cursors : List Cursor) (indexs found : List ℕ)
    → ltb c.wordid m ≡ true
    → r ≤ c.wordid
    → Holds (suc i) cursors c.wordid (i ∷ []) r found
    → Holds i (c ∷ cursors) m indexs r found
Holds-less i m r c cursors indexs found e le h = ground (arith, e, le, h)

Holds-same :
    (i m r : ℕ) (c : Cursor) (cursors : List Cursor) (indexs found : List ℕ)
    → c.wordid ≡ m
    → r ≤ m
    → Holds (suc i) cursors m (indexs ++ i ∷ []) r found
    → Holds i (c ∷ cursors) m indexs r found
Holds-same i m r c cursors indexs found e le h =
    ground (arith, e, le, h, append_assoc indexs (i ∷ []) (places m (suc i) cursors))

Holds-more :
    (i m r : ℕ) (c : Cursor) (cursors : List Cursor) (indexs found : List ℕ)
    → m < c.wordid
    → r ≤ m
    → Holds (suc i) cursors m indexs r found
    → Holds i (c ∷ cursors) m indexs r found
Holds-more i m r c cursors indexs found e le h = ground (arith, e, le, h)

module _ (i m : ℕ) (c : Cursor) (cursors : List Cursor) (indexs : List ℕ) where
  find_min-less :
      ltb c.wordid m ≡ true
      → find_min i (c ∷ cursors) m indexs ≡ find_min (suc i) cursors c.wordid (i ∷ [])
  unfolding find_min
  find_min-less e = rw (find_min, e) refl

  find_min-same :
      ltb c.wordid m ≡ false
      → (c.wordid == m) ≡ true
      → find_min i (c ∷ cursors) m indexs ≡ find_min (suc i) cursors m (indexs ++ i ∷ [])
  unfolding find_min
  find_min-same e same = rw (find_min, e, same) refl

  find_min-more :
      ltb c.wordid m ≡ false
      → (c.wordid == m) ≡ false
      → find_min i (c ∷ cursors) m indexs ≡ find_min (suc i) cursors m indexs
  unfolding find_min
  find_min-more e other = rw (find_min, e, other) refl

pub find_min-places :
    (i m : ℕ) (cursors : List Cursor) (indexs : List ℕ)
    → Holds i cursors m indexs (find_min i cursors m indexs).0 (find_min i cursors m indexs).1
unfolding find_min
find_min-places i m [] indexs = rw (==-refl m) (sym (append-nil indexs))
find_min-places i m (c ∷ cursors) indexs = elim (Bool-cases (ltb c.wordid m)) [
  | inl e ↦
      let next = find_min (suc i) cursors c.wordid (i ∷ []) in
      kept next (find_min-less i m c cursors indexs e) (
        Holds-less i m next.0 c cursors indexs next.1 e
          (find_min-le (suc i) c.wordid cursors (i ∷ []))
          (find_min-places (suc i) c.wordid cursors (i ∷ [])))
  | inr e ↦ elim (Bool-cases (c.wordid == m)) [
    | inl same ↦
        let next = find_min (suc i) cursors m (indexs ++ i ∷ []) in
        kept next (find_min-same i m c cursors indexs e same) (
          Holds-same i m next.0 c cursors indexs next.1 (==→eq c.wordid m same)
            (find_min-le (suc i) m cursors (indexs ++ i ∷ []))
            (find_min-places (suc i) m cursors (indexs ++ i ∷ [])))
    | inr other ↦
        let next = find_min (suc i) cursors m indexs in
        kept next (find_min-more i m c cursors indexs e other) (
          Holds-more i m next.0 c cursors indexs next.1 (ground (arith, e, other))
            (find_min-le (suc i) m cursors indexs) (find_min-places (suc i) m cursors indexs))
  ]
]
  where
    kept :
        (next : ℕ × List ℕ)
        → find_min i (c ∷ cursors) m indexs ≡ next
        → Holds i (c ∷ cursors) m indexs next.0 next.1
        → Holds i
            (c ∷ cursors)
            m
            indexs
            (find_min i (c ∷ cursors) m indexs).0
            (find_min i (c ∷ cursors) m indexs).1
    kept next e h = subst (λ (x : ℕ × List ℕ). Holds i (c ∷ cursors) m indexs x.0 x.1) (sym e) h
