-- ===== src/Index/Least.antt =====
-- The least word of the maps that `mergeIndex` (p4/main.cpp) merges, and what is left without it.
use multithread.Base.{
  ℕ, suc, ◌+◌, ◌^◌, ◌≤◌, ◌<◌, ◌≡◌, refl, ◌∙◌, sym, ap, subst, Bool, true, false, inl, inr, ◌⊎◌,
  ◌||◌, Option, none, some, List, [], ◌∷◌, length, ◌==◌, ltb, if◌then◌else◌, arith, Bool-cases,
  ==→eq, ne→==, ==-refl, if-true, if-false,
}
use multithread.Messages.Dictionary.{lookup}
use multithread.Index.Files.{AreWords, AreEntries}
use multithread.Index.Create.{Dict}
use multithread.Index.Postings.{mem, docs_of}
use multithread.Index.Cursors.{head_word, least, first_docs, later, leave}

-- A map with its words in ascending order, from `b` on and below `max_wordid`.
abbrev pub Fine : ℕ → ℕ → Dict → Type 0
Fine max_wordid b [] = Unit
Fine max_wordid b ((w, docids) ∷ dict) =
    (b ≤ w)
    × (w < max_wordid)
    × (length docids < 2 ^ 29)
    × AreWords docids
    × Fine max_wordid (suc w) dict

abbrev pub AllFine : ℕ → ℕ → List Dict → Type 0
AllFine max_wordid b [] = Unit
AllFine max_wordid b (dict ∷ dicts) = Fine max_wordid b dict × AllFine max_wordid b dicts

-- The words of a map, and of all maps.
abbrev pub keys : Dict → List ℕ
keys [] = []
keys ((w, docids) ∷ dict) = w ∷ keys dict

abbrev pub any_key : ℕ → List Dict → Bool
any_key w [] = false
any_key w (dict ∷ dicts) = mem w (keys dict) || any_key w dicts

-- The number of entries of all maps, and of the numbers in them.
abbrev pub entries : List Dict → ℕ
entries [] = 0
entries (dict ∷ dicts) = length dict + entries dicts

abbrev pub size : Dict → ℕ
size [] = 0
size ((w, docids) ∷ dict) = length docids + size dict

abbrev pub total : List Dict → ℕ
total [] = 0
total (dict ∷ dicts) = size dict + total dicts

-- `m` is not above the word at which a map stands.
abbrev pub AllFrom : ℕ → ℕ → List Dict → Type 0
AllFrom max_wordid m [] = Unit
AllFrom max_wordid m (dict ∷ dicts) = (m ≤ head_word max_wordid dict) × AllFrom max_wordid m dicts

pub Fine-from :
    (max_wordid b a : ℕ) (dict : Dict) → a ≤ b → Fine max_wordid b dict → Fine max_wordid a dict
Fine-from max_wordid b a [] le h = tt
Fine-from max_wordid b a ((w, docids) ∷ dict) le (from, below, few, words, h) =
    (omega arith, below, few, words, h)

pub Fine-AreEntries :
    (max_wordid b : ℕ) (dict : Dict)
    → max_wordid < 2 ^ 64
    → Fine max_wordid b dict
    → AreEntries dict
Fine-AreEntries max_wordid b [] small h = tt
Fine-AreEntries max_wordid b ((w, docids) ∷ dict) small (from, below, few, words, h) =
    (omega arith, few, words, Fine-AreEntries max_wordid (suc w) dict small h)

abbrev stored : Option (List ℕ) → List ℕ
stored none = []
stored (some docids) = docids

stored_if :
    (b : Bool) (x y : Option (List ℕ))
    → stored (if b then x else y) ≡ (if b then stored x else stored y)
stored_if true x y = refl
stored_if false x y = refl

pub docs_of-cons :
    (w k : ℕ) (docids : List ℕ) (dict : Dict)
    → docs_of w ((k, docids) ∷ dict) ≡ (if k == w then docids else docs_of w dict)
unfolding lookup
docs_of-cons w k docids dict = stored_if (k == w) (some docids) (lookup w dict)

pub or_left : (a b : Bool) → a ≡ true → (a || b) ≡ true
or_left a b e = ap (λ k. k || b) e

pub or_right : (a b : Bool) → b ≡ true → (a || b) ≡ true
or_right true b e = refl
or_right false b e = e

module _ (max_wordid : ℕ) where
  pub least-le : (m : ℕ) (dicts : List Dict) → least max_wordid m dicts ≤ m
  least-le m [] = omega arith
  least-le m (dict ∷ dicts) =
      ground (arith, least-le m dicts, least-le (head_word max_wordid dict) dicts)

  pub least-AllFrom :
      (m : ℕ) (dicts : List Dict) → AllFrom max_wordid (least max_wordid m dicts) dicts
  least-AllFrom m [] = tt
  least-AllFrom m (dict ∷ dicts) = (
    ground (arith, least-le m dicts, least-le (head_word max_wordid dict) dicts),
    least-AllFrom (if ltb (head_word max_wordid dict) m then head_word max_wordid dict else m)
        dicts,
  )

  head_word-from :
      (b : ℕ) (dict : Dict)
      → b ≤ max_wordid
      → Fine max_wordid b dict
      → b ≤ head_word max_wordid dict
  head_word-from b [] le h = le
  head_word-from b ((w, docids) ∷ dict) le h = h.0

  pub least-from :
      (b m : ℕ) (dicts : List Dict)
      → b ≤ m
      → b ≤ max_wordid
      → AllFine max_wordid b dicts
      → b ≤ least max_wordid m dicts
  least-from b m [] le lm h = le
  least-from b m (dict ∷ dicts) le lm (f, h) =
      least-from b (if ltb (head_word max_wordid dict) m then head_word max_wordid dict else m)
        dicts (ground (arith, head_word-from b dict lm f)) lm h

  head_word-key :
      (dict : Dict) (m : ℕ)
      → head_word max_wordid dict < m
      → m ≤ max_wordid
      → mem (head_word max_wordid dict) (keys dict) ≡ true
  head_word-key [] m lt le = absurd (omega arith)
  head_word-key ((w, docids) ∷ dict) m lt le = rw (==-refl w) refl

  -- The least word is that of a map, if it is not `m`.
  pub least-key :
      (m : ℕ) (dicts : List Dict)
      → m ≤ max_wordid
      → (least max_wordid m dicts ≡ m) ⊎ (any_key (least max_wordid m dicts) dicts ≡ true)
  least-key m [] le = inl refl
  least-key m (dict ∷ dicts) le = elim (Bool-cases (ltb (head_word max_wordid dict) m)) [
    | inl e ↦ at (if-true (ltb (head_word max_wordid dict) m) _ _ e) (
        inr (elim (least-key (head_word max_wordid dict) dicts (ground (arith, e))) [
          | inl same ↦ rw (same, head_word-key dict m (ground (arith, e)) le) refl
          | inr there ↦
              or_right (mem (least max_wordid (head_word max_wordid dict) dicts) (keys dict)) _
                there
        ]))
    | inr e ↦ at (if-false (ltb (head_word max_wordid dict) m) _ _ e) (elim (least-key m dicts le) [
      | inl same ↦ inl same
      | inr there ↦ inr (or_right (mem (least max_wordid m dicts) (keys dict)) _ there)
    ])
  ]
    where
      at :
          {k : ℕ}
          → (if ltb (head_word max_wordid dict) m then head_word max_wordid dict else m) ≡ k
          → (least max_wordid k dicts ≡ m)
            ⊎ (any_key (least max_wordid k dicts) (dict ∷ dicts) ≡ true)
          → (least max_wordid m (dict ∷ dicts) ≡ m)
            ⊎ (any_key (least max_wordid m (dict ∷ dicts)) (dict ∷ dicts) ≡ true)
      at e h =
          subst
            (λ k.
              (least max_wordid k dicts ≡ m)
              ⊎ (any_key (least max_wordid k dicts) (dict ∷ dicts) ≡ true))
            (sym e) h

  absent :
      (m b : ℕ) (dict : Dict)
      → m < b
      → Fine max_wordid b dict
      → (mem m (keys dict) ≡ false) × (lookup m dict ≡ none)
  unfolding lookup
  absent m b [] lt h = (refl, refl)
  absent m b ((w, docids) ∷ dict) lt (from, below, few, words, h) =
      let (no_key, no_docs) = absent m (suc w) dict (omega arith) h in
      let other : (w == m) ≡ false = ne→== w m (λ e. omega (arith, e, lt, from)) in
      (rw (other, no_key) refl, rw (other, no_docs) refl)

  -- A map that stands at `m` or behind it.
  module _ (m b : ℕ) where
    pub first_docs-eq :
        (dict : Dict)
        → Fine max_wordid b dict
        → m ≤ head_word max_wordid dict
        → docs_of m dict ≡ first_docs m dict
    unfolding lookup
    first_docs-eq [] h le = refl
    first_docs-eq ((w, docids) ∷ dict) (from, below, few, words, h) le =
        docs_of-cons m w docids dict ∙ elim (Bool-cases (w == m)) [
          | inl e ↦ rw e refl
          | inr e ↦ rw e (ap stored (absent m (suc w) dict (ground (arith, e, le)) h).1)
        ]

    later-Fine :
        (dict : Dict)
        → Fine max_wordid b dict
        → m ≤ head_word max_wordid dict
        → Fine max_wordid (suc m) (later m dict)
    later-Fine [] h le = tt
    later-Fine ((w, docids) ∷ dict) (from, below, few, words, h) le = elim (Bool-cases (w == m)) [
      | inl e ↦ rw e (subst (λ k. Fine max_wordid (suc k) dict) (==→eq w m e) h)
      | inr e ↦ rw e (ground (arith, e, le), below, few, words, h)
    ]

    later-length :
        (dict : Dict)
        → Fine max_wordid b dict
        → m ≤ head_word max_wordid dict
        → mem m (keys dict) ≡ true
        → length (later m dict) < length dict
    later-length [] h le here = cc
    later-length ((w, docids) ∷ dict) (from, below, few, words, h) le here =
        elim (Bool-cases (w == m)) [
          | inl e ↦ rw e (omega arith)
          | inr e ↦
              absurd (ground (arith, here, e, (absent m (suc w) dict (ground (arith, e, le)) h).0))
        ]

  pub leave-AllFine :
      (m b : ℕ) (dicts : List Dict)
      → AllFine max_wordid b dicts
      → AllFrom max_wordid m dicts
      → AllFine max_wordid (suc m) (leave m dicts)
  leave-AllFine m b [] h from = tt
  leave-AllFine m b (dict ∷ dicts) (f, h) (le, from) =
      (later-Fine m b dict f le, leave-AllFine m b dicts h from)

  later-le :
      (m : ℕ) (dict : Dict)
      → (length (later m dict) ≤ length dict) × (size (later m dict) ≤ size dict)
  later-le m [] = (omega arith, omega arith)
  later-le m ((w, docids) ∷ dict) = ground arith

  pub leave-le :
      (m : ℕ) (dicts : List Dict)
      → (entries (leave m dicts) ≤ entries dicts) × (total (leave m dicts) ≤ total dicts)
  leave-le m [] = (omega arith, omega arith)
  leave-le m (dict ∷ dicts) = (
    omega (arith, later-le m dict, leave-le m dicts),
    omega (arith, later-le m dict, leave-le m dicts),
  )

  pub leave-entries :
      (m b : ℕ) (dicts : List Dict)
      → AllFine max_wordid b dicts
      → AllFrom max_wordid m dicts
      → any_key m dicts ≡ true
      → entries (leave m dicts) < entries dicts
  leave-entries m b [] h from here = cc
  leave-entries m b (dict ∷ dicts) (f, h) (le, from) here = elim (Bool-cases (mem m (keys dict))) [
    | inl e ↦ omega (arith, later-length m b dict f le e, (leave-le m dicts).0)
    | inr e ↦ omega (
      arith,
      (later-le m dict).0,
      leave-entries m b dicts h from (sym (ap (λ k. k || any_key m dicts) e) ∙ here),
    )
  ]
