-- ===== src/Index/Growing.antt =====
-- A map to which `createIndexsFiles` (p4/main.cpp) adds documents stays in order and within its size.
use multithread.Base.{
  ℕ, suc, ◌+◌, ◌^◌, ◌≤◌, ◌<◌, ◌≡◌, refl, ◌∙◌, sym, subst, inl, inr, Option, none, some, List, [],
  ◌∷◌, length, ◌==◌, ltb, arith, Bool-cases, if-true, if-false,
}
use multithread.Messages.Dictionary.{lookup, emplace, put, some_inj}
use multithread.Index.Files.{AreWords}
use multithread.Index.Create.{insert, Dict, add_posting, add_document}
use multithread.Index.Least.{Fine, size}

length-insert : (d : ℕ) (xs : List ℕ) → length (insert d xs) ≤ suc (length xs)
unfolding insert
length-insert d [] = omega arith
length-insert d (x ∷ xs) = ground (arith, length-insert d xs)

insert-AreWords : (d : ℕ) (xs : List ℕ) → d < 2 ^ 64 → AreWords xs → AreWords (insert d xs)
unfolding insert
insert-AreWords d [] small h = (small, tt)
insert-AreWords d (x ∷ xs) small (first, h) = elim (Bool-cases (x == d)) [
  | inl e ↦ rw (insert, e) (first, h)
  | inr e ↦ elim (Bool-cases (ltb d x)) [
    | inl l ↦ rw (insert, e, l) (small, (first, h))
    | inr l ↦ rw (insert, e, l) (first, insert-AreWords d xs small h)
  ]
]

module _ (m : ℕ) where
  emplace-Fine :
      (b w : ℕ) (docids : List ℕ) (dict : Dict)
      → b ≤ w
      → w < m
      → length docids < 2 ^ 29
      → AreWords docids
      → Fine m b dict
      → Fine m b (emplace w docids dict)
  unfolding emplace
  emplace-Fine b w docids [] le lt few words h = (le, lt, few, words, tt)
  emplace-Fine b w docids ((k, ds) ∷ dict) le lt few words (from, below, few', words', h) =
      elim (Bool-cases (k == w)) [
        | inl e ↦ rw (emplace, e) (from, below, few', words', h)
        | inr e ↦ elim (Bool-cases (ltb w k)) [
          | inl l ↦
              rw (emplace, e, l) (le, lt, few, words, (ground (arith, l), below, few', words', h))
          | inr l ↦
              rw (emplace, e, l)
                (
                  from,
                  below,
                  few',
                  words',
                  emplace-Fine (suc k) w docids dict (ground (arith, e, l)) lt few words h,
                )
        ]
      ]

  put-Fine :
      (b w : ℕ) (docids : List ℕ) (dict : Dict)
      → length docids < 2 ^ 29
      → AreWords docids
      → Fine m b dict
      → Fine m b (put w docids dict)
  unfolding put
  put-Fine b w docids [] few words h = tt
  put-Fine b w docids ((k, ds) ∷ dict) few words (from, below, few', words', h) =
      elim (Bool-cases (k == w)) [
        | inl e ↦ rw (put, e) (from, below, few, words, h)
        | inr e ↦
            rw (put, e) (from, below, few', words', put-Fine (suc k) w docids dict few words h)
      ]

  -- What stands in a map.
  stored-Fine :
      (b w : ℕ) (docids : List ℕ) (dict : Dict)
      → Fine m b dict
      → lookup w dict ≡ some docids
      → AreWords docids × (length docids ≤ size dict)
  unfolding lookup
  stored-Fine b w docids [] h e = absurd (cc)
  stored-Fine b w docids ((k, ds) ∷ dict) (from, below, few, words, h) e =
      elim (Bool-cases (k == w)) [
        | inl i ↦
            subst (λ l. AreWords l × (length l ≤ length ds + size dict))
              (some_inj (sym (if-true (k == w) (some ds) (lookup w dict) i) ∙ e))
              (words, omega arith)
        | inr i ↦
            let found =
              stored-Fine (suc k) w docids dict h
                (sym (if-false (k == w) (some ds) (lookup w dict) i) ∙ e) in
            (found.0, omega (arith, found.1))
      ]

size-emplace :
    (w : ℕ) (docids : List ℕ) (dict : Dict)
    → size (emplace w docids dict) ≤ size dict + length docids
unfolding emplace
size-emplace w docids [] = omega arith
size-emplace w docids ((k, ds) ∷ dict) = ground (arith, size-emplace w docids dict)

size-put :
    (w : ℕ) (old docids : List ℕ) (dict : Dict)
    → lookup w dict ≡ some old
    → length docids ≤ suc (length old)
    → size (put w docids dict) ≤ suc (size dict)
unfolding put lookup
size-put w old docids [] e le = absurd (cc)
size-put w old docids ((k, ds) ∷ dict) e le = ground (arith, e, le, size-put w old docids dict)

length-emplace : (w : ℕ) (docids : List ℕ) (dict : Dict) → 0 < length (emplace w docids dict)
unfolding emplace
length-emplace w docids [] = omega arith
length-emplace w docids ((k, ds) ∷ dict) = ground (arith, length-emplace w docids dict)

length-put : (w : ℕ) (docids : List ℕ) (dict : Dict) → length (put w docids dict) ≡ length dict
unfolding put
length-put w docids [] = refl
length-put w docids ((k, ds) ∷ dict) = ground (arith, length-put w docids dict)

lookup-some :
    (w : ℕ) (docids : List ℕ) (dict : Dict) → lookup w dict ≡ some docids → 0 < length dict
unfolding lookup
lookup-some w docids [] e = absurd (cc)
lookup-some w docids (d ∷ dict) e = omega arith

abbrev pub AllBelow : ℕ → List ℕ → Type 0
AllBelow m [] = Unit
AllBelow m (w ∷ words) = (w < m) × AllBelow m words

-- A map to which documents are added, with room for `more` numbers.
pub record Grows (m more : ℕ) (dict : Dict) : Type 0 where
  pub fine : Fine m 0 dict
  pub room : size dict + more < 2 ^ 29

module _ (m docid : ℕ) (small : docid < 2 ^ 64) where
  add_posting-Grows :
      (w more : ℕ) (dict : Dict)
      → w < m
      → Grows m (suc more) dict
      → Grows m more (add_posting docid w dict)
        × (0 < length (add_posting docid w dict))
        × (size (add_posting docid w dict) ≤ suc (size dict))
  unfolding add_posting insert
  add_posting-Grows w more dict lt g = go (lookup w dict) refl
    where
      go :
          (old : Option (List ℕ))
          → lookup w dict ≡ old
          → Grows m more (elim old [
            | none ↦ emplace w (insert docid []) dict
            | some docids ↦ put w (insert docid docids) dict
          ])
            × (0
                < length {A = ℕ × List ℕ} (elim old [
                  | none ↦ emplace w (insert docid []) dict
                  | some docids ↦ put w (insert docid docids) dict
                ]))
            × (size (elim old [
              | none ↦ emplace w (insert docid []) dict
              | some docids ↦ put w (insert docid docids) dict
            ])
                ≤ suc (size dict))
      go none e = (
        record {
          fine =
              emplace-Fine m 0 w (docid ∷ []) dict (omega arith) lt (omega arith) (small, tt)
                g.fine;
          room = omega (arith, size-emplace w (docid ∷ []) dict, g.room);
        },
        length-emplace w (docid ∷ []) dict,
        omega (arith, size-emplace w (docid ∷ []) dict),
      )
      go (some docids) e =
          let (words, few) = stored-Fine m 0 w docids dict g.fine e in
          let grown = size-put w docids (insert docid docids) dict e (length-insert docid docids) in
          (
            record {
              fine =
                  put-Fine m 0 w (insert docid docids) dict
                    (omega (arith, length-insert docid docids, few, g.room))
                    (insert-AreWords docid docids small words) g.fine;
              room = omega (arith, grown, g.room);
            },
            omega (arith, length-put w (insert docid docids) dict, lookup-some w docids dict e),
            grown,
          )

  pub add_document-Grows :
      (wordids : List ℕ) (more : ℕ) (dict : Dict)
      → AllBelow m wordids
      → Grows m (length wordids + more) dict
      → Grows m more (add_document docid wordids dict)
        × (0 < length dict + length wordids → 0 < length (add_document docid wordids dict))
        × (size (add_document docid wordids dict) ≤ size dict + length wordids)
  unfolding add_document
  add_document-Grows [] more dict lt g =
      (record { fine = g.fine; room = omega (arith, g.room) }, λ h. omega arith, omega arith)
  add_document-Grows (w ∷ wordids) more dict (lt, below) g =
      let (g', full, le) =
        add_posting-Grows w (length wordids + more) dict lt
          (record { fine = g.fine; room = omega (arith, g.room) }) in
      let (g'', still, le') = add_document-Grows wordids more (add_posting docid w dict) below g' in
      (g'', λ h. still (omega (arith, full)), omega (arith, le, le'))
