-- ===== src/Messages/Dictionary.antt =====
-- `std::map<int, V>`: the entries in the order of their keys.
use multithread.Base.{
  Bool-cases, false, inl, inr, subst, sym, ◌∙◌, ==→eq, if-true, if-false, ℕ, ◌≡◌, refl, Option,
  none, some, List, [], ◌∷◌, ◌==◌, ltb, if◌then◌else◌, arith,
}

pub some_inj {ℓ} : {A : Type ℓ} {a b : A} → some a ≡ some b → a ≡ b
some_inj e = cc

module _ {ℓ} {V : Type ℓ} where
  -- `find(k)`, as the value behind the iterator; `none` is `end()`.
  unfoldable pub lookup : ℕ → List (ℕ × V) → Option V
  lookup k [] = none
  lookup k ((j, v) ∷ m) = if j == k then some v else lookup k m

  -- `emplace(k, v)`: nothing happens if the key is there.
  unfoldable pub emplace : ℕ → V → List (ℕ × V) → List (ℕ × V)
  emplace k v [] = (k, v) ∷ []
  emplace k v ((j, w) ∷ m) =
      if j == k then (j, w) ∷ m else if ltb k j then (k, v) ∷ (j, w) ∷ m else (j, w) ∷ emplace k v m

  -- A change of the value behind an iterator.
  unfoldable pub put : ℕ → V → List (ℕ × V) → List (ℕ × V)
  put k v [] = []
  put k v ((j, w) ∷ m) = if j == k then (j, v) ∷ m else (j, w) ∷ put k v m

  -- `m[k] = v`
  unfoldable pub assign : ℕ → V → List (ℕ × V) → List (ℕ × V)
  assign k v m = elim (lookup k m) [ none ↦ emplace k v m | some old ↦ put k v m ]

  -- `erase(k)`
  unfoldable pub erase : ℕ → List (ℕ × V) → List (ℕ × V)
  erase k [] = []
  erase k ((j, w) ∷ m) = if j == k then m else (j, w) ∷ erase k m

  pub lookup-empty : (k : ℕ) → lookup k [] ≡ none
  unfolding lookup
  lookup-empty k = refl

  pub lookup-emplace :
      (k j : ℕ) (v : V) (m : List (ℕ × V))
      → lookup k m ≡ none
      → lookup j (emplace k v m) ≡ (if k == j then some v else lookup j m)
  unfolding lookup emplace
  lookup-emplace k j v [] h = refl
  lookup-emplace k j v ((i, w) ∷ m) h = ground (arith, lookup-emplace k j v m)

  pub lookup-put :
      (k j : ℕ) (v w : V) (m : List (ℕ × V))
      → lookup k m ≡ some w
      → lookup j (put k v m) ≡ (if k == j then some v else lookup j m)
  unfolding lookup put
  lookup-put k j v w [] h = cc
  lookup-put k j v w ((i, u) ∷ m) h = ground (arith, lookup-put k j v w m)

  pub erase_absent : (k : ℕ) (m : List (ℕ × V)) → lookup k m ≡ none → erase k m ≡ m
  unfolding lookup erase
  erase_absent k [] h = refl
  erase_absent k ((j, w) ∷ m) h = ground (arith, erase_absent k m)

  pub lookup-erase_ne :
      (k j : ℕ) (m : List (ℕ × V)) → (k == j) ≡ false → lookup j (erase k m) ≡ lookup j m
  unfolding lookup erase
  lookup-erase_ne k j [] ne = refl
  lookup-erase_ne k j ((i, w) ∷ m) ne = ground (arith, lookup-erase_ne k j m ne)

  -- Every entry has the property.
  module _ {κ} (P : ℕ → V → Type κ) where
    abbrev pub Entries : List (ℕ × V) → Type κ
    Entries [] = Unit
    Entries ((j, v) ∷ m) = P j v × Entries m

    pub Entries-emplace :
        (k : ℕ) (v : V) (m : List (ℕ × V)) → P k v → Entries m → Entries (emplace k v m)
    unfolding emplace
    Entries-emplace k v [] p h = (p, tt)
    Entries-emplace k v ((j, w) ∷ m) p h = elim (Bool-cases (j == k)) [
      | inl e ↦ rw (emplace, e) h
      | inr e ↦ elim (Bool-cases (ltb k j)) [
        | inl l ↦ rw (emplace, e, l) (p, h)
        | inr l ↦ rw (emplace, e, l) (h.0, Entries-emplace k v m p h.1)
      ]
    ]

    pub Entries-put : (k : ℕ) (v : V) (m : List (ℕ × V)) → P k v → Entries m → Entries (put k v m)
    unfolding put
    Entries-put k v [] p h = tt
    Entries-put k v ((j, w) ∷ m) p h = elim (Bool-cases (j == k)) [
      | inl e ↦ rw (put, e) (subst (λ i. P i v) (sym (==→eq j k e)) p, h.1)
      | inr e ↦ rw (put, e) (h.0, Entries-put k v m p h.1)
    ]

    pub Entries-erase : (k : ℕ) (m : List (ℕ × V)) → Entries m → Entries (erase k m)
    unfolding erase
    Entries-erase k [] h = tt
    Entries-erase k ((j, w) ∷ m) h = elim (Bool-cases (j == k)) [
      | inl e ↦ rw (erase, e) h.1
      | inr e ↦ rw (erase, e) (h.0, Entries-erase k m h.1)
    ]

    pub Entries-lookup :
        (k : ℕ) (v : V) (m : List (ℕ × V)) → Entries m → lookup k m ≡ some v → P k v
    unfolding lookup
    Entries-lookup k v [] h e = absurd (cc)
    Entries-lookup k v ((j, w) ∷ m) h e = elim (Bool-cases (j == k)) [
      | inl i ↦
          subst (λ n. P n v) (==→eq j k i)
            (subst (P j) (some_inj (sym (if-true (j == k) (some w) (lookup k m) i) ∙ e)) h.0)
      | inr i ↦ Entries-lookup k v m h.1 (sym (if-false (j == k) (some w) (lookup k m) i) ∙ e)
    ]
