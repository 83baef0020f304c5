-- ===== src/Shell/Doubled.antt =====
-- `replace` of p5/parser.cpp, where it puts one byte in the place of two equal ones.
use multithread.Base.{
  ℕ, zero, suc, ◌≤◌, ◌<◌, ◌≡◌, refl, ◌∙◌, sym, ap, Bool, true, false, ◌&&◌, Option, none, some,
  List, [], ◌∷◌, ◌++◌, length, arith, append_assoc, inl, inr, Bool-cases, ◌==◌,
}
use multithread.Messages.Message.{◌>>=◌}
use multithread.Shell.Parser.{find_string, replace_loop, replace}

-- From the left, `b` for each pair `aa`.
abbrev pub squeeze : ℕ → ℕ → List ℕ → List ℕ
squeeze a b [] = []
squeeze a b (c ∷ []) = c ∷ []
squeeze a b (c ∷ d ∷ str) = elim ((a == c) && (a == d)) [
  | true ↦ b ∷ squeeze a b str
  | false ↦ c ∷ squeeze a b (d ∷ str)
]

module _ (a b : ℕ) where
  -- What is found, and what is behind it.
  abbrev Found : List ℕ → Option (List ℕ × List ℕ) → Type 0
  Found str none = squeeze a b str ≡ str
  Found str (some (before, behind)) =
      (squeeze a b str ≡ before ++ b ∷ squeeze a b behind) × (length behind < length str)

  and_true : (p q : Bool) → (p && (q && true)) ≡ (p && q)
  and_true p true = refl
  and_true true false = refl
  and_true false false = refl

  pair :
      (c d : ℕ) (str : List ℕ)
      → ((a == c) && (a == d)) ≡ true
      → squeeze a b (c ∷ d ∷ str) ≡ b ∷ squeeze a b str
  pair c d str e = rw (squeeze, e) refl

  Found-later :
      (c d : ℕ) (str : List ℕ) (found : Option (List ℕ × List ℕ))
      → ((a == c) && (a == d)) ≡ false
      → Found (d ∷ str) found
      → Found (c ∷ d ∷ str) (found >>= λ r. some (c ∷ r.0, r.1))
  Found-later c d str none other e = rw (squeeze, other) (ap (◌∷◌ c) e)
  Found-later c d str (some (before, behind)) other (e, less) =
      (rw (squeeze, other) (ap (◌∷◌ c) e), omega (arith, less))

  find_string-Found : (str : List ℕ) → Found str (find_string (a ∷ a ∷ []) str)
  unfolding find_string
  find_string-Found [] = refl
  find_string-Found (c ∷ []) = elim (Bool-cases (a == c)) [ inl e ↦ rw e refl | inr e ↦ rw e refl ]
  find_string-Found (c ∷ d ∷ str) = elim (Bool-cases ((a == c) && (a == d))) [
    | inl e ↦ rw (and_true (a == c) (a == d), e) (pair c d str e, omega arith)
    | inr e ↦
        rw (and_true (a == c) (a == d), e)
          (Found-later c d str (find_string (a ∷ a ∷ []) (d ∷ str)) e (find_string-Found (d ∷ str)))
  ]

  round :
      (fuel : ℕ) (str : List ℕ)
      → length str ≤ suc fuel
      → (r : Option (List ℕ × List ℕ))
      → ((s : List ℕ) → length s ≤ fuel → replace_loop fuel s (a ∷ a ∷ []) (b ∷ []) ≡ squeeze a b s)
      → find_string (a ∷ a ∷ []) str ≡ r
      → Found str r
      → replace_loop (suc fuel) str (a ∷ a ∷ []) (b ∷ []) ≡ squeeze a b str
  unfolding replace_loop
  round fuel str le none later e f = rw (replace_loop, e) (sym f)
  round fuel str le (some (before, behind)) later e (f, less) =
      rw (replace_loop, e)
        (append_assoc before (b ∷ []) (replace_loop fuel behind (a ∷ a ∷ []) (b ∷ []))
          ∙ ap (λ l. before ++ b ∷ l) (later behind (omega arith))
          ∙ sym f)

  replace_loop_lem :
      (fuel : ℕ) (str : List ℕ)
      → length str ≤ fuel
      → replace_loop fuel str (a ∷ a ∷ []) (b ∷ []) ≡ squeeze a b str
  unfolding replace_loop
  replace_loop_lem zero [] le = refl
  replace_loop_lem zero (c ∷ str) le = absurd (omega arith)
  replace_loop_lem (suc fuel) str le =
      round fuel str le (find_string (a ∷ a ∷ []) str) (λ s le'. replace_loop_lem fuel s le') refl
        (find_string-Found str)

  -- `replace` puts `b` for each pair `aa`, from the left.
  pub replace-squeeze : (str : List ℕ) → replace str (a ∷ a ∷ []) (b ∷ []) ≡ squeeze a b str
  unfolding replace
  replace-squeeze str = replace_loop_lem (length str) str (omega arith)

  -- Where `a` does not occur, nothing changes.
  pub squeeze-other :
      (c : ℕ) (str : List ℕ) → (a == c) ≡ false → squeeze a b (c ∷ str) ≡ c ∷ squeeze a b str
  squeeze-other c [] e = refl
  squeeze-other c (d ∷ str) e = rw (squeeze, e) refl

  abbrev pub Without : List ℕ → Type 0
  Without [] = Unit
  Without (c ∷ s) = ((a == c) ≡ false) × Without s

  pub squeeze-Without :
      (s rest : List ℕ) → Without s → squeeze a b (s ++ rest) ≡ s ++ squeeze a b rest
  squeeze-Without [] rest h = refl
  squeeze-Without (c ∷ s) rest (e, h) =
      squeeze-other c (s ++ rest) e ∙ ap (◌∷◌ c) (squeeze-Without s rest h)
