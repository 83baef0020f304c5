-- ===== src/Shell/Signs.antt =====
-- What the two calls of `replace` in `parse` (p5/parser.cpp) make of a written command line.
use multithread.Base.{
  ℕ, ◌≡◌, refl, ◌∙◌, sym, ap, subst, true, false, List, [], ◌∷◌, ◌++◌, ◌==◌, drop, Bool-cases, inl,
  inr, ==→eq,
}
use multithread.Shell.Parser.{Comand, is_delimeter}
use multithread.Shell.Doubled.{squeeze, Without, squeeze-Without}
use multithread.Shell.Lines.{Op, either, both, next, text, Pipeline}
use multithread.Shell.Printed.{
  IsFree, print_comand, print_commands, print_ops, print_line, AllWritten, OpsWritten,
  print_comand-IsFree,
}

-- The texts of the operators after each of the two replacements.
abbrev pub half : Op → List ℕ
half either = 64 ∷ []
half both = 38 ∷ 38 ∷ []
half next = 59 ∷ []

abbrev pub sign : Op → ℕ
sign either = 64
sign both = 36
sign next = 59

begins :
    (c : Comand) (cs : List Comand) (rest : List ℕ)
    → 32 ∷ drop 1 (print_commands c cs rest) ≡ print_commands c cs rest
begins c [] rest = refl
begins c (c' ∷ cs) rest = refl

IsFree-Without : (a b : ℕ) (s : List ℕ) → is_delimeter a ≡ true → IsFree s → Without a b s
IsFree-Without a b [] d h = tt
IsFree-Without a b (c ∷ s) d (f, h) = (
  elim (Bool-cases (a == c)) [
    | inl e ↦ absurd (true-ne-false (sym d ∙ ap is_delimeter (==→eq a c e) ∙ f))
    | inr e ↦ e
  ],
  IsFree-Without a b s d h,
)
  where
    true-ne-false : true ≡ false → ⊥
    true-ne-false e = cc

module _ (a b : ℕ) (d : is_delimeter a ≡ true)
    (pipes : (rest : List ℕ) → squeeze a b (124 ∷ 32 ∷ rest) ≡ 124 ∷ squeeze a b (32 ∷ rest)) where
  squeeze-commands :
      (c : Comand) (cs : List Comand) (rest : List ℕ)
      → AllWritten c cs
      → squeeze a b (print_commands c cs rest) ≡ print_commands c cs (squeeze a b rest)
  squeeze-commands c [] rest h =
      squeeze-Without a b (print_comand c) rest
        (IsFree-Without a b (print_comand c) d (print_comand-IsFree c h))
  squeeze-commands c (c' ∷ cs) rest (h, hs) =
      squeeze-Without a b (print_comand c) (124 ∷ print_commands c' cs rest)
        (IsFree-Without a b (print_comand c) d (print_comand-IsFree c h))
      ∙ ap (λ l. print_comand c ++ l)
          (subst (λ l. squeeze a b (124 ∷ l) ≡ 124 ∷ squeeze a b l) (begins c' cs rest)
              (pipes (drop 1 (print_commands c' cs rest)))
            ∙ ap (◌∷◌ 124) (squeeze-commands c' cs rest hs))

  squeeze-ops :
      (t t' : Op → List ℕ)
      → ((op : Op) (rest : List ℕ)
          → squeeze a b (t op ++ 32 ∷ rest) ≡ t' op ++ squeeze a b (32 ∷ rest))
      → (ops : List (Op × Pipeline)) → OpsWritten ops
      → squeeze a b (print_ops t ops) ≡ print_ops t' ops
  squeeze-ops t t' step [] h = refl
  squeeze-ops t t' step ((op, p) ∷ ops) (h, hs) =
      subst (λ l. squeeze a b (t op ++ l) ≡ t' op ++ squeeze a b l)
        (begins p.first p.more (print_ops t ops))
        (step op (drop 1 (print_commands p.first p.more (print_ops t ops))))
      ∙ ap (λ l. t' op ++ l)
          (squeeze-commands p.first p.more (print_ops t ops) h
            ∙ ap (print_commands p.first p.more) (squeeze-ops t t' step ops hs))

pub once :
    (p : Pipeline) (ops : List (Op × Pipeline))
    → AllWritten p.first p.more
    → OpsWritten ops
    → squeeze 124 64 (print_line p ops) ≡ print_commands p.first p.more (print_ops half ops)
once p ops h hs =
    squeeze-commands 124 64 refl (λ rest. refl) p.first p.more (print_ops text ops) h
    ∙ ap (print_commands p.first p.more)
        (squeeze-ops 124 64 refl (λ rest. refl) text half step ops hs)
  where
    step :
        (op : Op) (rest : List ℕ)
        → squeeze 124 64 (text op ++ 32 ∷ rest) ≡ half op ++ squeeze 124 64 (32 ∷ rest)
    step either rest = refl
    step both rest = refl
    step next rest = refl

pub twice :
    (p : Pipeline) (ops : List (Op × Pipeline))
    → AllWritten p.first p.more
    → OpsWritten ops
    → squeeze 38 36 (print_commands p.first p.more (print_ops half ops))
      ≡ print_commands p.first p.more (print_ops (λ op. sign op ∷ []) ops)
twice p ops h hs =
    squeeze-commands 38 36 refl (λ rest. refl) p.first p.more (print_ops half ops) h
    ∙ ap (print_commands p.first p.more)
        (squeeze-ops 38 36 refl (λ rest. refl) half (λ op. sign op ∷ []) step ops hs)
  where
    step :
        (op : Op) (rest : List ℕ)
        → squeeze 38 36 (half op ++ 32 ∷ rest) ≡ sign op ∷ squeeze 38 36 (32 ∷ rest)
    step either rest = refl
    step both rest = refl
    step next rest = refl
