-- ===== src/Shell/Words.antt =====
-- `add_comand` of p5/parser.cpp gives back the words of a command line.
use multithread.Base.{
  ℕ, ◌≡◌, refl, ◌∙◌, sym, ap, Bool, true, false, ◌||◌, some, List, [], ◌∷◌, ◌++◌, append_assoc,
  append-nil, arith,
}
use multithread.Shell.Parser.{
  new_comand, same, is_separator, nonempty, split_parts, redirect, add_comand,
}

-- No byte is a blank, '<' or '>'.
abbrev pub IsPlain : List ℕ → Type 0
IsPlain [] = Unit
IsPlain (c ∷ s) = (is_separator c ≡ false) × IsPlain s

-- Words of one byte at least.
abbrev pub AreWords : List (List ℕ) → Type 0
AreWords [] = Unit
AreWords ([] ∷ words) = ⊥
AreWords ((c ∷ s) ∷ words) = IsPlain (c ∷ s) × AreWords words

-- The line of some words, with a blank behind each.
abbrev pub line : List (List ℕ) → List ℕ
line [] = []
line (word ∷ words) = word ++ 32 ∷ line words

nonempty-snoc :
    (part : List ℕ) (c : ℕ) (s : List ℕ) → nonempty (part ++ c ∷ s) ≡ (part ++ c ∷ s) ∷ []
nonempty-snoc [] c s = refl
nonempty-snoc (b ∷ part) c s = refl

-- A blank ends the part that has been searched.
pub split_parts-word :
    (part word rest : List ℕ)
    → IsPlain word
    → split_parts part (word ++ 32 ∷ rest) ≡ nonempty (part ++ word) ++ split_parts [] rest
unfolding split_parts
split_parts-word part [] rest plain =
    ap (λ l. l ++ split_parts [] rest) (append-nil (nonempty part))
    ∙ ap (λ l. nonempty l ++ split_parts [] rest) (sym (append-nil part))
split_parts-word part (c ∷ word) rest plain =
    rw (split_parts, plain.0)
      (split_parts-word (part ++ c ∷ []) word rest plain.1
        ∙ ap (λ l. nonempty l ++ split_parts [] rest) (append_assoc part (c ∷ []) word))

pub split_parts-line :
    (words : List (List ℕ)) → AreWords words → split_parts [] (line words) ≡ words
unfolding split_parts
split_parts-line [] w = refl
split_parts-line ([] ∷ words) w = absurd w
split_parts-line ((c ∷ s) ∷ words) w =
    split_parts-word [] (c ∷ s) (line words) w.0 ∙ ap (◌∷◌ (c ∷ s)) (split_parts-line words w.1)

pub plain-is_no_redirect :
    (c : ℕ) (s : List ℕ)
    → is_separator c ≡ false
    → (same (c ∷ s) (60 ∷ []) || same (c ∷ s) (62 ∷ [])) ≡ false
plain-is_no_redirect c s h = ground (arith, h)

redirect-words :
    (follows : Bool) (words : List (List ℕ)) (infile outfile : List ℕ)
    → AreWords words
    → redirect follows words infile outfile ≡ some (words, infile, outfile)
unfolding redirect
redirect-words follows [] infile outfile w = refl
redirect-words follows ([] ∷ words) infile outfile w = absurd w
redirect-words follows ((c ∷ s) ∷ []) infile outfile w =
    rw (redirect, plain-is_no_redirect c s (w.0).0) refl
redirect-words follows ((c ∷ s) ∷ name ∷ words) infile outfile w =
    rw
      (
        redirect,
        plain-is_no_redirect c s (w.0).0,
        redirect-words true (name ∷ words) infile outfile w.1,
      )
      refl

-- A line of words, none of them empty and none with a blank, '<' or '>' in it, with a blank
-- behind each, is the command whose name is the first word and whose parameters are all words,
-- without redirection.
pub add_comand_total :
    (word : List ℕ) (words : List (List ℕ))
    → AreWords (word ∷ words)
    → add_comand (line (word ∷ words))
      ≡ some (record { cmd = word; params = word ∷ words; infile = []; outfile = [] })
unfolding add_comand new_comand
add_comand_total word words w =
    rw (add_comand, split_parts-line (word ∷ words) w, redirect-words false (word ∷ words) [] [] w)
      refl
