-- ===== src/Shell/Printed.antt =====
-- Command lines as text, and what `parse` of p5/parser.cpp makes of them.
use multithread.Base.{
  ℕ, ◌≡◌, refl, ◌∙◌, sym, ap, subst, Bool, true, false, some, List, [], ◌∷◌, ◌++◌, append_assoc,
  append-nil, arith, ◌==◌,
}
use multithread.Messages.Message.{◌>>=◌}
use multithread.Shell.Parser.{Comand, new_comand, is_delimeter, split_parts, redirect, add_comand}
use multithread.Shell.Words.{IsPlain, AreWords, line, split_parts-word, plain-is_no_redirect}
use multithread.Shell.Lines.{Op, either, both, next, text, Pipeline}

-- No byte passes a test, and no byte is one of "|@$&;".
abbrev pub Avoids : (ℕ → Bool) → List ℕ → Type 0
Avoids test [] = Unit
Avoids test (c ∷ s) = (test c ≡ false) × Avoids test s

abbrev pub IsFree : List ℕ → Type 0
IsFree s = Avoids is_delimeter s

abbrev pub AllAvoid : (ℕ → Bool) → List (List ℕ) → Type 0
AllAvoid test [] = Unit
AllAvoid test (word ∷ words) = Avoids test word × AllAvoid test words

-- "< name " or "> name ", if there is a name.
abbrev pub print_file : ℕ → List ℕ → List ℕ
print_file mark [] = []
print_file mark (c ∷ name) = mark ∷ (c ∷ name) ++ 32 ∷ []

-- A command, with a blank before it.
abbrev pub print_comand : Comand → List ℕ
print_comand c = 32 ∷ line c.params ++ (print_file 60 c.infile ++ print_file 62 c.outfile)

-- A command that can be written: its name is its first parameter, and no word or file has a blank,
-- a redirection or a delimeter in it.
pub record IsWritten (c : Comand) : Type 0 where
  pub others : List (List ℕ)
  pub params : c.params ≡ c.cmd ∷ others
  pub words : AreWords (c.cmd ∷ others)
  pub free : AllAvoid is_delimeter (c.cmd ∷ others)
  pub infile : IsPlain c.infile × IsFree c.infile
  pub outfile : IsPlain c.outfile × IsFree c.outfile

split_parts-words :
    (words : List (List ℕ)) (rest : List ℕ)
    → AreWords words
    → split_parts [] (line words ++ rest) ≡ words ++ split_parts [] rest
unfolding split_parts
split_parts-words [] rest w = refl
split_parts-words ([] ∷ words) rest w = absurd w
split_parts-words ((c ∷ s) ∷ words) rest w =
    ap (split_parts []) (append_assoc (c ∷ s) (32 ∷ line words) rest)
    ∙ split_parts-word [] (c ∷ s) (line words ++ rest) w.0
    ∙ ap (◌∷◌ (c ∷ s)) (split_parts-words words rest w.1)

-- The parts of a redirection.
abbrev file_parts : ℕ → List ℕ → List (List ℕ)
file_parts mark [] = []
file_parts mark (c ∷ name) = (mark ∷ []) ∷ (c ∷ name) ∷ []

split_parts-infile :
    (name rest : List ℕ)
    → IsPlain name
    → split_parts [] (print_file 60 name ++ rest) ≡ file_parts 60 name ++ split_parts [] rest
unfolding split_parts
split_parts-infile [] rest h = refl
split_parts-infile (c ∷ name) rest h = ap (◌∷◌ (60 ∷ [])) (
    ap (split_parts []) (append_assoc (c ∷ name) (32 ∷ []) rest)
    ∙ split_parts-word [] (c ∷ name) rest h)

split_parts-outfile :
    (name rest : List ℕ)
    → IsPlain name
    → split_parts [] (print_file 62 name ++ rest) ≡ file_parts 62 name ++ split_parts [] rest
unfolding split_parts
split_parts-outfile [] rest h = refl
split_parts-outfile (c ∷ name) rest h = ap (◌∷◌ (62 ∷ [])) (
    ap (split_parts []) (append_assoc (c ∷ name) (32 ∷ []) rest)
    ∙ split_parts-word [] (c ∷ name) rest h)

redirect-word :
    (follows : Bool) (word : List ℕ) (parts : List (List ℕ)) (infile outfile : List ℕ)
    → AreWords (word ∷ [])
    → redirect follows (word ∷ parts) infile outfile
      ≡ (redirect true parts infile outfile >>= λ r. some (word ∷ r.0, r.1, r.2))
unfolding redirect
redirect-word follows [] parts infile outfile w = absurd w
redirect-word follows (c ∷ s) [] infile outfile w =
    rw (redirect, plain-is_no_redirect c s (w.0).0) refl
redirect-word follows (c ∷ s) (name ∷ parts) infile outfile w =
    rw (redirect, plain-is_no_redirect c s (w.0).0) refl

redirect-files :
    (infile outfile : List ℕ)
    → redirect true (file_parts 60 infile ++ (file_parts 62 outfile ++ [])) [] []
      ≡ some ([], infile, outfile)
unfolding redirect
redirect-files [] [] = refl
redirect-files [] (d ∷ outfile) = refl
redirect-files (c ∷ infile) [] = refl
redirect-files (c ∷ infile) (d ∷ outfile) = refl

redirect-all :
    (follows : Bool) (word : List ℕ) (words : List (List ℕ)) (infile outfile : List ℕ)
    → AreWords (word ∷ words)
    → redirect follows
        (word ∷ words ++ (file_parts 60 infile ++ (file_parts 62 outfile ++ [])))
        []
        []
      ≡ some (word ∷ words, infile, outfile)
redirect-all follows [] words infile outfile w = absurd w
redirect-all follows (c ∷ s) [] infile outfile w =
    redirect-word follows (c ∷ s) (file_parts 60 infile ++ (file_parts 62 outfile ++ [])) [] []
      (w.0, tt)
    ∙ ap (λ r. r >>= λ t. some ((c ∷ s) ∷ t.0, t.1, t.2)) (redirect-files infile outfile)
redirect-all follows (c ∷ s) (word ∷ words) infile outfile w =
    redirect-word follows (c ∷ s)
      (word ∷ words ++ (file_parts 60 infile ++ (file_parts 62 outfile ++ []))) [] [] (w.0, tt)
    ∙ ap (λ r. r >>= λ t. some ((c ∷ s) ∷ t.0, t.1, t.2))
        (redirect-all true word words infile outfile w.1)

pub add_comand-print_comand : (c : Comand) → IsWritten c → add_comand (print_comand c) ≡ some c
unfolding add_comand new_comand split_parts
add_comand-print_comand c h =
    let parts : split_parts [] (print_comand c)
        ≡ (c.cmd ∷ h.others) ++ (file_parts 60 c.infile ++ (file_parts 62 c.outfile ++ [])) =
      ap (λ l. split_parts [] (line l ++ (print_file 60 c.infile ++ print_file 62 c.outfile)))
        h.params
      ∙ split_parts-words (c.cmd ∷ h.others) (print_file 60 c.infile ++ print_file 62 c.outfile)
          h.words
      ∙ ap (λ l. (c.cmd ∷ h.others) ++ l)
          (split_parts-infile c.infile (print_file 62 c.outfile) h.infile.0
            ∙ ap (λ l. file_parts 60 c.infile ++ l)
                (ap (split_parts []) (sym (append-nil (print_file 62 c.outfile)))
                  ∙ split_parts-outfile c.outfile [] h.outfile.0)) in
    rw (parts, redirect-all false c.cmd h.others c.infile c.outfile h.words)
      (ap (λ l. some (record c { params = l })) (sym h.params))

-- Pipelines with a text for each operator.
abbrev pub print_commands : Comand → List Comand → List ℕ → List ℕ
print_commands c [] rest = print_comand c ++ rest
print_commands c (c' ∷ cs) rest = print_comand c ++ 124 ∷ print_commands c' cs rest

abbrev pub print_ops : (Op → List ℕ) → List (Op × Pipeline) → List ℕ
print_ops t [] = []
print_ops t ((op, p) ∷ ops) = t op ++ print_commands p.first p.more (print_ops t ops)

-- A line of a pipeline and of operators with pipelines behind them.
abbrev pub print_line : Pipeline → List (Op × Pipeline) → List ℕ
print_line p ops = print_commands p.first p.more (print_ops text ops)

abbrev pub AllWritten : Comand → List Comand → Type 0
AllWritten c [] = IsWritten c
AllWritten c (c' ∷ cs) = IsWritten c × AllWritten c' cs

abbrev pub OpsWritten : List (Op × Pipeline) → Type 0
OpsWritten [] = Unit
OpsWritten ((op, p) ∷ ops) = AllWritten p.first p.more × OpsWritten ops

module _ (test : ℕ → Bool) where
  Avoids-append : (s t : List ℕ) → Avoids test s → Avoids test t → Avoids test (s ++ t)
  Avoids-append [] t hs ht = ht
  Avoids-append (c ∷ s) t (e, hs) ht = (e, Avoids-append s t hs ht)

  module _ (blank : test 32 ≡ false) where
    line-Avoids : (words : List (List ℕ)) → AllAvoid test words → Avoids test (line words)
    line-Avoids [] h = tt
    line-Avoids (word ∷ words) (f, h) =
        Avoids-append word (32 ∷ line words) f (blank, line-Avoids words h)

    print_file-Avoids :
        (mark : ℕ) (name : List ℕ)
        → test mark ≡ false
        → Avoids test name
        → Avoids test (print_file mark name)
    print_file-Avoids mark [] e h = tt
    print_file-Avoids mark (c ∷ name) e (f, h) =
        (e, (f, Avoids-append name (32 ∷ []) h (blank, tt)))

    pub print_comand-Avoids :
        (c : Comand) (h : IsWritten c)
        → test 60 ≡ false
        → test 62 ≡ false
        → AllAvoid test (c.cmd ∷ h.others)
        → Avoids test c.infile
        → Avoids test c.outfile
        → Avoids test (print_comand c)
    print_comand-Avoids c h less more words infile outfile = (
      blank,
      Avoids-append (line c.params) (print_file 60 c.infile ++ print_file 62 c.outfile)
          (subst (λ l. Avoids test (line l)) (sym h.params) (line-Avoids (c.cmd ∷ h.others) words))
          (Avoids-append (print_file 60 c.infile) (print_file 62 c.outfile)
            (print_file-Avoids 60 c.infile less infile)
            (print_file-Avoids 62 c.outfile more outfile)),
    )

pub print_comand-IsFree : (c : Comand) → IsWritten c → IsFree (print_comand c)
print_comand-IsFree c h =
    print_comand-Avoids is_delimeter refl c h refl refl h.free h.infile.1 h.outfile.1

-- A line holds no newline.
abbrev pub is_newline : ℕ → Bool
is_newline c = c == 10

IsPlain-Avoids : (s : List ℕ) → IsPlain s → Avoids is_newline s
IsPlain-Avoids [] h = tt
IsPlain-Avoids (c ∷ s) (e, h) = (ground (arith, e), IsPlain-Avoids s h)

AreWords-AllAvoid : (words : List (List ℕ)) → AreWords words → AllAvoid is_newline words
AreWords-AllAvoid [] h = tt
AreWords-AllAvoid ([] ∷ words) h = absurd h
AreWords-AllAvoid ((c ∷ s) ∷ words) (f, h) = (IsPlain-Avoids (c ∷ s) f, AreWords-AllAvoid words h)

no_newline : (c : Comand) → IsWritten c → Avoids is_newline (print_comand c)
no_newline c h =
    print_comand-Avoids is_newline refl c h refl refl (AreWords-AllAvoid (c.cmd ∷ h.others) h.words)
      (IsPlain-Avoids c.infile h.infile.0) (IsPlain-Avoids c.outfile h.outfile.0)

print_commands-Avoids :
    (c : Comand) (cs : List Comand) (rest : List ℕ)
    → AllWritten c cs
    → Avoids is_newline rest
    → Avoids is_newline (print_commands c cs rest)
print_commands-Avoids c [] rest h hr =
    Avoids-append is_newline (print_comand c) rest (no_newline c h) hr
print_commands-Avoids c (c' ∷ cs) rest (h, hs) hr =
    Avoids-append is_newline (print_comand c) (124 ∷ print_commands c' cs rest) (no_newline c h)
      (refl, print_commands-Avoids c' cs rest hs hr)

print_ops-Avoids :
    (ops : List (Op × Pipeline)) → OpsWritten ops → Avoids is_newline (print_ops text ops)
print_ops-Avoids [] h = tt
print_ops-Avoids ((op, p) ∷ ops) (h, hs) =
    Avoids-append is_newline (text op) (print_commands p.first p.more (print_ops text ops))
      (sign_avoids op)
      (print_commands-Avoids p.first p.more (print_ops text ops) h (print_ops-Avoids ops hs))
  where
    sign_avoids : (op : Op) → Avoids is_newline (text op)
    sign_avoids either = (refl, (refl, tt))
    sign_avoids both = (refl, (refl, tt))
    sign_avoids next = (refl, tt)

pub print_line-Avoids :
    (p : Pipeline) (ops : List (Op × Pipeline))
    → AllWritten p.first p.more
    → OpsWritten ops
    → Avoids is_newline (print_line p ops)
print_line-Avoids p ops h hs =
    print_commands-Avoids p.first p.more (print_ops text ops) h (print_ops-Avoids ops hs)
