-- ===== src/Shell/Parsed.antt =====
-- `parse` of p5/parser.cpp takes a written command line apart again.
use multithread.Base.{
  ℕ, ◌≡◌, refl, ◌∙◌, ap, Bool, true, false, some, List, [], ◌∷◌, ◌++◌, append_assoc, append-nil,
  drop,
}
use multithread.Messages.Message.{◌>>=◌}
use multithread.Shell.Parser.{
  Comand, Entity, comand, delimeter, is_delimeter, add_comand, add_delim, split_commands,
  background, parse,
}
use multithread.Shell.Doubled.{replace-squeeze}
use multithread.Shell.Lines.{
  Op, either, both, next, text, Pipeline, flatten, flatten_ops, wired, wired_ops, connect-line,
}
use multithread.Shell.Printed.{
  IsFree, IsWritten, print_comand, print_commands, print_ops, print_line, AllWritten, OpsWritten,
  add_comand-print_comand, print_comand-IsFree,
}
use multithread.Shell.Signs.{half, sign, once, twice}

-- A part ends at a delimeter, and at the end of the line.
split_commands-free :
    (part s : List ℕ) (d : ℕ) (rest : List ℕ)
    → IsFree s
    → is_delimeter d ≡ true
    → split_commands part (s ++ d ∷ rest) ≡ (
        add_comand (part ++ s) >>= λ cmd.
        split_commands [] rest >>= λ cmds. some (comand cmd ∷ add_delim (d ∷ []) ∷ cmds))
unfolding split_commands
split_commands-free [] [] d rest h e = rw (split_commands, e) refl
split_commands-free (c ∷ part) [] d rest h e = rw (split_commands, e, append-nil part) refl
split_commands-free [] (c ∷ s) d rest (f, h) e =
    rw (split_commands, f) (split_commands-free (c ∷ []) s d rest h e)
split_commands-free (b ∷ part) (c ∷ s) d rest (f, h) e =
    rw (split_commands, f)
      (split_commands-free ((b ∷ part) ++ c ∷ []) s d rest h e
        ∙ ap
            (λ l. add_comand l >>= λ cmd.
              split_commands [] rest >>= λ cmds. some (comand cmd ∷ add_delim (d ∷ []) ∷ cmds))
            (append_assoc (b ∷ part) (c ∷ []) s))

split_commands-last :
    (c : ℕ) (part s : List ℕ)
    → IsFree s
    → split_commands (c ∷ part) s ≡ (add_comand (c ∷ part ++ s) >>= λ cmd. some (comand cmd ∷ []))
unfolding split_commands
split_commands-last c part [] h = rw (append-nil part) refl
split_commands-last c part (d ∷ s) (f, h) =
    rw (split_commands, f)
      (split_commands-last c (part ++ d ∷ []) s h
        ∙ ap (λ l. add_comand (c ∷ l) >>= λ cmd. some (comand cmd ∷ []))
            (append_assoc part (d ∷ []) s))

abbrev signs : List (Op × Pipeline) → List ℕ
signs ops = print_ops (λ op. sign op ∷ []) ops

pipe_sign : add_delim (124 ∷ []) ≡ delimeter (124 ∷ [])
unfolding add_delim
pipe_sign = refl

split_commands-pipeline :
    (c : Comand) (cs : List Comand) (ops : List (Op × Pipeline))
    → AllWritten c cs
    → ((e : Comand)
        → IsWritten e
        → split_commands [] (print_comand e ++ signs ops) ≡ some (comand e ∷ flatten_ops ops))
    → split_commands [] (print_commands c cs (signs ops)) ≡ some (flatten c cs (flatten_ops ops))
split_commands-pipeline c [] ops h last = last c h
split_commands-pipeline c (c' ∷ cs) ops (h, hs) last =
    split_commands-free [] (print_comand c) 124 (print_commands c' cs (signs ops))
      (print_comand-IsFree c h) refl
    ∙ rw (add_comand-print_comand c h, split_commands-pipeline c' cs ops hs last)
        (ap (λ d. some (comand c ∷ d ∷ flatten c' cs (flatten_ops ops))) pipe_sign)

add_delim-sign : (op : Op) → add_delim (sign op ∷ []) ≡ delimeter (text op)
unfolding add_delim
add_delim-sign either = refl
add_delim-sign both = refl
add_delim-sign next = refl

sign-is_delimeter : (op : Op) → is_delimeter (sign op) ≡ true
sign-is_delimeter either = refl
sign-is_delimeter both = refl
sign-is_delimeter next = refl

split_commands-behind :
    (ops : List (Op × Pipeline)) (c : Comand)
    → OpsWritten ops
    → IsWritten c
    → split_commands [] (print_comand c ++ signs ops) ≡ some (comand c ∷ flatten_ops ops)
unfolding split_commands
split_commands-behind [] c hs h =
    ap (split_commands []) (append-nil (print_comand c))
    ∙ split_commands-last 32 [] (drop 1 (print_comand c)) (print_comand-IsFree c h).1
    ∙ rw (add_comand-print_comand c h) refl
split_commands-behind ((op, p) ∷ ops) c (hp, hs) h =
    split_commands-free [] (print_comand c) (sign op) (print_commands p.first p.more (signs ops))
      (print_comand-IsFree c h) (sign-is_delimeter op)
    ∙ rw
        (
          add_comand-print_comand c h,
          split_commands-pipeline p.first p.more ops hp (λ e w. split_commands-behind ops e hs w),
          add_delim-sign op,
        )
        refl

-- Nothing runs in the background if the line ends with a command.
background-comand :
    (c : Comand) (cmds : List Entity)
    → background cmds ≡ (cmds, false)
    → background (comand c ∷ cmds) ≡ (comand c ∷ cmds, false)
unfolding background
background-comand c cmds e = rw (background, e) refl

background-between :
    (d : List ℕ) (e : Entity) (cmds : List Entity)
    → background (e ∷ cmds) ≡ (e ∷ cmds, false)
    → background (delimeter d ∷ e ∷ cmds) ≡ (delimeter d ∷ e ∷ cmds, false)
unfolding background
background-between d e cmds h = ap (λ r. (delimeter d ∷ r.0, r.1)) h

background-wired :
    (piped : Bool) (c : Comand) (cs : List Comand) (rest : List Entity)
    → background rest ≡ (rest, false)
    → background (wired piped c cs rest) ≡ (wired piped c cs rest, false)
background-wired piped c [] rest h = background-comand _ rest h
background-wired piped c (c' ∷ []) rest h =
    background-comand _ _
      (background-between (124 ∷ []) _ rest (background-wired true c' [] rest h))
background-wired piped c (c' ∷ c'' ∷ cs) rest h =
    background-comand _ _
      (background-between (124 ∷ []) _ _ (background-wired true c' (c'' ∷ cs) rest h))

background-wired_ops :
    (ops : List (Op × Pipeline)) → background (wired_ops ops) ≡ (wired_ops ops, false)
unfolding background
background-wired_ops [] = refl
background-wired_ops ((op, p) ∷ ops) =
    behind p.first p.more
      (background-wired false p.first p.more (wired_ops ops) (background-wired_ops ops))
  where
    behind :
        (c : Comand) (cs : List Comand)
        → background (wired false c cs (wired_ops ops)) ≡ (wired false c cs (wired_ops ops), false)
        → background (delimeter (text op) ∷ wired false c cs (wired_ops ops))
          ≡ (delimeter (text op) ∷ wired false c cs (wired_ops ops), false)
    behind c [] h = background-between (text op) _ _ h
    behind c (c' ∷ cs) h = background-between (text op) _ _ h

-- Take a line of pipelines with `||`, `&&` and `;` between them, where each command has its name as
-- its first parameter, no word is empty, and neither a word nor the name of a file has a blank, a
-- redirection or a delimeter in it. Then `parse` of the line as text gives the commands back, in
-- order, with their parameters and files, but with "pipe" for the files on the sides of each "|",
-- and with the operators between them; and it does not ask for the background.
pub parse-print_line :
    (p : Pipeline) (ops : List (Op × Pipeline))
    → AllWritten p.first p.more
    → OpsWritten ops
    → parse (print_line p ops) ≡ some (wired false p.first p.more (wired_ops ops), false)
unfolding parse
parse-print_line p ops h hs =
    let line = wired false p.first p.more (wired_ops ops) in
    rw
      (
        replace-squeeze 124 64 (print_line p ops),
        once p ops h hs,
        replace-squeeze 38 36 (print_commands p.first p.more (print_ops half ops)),
        twice p ops h hs,
        split_commands-pipeline p.first p.more ops h (λ e w. split_commands-behind ops e hs w),
        connect-line p ops,
      )
      (ap some (background-wired false p.first p.more (wired_ops ops) (background-wired_ops ops)))
