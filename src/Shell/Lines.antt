-- ===== src/Shell/Lines.antt =====
-- Command lines as pipelines joined by `||`, `&&` and `;`, and what evaluating one means: which
-- commands are launched, in which order, with which channels, and the status of the last pipeline.
use multithread.Base.{
  ℕ, suc, ◌+◌, ◌≡◌, refl, Bool, true, false, not, Option, none, some, List, [], ◌∷◌, ◌++◌, length,
  if◌then◌else◌,
}
use multithread.Shell.Parser.{Comand, Entity, comand, delimeter, pipe, connect, next_pipe}
use multithread.Shell.Run.{
  Status, System, Channel, terminal, pipe_end, file, Launch, or_op, and_op, then_op, succeeds,
}

pub data Op : Type 0 where
  either : Op
  both : Op
  next : Op

abbrev pub text : Op → List ℕ
text either = or_op
text both = and_op
text next = then_op

pub record Pipeline : Type 0 where
  pub first : Comand
  pub more : List Comand

-- The entities that the parser makes of a line.
abbrev pub flatten : Comand → List Comand → List Entity → List Entity
flatten c [] rest = comand c ∷ rest
flatten c (c' ∷ cs) rest = comand c ∷ delimeter (124 ∷ []) ∷ flatten c' cs rest

abbrev pub flatten_ops : List (Op × Pipeline) → List Entity
flatten_ops [] = []
flatten_ops ((op, p) ∷ ops) = delimeter (text op) ∷ flatten p.first p.more (flatten_ops ops)

-- A pipeline behind `||` is left out after success, and one behind `&&` after failure.
abbrev pub left_out : Op → Status → Bool
left_out either st = succeeds st
left_out both st = not (succeeds st)
left_out next st = false

abbrev pub redirected : List ℕ → Channel
redirected [] = terminal
redirected (c ∷ name) = file (c ∷ name)

abbrev pub reads : Option ℕ → Comand → Channel
reads none c = redirected c.infile
reads (some k) c = pipe_end k

abbrev pub entry : ℕ → Channel → Channel → Comand → Launch
entry pid input output c = record {
  pid = pid;
  program = c.cmd;
  arguments = c.params;
  input = input;
  output = output;
}

-- The commands of a pipeline: each but the last writes to a new pipe, from which the next reads.
abbrev pub spawn : Option ℕ → Comand → List Comand → ℕ → ℕ → List Launch
spawn src c [] pid k = entry pid (reads src c) (redirected c.outfile) c ∷ []
spawn src c (c' ∷ cs) pid k =
    entry pid (reads src c) (pipe_end k) c ∷ spawn (some k) c' cs (suc pid) (suc k)

abbrev pub last_pid : ℕ → List Comand → ℕ
last_pid pid [] = pid
last_pid pid (c ∷ cs) = last_pid (suc pid) cs

-- What a line launches behind a pipeline of status `st`, and its own status.
abbrev pub evaluate : System → List (Op × Pipeline) → Status → ℕ → ℕ → List Launch × Status
evaluate w [] st pid k = ([], st)
evaluate w ((op, p) ∷ ops) st pid k = elim (left_out op st) [
  | true ↦ evaluate w ops st pid k
  | false ↦
      let rest =
        evaluate w ops (w.status (last_pid pid p.more)) (suc (last_pid pid p.more))
          (k + length p.more) in
      (spawn none p.first p.more pid k ++ rest.0, rest.1)
]

abbrev pub evaluate_line : System → Pipeline → List (Op × Pipeline) → ℕ → ℕ → List Launch × Status
evaluate_line w p ops pid k =
    let rest =
      evaluate w ops (w.status (last_pid pid p.more)) (suc (last_pid pid p.more))
        (k + length p.more) in
    (spawn none p.first p.more pid k ++ rest.0, rest.1)

-- The parser gives a command that stands beside "|" the name "pipe" for its file.
abbrev pub wire : Bool → Bool → Comand → Comand
wire piped more c = record c {
  infile = if piped then pipe else c.infile;
  outfile = if more then pipe else c.outfile;
}

abbrev pub wired : Bool → Comand → List Comand → List Entity → List Entity
wired piped c [] rest = comand (wire piped false c) ∷ rest
wired piped c (c' ∷ cs) rest =
    comand (wire piped true c) ∷ delimeter (124 ∷ []) ∷ wired true c' cs rest

abbrev pub wired_ops : List (Op × Pipeline) → List Entity
wired_ops [] = []
wired_ops ((op, p) ∷ ops) = delimeter (text op) ∷ wired false p.first p.more (wired_ops ops)

no_pipe : (ops : List (Op × Pipeline)) → next_pipe (flatten_ops ops) ≡ false
no_pipe [] = refl
no_pipe ((either, p) ∷ ops) = refl
no_pipe ((both, p) ∷ ops) = refl
no_pipe ((next, p) ∷ ops) = refl

connect-flatten :
    (piped : Bool) (c : Comand) (cs : List Comand) (ops : List (Op × Pipeline))
    → connect false (flatten_ops ops) ≡ some (wired_ops ops)
    → connect piped (flatten c cs (flatten_ops ops)) ≡ some (wired piped c cs (wired_ops ops))
unfolding connect
connect-flatten false c [] ops e = rw (e, no_pipe ops) refl
connect-flatten true c [] ops e = rw (e, no_pipe ops) refl
connect-flatten false c (c' ∷ cs) ops e = rw (connect-flatten true c' cs ops e) refl
connect-flatten true c (c' ∷ cs) ops e = rw (connect-flatten true c' cs ops e) refl

connect-flatten_ops :
    (ops : List (Op × Pipeline)) → connect false (flatten_ops ops) ≡ some (wired_ops ops)
unfolding connect
connect-flatten_ops [] = refl
connect-flatten_ops ((either, p) ∷ ops) =
    rw (connect-flatten false p.first p.more ops (connect-flatten_ops ops)) refl
connect-flatten_ops ((both, p) ∷ ops) =
    rw (connect-flatten false p.first p.more ops (connect-flatten_ops ops)) refl
connect-flatten_ops ((next, p) ∷ ops) =
    rw (connect-flatten false p.first p.more ops (connect-flatten_ops ops)) refl

-- What `connect` makes of a line.
pub connect-line :
    (p : Pipeline) (ops : List (Op × Pipeline))
    → connect false (flatten p.first p.more (flatten_ops ops))
      ≡ some (wired false p.first p.more (wired_ops ops))
connect-line p ops = connect-flatten false p.first p.more ops (connect-flatten_ops ops)
