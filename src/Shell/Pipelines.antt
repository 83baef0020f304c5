-- ===== src/Shell/Pipelines.antt =====
-- What the loop of `run` (p5/main.cpp) does with one pipeline: it launches every command, and waits
-- for all of them at the end.
use multithread.Base.{
  ℕ, suc, ◌+◌, ◌<◌, ◌≡◌, refl, ◌∙◌, Bool, true, false, not, Option, none, some, List, [], ◌∷◌, ◌++◌,
  length, ◌==◌, if◌then◌else◌, arith, append_assoc, length-append,
}
use multithread.Messages.Message.{◌>>=◌}
use multithread.Shell.Parser.{Comand, same, pipe}
use multithread.Shell.Run.{
  System, Channel, terminal, pipe_end, file, Run, forward_input, forward_output, skips, wait_all,
  launch, at_delimeter, last_round, round, run_loop,
}
use multithread.Shell.Lines.{
  Op, text, Pipeline, redirected, reads, entry, spawn, last_pid, wire, wired, wired_ops,
}

-- A command's files do not have the name "pipe".
abbrev pub IsPlainComand : Comand → Type 0
IsPlainComand c = (same c.infile pipe ≡ false) × (same c.outfile pipe ≡ false)

abbrev pub ArePlain : Comand → List Comand → Type 0
ArePlain c [] = IsPlainComand c
ArePlain c (c' ∷ cs) = IsPlainComand c × ArePlain c' cs

-- No SIGINT comes.
abbrev pub calm : Run → Run
calm s = record s { interrupts = [] }

-- `fdpipe` is the pipe that the command before writes to, if there is one.
abbrev pub Fits : Option ℕ → Run → Type 0
Fits none s = Unit
Fits (some k) s = s.fdpipe ≡ some k

abbrev is_piped : Option ℕ → Bool
is_piped none = false
is_piped (some k) = true

-- The state behind the launch of a command, with its output.
abbrev started : Channel → Channel → Comand → Run → Run
started input output c s = record s {
  pids = s.next_pid ∷ s.pids;
  children = s.children ++ s.next_pid ∷ [];
  next_pid = suc s.next_pid;
  cnt_proc = suc s.cnt_proc;
  launched = s.launched ++ entry s.next_pid input output c ∷ [];
}

abbrev with_pipe : Run → Run
with_pipe s = record s { fdpipe = some s.next_pipe; next_pipe = suc s.next_pipe }

forward_input-wire :
    (src : Option ℕ) (more : Bool) (c : Comand) (s : Run)
    → same c.infile pipe ≡ false
    → Fits src s
    → forward_input (wire (is_piped src) more c) s.fdpipe ≡ some (reads src c)
unfolding forward_input
forward_input-wire none more c s h f = input_file c.infile h
  where
    input_file :
        (name : List ℕ)
        → same name pipe ≡ false
        → (if same name pipe
            then (do k ← s.fdpipe; some (pipe_end k))
            else if not (same name [])
            then some (file name)
            else some terminal)
          ≡ some (redirected name)
    input_file [] e = refl
    input_file (b ∷ name) e = rw e refl
forward_input-wire (some k) more c s h f = rw f refl

abbrev same_state : Channel → Run → Channel × Run
same_state output s = (output, s)

forward_output-last :
    (piped : Bool) (c : Comand) (s : Run)
    → same c.outfile pipe ≡ false
    → forward_output (wire piped false c) s ≡ same_state (redirected c.outfile) s
unfolding forward_output
forward_output-last piped c s h = output_file c.outfile h
  where
    output_file :
        (name : List ℕ)
        → same name pipe ≡ false
        → (if same name pipe
            then (pipe_end s.next_pipe, with_pipe s)
            else if not (same name [])
            then (file name, s)
            else (terminal, s))
          ≡ same_state (redirected name) s
    output_file [] e = refl
    output_file (b ∷ name) e = rw e refl

launch-last :
    (src : Option ℕ) (c : Comand) (s : Run)
    → IsPlainComand c
    → Fits src s
    → launch (wire (is_piped src) false c) s
      ≡ some (started (reads src c) (redirected c.outfile) c s)
unfolding launch
launch-last src c s h f =
    rw (launch, forward_input-wire src false c s h.0 f, forward_output-last (is_piped src) c s h.1)
      refl

launch-piped :
    (src : Option ℕ) (c : Comand) (s : Run)
    → IsPlainComand c
    → Fits src s
    → launch (wire (is_piped src) true c) s
      ≡ some (started (reads src c) (pipe_end s.next_pipe) c (with_pipe s))
unfolding launch forward_output
launch-piped src c s h f = rw (launch, forward_input-wire src true c s h.0 f) refl

-- The state behind a command and the "|" that follows it.
abbrev piped_on : Option ℕ → Comand → Run → Run
piped_on src c s = record (started (reads src c) (pipe_end s.next_pipe) c (with_pipe s)) {
  prev_op = 124 ∷ [];
}

-- The state when the last command of a pipeline has been launched.
unfoldable pub batch : Option ℕ → Comand → List Comand → Run → Run
batch src c [] s = started (reads src c) (redirected c.outfile) c s
batch src c (c' ∷ cs) s = batch (some s.next_pipe) c' cs (piped_on src c s)

-- Behind the launches: the wait, and the rest of the line.
abbrev pub behind : System → ℕ → List (Op × Pipeline) → Run → Option Run
behind w pid [] s = some (wait_all w pid s)
behind w pid ((op, p) ∷ ops) s =
    run_loop w (wired false p.first p.more (wired_ops ops)) (at_delimeter w pid (text op) s)

-- A pipeline that is not left out is launched and waited for.
pub run_loop-wired :
    (w : System) (src : Option ℕ) (c : Comand) (cs : List Comand) (ops : List (Op × Pipeline))
    (s : Run)
    → ArePlain c cs
    → Fits src (calm s)
    → skips (calm s) ≡ false
    → run_loop w (wired (is_piped src) c cs (wired_ops ops)) (calm s)
      ≡ behind w (last_pid s.next_pid cs) ops (batch src c cs (calm s))
unfolding run_loop last_round round batch skips at_delimeter
run_loop-wired w src c [] [] s h f no_skip =
    rw (run_loop, last_round, no_skip, launch-last src c (calm s) h f) refl
run_loop-wired w src c [] ((op, p) ∷ ops) s h f no_skip =
    rw (run_loop, round, no_skip, launch-last src c (calm s) h f) refl
run_loop-wired w src c (c' ∷ cs) ops s h f no_skip =
    rw (run_loop, round, no_skip, launch-piped src c (calm s) h.0 f)
      (run_loop-wired w (some s.next_pipe) c' cs ops (piped_on src c (calm s)) h.1 refl refl)

-- How often a pid stands in a list.
abbrev pub count : ℕ → List ℕ → ℕ
count pid [] = 0
count pid (p ∷ pids) = (if p == pid then 1 else 0) + count pid pids

-- `wait` returns every child once: the documented behaviour of the system.
abbrev pub IsHonest : System → Type 0
IsHonest w =
    (children : List ℕ)
    → (length (w.finish children) ≡ length children)
      × ((pid : ℕ) → count pid (w.finish children) ≡ count pid children)

count-append : (pid : ℕ) (xs ys : List ℕ) → count pid (xs ++ ys) ≡ count pid xs + count pid ys
count-append pid [] ys = omega arith
count-append pid (x ∷ xs) ys = omega (arith, count-append pid xs ys)

-- What the launch of a pipeline changes.
pub record Launched (src : Option ℕ) (c : Comand) (cs : List Comand) (s b : Run) : Type 0 where
  pub launched : b.launched ≡ s.launched ++ spawn src c cs s.next_pid s.next_pipe
  pub next_pid : b.next_pid ≡ suc (last_pid s.next_pid cs)
  pub next_pipe : b.next_pipe ≡ s.next_pipe + length cs
  pub cnt_proc : b.cnt_proc ≡ s.cnt_proc + suc (length cs)
  pub children : length b.children ≡ length s.children + suc (length cs)
  pub last_child : 0 < count (last_pid s.next_pid cs) b.children
  pub interrupts : b.interrupts ≡ s.interrupts

pub batch_lem :
    (src : Option ℕ) (c : Comand) (cs : List Comand) (s : Run)
    → Launched src c cs s (batch src c cs s)
unfolding batch
batch_lem src c [] s = record {
  launched = refl;
  next_pid = refl;
  next_pipe = omega arith;
  cnt_proc = omega arith;
  children = length-append s.children (s.next_pid ∷ []);
  last_child = ground (arith, count-append s.next_pid s.children (s.next_pid ∷ []));
  interrupts = refl;
}
batch_lem src c (c' ∷ cs) s =
    let t = piped_on src c s in
    let l = batch_lem (some s.next_pipe) c' cs t in
    record {
      launched =
          l.launched
          ∙ append_assoc s.launched (entry s.next_pid (reads src c) (pipe_end s.next_pipe) c ∷ [])
              (spawn (some s.next_pipe) c' cs (suc s.next_pid) (suc s.next_pipe));
      next_pid = l.next_pid;
      next_pipe = omega (arith, l.next_pipe);
      cnt_proc = omega (arith, l.cnt_proc);
      children = omega (arith, l.children, length-append s.children (s.next_pid ∷ []));
      last_child = l.last_child;
      interrupts = l.interrupts;
    }
