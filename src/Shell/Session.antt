-- ===== src/Shell/Session.antt =====
-- `main` of p5/main.cpp on an input of command lines.
use multithread.Base.{
  ℕ, zero, suc, ◌+◌, ◌<◌, ◌≡◌, refl, ◌∙◌, sym, ap, subst, true, false, Option, none, some, List, [],
  ◌∷◌, ◌++◌, length, arith, append_assoc, append-nil, length-append,
}
use multithread.Messages.Slices.{empty_list}
use multithread.Messages.Dictionary.{some_inj}
use multithread.Shell.Parser.{parse, replace, replace_loop, split_commands, connect, background}
use multithread.Shell.Run.{System, Run, Launch, run, run_loop}
use multithread.Shell.Lines.{Op, Pipeline, evaluate_line, wired, wired_ops, connect-line}
use multithread.Shell.Counts.{pipes}
use multithread.Shell.Pipelines.{ArePlain, IsHonest}
use multithread.Shell.Evaluation.{AreSimple, run_total}
use multithread.Shell.Steps.{Evaluates}
use multithread.Shell.Printed.{
  AllWritten, OpsWritten, print_line, Avoids, is_newline, print_line-Avoids,
}
use multithread.Shell.Parsed.{parse-print_line}
use multithread.Shell.Main.{
  Moment, Job, Shell, reap_loop, read_line, begin_round, run_line, main_loop, reap_all, main, End,
  fault, ended,
}

-- A command line: a pipeline and the operators with the pipelines behind it.
abbrev pub Line : Type 0
Line = Pipeline × List (Op × Pipeline)

abbrev pub print_lines : List Line → List ℕ
print_lines [] = []
print_lines ((p, ops) ∷ lines) = print_line p ops ++ 10 ∷ print_lines lines

-- What the lines launch, one after another.
abbrev pub evaluate_lines : System → List Line → ℕ → ℕ → List Launch
evaluate_lines w [] pid k = []
evaluate_lines w ((p, ops) ∷ lines) pid k =
    let started = (evaluate_line w p ops pid k).0 in
    started ++ evaluate_lines w lines (pid + length started) (k + pipes started)

-- Each line can be written, and means what `run` does of it.
abbrev pub AreLines : List Line → Type 0
AreLines [] = Unit
AreLines ((p, ops) ∷ lines) =
    (AllWritten p.first p.more × OpsWritten ops)
    × (ArePlain p.first p.more × AreSimple ops)
    × AreLines lines

-- No SIGINT comes, and nobody ends where nobody is.
abbrev pub AreCalm : (ℕ → Moment) → Type 0
AreCalm times = (n : ℕ) → ((times n).interrupts ≡ []) × ((times n).ended [] ≡ ([], []))

read_line-newline :
    (s rest : List ℕ) → Avoids is_newline s → read_line (s ++ 10 ∷ rest) ≡ (s, rest, false)
unfolding read_line
read_line-newline [] rest h = refl
read_line-newline (c ∷ s) rest (e, h) = rw (read_line, e, read_line-newline s rest h) refl

-- The variables of `run` in a new round.
abbrev awake : Run → Run
awake s = record s { children = []; pids = []; fdpipe = none; interrupts = [] }

begin_round-calm :
    (w : System) (now : Moment) (s : Run)
    → now.interrupts ≡ []
    → now.ended [] ≡ ([], [])
    → s.children ≡ []
    → begin_round w now s ≡ awake s
unfolding begin_round reap_loop
begin_round-calm w now s calm nobody alone = rw (begin_round, alone, nobody, calm) refl

parse-nil : parse [] ≡ some ([], false)
unfolding parse replace replace_loop split_commands connect background
parse-nil = refl

-- What is known of the shell behind some lines.
record Ran (w : System) (lines : List Line) (s : Run) (jobs : List Job) (out : Option End)
    : Type 0 where
  after : Shell
  runs : out ≡ some (ended after)
  jobs_same : after.jobs ≡ jobs
  launched : after.state.launched ≡ s.launched ++ evaluate_lines w lines s.next_pid s.next_pipe
  children : after.state.children ≡ []

-- A round with a newline, on a shell that begins the round as `sh`.
main_loop-newline :
    (w : System) (times : ℕ → Moment) (fuel n : ℕ) (input line rest : List ℕ) (s t : Run)
    (jobs : List Job) (sh : Shell)
    → read_line input ≡ (line, rest, false)
    → begin_round w (times n) s ≡ t
    → run_line w line (record { state = t; jobs = jobs }) ≡ some sh
    → main_loop (suc fuel) w times n input (record { state = s; jobs = jobs })
      ≡ main_loop fuel w times (suc n) rest sh
unfolding main_loop
main_loop-newline w times fuel n input line rest s t jobs sh read begun runs =
    ap
      (λ r. elim (run_line w r.0 (record { state = begin_round w (times n) s; jobs = jobs })) [
        | none ↦ some fault
        | some sh' ↦ elim r.2 [
          | true ↦ some (ended sh')
          | false ↦ main_loop fuel w times (suc n) r.1 sh'
        ]
      ])
      read
    ∙ ap (λ b. on (run_line w line (record { state = b; jobs = jobs }))) begun
    ∙ ap on runs
  where
    on : Option Shell → Option End
    on none = some fault
    on (some sh') = main_loop fuel w times (suc n) rest sh'

module _ (w : System) (honest : IsHonest w) where
  line_runs :
      (p : Pipeline) (ops : List (Op × Pipeline)) (s : Run)
      → ArePlain p.first p.more
      → AreSimple ops
      → Evaluates
          (awake s)
          (evaluate_line w p ops s.next_pid s.next_pipe)
          (run w (wired false p.first p.more (wired_ops ops)) (awake s))
  line_runs p ops s plain simple =
      let (cmds, same_cmds, e) = run_total w p ops (awake s) honest plain simple refl refl in
      subst
        (λ l.
          Evaluates (awake s) (evaluate_line w p ops s.next_pid s.next_pipe) (run w l (awake s)))
        (some_inj (sym same_cmds ∙ connect-line p ops)) e

  run_line-line :
      (p : Pipeline) (ops : List (Op × Pipeline)) (s t : Run) (jobs : List Job)
      → AllWritten p.first p.more
      → OpsWritten ops
      → run w (wired false p.first p.more (wired_ops ops)) (awake s) ≡ some t
      → run_line w (print_line p ops) (record { state = awake s; jobs = jobs })
        ≡ some (record { state = t; jobs = jobs })
  unfolding run_line
  run_line-line p ops s t jobs h hs runs = rw (run_line, parse-print_line p ops h hs, runs) refl

  run_line-nil :
      (s : Run) (jobs : List Job)
      → run_line w [] (record { state = awake s; jobs = jobs })
        ≡ some (record { state = record (awake s) { cnt_proc = 0; prev_op = [] }; jobs = jobs })
  unfolding run_line run run_loop
  run_line-nil s jobs = rw (run_line, parse-nil) refl

  -- The end of the loop behind the last line.
  abbrev last : Option Shell → Option End
  last none = some fault
  last (some sh) = some (ended sh)

  module _ (times : ℕ → Moment) (calm : AreCalm times) where
    main_loop-lines :
        (fuel n : ℕ) (lines : List Line) (s : Run) (jobs : List Job)
        → length (print_lines lines) < fuel
        → AreLines lines
        → s.children ≡ []
        → Ran w lines s jobs
            (main_loop fuel w times n (print_lines lines) (record { state = s; jobs = jobs }))
    unfolding main_loop read_line
    main_loop-lines zero n lines s jobs enough h alone = absurd (omega arith)
    main_loop-lines (suc fuel) n [] s jobs enough h alone = record {
      after = record { state = record (awake s) { cnt_proc = 0; prev_op = [] }; jobs = jobs };
      runs =
          ap (λ t. last (run_line w [] (record { state = t; jobs = jobs })))
            (begin_round-calm w (times n) s (calm n).0 (calm n).1 alone)
          ∙ ap last (run_line-nil s jobs);
      jobs_same = refl;
      launched = sym (append-nil s.launched);
      children = refl;
    }
    main_loop-lines (suc fuel) n ((p, ops) ∷ lines) s jobs enough ((h, hs), (plain, simple), later)
          alone =
        let e = line_runs p ops s plain simple in
        let started = (evaluate_line w p ops s.next_pid s.next_pipe).0 in
        let r =
          main_loop-lines fuel (suc n) lines e.after jobs
            (omega (arith, length-append (print_line p ops) (10 ∷ print_lines lines))) later
            e.children in
        record {
          after = r.after;
          runs =
              main_loop-newline w times fuel n (print_lines ((p, ops) ∷ lines)) (print_line p ops)
                (print_lines lines) s (awake s) jobs (record { state = e.after; jobs = jobs })
                (read_line-newline (print_line p ops) (print_lines lines)
                  (print_line-Avoids p ops h hs))
                (begin_round-calm w (times n) s (calm n).0 (calm n).1 alone)
                (run_line-line p ops s e.after jobs h hs e.runs)
              ∙ r.runs;
          jobs_same = r.jobs_same;
          launched =
              r.launched
              ∙ ap (λ l. l ++ evaluate_lines w lines e.after.next_pid e.after.next_pipe) e.launched
              ∙ append_assoc s.launched started _
              ∙ ap (λ pid. s.launched ++ (started ++ evaluate_lines w lines pid e.after.next_pipe))
                  e.next_pid
              ∙ ap
                  (λ k.
                    s.launched
                    ++ (started ++ evaluate_lines w lines (s.next_pid + length started) k))
                  e.next_pipe;
          children = r.children;
        }

-- Take an input of lines as `parse-print_line` is about, each with a newline behind it, where no file
-- is called "pipe" and each pipeline behind `||` or `&&` is one command, and a system that returns
-- every child from `wait` once; and let no SIGINT come, and no child be there before. Then the shell
-- reads its input to the end and ends, and it launches what the lines mean, one line after another,
-- and nothing in the background.
pub main_total :
    (w : System) (times : ℕ → Moment) (lines : List Line) (start : Run)
    → IsHonest w
    → AreCalm times
    → AreLines lines
    → start.children ≡ []
    → (sh : Shell) × (main w times (print_lines lines) start ≡ some sh)
      × (sh.jobs ≡ [])
      × (sh.state.launched
          ≡ start.launched ++ evaluate_lines w lines start.next_pid start.next_pipe)
unfolding main reap_all reap_loop
main_total w times lines start honest calm h alone =
    let r =
      main_loop-lines w honest times calm (suc (length (print_lines lines))) 0 lines start []
        (omega arith) h alone in
    let nobody : w.finish r.after.state.children ≡ [] =
      empty_list (w.finish r.after.state.children)
        (omega (arith, (honest r.after.state.children).0, ap length r.children)) in
    (
      record r.after { state = reap_all w r.after.state },
      rw (main, r.runs) refl,
      r.jobs_same,
      rw nobody r.launched,
    )
