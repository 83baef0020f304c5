-- ===== src/Shell/Examples.antt =====
-- Runs of the parser of the shell.
use multithread.Base.{◌≡◌, refl, true, some, none, List, [], ◌∷◌, ℕ}
use multithread.Shell.Parser.{
  new_comand, split_parts, redirect, add_comand, comand, delimeter, add_delim, find_string,
  replace_loop, replace, split_commands, connect, background, parse, pipe,
}
use multithread.Shell.Words.{line, add_comand_total}
use multithread.Base.{false, ◌++◌, arith, ◌==◌, if◌then◌else◌}
use multithread.Shell.Run.{System, exited, signaled, Run, log, run}
use multithread.Shell.Parser.{Entity, Comand}
use multithread.Shell.Lines.{
  Op, either, both, next, Pipeline, flatten, flatten_ops, wired, wired_ops, evaluate_line,
}
use multithread.Shell.Pipelines.{IsHonest}
use multithread.Shell.Evaluation.{run_total}
use multithread.Shell.Steps.{Evaluates}
use multithread.Shell.Printed.{IsWritten, print_line}
use multithread.Shell.Parsed.{parse-print_line}
use multithread.Shell.Main.{Moment, Shell, End, main_loop, main}
use multithread.Shell.Session.{Line, print_lines, evaluate_lines, main_total}
use multithread.Shell.Ends.{main_loop_ends, background_child_counts}
use multithread.Shell.LeftOut.{left_out_pipeline_faults}

abbrev ls : List ℕ
ls = 108 ∷ 115 ∷ []

abbrev wc : List ℕ
wc = 119 ∷ 99 ∷ []

add_comand_total_example :
    add_comand (line (ls ∷ wc ∷ []))
    ≡ some (record { cmd = ls; params = ls ∷ wc ∷ []; infile = []; outfile = [] })
add_comand_total_example =
    add_comand_total ls (wc ∷ []) ((refl, (refl, tt)), ((refl, (refl, tt)), tt))

-- "ls|wc&"
pipes_to_background :
    parse (108 ∷ 115 ∷ 124 ∷ 119 ∷ 99 ∷ 38 ∷ [])
    ≡ some (
      comand (record { cmd = ls; params = ls ∷ []; infile = []; outfile = pipe })
          ∷ delimeter (124 ∷ [])
          ∷ comand (record { cmd = wc; params = wc ∷ []; infile = pipe; outfile = [] })
          ∷ [],
      true,
    )
unfolding new_comand split_parts redirect add_comand add_delim find_string replace_loop replace
    split_commands connect background parse
pipes_to_background = refl

-- ";" starts a command of no parts.
no_parts : parse (59 ∷ []) ≡ none
unfolding new_comand split_parts redirect add_comand add_delim find_string replace_loop replace
    split_commands connect background parse
no_parts = refl

-- `ls` fails with code 1, and the others succeed; the children end in the order of their pids.
abbrev failing : System
failing = record {
  status = λ pid. exited (if pid == 1 then 1 else 0);
  finish = λ children. children;
}

failing-IsHonest : IsHonest failing
failing-IsHonest children = (refl, λ pid. refl)

abbrev plain : List ℕ → Comand
plain name = record { cmd = name; params = name ∷ []; infile = []; outfile = [] }

-- The shell before its first line.
abbrev fresh : Run
fresh = record {
  cur_status = signaled 9;
  fdpipe = none;
  cnt_proc = 7;
  prev_op = [];
  pids = [];
  children = [];
  next_pid = 1;
  next_pipe = 0;
  launched = [];
  logged = [];
  interrupts = [];
}

-- "ls || wc && ls ; ls | wc"
abbrev operators : List (Op × Pipeline)
operators =
    (either, record { first = plain wc; more = [] })
    ∷ (both, record { first = plain ls; more = [] })
    ∷ (next, record { first = plain ls; more = plain wc ∷ [] })
    ∷ []

run_total_example :
    (cmds : List Entity) × (connect false (flatten (plain ls) [] (flatten_ops operators))
      ≡ some cmds)
    × Evaluates fresh
        (evaluate_line failing (record { first = plain ls; more = [] }) operators 1 0)
        (run failing cmds fresh)
run_total_example =
    run_total failing (record { first = plain ls; more = [] }) operators fresh failing-IsHonest
      (refl, refl)
      (((refl, refl), tt), (((refl, refl), tt), ((((refl, refl), (refl, refl)), tt), tt))) refl refl

left_out_pipeline_faults_example :
    (cmds : List Entity) × (connect false (
        flatten
          (plain ls)
          []
          (flatten_ops ((both, record { first = plain wc; more = plain ls ∷ [] }) ∷ [])))
      ≡ some cmds)
    × (run failing cmds fresh ≡ none)
left_out_pipeline_faults_example =
    left_out_pipeline_faults failing (plain ls) (plain wc) (plain ls) fresh failing-IsHonest
      (refl, refl) refl refl refl refl

ls-IsWritten : IsWritten (plain ls)
ls-IsWritten = record {
  others = [];
  params = refl;
  words = ((refl, (refl, tt)), tt);
  free = ((refl, (refl, tt)), tt);
  infile = (tt, tt);
  outfile = (tt, tt);
}

wc-IsWritten : IsWritten (plain wc)
wc-IsWritten = record {
  others = [];
  params = refl;
  words = ((refl, (refl, tt)), tt);
  free = ((refl, (refl, tt)), tt);
  infile = (tt, tt);
  outfile = (tt, tt);
}

abbrev first_ls : Pipeline
first_ls = record { first = plain ls; more = [] }

parse-print_line_example :
    parse (print_line first_ls operators)
    ≡ some (wired false (plain ls) [] (wired_ops operators), false)
parse-print_line_example =
    parse-print_line first_ls operators ls-IsWritten
      (wc-IsWritten, (ls-IsWritten, ((ls-IsWritten, wc-IsWritten), tt)))

-- No SIGINT, and no child ends before its time.
abbrev quiet : ℕ → Moment
quiet n = record { ended = λ children. ([], children); interrupts = [] }

abbrev two_lines : List Line
two_lines = (first_ls, operators) ∷ (first_ls, []) ∷ []

main_total_example :
    (sh : Shell) × (main failing quiet (print_lines two_lines) fresh ≡ some sh)
    × (sh.jobs ≡ [])
    × (sh.state.launched ≡ [] ++ evaluate_lines failing two_lines 1 0)
main_total_example =
    main_total failing quiet two_lines fresh failing-IsHonest (λ n. (refl, refl))
      (
        (ls-IsWritten, (wc-IsWritten, (ls-IsWritten, ((ls-IsWritten, wc-IsWritten), tt)))),
        (
          (refl, refl),
          (((refl, refl), tt), (((refl, refl), tt), ((((refl, refl), (refl, refl)), tt), tt))),
        ),
        ((ls-IsWritten, tt), ((refl, refl), tt), tt),
      )
      refl

main_loop_ends_example :
    (e : End) × (main_loop 4 failing quiet 0
        (108 ∷ 115 ∷ 10 ∷ [])
        (record { state = fresh; jobs = [] })
      ≡ some e)
main_loop_ends_example =
    main_loop_ends 4 failing quiet 0 (108 ∷ 115 ∷ 10 ∷ []) (record { state = fresh; jobs = [] })
      (omega arith)

abbrev with_child : Run
with_child = record fresh { children = 1 ∷ []; next_pid = 2 }

background_child_counts_example :
    (t : Run) × (run failing (comand (plain ls) ∷ []) with_child ≡ some t)
    × (t.children ≡ 2 ∷ [])
    × (t.logged ≡ [] ++ log 1 (exited 1) ∷ [])
background_child_counts_example =
    background_child_counts failing (plain ls) with_child 1 (refl, refl) refl refl refl
