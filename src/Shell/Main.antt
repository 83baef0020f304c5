-- ===== src/Shell/Main.antt =====
-- `main` of p5/main.cpp: the shell from its input to its end.
use multithread.Base.{
  ℕ, zero, suc, true, false, Bool, Option, none, some, List, [], ◌∷◌, ◌++◌, length, ◌==◌,
}
use multithread.Messages.Message.{◌>>=◌}
use multithread.Shell.Parser.{Entity, parse}
use multithread.Shell.Run.{System, Run, log, erase_pid, interrupted, next_round, run}

-- What the system decides in a round of `main`: which children have ended when the round begins, and
-- which have not, and whether SIGINT has come before the line is run, and before each of its commands.
pub record Moment : Type 0 where
  pub ended : List ℕ → List ℕ × List ℕ
  pub interrupts : List Bool

-- A child in the background: it runs `run(cmds)` on a copy of the shell's variables, with no children.
pub record Job : Type 0 where
  pub pid : ℕ
  pub cmds : List Entity
  pub start : Run

pub record Shell : Type 0 where
  pub state : Run
  pub jobs : List Job

-- A loop of `waitpid` calls, which return the children in `ended`.
unfoldable pub reap_loop : System → List ℕ → Run → Run
reap_loop w [] s = s
reap_loop w (pid ∷ ended) s =
    reap_loop w ended
      (record s { logged = s.logged ++ log pid (w.status pid) ∷ []; pids = erase_pid pid s.pids })

-- The loop of `std::cin.get()`: the line, what is left of the input, and `std::cin.eof()`.
unfoldable pub read_line : List ℕ → List ℕ × List ℕ × Bool
read_line [] = ([], [], true)
read_line (ch ∷ input) = elim (ch == 10) [
  | true ↦ ([], input, false)
  | false ↦ let (line, rest, eof) = read_line input in (ch ∷ line, rest, eof)
]

-- A round up to the reading of the line: `active_process` is set, `pids` is cleared. `fdpipe` of `run` is not
-- set yet.
unfoldable pub begin_round : System → Moment → Run → Run
begin_round w now s =
    let (ended, running) = now.ended s.children in
    record (reap_loop w ended (record s { children = running })) {
      pids = [];
      fdpipe = none;
      interrupts = now.interrupts;
    }

-- A child in the background, and the parent's part.
unfoldable pub fork_job : List Entity → Shell → Shell
fork_job cmds sh =
    let s = sh.state in
    record {
      state = record s {
        pids = s.next_pid ∷ s.pids;
        children = s.children ++ s.next_pid ∷ [];
        next_pid = suc s.next_pid;
      };
      jobs =
          sh.jobs
          ++ record {
            pid = s.next_pid;
            cmds = cmds;
            start = next_round (record s { children = [] });
          }
            ∷ [];
    }

-- A line that has been read.
unfoldable pub run_line : System → List ℕ → Shell → Option Shell
run_line w line sh = do
  (cmds, bkgr_mode) ← parse line
  elim (interrupted sh.state.interrupts) [
    | true ↦ some sh
    | false ↦ elim bkgr_mode [
      | true ↦ some (fork_job cmds sh)
      | false ↦ do s ← run w cmds (next_round sh.state); some (record sh { state = s })
    ]
  ]

-- How the loop of `main` ends: with undefined behaviour in `parse` or `run`, or at the end of the input.
pub data End : Type 0 where
  fault : End
  ended : Shell → End

-- The loop of `main`, from round `n` on; `none` is a loop that goes on behind `fuel` rounds. A round
-- takes a byte of the input, but for the last one, so one round more than there are bytes is enough.
unfoldable pub main_loop : ℕ → System → (ℕ → Moment) → ℕ → List ℕ → Shell → Option End
main_loop zero w times n input sh = none
main_loop (suc fuel) w times n input sh =
    let (line, rest, eof) = read_line input in
    elim (run_line w line (record sh { state = begin_round w (times n) sh.state })) [
      | none ↦ some fault
      | some sh' ↦ elim eof [
        | true ↦ some (ended sh')
        | false ↦ main_loop fuel w times (suc n) rest sh'
      ]
    ]

-- The last loop of `main`, which waits for every child.
unfoldable pub reap_all : System → Run → Run
reap_all w s = record (reap_loop w (w.finish s.children) s) { children = [] }

unfoldable pub main : System → (ℕ → Moment) → List ℕ → Run → Option Shell
main w times input start =
    elim (main_loop (suc (length input)) w times 0 input (record { state = start; jobs = [] })) [
      | none ↦ none
      | some e ↦ elim e [
        | fault ↦ none
        | ended sh ↦ some (record sh { state = reap_all w sh.state })
      ]
    ]
