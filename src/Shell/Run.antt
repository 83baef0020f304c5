-- ===== src/Shell/Run.antt =====
-- `run`, `forward_input` and `forward_output` of p5/main.cpp. `fork` hands out the next number as
-- the pid, and `pipe` the next number as the pipe. `none` is undefined behaviour: a null pointer
-- is followed, or `fdpipe` is read before `pipe` has set it. `execvp` succeeds in each child.
use multithread.Base.{
  ℕ, suc, Bool, true, false, not, ◌&&◌, ◌||◌, Option, none, some, List, [], ◌∷◌, ◌++◌, take, drop,
  ◌==◌, if◌then◌else◌,
}
use multithread.Messages.Message.{◌>>=◌}
use multithread.Shell.Parser.{Comand, Entity, comand, delimeter, same, pipe}

-- What `wait` stores for a child: its exit code, or that a signal ended it.
pub data Status : Type 0 where
  exited : ℕ → Status
  signaled : ℕ → Status

-- What the system decides: the status of each child, and in which order the children that have
-- not been waited for end.
pub record System : Type 0 where
  pub status : ℕ → Status
  pub finish : List ℕ → List ℕ

-- Where a child reads from or writes to.
pub data Channel : Type 0 where
  terminal : Channel
  pipe_end : ℕ → Channel
  file : List ℕ → Channel

pub record Launch : Type 0 where
  pub pid : ℕ
  pub program : List ℕ
  pub arguments : List (List ℕ)
  pub input : Channel
  pub output : Channel

-- The variables of `run`, the children that the system keeps for `wait`, the next pid and pipe, the
-- commands that were launched, what `log` has printed, and for each round whether SIGINT has cleared `active_process`.
pub record Run : Type 0 where
  pub cur_status : Status
  pub fdpipe : Option ℕ
  pub cnt_proc : ℕ
  pub prev_op : List ℕ
  pub pids : List ℕ
  pub children : List ℕ
  pub next_pid : ℕ
  pub next_pipe : ℕ
  pub launched : List Launch
  pub logged : List (ℕ × ℕ)
  pub interrupts : List Bool

-- "||", "&&" and ";"
abbrev pub or_op : List ℕ
or_op = 124 ∷ 124 ∷ []

abbrev pub and_op : List ℕ
and_op = 38 ∷ 38 ∷ []

abbrev pub then_op : List ℕ
then_op = 59 ∷ []

-- `WIFEXITED(status) && !WEXITSTATUS(status)`
abbrev pub succeeds : Status → Bool
succeeds (exited code) = code == 0
succeeds (signaled n) = false

unfoldable pub forward_input : Comand → Option ℕ → Option Channel
forward_input cmd fdpipe =
    if same cmd.infile pipe
    then (do k ← fdpipe; some (pipe_end k))
    else if not (same cmd.infile [])
    then some (file cmd.infile)
    else some terminal

-- The channel, and the variables that a new pipe changes.
unfoldable pub forward_output : Comand → Run → Channel × Run
forward_output cmd s =
    if same cmd.outfile pipe
    then (pipe_end s.next_pipe, record s { fdpipe = some s.next_pipe; next_pipe = suc s.next_pipe })
    else if not (same cmd.outfile [])
    then (file cmd.outfile, s)
    else (terminal, s)

-- Is the next command left out, behind `||` or `&&`?
unfoldable pub skips : Run → Bool
skips s =
    (same s.prev_op or_op && succeeds s.cur_status)
    || (same s.prev_op and_op && not (succeeds s.cur_status))

-- `pids.erase(pid)`
unfoldable pub erase_pid : ℕ → List ℕ → List ℕ
erase_pid pid [] = []
erase_pid pid (p ∷ pids) = if p == pid then pids else p ∷ erase_pid pid pids

-- What `log` prints.
unfoldable pub log : ℕ → Status → ℕ × ℕ
log pid (exited code) = (pid, code)
log pid (signaled n) = (pid, 0)

-- The loop of `wait` calls, which return the children in `ended` one after another.
unfoldable pub wait_loop : System → ℕ → List ℕ → Run → Run
wait_loop w cur_pid [] s = s
wait_loop w cur_pid (pid ∷ ended) s = wait_loop w cur_pid ended (record s {
  logged = s.logged ++ log pid (w.status pid) ∷ [];
  pids = erase_pid pid s.pids;
  cur_status = if pid == cur_pid then w.status pid else s.cur_status;
})

-- `cnt_proc` calls of `wait`.
unfoldable pub wait_all : System → ℕ → Run → Run
wait_all w cur_pid s =
    let ended = w.finish s.children in
    wait_loop w cur_pid (take s.cnt_proc ended) (record s { children = drop s.cnt_proc ended })

-- The redirection of a command, `fork`, and the parent's first lines behind it.
unfoldable pub launch : Comand → Run → Option Run
launch cmd s = do
  input ← forward_input cmd s.fdpipe
  let (output, s') = forward_output cmd s
  some (record s' {
    pids = s'.next_pid ∷ s'.pids;
    children = s'.children ++ s'.next_pid ∷ [];
    next_pid = suc s'.next_pid;
    cnt_proc = suc s'.cnt_proc;
    launched =
        s'.launched
        ++ record {
          pid = s'.next_pid;
          program = cmd.cmd;
          arguments = cmd.params;
          input = input;
          output = output;
        }
          ∷ [];
  })

-- The end of a round at a delimeter: does the shell wait here?
abbrev pub waits_at : List ℕ → Bool
waits_at d = same d or_op || same d and_op || same d then_op

unfoldable pub at_delimeter : System → ℕ → List ℕ → Run → Run
at_delimeter w cur_pid d s =
    if waits_at d
    then record (wait_all w cur_pid s) { cnt_proc = 0; prev_op = d }
    else record s { prev_op = d }

-- `if (!active_process) return;`: has SIGINT come before this round?
abbrev pub interrupted : List Bool → Bool
interrupted [] = false
interrupted (b ∷ bs) = b

abbrev pub next_round : Run → Run
next_round s = record s { interrupts = drop 1 s.interrupts }

-- A round at the last entity.
unfoldable pub last_round : System → Entity → Run → Option Run
last_round w e s = elim (skips s) [
  | true ↦ some s
  | false ↦ elim e [
    | delimeter d ↦ none
    | comand cmd ↦ do s' ← launch cmd s; some (wait_all w s.next_pid s')
  ]
]

-- A round at an entity with another one behind it, which has to be a delimeter.
unfoldable pub round : System → Entity → Entity → Run → Option Run
round w e (comand c) s = none
round w e (delimeter d) s = elim (skips s) [
  | true ↦ some (record s { prev_op = d })
  | false ↦ elim e [
    | delimeter e' ↦ none
    | comand cmd ↦ do s' ← launch cmd s; some (at_delimeter w s.next_pid d s')
  ]
]

-- The loop of `run`.
unfoldable pub run_loop : System → List Entity → Run → Option Run
run_loop w [] s = some s
run_loop w (e ∷ []) s = if interrupted s.interrupts then some s else last_round w e (next_round s)
run_loop w (e ∷ d ∷ cmds) s = elim (interrupted s.interrupts) [
  | true ↦ some s
  | false ↦ do s' ← round w e d (next_round s); run_loop w cmds s'
]

-- `run(cmds)`: the variables start with what was in memory, but for `cnt_proc` and `prev_op`.
unfoldable pub run : System → List Entity → Run → Option Run
run w cmds s = run_loop w cmds (record s { cnt_proc = 0; prev_op = [] })
