-- ===== src/Shell/Counts.antt =====
-- How many pids and pipes the commands of a pipeline take in `run` (p5/main.cpp).
use multithread.Base.{ℕ, suc, ◌+◌, ◌≡◌, refl, Option, some, List, [], ◌∷◌, ◌++◌, length, arith}
use multithread.Shell.Parser.{Comand}
use multithread.Shell.Run.{Channel, terminal, pipe_end, file, Launch}
use multithread.Shell.Lines.{redirected, spawn, last_pid}

-- The number of pipes that commands write to.
abbrev is_pipe_end : Channel → ℕ
is_pipe_end terminal = 0
is_pipe_end (pipe_end k) = 1
is_pipe_end (file name) = 0

abbrev pub pipes : List Launch → ℕ
pipes [] = 0
pipes (l ∷ ls) = is_pipe_end l.output + pipes ls

pub pipes-append : (ls ms : List Launch) → pipes (ls ++ ms) ≡ pipes ls + pipes ms
pipes-append [] ms = omega arith
pipes-append (l ∷ ls) ms = omega (arith, pipes-append ls ms)

pub length-spawn :
    (src : Option ℕ) (c : Comand) (cs : List Comand) (pid k : ℕ)
    → pid + length (spawn src c cs pid k) ≡ suc (last_pid pid cs)
length-spawn src c [] pid k = omega arith
length-spawn src c (c' ∷ cs) pid k = omega (arith, length-spawn (some k) c' cs (suc pid) (suc k))

no_pipe_end : (name : List ℕ) → is_pipe_end (redirected name) ≡ 0
no_pipe_end [] = refl
no_pipe_end (c ∷ name) = refl

pub pipes-spawn :
    (src : Option ℕ) (c : Comand) (cs : List Comand) (pid k : ℕ)
    → pipes (spawn src c cs pid k) ≡ length cs
pipes-spawn src c [] pid k = omega (arith, no_pipe_end c.outfile)
pipes-spawn src c (c' ∷ cs) pid k = omega (arith, pipes-spawn (some k) c' cs (suc pid) (suc k))
