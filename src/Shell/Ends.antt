-- ===== src/Shell/Ends.antt =====
-- `main` of p5/main.cpp ends on every input, and waits for the wrong child where one runs in the
-- background.
use multithread.Base.{
  ℕ, zero, suc, ◌<◌, ◌≡◌, refl, ◌∙◌, sym, ap, true, false, Bool, Option, none, some, List, [], ◌∷◌,
  ◌++◌, length, ◌==◌, arith, inl, inr, Bool-cases,
}
use multithread.Shell.Parser.{Comand, comand}
use multithread.Shell.Run.{System, Run, run, run_loop, skips, wait_all, wait_loop, log}
use multithread.Shell.Main.{
  Moment, Shell, read_line, begin_round, run_line, main_loop, End, fault, ended,
}
use multithread.Shell.Pipelines.{IsPlainComand, calm, batch, run_loop-wired}
use multithread.Shell.Steps.{calm-eq}

-- A line takes its newline from the input.
read_line-rest :
    (input : List ℕ) → (read_line input).2 ≡ false → length (read_line input).1 < length input
unfolding read_line
read_line-rest [] e = cc
read_line-rest (c ∷ input) e = elim (Bool-cases (c == 10)) [
  | inl h ↦ rw (read_line, h) (omega arith)
  | inr h ↦
      let e' : (read_line input).2 ≡ false = sym (rw (read_line, h) refl) ∙ e in
      rw (read_line, h) (omega (arith, read_line-rest input e'))
]

-- A round ends the loop, or goes on with less of the input.
round_ends :
    (fuel : ℕ) (w : System) (times : ℕ → Moment) (n : ℕ) (r : List ℕ × List ℕ × Bool)
    (o : Option Shell)
    → (r.2 ≡ false → (sh : Shell) → (e : End) × (main_loop fuel w times (suc n) r.1 sh ≡ some e))
    → (e : End) × ((elim o [
      | none ↦ some fault
      | some sh ↦ elim r.2 [
        | true ↦ some (ended sh)
        | false ↦ main_loop fuel w times (suc n) r.1 sh
      ]
    ])
        ≡ some e)
round_ends fuel w times n r none later = (fault, refl)
round_ends fuel w times n (line, rest, true) (some sh) later = (ended sh, refl)
round_ends fuel w times n (line, rest, false) (some sh) later = later refl sh

-- Whatever the input is and the system decides, the loop of `main` ends, by a fault or at the end of
-- the input, within one round more than the input has bytes.
pub main_loop_ends :
    (fuel : ℕ) (w : System) (times : ℕ → Moment) (n : ℕ) (input : List ℕ) (sh : Shell)
    → length input < fuel
    → (e : End) × (main_loop fuel w times n input sh ≡ some e)
unfolding main_loop
main_loop_ends zero w times n input sh h = absurd (omega arith)
main_loop_ends (suc fuel) w times n input sh h =
    round_ends fuel w times n (read_line input)
      (run_line w (read_line input).0 (record sh { state = begin_round w (times n) sh.state }))
      (λ more sh'.
        main_loop_ends fuel w times (suc n) (read_line input).1 sh'
          (omega (arith, read_line-rest input more)))

-- Take one command without a file called "pipe", where one child runs in the background and ends
-- before the command does. Then `run` ends while the command still runs, and has logged the
-- background child in its place.
pub background_child_counts :
    (w : System) (c : Comand) (s : Run) (child : ℕ)
    → IsPlainComand c
    → s.children ≡ child ∷ []
    → s.interrupts ≡ []
    → w.finish (child ∷ s.next_pid ∷ []) ≡ child ∷ s.next_pid ∷ []
    → (t : Run) × (run w (comand c ∷ []) s ≡ some t)
      × (t.children ≡ s.next_pid ∷ [])
      × (t.logged ≡ s.logged ++ log child (w.status child) ∷ [])
unfolding run wait_all wait_loop skips batch
background_child_counts w c s child plain alone calm_s order =
    let s' = record s { cnt_proc = 0; prev_op = [] } in
    let b = batch none c [] (calm s') in
    let ended : w.finish b.children ≡ child ∷ s.next_pid ∷ [] =
      ap (λ l. w.finish (l ++ s.next_pid ∷ [])) alone ∙ order in
    (
      wait_all w s.next_pid b,
      ap (run_loop w (comand c ∷ [])) (calm-eq s' calm_s)
          ∙ run_loop-wired w none c [] [] s' plain tt refl,
      rw ended refl,
      rw ended refl,
    )
