-- ===== src/Shell/Evaluation.antt =====
-- `run` of p5/main.cpp against the meaning of a line.
use multithread.Base.{
  ◌≡◌, refl, ◌∙◌, sym, ap, ◌<◌, subst, true, false, inl, inr, none, some, List, [], ◌∷◌, length,
  arith, append-nil, Bool-cases,
}
use multithread.Shell.Parser.{Comand, Entity, connect}
use multithread.Shell.Run.{Status, System, Run, skips, wait_all, run_loop, run}
use multithread.Shell.Lines.{
  Op, either, both, next, Pipeline, left_out, last_pid, evaluate, evaluate_line, flatten,
  flatten_ops, wired, wired_ops, connect-line,
}
use multithread.Shell.Pipelines.{ArePlain, calm, batch, run_loop-wired, IsHonest, batch_lem}
use multithread.Shell.Waiting.{wait_all_lem}
use multithread.Shell.Steps.{
  Evaluates, with_op, skips-left_out, goes_on, settled, calm-eq, behind-goes_on, Ran, settled-Ran,
  Evaluates-line, left_out-Evaluates, evaluate-left_out, evaluate-goes_on, behind_op,
}

-- Every pipeline behind an operator is plain, and behind `||` and `&&` it is one command.
abbrev IsSingle : Op → List Comand → Type 0
IsSingle next cs = Unit
IsSingle op [] = Unit
IsSingle op (c ∷ cs) = ⊥

abbrev pub AreSimple : List (Op × Pipeline) → Type 0
AreSimple [] = Unit
AreSimple ((op, p) ∷ ops) = (ArePlain p.first p.more × IsSingle op p.more) × AreSimple ops

single :
    (op : Op) (cs : List Comand) (st : Status) → IsSingle op cs → left_out op st ≡ true → cs ≡ []
single op [] st h out = refl
single either (c ∷ cs) st h out = absurd h
single both (c ∷ cs) st h out = absurd h
single next (c ∷ cs) st h out = cc

module _ (w : System) (honest : IsHonest w) where
  run_pipeline :
      (p : Pipeline) (ops : List (Op × Pipeline)) (s : Run)
      → ArePlain p.first p.more
      → s.children ≡ []
      → s.cnt_proc ≡ 0
      → skips (calm s) ≡ false
      → (t : Run) × (run_loop w (wired false p.first p.more (wired_ops ops)) (calm s)
          ≡ goes_on w ops t)
        × Ran w p ops (calm s) t
  run_pipeline p ops s plain alone none_running no_skip =
      let pid = last_pid s.next_pid p.more in
      let b = batch none p.first p.more (calm s) in
      let l = batch_lem none p.first p.more (calm s) in
      let t =
        wait_all_lem w pid b honest
          (omega (arith, l.cnt_proc, l.children, ap length alone, none_running)) l.last_child in
      (
        settled ops (wait_all w pid b),
        run_loop-wired w none p.first p.more ops s plain tt no_skip
            ∙ behind-goes_on w pid ops b (t.interrupts ∙ l.interrupts),
        settled-Ran w p ops (calm s) b l t refl,
      )

  -- The rest of a line.
  evaluates :
      (ops : List (Op × Pipeline)) (s : Run)
      → AreSimple ops
      → s.children ≡ []
      → (0 < length ops → s.cnt_proc ≡ 0)
      → Evaluates s (evaluate w ops s.cur_status s.next_pid s.next_pipe) (goes_on w ops s)
  evaluates [] s simple alone none_running = record {
    after = s;
    runs = refl;
    launched = sym (append-nil s.launched);
    status = refl;
    children = alone;
    next_pid = omega arith;
    next_pipe = omega arith;
  }
  evaluates ((op, p) ∷ ops) s simple alone none_running =
      elim (Bool-cases (left_out op s.cur_status)) [
        | inl out ↦
            subst (λ res. Evaluates s res (goes_on w ((op, p) ∷ ops) s))
              (sym (evaluate-left_out w op p ops s.cur_status s.next_pid s.next_pipe out))
              (left_out-Evaluates w op p ops s (single op p.more s.cur_status (simple.0).1 out) out
                alone (evaluates ops s simple.1 alone (λ h. none_running (omega arith))))
        | inr goes ↦
            let (t, runs, r) =
              run_pipeline p ops (with_op op s) (simple.0).0 alone (none_running (omega arith))
                (skips-left_out op s ∙ goes) in
            subst (λ res. Evaluates s res (goes_on w ((op, p) ∷ ops) s))
              (sym (evaluate-goes_on w op p ops s.cur_status s.next_pid s.next_pipe goes))
              (Evaluates-line w p ops s t _ (behind_op w op p ops s t r) (
                subst (Evaluates t (evaluate w ops t.cur_status t.next_pid t.next_pipe)) (sym runs)
                  (evaluates ops t simple.1 r.no_children r.none_running)))
      ]

-- Take a line of pipelines with `||`, `&&` and `;` between them, in which no file is called "pipe"
-- and each pipeline behind `||` or `&&` is one command, and a system that returns every child from
-- `wait` once. Then, if no other child is there and no SIGINT comes, `run` on what the parser's
-- last loop makes of the line ends, launches the commands that the line means, in order, each with
-- the channels that it means, holds the line's status, and leaves no child.
pub run_total :
    (w : System) (p : Pipeline) (ops : List (Op × Pipeline)) (s : Run)
    → IsHonest w
    → ArePlain p.first p.more
    → AreSimple ops
    → s.children ≡ []
    → s.interrupts ≡ []
    → (cmds : List Entity) × (connect false (flatten p.first p.more (flatten_ops ops)) ≡ some cmds)
      × Evaluates s (evaluate_line w p ops s.next_pid s.next_pipe) (run w cmds s)
unfolding run skips
run_total w p ops s honest plain simple alone calm_s =
    let s' = record s { cnt_proc = 0; prev_op = [] } in
    let (t, runs, r) = run_pipeline w honest p ops s' plain alone refl refl in
    let e = evaluates w honest ops t simple r.no_children r.none_running in
    let out =
      Evaluates-line w p ops (calm s') t _ r
        (subst (Evaluates t (evaluate w ops t.cur_status t.next_pid t.next_pipe)) (sym runs) e) in
    (
      wired false p.first p.more (wired_ops ops),
      connect-line p ops,
      record {
        after = out.after;
        runs =
            ap (run_loop w (wired false p.first p.more (wired_ops ops))) (calm-eq s' calm_s)
            ∙ out.runs;
        launched = out.launched;
        status = out.status;
        children = out.children;
        next_pid = out.next_pid;
        next_pipe = out.next_pipe;
      },
    )
