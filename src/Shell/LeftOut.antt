-- ===== src/Shell/LeftOut.antt =====
-- `run` of p5/main.cpp where a pipeline of several commands is left out: only its first command is.
use multithread.Base.{
  ◌≡◌, refl, ◌∙◌, ap, true, false, not, none, some, List, [], ◌∷◌, length, arith,
}
use multithread.Shell.Parser.{Comand, Entity, comand, connect}
use multithread.Shell.Run.{
  System, Run, succeeds, forward_input, launch, skips, wait_all, last_round, round, run_loop, run,
}
use multithread.Shell.Lines.{
  Op, both, Pipeline, left_out, wire, flatten, flatten_ops, wired, wired_ops, connect-line,
}
use multithread.Shell.Pipelines.{IsPlainComand, calm, batch, run_loop-wired, IsHonest, batch_lem}
use multithread.Shell.Waiting.{wait_all_lem}
use multithread.Shell.Steps.{with_op, skips-left_out, behind-goes_on, settled, calm-eq}

abbrev two : Comand → Comand → Pipeline
two b c = record { first = b; more = c ∷ [] }

piped_first :
    (w : System) (c : Comand) (t : Run)
    → t.fdpipe ≡ none
    → last_round w (comand (wire true false c)) (record t { prev_op = 124 ∷ []; interrupts = [] })
      ≡ none
unfolding last_round launch forward_input skips
piped_first w c t e = rw (last_round, launch, forward_input, e) refl

skip_then_pipe :
    (w : System) (b c : Comand) (t : Run)
    → left_out both t.cur_status ≡ true
    → t.fdpipe ≡ none
    → run_loop w (wired false b (c ∷ []) []) (calm (with_op both t)) ≡ none
unfolding run_loop round
skip_then_pipe w b c t out no_pipe =
    rw (run_loop, round, skips-left_out both t ∙ out) (piped_first w c t no_pipe)

-- Take the line `a && b | c`, in which no file is called "pipe", with no pipe set up before it, and
-- let `a` fail. Then only `b` is left out: `run` goes on with `c`, and reads `fdpipe` before
-- anything has set it.
pub left_out_pipeline_faults :
    (w : System) (a b c : Comand) (s : Run)
    → IsHonest w
    → IsPlainComand a
    → s.children ≡ []
    → s.interrupts ≡ []
    → s.fdpipe ≡ none
    → succeeds (w.status s.next_pid) ≡ false
    → (cmds : List Entity) × (connect false (flatten a [] (flatten_ops ((both, two b c) ∷ [])))
        ≡ some cmds)
      × (run w cmds s ≡ none)
unfolding run skips batch
left_out_pipeline_faults w a b c s honest plain alone calm_s no_pipe fails =
    let s' = record s { cnt_proc = 0; prev_op = [] } in
    let ops : List (Op × Pipeline) = (both, two b c) ∷ [] in
    let l = batch_lem none a [] (calm s') in
    let t =
      wait_all_lem w s.next_pid (batch none a [] (calm s')) honest
        (omega (arith, l.cnt_proc, l.children, ap length alone)) l.last_child in
    (
      wired false a [] (wired_ops ops),
      connect-line (record { first = a; more = [] }) ops,
      ap (run_loop w (wired false a [] (wired_ops ops))) (calm-eq s' calm_s)
          ∙ run_loop-wired w none a [] ops s' plain tt refl
          ∙ behind-goes_on w s.next_pid ops (batch none a [] (calm s'))
              (t.interrupts ∙ l.interrupts)
          ∙ skip_then_pipe w b c (settled ops (wait_all w s.next_pid (batch none a [] (calm s'))))
              (ap (λ st. not (succeeds st)) t.status ∙ ap not fails) (t.fdpipe ∙ no_pipe),
    )
