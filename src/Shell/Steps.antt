-- ===== src/Shell/Steps.antt =====
-- `run` of p5/main.cpp from one pipeline of a line to the next.
use multithread.Base.{
  ℕ, suc, ◌+◌, ◌≡◌, refl, ◌∙◌, sym, ap, ◌<◌, subst, true, false, Option, none, some, List, [], ◌∷◌,
  ◌++◌, length, arith, append_assoc, append-nil, length-append,
}
use multithread.Shell.Run.{
  Status, System, Launch, Run, skips, wait_all, at_delimeter, last_round, round, run_loop,
}
use multithread.Shell.Lines.{
  Op, either, both, next, text, Pipeline, left_out, spawn, last_pid, evaluate, evaluate_line, wired,
  wired_ops,
}
use multithread.Shell.Counts.{pipes, pipes-append, length-spawn, pipes-spawn}
use multithread.Shell.Pipelines.{calm, behind, Launched}
use multithread.Shell.Waiting.{Waited}

-- The run ends, with the launches and the status of `res`, and no child is left.
pub record Evaluates (s : Run) (res : List Launch × Status) (out : Option Run) : Type 0 where
  pub after : Run
  pub runs : out ≡ some after
  pub launched : after.launched ≡ s.launched ++ res.0
  pub status : after.cur_status ≡ res.1
  pub children : after.children ≡ []
  pub next_pid : after.next_pid ≡ s.next_pid + length res.0
  pub next_pipe : after.next_pipe ≡ s.next_pipe + pipes res.0

abbrev pub with_op : Op → Run → Run
with_op op s = record s { prev_op = text op }

pub skips-left_out : (op : Op) (s : Run) → skips (calm (with_op op s)) ≡ left_out op s.cur_status
unfolding skips
skips-left_out either s = ground arith
skips-left_out both s = ground arith
skips-left_out next s = refl

-- A run goes on with the operators behind a pipeline.
abbrev pub goes_on : System → List (Op × Pipeline) → Run → Option Run
goes_on w [] s = some s
goes_on w ((op, p) ∷ ops) s =
    run_loop w (wired false p.first p.more (wired_ops ops)) (calm (with_op op s))

-- `cnt_proc = 0` comes only where the line goes on.
abbrev pub settled : List (Op × Pipeline) → Run → Run
settled [] t = t
settled (op ∷ ops) t = record t { cnt_proc = 0 }

pub calm-eq : (s : Run) → s.interrupts ≡ [] → s ≡ calm s
calm-eq s e = ap (λ i. record s { interrupts = i }) e

module _ (w : System) where
  pub behind-goes_on :
      (pid : ℕ) (ops : List (Op × Pipeline)) (b : Run)
      → (wait_all w pid b).interrupts ≡ []
      → behind w pid ops b ≡ goes_on w ops (settled ops (wait_all w pid b))
  unfolding at_delimeter
  behind-goes_on pid [] b e = refl
  behind-goes_on pid ((op, p) ∷ ops) b e =
      ap (run_loop w (wired false p.first p.more (wired_ops ops)))
        (waits op ∙ calm-eq (with_op op (record (wait_all w pid b) { cnt_proc = 0 })) e)
    where
      waits :
          (op : Op)
          → at_delimeter w pid (text op) b ≡ with_op op (record (wait_all w pid b) { cnt_proc = 0 })
      waits either = refl
      waits both = refl
      waits next = refl

  -- What is known behind a pipeline that started at `s`.
  pub record Ran (p : Pipeline) (ops : List (Op × Pipeline)) (s t : Run) : Type 0 where
    pub launched : t.launched ≡ s.launched ++ spawn none p.first p.more s.next_pid s.next_pipe
    pub status : t.cur_status ≡ w.status (last_pid s.next_pid p.more)
    pub no_children : t.children ≡ []
    pub none_running : 0 < length ops → t.cnt_proc ≡ 0
    pub no_interrupts : t.interrupts ≡ []
    pub next_pid : t.next_pid ≡ suc (last_pid s.next_pid p.more)
    pub next_pipe : t.next_pipe ≡ s.next_pipe + length p.more

  pub settled-Ran :
      (p : Pipeline) (ops : List (Op × Pipeline)) (s b : Run)
      → Launched none p.first p.more s b
      → Waited w (last_pid s.next_pid p.more) b (wait_all w (last_pid s.next_pid p.more) b)
      → s.interrupts ≡ []
      → Ran p ops s (settled ops (wait_all w (last_pid s.next_pid p.more) b))
  settled-Ran p [] s b l t calm_s = record {
    launched = t.launched ∙ l.launched;
    status = t.status;
    no_children = t.children;
    none_running = λ h. absurd (omega arith);
    no_interrupts = t.interrupts ∙ l.interrupts ∙ calm_s;
    next_pid = t.next_pid ∙ l.next_pid;
    next_pipe = t.next_pipe ∙ l.next_pipe;
  }
  settled-Ran p (op ∷ ops) s b l t calm_s = record {
    launched = t.launched ∙ l.launched;
    status = t.status;
    no_children = t.children;
    none_running = λ h. refl;
    no_interrupts = t.interrupts ∙ l.interrupts ∙ calm_s;
    next_pid = t.next_pid ∙ l.next_pid;
    next_pipe = t.next_pipe ∙ l.next_pipe;
  }

  -- A pipeline and then the rest of the line.
  pub Evaluates-line :
      (p : Pipeline) (ops : List (Op × Pipeline)) (s t : Run) (out : Option Run)
      → Ran p ops s t
      → Evaluates t (evaluate w ops t.cur_status t.next_pid t.next_pipe) out
      → Evaluates s (evaluate_line w p ops s.next_pid s.next_pipe) out
  Evaluates-line p ops s t out r e =
      let pid = last_pid s.next_pid p.more in
      let rest = evaluate w ops (w.status pid) (suc pid) (s.next_pipe + length p.more) in
      let e' : Evaluates t rest out =
        subst (λ k. Evaluates t (evaluate w ops (w.status pid) (suc pid) k) out) r.next_pipe
          (subst (λ n. Evaluates t (evaluate w ops (w.status pid) n t.next_pipe) out) r.next_pid
            (subst (λ st. Evaluates t (evaluate w ops st t.next_pid t.next_pipe) out) r.status
              e)) in
      let started = spawn none p.first p.more s.next_pid s.next_pipe in
      record {
        after = e'.after;
        runs = e'.runs;
        launched =
            e'.launched ∙ ap (λ l. l ++ rest.0) r.launched ∙ append_assoc s.launched started rest.0;
        status = e'.status;
        children = e'.children;
        next_pid = omega (
          arith,
          e'.next_pid,
          r.next_pid,
          length-append started rest.0,
          length-spawn none p.first p.more s.next_pid s.next_pipe,
        );
        next_pipe = omega (
          arith,
          e'.next_pipe,
          r.next_pipe,
          pipes-append started rest.0,
          pipes-spawn none p.first p.more s.next_pid s.next_pipe,
        );
      }

  -- A pipeline of one command that is left out.
  pub left_out-Evaluates :
      (op : Op) (p : Pipeline) (ops : List (Op × Pipeline)) (s : Run)
      → p.more ≡ []
      → left_out op s.cur_status ≡ true
      → s.children ≡ []
      → Evaluates s (evaluate w ops s.cur_status s.next_pid s.next_pipe) (goes_on w ops s)
      → Evaluates s
          (evaluate w ops s.cur_status s.next_pid s.next_pipe)
          (run_loop w (wired false p.first p.more (wired_ops ops)) (calm (with_op op s)))
  unfolding run_loop last_round round
  left_out-Evaluates op p [] s single out alone e = record {
    after = calm (with_op op s);
    runs =
        ap (λ cs. run_loop w (wired false p.first cs []) (calm (with_op op s))) single
        ∙ rw (last_round, skips-left_out op s ∙ out) refl;
    launched = sym (append-nil s.launched);
    status = refl;
    children = alone;
    next_pid = omega arith;
    next_pipe = omega arith;
  }
  left_out-Evaluates op p ((op', p') ∷ ops) s single out alone e =
      subst (Evaluates s (evaluate w ((op', p') ∷ ops) s.cur_status s.next_pid s.next_pipe))
        (sym (
          ap
            (λ cs.
              run_loop w (wired false p.first cs (wired_ops ((op', p') ∷ ops)))
                (calm (with_op op s)))
            single
          ∙ rw (run_loop, round, skips-left_out op s ∙ out) refl))
        e

  pub evaluate-left_out :
      (op : Op) (p : Pipeline) (ops : List (Op × Pipeline)) (st : Status) (pid k : ℕ)
      → left_out op st ≡ true
      → evaluate w ((op, p) ∷ ops) st pid k ≡ evaluate w ops st pid k
  evaluate-left_out op p ops st pid k e = rw (evaluate, e) refl

  pub evaluate-goes_on :
      (op : Op) (p : Pipeline) (ops : List (Op × Pipeline)) (st : Status) (pid k : ℕ)
      → left_out op st ≡ false
      → evaluate w ((op, p) ∷ ops) st pid k ≡ evaluate_line w p ops pid k
  evaluate-goes_on op p ops st pid k e = rw (evaluate, e) refl

  pub behind_op :
      (op : Op) (p : Pipeline) (ops : List (Op × Pipeline)) (s t : Run)
      → Ran p ops (calm (with_op op s)) t
      → Ran p ops s t
  behind_op op p ops s t r = record {
    launched = r.launched;
    status = r.status;
    no_children = r.no_children;
    none_running = r.none_running;
    no_interrupts = r.no_interrupts;
    next_pid = r.next_pid;
    next_pipe = r.next_pipe;
  }
