-- ===== src/Shell/Waiting.antt =====
-- What the calls of `wait` in `run` (p5/main.cpp) leave.
use multithread.Base.{
  ℕ, ◌<◌, ◌≡◌, refl, ◌∙◌, ap, ◌⊎◌, false, inl, inr, List, [], ◌∷◌, length, take, drop, ◌==◌,
  if◌then◌else◌, arith, Bool-cases, ==→eq, length-drop,
}
use multithread.Messages.Slices.{empty_list, take-all}
use multithread.Shell.Run.{System, Run, wait_loop, wait_all}
use multithread.Shell.Pipelines.{IsHonest, count}

-- The `wait` loop changes `logged`, `pids` and `cur_status` only.
wait_loop-keeps :
    (w : System) (pid : ℕ) (ended : List ℕ) (s : Run)
    → wait_loop w pid ended s ≡ record s {
      logged = (wait_loop w pid ended s).logged;
      pids = (wait_loop w pid ended s).pids;
      cur_status = (wait_loop w pid ended s).cur_status;
    }
unfolding wait_loop
wait_loop-keeps w pid [] s = refl
wait_loop-keeps w pid (p ∷ ended) s = wait_loop-keeps w pid ended _

wait_loop-status :
    (w : System) (pid : ℕ) (ended : List ℕ) (s : Run)
    → (0 < count pid ended) ⊎ (s.cur_status ≡ w.status pid)
    → (wait_loop w pid ended s).cur_status ≡ w.status pid
unfolding wait_loop
wait_loop-status w pid [] s (inl h) = absurd (omega arith)
wait_loop-status w pid [] s (inr e) = e
wait_loop-status w pid (p ∷ ended) s h = elim (Bool-cases (p == pid)) [
  | inl same_pid ↦
      wait_loop-status w pid ended _ (inr (rw same_pid (ap w.status (==→eq p pid same_pid))))
  | inr other ↦ wait_loop-status w pid ended _ (later h other)
]
  where
    later :
        (0 < count pid (p ∷ ended)) ⊎ (s.cur_status ≡ w.status pid)
        → (p == pid) ≡ false
        → (0 < count pid ended) ⊎ ((if p == pid then w.status p else s.cur_status) ≡ w.status pid)
    later (inl c) other = inl (ground (arith, c, other))
    later (inr e) other = inr (rw other e)

-- What the wait for a pipeline leaves, where nothing else runs.
pub record Waited (w : System) (pid : ℕ) (b t : Run) : Type 0 where
  pub status : t.cur_status ≡ w.status pid
  pub launched : t.launched ≡ b.launched
  pub children : t.children ≡ []
  pub next_pid : t.next_pid ≡ b.next_pid
  pub next_pipe : t.next_pipe ≡ b.next_pipe
  pub fdpipe : t.fdpipe ≡ b.fdpipe
  pub interrupts : t.interrupts ≡ b.interrupts

pub wait_all_lem :
    (w : System) (pid : ℕ) (b : Run)
    → IsHonest w
    → b.cnt_proc ≡ length b.children
    → 0 < count pid b.children
    → Waited w pid b (wait_all w pid b)
unfolding wait_all
wait_all_lem w pid b honest all here =
    let ended = w.finish b.children in
    let (size, same_pids) = honest b.children in
    let t = record b { children = drop b.cnt_proc ended } in
    let everyone : take b.cnt_proc ended ≡ ended =
      take-all b.cnt_proc ended (omega (arith, size, all)) in
    let keeps = wait_loop-keeps w pid (take b.cnt_proc ended) t in
    record {
      status =
          wait_loop-status w pid (take b.cnt_proc ended) t
            (inl (omega (arith, ap (count pid) everyone, same_pids pid, here)));
      launched = ap (λ (r : Run). r.launched) keeps;
      children =
          ap (λ (r : Run). r.children) keeps
          ∙ empty_list (drop b.cnt_proc ended)
              (omega (arith, length-drop b.cnt_proc ended, size, all));
      next_pid = ap (λ (r : Run). r.next_pid) keeps;
      next_pipe = ap (λ (r : Run). r.next_pipe) keeps;
      fdpipe = ap (λ (r : Run). r.fdpipe) keeps;
      interrupts = ap (λ (r : Run). r.interrupts) keeps;
    }
