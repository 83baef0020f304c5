-- ===== src/Allocator/Grow.antt =====
-- `realloc` to a larger size, through its three ways to find room.
use multithread.Base.{
  ℕ, suc, ◌+◌, ◌≤◌, ◌≡◌, refl, ◌∙◌, sym, true, List, ◌∷◌, ◌==◌, if◌then◌else◌, rewind, arith, some,
  subst, ap, length,
}
use multithread.Allocator.Blocks.{MemoryBlock, Allocator, Outcome, ok, deref, assign}
use multithread.Allocator.Ops.{find, joinfree, to_list, locate, split_to, move}
use multithread.Allocator.Layout.{IsValid}
use multithread.Allocator.Content.{content, content-rewind, length-bytes}
use multithread.Allocator.Edit.{view, Serves, edit-IsValid, here-IsSize, here_fresh, here_distinct}
use multithread.Allocator.Fit.{UsedAt, find_used}
use multithread.Allocator.Objects.{FoundAt}
use multithread.Allocator.Join.{Joined}
use multithread.Allocator.Alloc.{locate_lem}
use multithread.Allocator.Split.{Split, split_to_lem}
use multithread.Allocator.Shrink.{Resized}
use multithread.Allocator.Extend.{charge}
use multithread.Allocator.Move.{
  Targets, new_memory, left_list, placed_list, vacated, copy_runs, found_t, found_vacated,
  joined_lem, Moved,
}

-- A change after one that serves the clients as before.
pub Resized-Serves :
    (j : ℕ) (ys : List ℕ) (N : ℕ) (a a' : Allocator) (r : Outcome Allocator)
    → Serves a a'
    → Resized j ys N a' r
    → Resized j ys N a r
Resized-Serves j ys N a a' r s w = record {
  after = w.after;
  new_bytes = w.new_bytes;
  runs = w.runs;
  valid = w.valid;
  balance = w.balance ∙ ap (λ x. x + length ys) s.same_free;
  long = w.long;
  keeps = w.keeps;
  views = λ k. w.views k ∙ ap (λ o. if j == k then some w.new_bytes else o) (s.same_view k);
}

-- A part of `grow` that leaves the free size to be charged with `delta`.
pub record Grows (j : ℕ) (ys : List ℕ) (N delta : ℕ) (a : Allocator) (r : Outcome Allocator)
    : Type 0 where
  pub uncharged : Allocator
  pub runs : r ≡ ok uncharged
  pub resized : Resized j ys N a (ok (charge delta uncharged))

-- The allocator of `move`, its target block being split off.
module _ (a : Allocator) (v : IsValid a) (N : ℕ) (bs : List MemoryBlock) (y : MemoryBlock)
    (r : List MemoryBlock) (e : a.list_blocks ≡ rewind bs (y ∷ r)) (y_free : y.is_free ≡ true)
    (s : Split a.next_block N bs y r
      (split_to (record { before = bs; from = y ∷ r }) N a.next_block)) where
  abbrev after_split : Allocator
  after_split = record a { list_blocks = rewind bs (s.t ∷ s.rest); next_block = suc a.next_block }

  after_split-Serves : Serves a after_split
  after_split-Serves = record {
    valid =
        edit-IsValid a v bs (y ∷ r) e (s.t ∷ s.rest) a.size_free_memory (suc a.next_block) s.tiling
          (omega (arith, s.frees)) (omega arith)
          (λ k.
            ground
              (arith, s.counts k, here_fresh a v bs (y ∷ r) e k, here_distinct a v bs (y ∷ r) e k));
    same_free = refl;
    same_view = λ k.
        subst (λ l. content a.memory (rewind bs (s.t ∷ s.rest)) k ≡ content a.memory l k) (sym e)
          (content-rewind a.memory k bs (s.t ∷ s.rest) (y ∷ r) (s.contents a.memory k));
  }

Serves-trans : {a b c : Allocator} → Serves a b → Serves b c → Serves a c
Serves-trans s s' = record {
  valid = s'.valid;
  same_free = s'.same_free ∙ s.same_free;
  same_view = λ j. s'.same_view j ∙ s.same_view j;
}

module _ (a : Allocator) (v : IsValid a) (j : ℕ) (ys : List ℕ) (N delta : ℕ) (bs : List MemoryBlock)
    (y : MemoryBlock) (r : List MemoryBlock) (e : a.list_blocks ≡ rewind bs (y ∷ r))
    (y_free : y.is_free ≡ true)
    (sp : Split a.next_block N bs y r
      (split_to (record { before = bs; from = y ∷ r }) N a.next_block))
    (u : UsedAt a.memory j ys (find j (rewind bs (sp.t ∷ sp.rest))) (rewind bs (sp.t ∷ sp.rest)))
    (grows : delta + length ys ≡ N) (enough : delta ≤ a.size_free_memory) where
  abbrev split_state : Allocator
  split_state = after_split a v N bs y r e y_free sp

  used_size : delta + u.place.b.size ≡ N
  used_size =
      omega
        (arith, grows, ap length u.here, length-bytes a.memory u.place.b.size u.place.b.ptr_memory)

  valid_split : IsValid split_state
  valid_split = (after_split-Serves a v N bs y r e y_free sp).valid

  abbrev targets : Targets split_state j N delta
  targets = record {
    bs = bs;
    t = sp.t;
    rest = sp.rest;
    at_t = refl;
    t_free = sp.t_free;
    t_size = sp.t_size;
    cs = u.place.bs;
    b = u.place.b;
    r = u.place.r;
    at_b = u.place.splits;
    named = u.named;
    in_use = u.in_use;
    alone = u.alone;
    grows = used_size;
    enough = enough;
  }

  abbrev placing :
      FoundAt sp.t
        (find sp.t.block (left_list split_state valid_split j N delta targets))
        (left_list split_state valid_split j N delta targets)
  placing = found_t split_state valid_split j N delta targets

  abbrev vacating :
      FoundAt
        (vacated split_state valid_split j N delta targets)
        (find (suc a.next_block) (placed_list split_state valid_split j N delta targets placing))
        (placed_list split_state valid_split j N delta targets placing)
  vacating = found_vacated split_state valid_split j N delta targets placing

  abbrev joining : Joined (placed_list split_state valid_split j N delta targets placing) (
      joinfree
        (find (suc a.next_block) (placed_list split_state valid_split j N delta targets placing)))
  joining = joined_lem split_state valid_split j N delta targets placing vacating

  abbrev uncharged : Allocator
  uncharged = record a {
    list_blocks = to_list joining.it;
    memory = new_memory split_state valid_split j N delta targets;
    next_block = suc (suc a.next_block);
  }

  move_runs :
      (a₀ : Allocator)
      → locate N a₀ ≡ ok (a, record { before = bs; from = y ∷ r })
      → move j N a₀ ≡ ok uncharged
  unfolding move deref assign
  move_runs a₀ located =
      rw
        (
          located,
          sp.runs,
          u.place.stands,
          copy_runs split_state valid_split j N delta targets,
          placing.stands,
          joining.runs,
        )
        refl

  pub move_here :
      (a₀ : Allocator)
      → locate N a₀ ≡ ok (a, record { before = bs; from = y ∷ r })
      → Grows j ys N delta a (move j N a₀)
  move_here a₀ located = record {
    uncharged = uncharged;
    runs = move_runs a₀ located;
    resized = Resized-Serves j ys N a split_state _ (after_split-Serves a v N bs y r e y_free sp) (
        subst (λ x. Resized j x N split_state (ok (charge delta uncharged))) u.here
          (Moved split_state valid_split j N delta targets placing joining));
  }

pub Grows-Serves :
    (j : ℕ) (ys : List ℕ) (N delta : ℕ) (a a' : Allocator) (r : Outcome Allocator)
    → Serves a a'
    → Grows j ys N delta a' r
    → Grows j ys N delta a r
Grows-Serves j ys N delta a a' r s w = record {
  uncharged = w.uncharged;
  runs = w.runs;
  resized = Resized-Serves j ys N a a' _ s w.resized;
}

-- With enough free memory `move` finds a block for handle `j`.
pub move_lem :
    (a : Allocator) (j : ℕ) (ys : List ℕ) (N delta : ℕ)
    → IsValid a
    → view a j ≡ some ys
    → N ≤ a.size_free_memory
    → delta + length ys ≡ N
    → Grows j ys N delta a (move j N a)
move_lem a j ys N delta v h room grows =
    let l = locate_lem N a v room in
    let a' = l.after in
    let w = l.serves.valid in
    let f = l.fits_at in
    let sp =
      split_to_lem a'.next_block N f.bs f.b f.r f.is_free f.fits
        (omega (arith, here-IsSize a' w f.bs (f.b ∷ f.r) f.splits)) in
    let sv = after_split-Serves a' w N f.bs f.b f.r f.splits f.is_free sp in
    let u =
      find_used (after_split a' w N f.bs f.b f.r f.splits f.is_free sp) j ys sv.valid
        (sv.same_view j ∙ l.serves.same_view j ∙ h) in
    Grows-Serves j ys N delta a a' (move j N a) l.serves (
      move_here a' w j ys N delta f.bs f.b f.r f.splits f.is_free sp u grows
        (omega (arith, l.serves.same_free)) a (l.runs ∙ ap (λ i. ok (a', i)) f.stands))
