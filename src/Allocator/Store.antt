-- ===== src/Allocator/Store.antt =====
-- What the allocator promises: a store of byte strings behind handles, and a free size. Each
-- method call is one move of the store, or is refused, and never undefined behaviour.
use multithread.Base.{
  ℕ, ◌+◌, ◌/◌, ◌<◌, ◌≡◌, refl, ◌∙◌, sym, List, ◌==◌, if◌then◌else◌, arith, none, some, Option, ap,
  length, lt→ltb,
}
use native.Mathlib.Decide.{dec_le}
use multithread.Base.Size.{IsSize, sub_size-eq-sub}
use multithread.Allocator.Blocks.{
  Memory, Allocator, Outcome, ok, throws, fault, no_memory, ◌>>=◌, deref,
}
use multithread.Allocator.Ops.{construct, alloc, free, realloc, defrag, grow}
use multithread.Allocator.Layout.{IsValid}
use multithread.Allocator.Content.{length-bytes}
use multithread.Allocator.Edit.{view}
use multithread.Allocator.Fit.{find_used}
use multithread.Allocator.Defrag.{defrag_total}
use multithread.Allocator.Alloc.{alloc_total}
use multithread.Allocator.Free.{free_total, pointer_to}
use multithread.Allocator.Shrink.{Keeps}
use multithread.Allocator.Realloc.{realloc_total}

-- The abstract state: the bytes behind each handle in use, and how many more can be had.
pub record Store : Type 0 where
  pub bytes_of : ℕ → Option (List ℕ)
  pub free_size : ℕ

abbrev pub store : Allocator → Store
store a = record { bytes_of = view a; free_size = a.size_free_memory }

-- The handle `j` gets the contents `o`, and all others keep theirs.
abbrev pub Becomes : ℕ → Option (List ℕ) → Store → Store → Type 0
Becomes j o s t = (k : ℕ) → t.bytes_of k ≡ (if j == k then o else s.bytes_of k)

-- What clients ask for; a handle is the address that a `Pointer` holds.
pub data Request : Type 0 where
  allocate : ℕ → Request
  release : ℕ → Request
  resize : ℕ → ℕ → Request
  compact : Request

-- The moves of the store that answer a request.
pub data Answers (s : Store) : Request → Store → Type 0 where
  allocated :
      {t : Store} (j N : ℕ) (xs : List ℕ)
      → s.bytes_of j ≡ none
      → length xs ≡ N
      → t.free_size + N ≡ s.free_size
      → Becomes j (some xs) s t
      → Answers s (allocate N) t
  released :
      {t : Store} (j : ℕ) (xs : List ℕ)
      → s.bytes_of j ≡ some xs
      → t.free_size ≡ s.free_size + length xs
      → Becomes j none s t
      → Answers s (release j) t
  resized :
      {t : Store} (j N : ℕ) (xs ys : List ℕ)
      → s.bytes_of j ≡ some xs
      → length ys ≡ N
      → Keeps xs ys
      → t.free_size + N ≡ s.free_size + length xs
      → Becomes j (some ys) s t
      → Answers s (resize j N) t
  compacted :
      {t : Store}
      → t.free_size ≡ s.free_size
      → ((k : ℕ) → t.bytes_of k ≡ s.bytes_of k)
      → Answers s compact t
  refused_new : (N : ℕ) → s.free_size < N → Answers s (allocate N) s
  refused_resize :
      (j N : ℕ) (xs : List ℕ)
      → s.bytes_of j ≡ some xs
      → s.free_size + length xs < N
      → Answers s (resize j N) s

-- The method call that a request stands for.
pub call : Request → Allocator → Outcome Allocator
call (allocate N) a = do (p, a') ← alloc N a; ok a'
call (release j) a = do (p, a') ← free (pointer_to j) a; ok a'
call (resize j N) a = do (p, a') ← realloc (pointer_to j) N a; ok a'
call compact a = defrag a

-- A client that catches `AllocError` goes on with the allocator as it was; undefined behaviour
-- ends the run.
pub after_call : Allocator → Outcome Allocator → Option Allocator
after_call a (ok a') = some a'
after_call a (throws e) = some a
after_call a fault = none

-- Clients release and resize only handles in use, and sizes are of type `size_t`.
abbrev pub IsPermitted : Request → Store → Type 0
IsPermitted (allocate N) s = Unit
IsPermitted (release j) s = (xs : List ℕ) × (s.bytes_of j ≡ some xs)
IsPermitted (resize j N) s = IsSize N × ((xs : List ℕ) × (s.bytes_of j ≡ some xs))
IsPermitted compact s = Unit

pub record Served (r : Request) (a : Allocator) : Type 0 where
  pub after : Allocator
  pub runs : after_call a (call r a) ≡ some after
  pub valid : IsValid after
  pub answers : Answers (store a) r (store after)

alloc_refuses : (N : ℕ) (a : Allocator) → a.size_free_memory < N → alloc N a ≡ throws no_memory
unfolding alloc
alloc_refuses N a h = rw (lt→ltb a.size_free_memory N h)

realloc_refuses :
    (a : Allocator) (j N : ℕ) (ys : List ℕ)
    → IsValid a
    → view a j ≡ some ys
    → IsSize N
    → a.size_free_memory + length ys < N
    → realloc (pointer_to j) N a ≡ throws no_memory
unfolding realloc grow deref
realloc_refuses a j N ys v h small more =
    let u = find_used a j ys v h in
    let b = u.place.b in
    let size : b.size ≡ length ys =
      sym (length-bytes a.memory b.size b.ptr_memory) ∙ ap length u.here in
    rw u.place.stands (ground (arith, size, sub_size-eq-sub N b.size small))

serve_allocate : (N : ℕ) (a : Allocator) → IsValid a → Served (allocate N) a
unfolding call after_call
serve_allocate N a v = elim (dec_le N a.size_free_memory) [
  | yes le ↦
      let w = alloc_total N a v le in
      record {
        after = w.after;
        runs = rw w.runs;
        valid = w.valid;
        answers = allocated w.handle N w.new_bytes w.unused w.long w.less_free w.views;
      }
  | no more ↦ record {
    after = a;
    runs = rw (alloc_refuses N a (omega arith));
    valid = v;
    answers = refused_new N (omega arith);
  }
]

serve_release :
    (j : ℕ) (xs : List ℕ) (a : Allocator) → IsValid a → view a j ≡ some xs → Served (release j) a
unfolding call after_call
serve_release j xs a v h =
    let w = free_total a j xs v h in
    record {
      after = w.after;
      runs = rw w.runs;
      valid = w.valid;
      answers = released j xs h w.more_free w.views;
    }

serve_resize :
    (j N : ℕ) (xs : List ℕ) (a : Allocator)
    → IsValid a
    → IsSize N
    → view a j ≡ some xs
    → Served (resize j N) a
unfolding call after_call
serve_resize j N xs a v small h = elim (dec_le N (a.size_free_memory + length xs)) [
  | yes le ↦
      let (a', runs, w) = realloc_total a j xs N v h small le in
      record {
        after = w.after;
        runs = rw runs (cc (w.runs));
        valid = w.valid;
        answers = resized j N xs w.new_bytes h w.long w.keeps w.balance w.views;
      }
  | no more ↦ record {
    after = a;
    runs = rw (realloc_refuses a j N xs v h small (omega arith));
    valid = v;
    answers = refused_resize j N xs h (omega arith);
  }
]

serve_compact : (a : Allocator) → IsValid a → Served compact a
unfolding call after_call
serve_compact a v =
    let d = defrag_total a v in
    record {
      after = d.after;
      runs = rw d.runs;
      valid = d.serves.valid;
      answers = compacted d.serves.same_free d.serves.same_view;
    }

-- Each permitted call on a valid allocator is answered as the store promises, without undefined
-- behaviour, and leaves a valid allocator.
pub call_serves : (r : Request) (a : Allocator) → IsValid a → IsPermitted r (store a) → Served r a
call_serves (allocate N) a v h = serve_allocate N a v
call_serves (release j) a v h = serve_release j h.0 a v h.1
call_serves (resize j N) a v h = serve_resize j N (h.1).0 a v h.0 (h.1).1
call_serves compact a v h = serve_compact a v

-- A new allocator is valid, with no handle in use and half of the memory free.
pub construct-IsValid :
    (base size : ℕ) (m : Memory) (next : ℕ)
    → IsSize size
    → IsValid (construct base size m next)
      × (((j : ℕ) → view (construct base size m next) j ≡ none)
          × ((construct base size m next).size_free_memory ≡ size / 2))
unfolding construct
construct-IsValid base size m next small = (
  record {
    halves = refl;
    bounded = omega arith;
    tiles = (refl, refl);
    counted = omega arith;
    distinct = λ j. ground arith;
    fresh = λ j h. ground arith;
  },
  ((λ j. ground arith), refl),
)
