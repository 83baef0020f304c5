-- ===== src/Allocator/Alloc.antt =====
-- `alloc`: with enough free memory it returns a block of the size asked for.
use multithread.Base.{
  ℕ, suc, ◌+◌, ◌≤◌, ◌≡◌, refl, ◌∙◌, sym, inl, inr, ◌≢◌, true, false, List, [], ◌∷◌, ◌==◌,
  if◌then◌else◌, rewind, arith, none, some, Option, length, subst, le→ltb, ap,
}
use native.Mathlib.Decide.{ℕ_discrete}
use multithread.Base.Size.{sub_size, sub_size-eq-sub}
use multithread.Allocator.Blocks.{
  MemoryBlock, Allocator, Iterator, Pointer, Outcome, ok, deref, assign, insert,
}
use multithread.Allocator.Ops.{findblock, locate, take_block, alloc, block_at}
use multithread.Allocator.Layout.{Tiles, count, IsValid, IsSize-free}
use multithread.Allocator.Content.{
  content, bytes, length-bytes, content-rewind_absent, content-rewind_update, content-absent,
}
use multithread.Allocator.Edit.{view, Serves, edit-IsValid, here_distinct, here_fresh, here-IsSize}
use multithread.Allocator.Defrag.{Defragged, defrag_total}
use multithread.Allocator.Fit.{FitsAt, find_fit_cases, find_fit_last}

-- What `locate` leaves: an iterator at a free block of size `N` at least.
pub record Located (N : ℕ) (a : Allocator) : Type 0 where
  pub after : Allocator
  pub it : Iterator
  pub runs : locate N a ≡ ok (after, it)
  pub serves : Serves a after
  pub fits_at : FitsAt N it after.list_blocks

Serves-refl : {a : Allocator} → IsValid a → Serves a a
Serves-refl v = record { valid = v; same_free = refl; same_view = λ j. refl }

module _ (N : ℕ) (a : Allocator) (v : IsValid a) where
  Located-of_FitsAt : FitsAt N (findblock N a.list_blocks) a.list_blocks → Located N a
  unfolding locate
  Located-of_FitsAt f = record {
    after = a;
    it = findblock N a.list_blocks;
    runs = simp (ap (λ (i : Iterator). i.from) f.stands, locate);
    serves = Serves-refl v;
    fits_at = f;
  }

  Located-of_Defragged :
      N ≤ a.size_free_memory
      → (findblock N a.list_blocks).from ≡ []
      → (d : Defragged a) → Located N a
  unfolding locate findblock
  Located-of_Defragged le e d = record {
    after = d.after;
    it = findblock N d.after.list_blocks;
    runs = rw (e, locate, d.runs) refl;
    serves = d.serves;
    fits_at = elim (find_fit_cases N [] d.after.list_blocks) [
      | inl none_fits ↦ absurd (
          find_fit_last N [] d.moved d.last d.last_free (omega (arith, d.last_size))
            (subst (λ l. (findblock N l).from ≡ []) d.blocks none_fits))
      | inr f ↦ f
    ];
  }

  pub locate_lem : N ≤ a.size_free_memory → Located N a
  unfolding findblock
  locate_lem le = elim (find_fit_cases N [] a.list_blocks) [
    | inl e ↦ Located-of_Defragged le e (defrag_total a v)
    | inr f ↦ Located-of_FitsAt f
  ]

-- What a successful `alloc(N)` leaves: a handle that was not in use, for `N` bytes.
pub record Allocated (N : ℕ) (a : Allocator) (r : Outcome (Pointer × Allocator)) : Type 0 where
  pub handle : ℕ
  pub after : Allocator
  pub new_bytes : List ℕ
  pub runs : r ≡ ok (record { ptr_block = some handle }, after)
  pub valid : IsValid after
  pub less_free : after.size_free_memory + N ≡ a.size_free_memory
  pub unused : view a handle ≡ none
  pub long : length new_bytes ≡ N
  pub views : (k : ℕ) → view after k ≡ (if handle == k then some new_bytes else view a k)

module _ (N : ℕ) (a : Allocator) (v : IsValid a) (le : N ≤ a.size_free_memory)
    (bs : List MemoryBlock) (b : MemoryBlock) (r : List MemoryBlock)
    (e : a.list_blocks ≡ rewind bs (b ∷ r)) (is_free : b.is_free ≡ true) (fits : N ≤ b.size) where
  abbrev later : MemoryBlock → List MemoryBlock → ℕ → Allocator
  later b' ys next = record a {
    list_blocks = rewind bs ys;
    size_free_memory = sub_size a.size_free_memory N;
    next_block = next;
  }

  less : sub_size a.size_free_memory N + N ≡ a.size_free_memory
  less = omega (arith, sub_size-eq-sub a.size_free_memory N (IsSize-free a v) le)

  -- The handle `j` of a free block, or of none, had no contents.
  unused_here : (j : ℕ) → content a.memory (b ∷ r) j ≡ none → count j bs ≡ 0 → view a j ≡ none
  unused_here j h z = rw e (content-rewind_absent a.memory j bs (b ∷ r) z ∙ h)

  -- `views` of the result, from those of the part behind the iterator.
  views_here :
      (j k : ℕ) (o : Option (List ℕ)) (ys : List MemoryBlock)
      → count j bs ≡ 0
      → content a.memory ys k ≡ (if j == k then o else content a.memory (b ∷ r) k)
      → content a.memory (rewind bs ys) k ≡ (if j == k then o else view a k)
  views_here j k o ys z h =
      subst (λ l. content a.memory (rewind bs ys) k ≡ (if j == k then o else content a.memory l k))
        (sym e) (content-rewind_update a.memory j k o bs (b ∷ r) ys z h)

  exact : b.size ≡ N → Allocated N a (take_block N a (record { before = bs; from = b ∷ r }))
  unfolding take_block deref assign
  exact same = record {
    handle = b.block;
    after = later b (record b { is_free = false } ∷ r) a.next_block;
    new_bytes = bytes a.memory b.ptr_memory b.size;
    runs = ground (arith, same);
    valid =
        edit-IsValid a v bs (b ∷ r) e (record b { is_free = false } ∷ r) _ a.next_block (λ p q t. t)
          (ground (arith, less, is_free)) (omega arith) (λ k. inl (omega arith));
    less_free = less;
    unused =
        unused_here b.block
          (ground
            (arith, content-absent a.memory b.block r, here_distinct a v bs (b ∷ r) e b.block))
          (ground (arith, here_distinct a v bs (b ∷ r) e b.block));
    long = length-bytes a.memory b.size b.ptr_memory ∙ same;
    views = λ k.
        views_here b.block k _ (record b { is_free = false } ∷ r)
          (ground (arith, here_distinct a v bs (b ∷ r) e b.block)) (ground arith);
  }

  rest_size : sub_size b.size N + N ≡ b.size
  rest_size =
      omega (arith, sub_size-eq-sub b.size N (omega (arith, here-IsSize a v bs (b ∷ r) e)) fits)

  abbrev rest : MemoryBlock
  rest = record b { size = sub_size b.size N; ptr_memory = b.ptr_memory + N }

  abbrev new_block : MemoryBlock
  new_block = block_at a.next_block b.ptr_memory N false

  fresh_here : count a.next_block bs + count a.next_block (b ∷ r) ≡ 0
  fresh_here = here_fresh a v bs (b ∷ r) e a.next_block (omega arith)

  split : b.size ≢ N → Allocated N a (take_block N a (record { before = bs; from = b ∷ r }))
  unfolding take_block deref assign insert
  split differ = record {
    handle = a.next_block;
    after = later b (new_block ∷ rest ∷ r) (suc a.next_block);
    new_bytes = bytes a.memory b.ptr_memory N;
    runs = ground (arith, differ);
    valid =
        edit-IsValid a v bs (b ∷ r) e (new_block ∷ rest ∷ r) _ (suc a.next_block)
          (λ p q t.
            (t.0, (ap (λ x. x + N) t.0, subst (λ s. Tiles s r q) (omega (arith, rest_size)) t.1)))
          (ground (arith, less, is_free, rest_size)) (omega arith)
          (λ k. ground (arith, here_fresh a v bs (b ∷ r) e k, here_distinct a v bs (b ∷ r) e k));
    less_free = less;
    unused =
        unused_here a.next_block
          (content-absent a.memory a.next_block (b ∷ r) (omega (arith, fresh_here)))
          (omega (arith, fresh_here));
    long = length-bytes a.memory N b.ptr_memory;
    views = λ k.
        views_here a.next_block k _ (new_block ∷ rest ∷ r) (omega (arith, fresh_here))
          (ground (arith, is_free));
  }

-- The rest of `alloc`, at any free block that is large enough.
pub take_block_lem :
    (N : ℕ) (a : Allocator) (it : Iterator)
    → IsValid a
    → N ≤ a.size_free_memory
    → FitsAt N it a.list_blocks
    → Allocated N a (take_block N a it)
take_block_lem N a it v le f =
    subst (λ i. Allocated N a (take_block N a i)) (sym f.stands)
      (elim (ℕ_discrete f.b.size N) [
        | yes same ↦ exact N a v le f.bs f.b f.r f.splits f.is_free f.fits same
        | no differ ↦ split N a v le f.bs f.b f.r f.splits f.is_free f.fits differ
      ])

Allocated-Serves :
    (N : ℕ) (a a' : Allocator) (r : Outcome (Pointer × Allocator))
    → Serves a a'
    → Allocated N a' r
    → Allocated N a r
Allocated-Serves N a a' r s w = record {
  handle = w.handle;
  after = w.after;
  new_bytes = w.new_bytes;
  runs = w.runs;
  valid = w.valid;
  less_free = w.less_free ∙ s.same_free;
  unused = sym (s.same_view w.handle) ∙ w.unused;
  long = w.long;
  views = λ k. w.views k ∙ ap (λ o. if w.handle == k then some w.new_bytes else o) (s.same_view k);
}

-- A call of `alloc` that is within the free size always succeeds, by `defrag` if need be: its
-- handle was not in use, has `N` bytes, and every other handle keeps its bytes.
pub alloc_total :
    (N : ℕ) (a : Allocator) → IsValid a → N ≤ a.size_free_memory → Allocated N a (alloc N a)
unfolding alloc
alloc_total N a v le =
    let l = locate_lem N a v le in
    let s = l.serves in
    rw (le→ltb a.size_free_memory N le, l.runs)
      (Allocated-Serves N a l.after (take_block N l.after l.it) s
        (take_block_lem N l.after l.it s.valid (omega (arith, s.same_free)) l.fits_at))
