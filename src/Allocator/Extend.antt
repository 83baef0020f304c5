-- ===== src/Allocator/Extend.antt =====
-- `realloc` into the free block behind.
use multithread.Base.{
  ℕ, suc, ◌+◌, ◌≤◌, ◌≡◌, refl, ◌∙◌, sym, true, false, List, ◌∷◌, ◌==◌, if◌then◌else◌, rewind, arith,
  some, subst, ap,
}
use multithread.Base.Size.{add_size, add_size-eq-add, sub_size, sub_size-eq-sub}
use multithread.Allocator.Blocks.{MemoryBlock, Allocator, ok, retreat}
use multithread.Allocator.Ops.{extend, split_to}
use multithread.Allocator.Layout.{Tiles, IsValid, IsSize-free, count}
use multithread.Allocator.Content.{content, bytes, length-bytes, content-rewind_update}
use multithread.Allocator.Edit.{edit-IsValid, here-IsSize, here_distinct, here_fresh}
use multithread.Allocator.Split.{Split}
use multithread.Allocator.Join.{merged, appendfollow_lem}
use multithread.Allocator.Shrink.{Resized, Keeps-bytes}

-- The end of `realloc`: `size_free_memory -= delta_size`.
abbrev pub charge : ℕ → Allocator → Allocator
charge delta a = record a { size_free_memory = sub_size a.size_free_memory delta }

module _ (a : Allocator) (v : IsValid a) (j delta : ℕ) (bs : List MemoryBlock) (b y : MemoryBlock)
    (r : List MemoryBlock) (e : a.list_blocks ≡ rewind bs (b ∷ y ∷ r)) (named : b.block ≡ j)
    (in_use : b.is_free ≡ false) (alone : count j bs + count j (y ∷ r) ≡ 0)
    (y_free : y.is_free ≡ true) (fits : delta ≤ y.size) (enough : delta ≤ a.size_free_memory)
    (s : Split a.next_block delta
      (b ∷ bs)
      y
      r
      (split_to (record { before = b ∷ bs; from = y ∷ r }) delta a.next_block)) where
  grown_size : (merged b s.t).size ≡ b.size + delta
  grown_size =
      ap (add_size b.size) s.t_size
      ∙ add_size-eq-add b.size delta (omega (arith, here-IsSize a v bs (b ∷ y ∷ r) e))

  grown-Tiles : (p q : ℕ) → Tiles p (b ∷ y ∷ r) q → Tiles p (merged b s.t ∷ s.rest) q
  grown-Tiles p q t =
      let u = s.tiling (p + b.size) q t.1 in
      (t.0, subst (λ x. Tiles x s.rest q) (omega (arith, grown_size, s.t_size)) u.1)

  less : sub_size a.size_free_memory delta + delta ≡ a.size_free_memory
  less = omega (arith, sub_size-eq-sub a.size_free_memory delta (IsSize-free a v) enough)

  abbrev pub after_extend : Allocator
  after_extend = record a {
    list_blocks = rewind bs (merged b s.t ∷ s.rest);
    next_block = suc a.next_block;
  }

  charged-IsValid : IsValid (charge delta after_extend)
  charged-IsValid =
      edit-IsValid a v bs (b ∷ y ∷ r) e (merged b s.t ∷ s.rest) _ (suc a.next_block) grown-Tiles
        (ground (arith, s.frees, s.t_free, s.t_size, less, in_use)) (omega arith)
        (λ k. ground (
          arith,
          s.counts k,
          here_fresh a v bs (b ∷ y ∷ r) e k,
          here_distinct a v bs (b ∷ y ∷ r) e k,
        ))

  grown_view :
      (k : ℕ)
      → content a.memory (merged b s.t ∷ s.rest) k ≡ (
          if j == k
          then some (bytes a.memory b.ptr_memory (merged b s.t).size)
          else content a.memory (b ∷ y ∷ r) k)
  grown_view k = ground (arith, named, in_use, s.contents a.memory k, s.t_free)

  pub extend_runs : extend delta (record { before = b ∷ bs; from = y ∷ r }) a ≡ ok after_extend
  unfolding extend retreat
  extend_runs = rw (s.runs, appendfollow_lem bs b s.t s.rest) refl

  pub Extended :
      Resized j
        (bytes a.memory b.ptr_memory b.size)
        (b.size + delta)
        a
        (ok (charge delta after_extend))
  Extended = record {
    after = charge delta after_extend;
    new_bytes = bytes a.memory b.ptr_memory (merged b s.t).size;
    runs = refl;
    valid = charged-IsValid;
    balance = omega (arith, less, length-bytes a.memory b.size b.ptr_memory);
    long = length-bytes a.memory _ b.ptr_memory ∙ grown_size;
    keeps = Keeps-bytes a.memory a.memory b.size _ b.ptr_memory b.ptr_memory (λ k l1 l2. refl);
    views = λ k.
        subst
          (λ l. content a.memory (rewind bs (merged b s.t ∷ s.rest)) k ≡ (
            if j == k
            then some (bytes a.memory b.ptr_memory (merged b s.t).size)
            else content a.memory l k))
          (sym e)
          (content-rewind_update a.memory j k _ bs (b ∷ y ∷ r) (merged b s.t ∷ s.rest)
            (omega (arith, alone)) (grown_view k));
  }
