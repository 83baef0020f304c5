-- ===== src/Allocator/Realloc.antt =====
-- `realloc`: which of its ways is taken, and that each does what the caller asked for.
use multithread.Base.{
  ℕ, ◌+◌, ◌≤◌, ◌<◌, ◌≡◌, refl, ◌∙◌, sym, inl, inr, ◌≢◌, true, false, ◌&&◌, List, [], ◌∷◌, ◌==◌,
  if◌then◌else◌, arith, Bool-cases, some, subst, ap, length, ==→eq, if-false, leb, ltb, ltb→lt,
  ltb→le, le→ltb,
}
use native.Mathlib.Decide.{ℕ_discrete}
use multithread.Base.Size.{IsSize, sub_size, sub_size-eq-sub}
use multithread.Allocator.Blocks.{MemoryBlock, Allocator, Outcome, ok, ◌>>=◌, deref, advance}
use multithread.Allocator.Ops.{find, find_room, grow, extend, fits, shrink, realloc}
use multithread.Allocator.Layout.{IsValid}
use multithread.Allocator.Content.{content, content-rewind_absent, length-bytes, bytes}
use multithread.Allocator.Edit.{view, here-IsSize}
use multithread.Allocator.Fit.{UsedAt, find_used}
use multithread.Allocator.Free.{pointer_to}
use multithread.Allocator.Split.{split_to_lem}
use multithread.Allocator.Shrink.{Resized, shrink_here}
use multithread.Allocator.Extend.{after_extend, Extended, extend_runs}
use multithread.Allocator.Last.{Stands, LastPacked, defrag_with_last_lem}
use multithread.Allocator.Grow.{Grows, Grows-Serves, move_lem}

Stands-of_UsedAt :
    (a : Allocator) (j : ℕ) (ys : List ℕ)
    → (u : UsedAt a.memory j ys (find j a.list_blocks) a.list_blocks)
    → Stands j u.place.bs u.place.b u.place.r a
Stands-of_UsedAt a j ys u = record {
  splits = u.place.splits;
  found = u.place.stands;
  named = u.named;
  in_use = u.in_use;
  alone = u.alone;
}

Stands-view :
    (a : Allocator) (j : ℕ) (bs : List MemoryBlock) (b : MemoryBlock) (r : List MemoryBlock)
    → Stands j bs b r a
    → view a j ≡ some (bytes a.memory b.ptr_memory b.size)
Stands-view a j bs b r s =
    subst (λ l. content a.memory l j ≡ some (bytes a.memory b.ptr_memory b.size)) (sym s.splits)
      (content-rewind_absent a.memory j bs (b ∷ r) (omega (arith, s.alone))
        ∙ ground (arith, s.named, s.in_use))

-- The bytes of a block that a handle with contents `ys` stands at.
Stands-bytes :
    (a : Allocator) (j : ℕ) (ys : List ℕ) (bs : List MemoryBlock) (b : MemoryBlock)
    (r : List MemoryBlock)
    → Stands j bs b r a
    → view a j ≡ some ys
    → bytes a.memory b.ptr_memory b.size ≡ ys
Stands-bytes a j ys bs b r s h = cc (Stands-view a j bs b r s)

Resized-eq :
    (j : ℕ) (xs ys : List ℕ) (M N : ℕ) (a : Allocator) (r : Outcome Allocator)
    → xs ≡ ys
    → M ≡ N
    → Resized j xs M a r
    → Resized j ys N a r
Resized-eq j xs ys M N a r e f w =
    subst (λ n. Resized j ys n a r) f (subst (λ x. Resized j x M a r) e w)

-- Room behind the block.
extend_lem :
    (a : Allocator) (j : ℕ) (ys : List ℕ) (N delta : ℕ) (bs : List MemoryBlock) (b y : MemoryBlock)
    (r : List MemoryBlock)
    → IsValid a
    → view a j ≡ some ys
    → Stands j bs b (y ∷ r) a
    → y.is_free ≡ true
    → delta ≤ y.size
    → delta ≤ a.size_free_memory
    → delta + length ys ≡ N
    → Grows j ys N delta a (extend delta (record { before = b ∷ bs; from = y ∷ r }) a)
extend_lem a j ys N delta bs b y r v h s y_free fits enough grows =
    let same = Stands-bytes a j ys bs b (y ∷ r) s h in
    let sp =
      split_to_lem a.next_block delta (b ∷ bs) y r y_free fits
        (omega (arith, here-IsSize a v bs (b ∷ y ∷ r) s.splits)) in
    record {
      uncharged =
          after_extend a v j delta bs b y r s.splits s.named s.in_use s.alone y_free fits enough sp;
      runs =
          extend_runs a v j delta bs b y r s.splits s.named s.in_use s.alone y_free fits enough sp;
      resized =
          Resized-eq j _ ys (b.size + delta) N a _ same
            (omega (arith, ap length same, length-bytes a.memory b.size b.ptr_memory, grows))
            (Extended a v j delta bs b y r s.splits s.named s.in_use s.alone y_free fits enough sp);
    }

-- With room behind, or anywhere else, the search succeeds.
find_room_lem :
    (a : Allocator) (j : ℕ) (ys : List ℕ) (N delta : ℕ) (bs : List MemoryBlock) (b : MemoryBlock)
    (r : List MemoryBlock)
    → IsValid a
    → view a j ≡ some ys
    → Stands j bs b r a
    → delta ≤ a.size_free_memory
    → delta + length ys ≡ N
    → (fits delta (record { before = b ∷ bs; from = r }) ≡ false → N ≤ a.size_free_memory)
    → Grows j ys N delta a (find_room j N delta a)
unfolding find_room fits advance
find_room_lem a j ys N delta bs b [] v h s enough grows room =
    rw (s.found, find_room) (move_lem a j ys N delta v h (room refl) grows)
find_room_lem a j ys N delta bs b (y ∷ r) v h s enough grows room =
    elim (Bool-cases (y.is_free && leb delta y.size)) [
      | inl e ↦
          rw (s.found, find_room, e)
            (extend_lem a j ys N delta bs b y r v h s (ground arith) (ground arith) enough grows)
      | inr e ↦ rw (s.found, find_room, e) (move_lem a j ys N delta v h (room e) grows)
    ]

-- `defragWithLast` and the search, where the free memory is less than `N`.
defrag_room_lem :
    (a : Allocator) (j : ℕ) (ys : List ℕ) (N delta : ℕ)
    → (p : LastPacked j a) → view a j ≡ some ys
    → delta ≤ a.size_free_memory
    → delta + length ys ≡ N
    → Grows j ys N delta a (find_room j N delta p.after)
unfolding fits
defrag_room_lem a j ys N delta p h enough grows = Grows-Serves j ys N delta a p.after _ p.serves (
    find_room_lem p.after j ys N delta p.bs p.b (p.last ∷ []) p.serves.valid
      (p.serves.same_view j ∙ h) p.stands (omega (arith, p.serves.same_free)) grows
      (λ misfit. absurd (ground (arith, p.last_free, p.last_size))))

pub grow_lem :
    (a : Allocator) (j : ℕ) (ys : List ℕ) (N : ℕ)
    → IsValid a
    → view a j ≡ some ys
    → IsSize N
    → length ys < N
    → N ≤ a.size_free_memory + length ys
    → Resized j ys N a (grow j (length ys) N a)
unfolding grow
grow_lem a j ys N v h small more room =
    let delta = sub_size N (length ys) in
    let grows : delta + length ys ≡ N = omega (arith, sub_size-eq-sub N (length ys) small) in
    let enough : delta ≤ a.size_free_memory = omega (arith, grows) in
    let u = find_used a j ys v h in
    let s = Stands-of_UsedAt a j ys u in
    elim (Bool-cases (ltb a.size_free_memory N)) [
      | inl e ↦
          let p = defrag_with_last_lem a v j u.place.bs u.place.b u.place.r s in
          let g = defrag_room_lem a j ys N delta p h enough grows in
          rw (le→ltb a.size_free_memory delta enough, e, p.runs, g.runs) g.resized
      | inr e ↦
          let g =
            find_room_lem a j ys N delta u.place.bs u.place.b u.place.r v h s enough grows
              (λ misfit. ltb→le a.size_free_memory N e) in
          rw (le→ltb a.size_free_memory delta enough, e, g.runs) g.resized
    ]

Resized-same :
    (a : Allocator) (j : ℕ) (ys : List ℕ) (N : ℕ)
    → IsValid a
    → view a j ≡ some ys
    → length ys ≡ N
    → Resized j ys N a (ok a)
Resized-same a j ys N v h e = record {
  after = a;
  new_bytes = ys;
  runs = refl;
  valid = v;
  balance = omega (arith, e);
  long = e;
  keeps = refl;
  views = λ k. elim (Bool-cases (j == k)) [
    | inl same ↦ rw same (subst (λ i. view a i ≡ some ys) (==→eq j k same) h)
    | inr ne ↦ rw ne
  ];
}

-- The way that `realloc` takes, by the size `n` that the block has.
change : ℕ → ℕ → ℕ → Allocator → Outcome Allocator
change j n N a = if ltb N n then shrink j N a else grow j n N a

change_lem :
    (a : Allocator) (j : ℕ) (ys : List ℕ) (N : ℕ)
    → IsValid a
    → view a j ≡ some ys
    → IsSize N
    → N ≤ a.size_free_memory + length ys
    → length ys ≢ N
    → Resized j ys N a (change j (length ys) N a)
unfolding change
change_lem a j ys N v h small room differ =
    let u = find_used a j ys v h in
    let b = u.place.b in
    let size : b.size ≡ length ys =
      sym (length-bytes a.memory b.size b.ptr_memory) ∙ ap length u.here in
    elim (Bool-cases (ltb N (length ys))) [
      | inl e ↦ rw e (
          Resized-eq j _ ys N N a (shrink j N a) u.here refl (
            shrink_here a v j N u.place.bs b u.place.r u.place.splits u.named u.in_use u.alone
              (omega (arith, size, ltb→lt N (length ys) e)) u.place.stands))
      | inr e ↦ rw e (grow_lem a j ys N v h small (omega (arith, ltb→le N (length ys) e)) room)
    ]

-- `realloc` of a handle in use to `N` bytes succeeds where the free memory and the handle's own
-- bytes are at least `N`: the handle stays, keeps its bytes as far as both sizes go, and every
-- other handle keeps all of its bytes.
pub realloc_total :
    (a : Allocator) (j : ℕ) (ys : List ℕ) (N : ℕ)
    → IsValid a
    → view a j ≡ some ys
    → IsSize N
    → N ≤ a.size_free_memory + length ys
    → (a' : Allocator) × (realloc (pointer_to j) N a ≡ ok (pointer_to j, a'))
      × Resized j ys N a (ok a')
unfolding realloc deref change
realloc_total a j ys N v h small room =
    let u = find_used a j ys v h in
    let b = u.place.b in
    let size : b.size ≡ length ys =
      sym (length-bytes a.memory b.size b.ptr_memory) ∙ ap length u.here in
    elim (ℕ_discrete (length ys) N) [
      | yes e ↦ (a, rw (u.place.stands) (ground (arith, size)), Resized-same a j ys N v h e)
      | no ne ↦
          let w = change_lem a j ys N v h small room ne in
          (
            w.after,
            rw u.place.stands (
                if-false (b.size == N) _ _ (ground (arith, size))
                ∙ ap (λ (n : ℕ). change j n N a >>= λ a'. ok (pointer_to j, a')) size
                ∙ rw w.runs),
            subst (Resized j ys N a) w.runs w,
          )
    ]
