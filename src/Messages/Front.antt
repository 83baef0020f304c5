-- ===== src/Messages/Front.antt =====
-- `getbitarray` and `erase` of p2/messageforsend.cpp show and drop the front of the queue.
use multithread.Base.{
  ℕ, zero, suc, ◌+◌, ◌-◌, ◌≤◌, ◌<◌, ◌≡◌, refl, ◌∙◌, sym, ap, subst, inl, inr, Bool, some, List, ◌∷◌,
  ◌++◌, length, take, drop, List-cases, ltb, if◌then◌else◌, arith, length-append, length-drop,
  append_assoc, le→leb, lt→leb, ne→==,
}
use native.Mathlib.Decide.{dec_le}
use multithread.Base.Size.{sub_size, sub_size-eq-sub}
use multithread.Messages.Bytes.{drop-append}
use multithread.Messages.Send.{MessageForSend, block_size, read, get_bytes, getbitarray}
use multithread.Messages.Slices.{
  length-splits, slice-append, drop-within, take-beyond, take-all, take-asked,
}
use multithread.Messages.Queue.{bytes, AreBlocks, Queues}

read-within :
    (buffer : List ℕ) (offset len : ℕ)
    → offset + len ≤ length buffer
    → read buffer offset len ≡ some (take len (drop offset buffer))
unfolding read
read-within buffer offset len h = ground (arith, h)

-- The front of the queue, where it stands in one block or in two.
module _ (b : List ℕ) (blocks : List (List ℕ)) (q : List ℕ) (count beg_offset end_offset : ℕ)
    (need_write : Bool) where
  abbrev queue : MessageForSend
  queue = record {
    bitlist = b ∷ blocks;
    count = count;
    beg_offset = beg_offset;
    end_offset = end_offset;
    need_write = need_write;
  }

  module _ (len : ℕ) (h : Queues queue q) (enough : len ≤ length q) where
    behind_sent : take len (drop beg_offset (b ++ bytes blocks)) ≡ take len q
    behind_sent =
        ap (λ l. take len (drop beg_offset l)) (h.splits ∙ append_assoc h.sent q h.free)
        ∙ ap (take len) (drop-append h.sent (q ++ h.free) beg_offset h.begins)
        ∙ slice-append 0 len q h.free (omega arith)

    one_block : beg_offset + len ≤ block_size → read b beg_offset len ≡ some (take len q)
    one_block fits =
        read-within b beg_offset len (omega (arith, (h.blocks).0))
        ∙ ap some (
            sym (slice-append beg_offset len b (bytes blocks) (omega (arith, (h.blocks).0)))
            ∙ behind_sent)

  two_blocks :
      (len : ℕ) (c : List ℕ) (more : List (List ℕ))
      → blocks ≡ c ∷ more
      → Queues queue q
      → len ≤ length q
      → len ≤ block_size
      → block_size < beg_offset + len
      → drop beg_offset b ++ take (len - (block_size - beg_offset)) c ≡ take len q
  two_blocks len c more e h enough short long =
      let size_b = (h.blocks).0 in
      let size_c : length c ≡ block_size = (subst AreBlocks e (h.blocks).1).0 in
      let one = drop beg_offset b in
      let size_one = length-drop beg_offset b in
      sym (
        sym (behind_sent len h enough)
        ∙ ap (take len) (drop-within beg_offset b (bytes blocks) (omega (arith, size_b, h.early)))
        ∙ take-beyond len one (bytes blocks) (omega (arith, size_b, size_one))
        ∙ ap (◌++◌ one) (
            ap (λ n. take n (bytes blocks)) (omega (arith, size_b, size_one))
            ∙ ap (λ l. take (len - (block_size - beg_offset)) (bytes l)) e
            ∙ slice-append 0 (len - (block_size - beg_offset)) c (bytes more)
                (omega (arith, size_c))))

  get_bytes-queue :
      (len : ℕ)
      → Queues queue q
      → len ≤ length q
      → len ≤ block_size
      → 0 < len
      → get_bytes len queue ≡ some (take len q)
  unfolding get_bytes
  get_bytes-queue len h enough short more = elim (dec_le (beg_offset + len) block_size) [
    | yes fits ↦
        rw (get_bytes, ne→== len 0 (λ e. omega (arith, e)), le→leb _ _ fits)
          (one_block len h enough fits)
    | no long ↦ elim (List-cases blocks) [
      | inl e ↦ absurd (
          omega (
            arith,
            (h.blocks).0,
            ap (λ l. length (bytes l)) e,
            length-append b (bytes blocks),
            ap length h.splits,
            length-splits h.sent q h.free,
            h.begins,
            enough,
            long,
          ))
      | inr (c, cs, e) ↦
          let offset = sub_size block_size beg_offset in
          let offset-eq : offset ≡ block_size - beg_offset =
            sub_size-eq-sub block_size beg_offset (omega arith) (omega (arith, h.early)) in
          let size_b = (h.blocks).0 in
          let size_c : length c ≡ block_size = (subst AreBlocks e (h.blocks).1).0 in
          let one : read b beg_offset offset ≡ some (drop beg_offset b) =
            read-within b beg_offset offset (omega (arith, size_b, h.early, offset-eq))
            ∙ ap some (
                take-all offset (drop beg_offset b)
                  (omega (arith, size_b, length-drop beg_offset b, offset-eq))) in
          rw
            (
              get_bytes,
              ne→== len 0 (λ i. omega (arith, i)),
              lt→leb (beg_offset + len) block_size (omega (arith, long)),
              one,
              e,
              read-within c 0 (len - offset) (omega (arith, size_c)),
            )
            (ap some (
              ap (λ r. drop beg_offset b ++ take (len - r) c) offset-eq
              ∙ two_blocks len c cs e h enough short (omega (arith, long))))
    ]
  ]

shown :
    (len : ℕ) (m : MessageForSend) (q : List ℕ)
    → Queues m q
    → len ≤ length q
    → len ≤ block_size
    → get_bytes len m ≡ some (take len q)
unfolding get_bytes
shown zero m q h enough short = refl
shown (suc len) m q h enough short = elim (List-cases m.bitlist) [
  | inl e ↦ absurd (
      omega
        (arith, ap (λ l. length (bytes l)) e, ap length h.splits, length-splits h.sent q h.free))
  | inr (b, blocks, e) ↦
      ap (get_bytes (suc len)) (same b blocks e)
      ∙ get_bytes-queue b blocks q m.count m.beg_offset m.end_offset m.need_write (suc len)
          (subst (λ n. Queues n q) (same b blocks e) h) enough short (omega arith)
]
  where
    same :
        (b : List ℕ) (blocks : List (List ℕ))
        → m.bitlist ≡ b ∷ blocks
        → m ≡ record m { bitlist = b ∷ blocks }
    same b blocks e = ap (λ l. record m { bitlist = l }) e

-- If `q` waits to be sent, then `getbitarray` with room for `len` bytes, 1024 at most, copies the
-- first `len` bytes of `q`, or all of `q` if it is shorter, and reads only within its blocks.
pub getbitarray_total :
    (len : ℕ) (q : List ℕ) (m : MessageForSend)
    → Queues m q
    → len ≤ block_size
    → getbitarray len m ≡ some (take len q)
unfolding getbitarray
getbitarray_total len q m h short =
    ap (λ n. get_bytes (if ltb n len then n else len) m) h.counted
    ∙ shown (if ltb (length q) len then length q else len) m q h (ground arith) (ground arith)
    ∙ ap some (take-asked len q)
