-- ===== src/Messages/Erase.antt =====
-- `erase` of p2/messageforsend.cpp drops the front of the queue.
use multithread.Base.{
  ℕ, ◌+◌, ◌%◌, ◌-◌, ◌≤◌, ◌<◌, ◌≡◌, refl, ◌∙◌, sym, ap, subst, inl, inr, Bool, some, List, ◌∷◌, ◌++◌,
  length, take, drop, List-cases, ltb, arith, length-append, length-take, length-drop, append_assoc,
  take-append-drop, Bool-cases, ltb→le, if-true, if-false,
}
use multithread.Base.Size.{sub_size, sub_size-eq-sub}
use multithread.Messages.Bytes.{drop-append}
use multithread.Messages.Send.{MessageForSend, block_size, erase}
use multithread.Messages.Slices.{length-splits, drop-within, drop-more, drop-drop}
use multithread.Messages.Queue.{bytes, Queues}

module _ (len : ℕ) (q : List ℕ) (enough : len ≤ length q) where
  drops_within :
      (m : MessageForSend)
      → Queues m q
      → m.beg_offset + len < block_size
      → Queues
          (record m { beg_offset = m.beg_offset + len; count = sub_size m.count len })
          (drop len q)
  drops_within m h within =
      let count-eq : sub_size m.count len ≡ m.count - len =
        sub_size-eq-sub m.count len h.small (omega (arith, h.counted)) in
      record {
        blocks = h.blocks;
        sent = h.sent ++ take len q;
        free = h.free;
        splits =
            h.splits
            ∙ ap (λ l. l ++ h.free)
                (ap (◌++◌ h.sent) (sym (take-append-drop len q))
                  ∙ sym (append_assoc h.sent (take len q) (drop len q)));
        begins = omega (arith, length-append h.sent (take len q), length-take len q, h.begins);
        early = within;
        counted = omega (arith, count-eq, h.counted, length-drop len q);
        ends = h.ends;
        small = omega (arith, count-eq, h.small);
      }

  module _ (b : List ℕ) (blocks : List (List ℕ)) (count beg_offset end_offset : ℕ)
      (need_write : Bool) where
    abbrev queue : MessageForSend
    queue = record {
      bitlist = b ∷ blocks;
      count = count;
      beg_offset = beg_offset;
      end_offset = end_offset;
      need_write = need_write;
    }

    module _ (h : Queues queue q) (beyond : block_size ≤ beg_offset + len) where
      -- What is left of the queue starts in the next block.
      next_blocks : bytes blocks ≡ drop (block_size - beg_offset) q ++ h.free
      next_blocks =
          let sent_and_rest : block_size ≡ length h.sent + (block_size - beg_offset) =
            omega (arith, h.begins, h.early) in
          sym (drop-append b (bytes blocks) block_size (h.blocks).0)
          ∙ ap (drop block_size) (h.splits ∙ append_assoc h.sent q h.free)
          ∙ ap (λ n. drop n (h.sent ++ (q ++ h.free))) sent_and_rest
          ∙ drop-more h.sent (q ++ h.free) (block_size - beg_offset)
          ∙ drop-within (block_size - beg_offset) q h.free (omega (arith, beyond, enough))

      drops_block :
          len ≤ block_size
          → Queues
              (record queue {
                bitlist = blocks;
                beg_offset = sub_size len (sub_size block_size beg_offset);
                count = sub_size count len;
              })
              (drop len q)
      drops_block short =
          let delta = block_size - beg_offset in
          let delta-eq : sub_size block_size beg_offset ≡ delta =
            sub_size-eq-sub block_size beg_offset (omega arith) (omega (arith, h.early)) in
          let beg-eq : sub_size len (sub_size block_size beg_offset) ≡ len - delta =
            ap (sub_size len) delta-eq
            ∙ sub_size-eq-sub len delta (omega (arith, short)) (omega (arith, beyond)) in
          let count-eq : sub_size count len ≡ count - len =
            sub_size-eq-sub count len h.small (omega (arith, h.counted)) in
          let later : drop (len - delta) (drop delta q) ≡ drop len q =
            drop-drop delta (len - delta) q ∙ ap (λ n. drop n q) (omega (arith, beyond)) in
          record {
            blocks = (h.blocks).1;
            sent = take (len - delta) (drop delta q);
            free = h.free;
            splits =
                next_blocks
                ∙ ap (λ l. l ++ h.free)
                    (sym (take-append-drop (len - delta) (drop delta q))
                      ∙ ap (◌++◌ (take (len - delta) (drop delta q))) later);
            begins = omega (
              arith,
              length-take (len - delta) (drop delta q),
              length-drop delta q,
              beg-eq,
              enough,
              beyond,
            );
            early = omega (arith, beg-eq, short, h.early);
            counted = omega (arith, count-eq, h.counted, length-drop len q);
            ends = λ some_block. h.ends (omega arith);
            small = omega (arith, count-eq, h.small);
          }

behind_block :
    (len beg_offset : ℕ)
    → beg_offset < block_size
    → len ≤ block_size
    → block_size ≤ beg_offset + len
    → sub_size len (sub_size block_size beg_offset) ≡ (beg_offset + len) % block_size
behind_block len beg_offset early short beyond =
    ap (sub_size len) (sub_size-eq-sub block_size beg_offset (omega arith) (omega arith))
    ∙ sub_size-eq-sub len (block_size - beg_offset) (omega arith) (omega arith)
    ∙ omega arith

-- `erase` drops the front of the queue, and counts on.
pub erase_lem :
    (len : ℕ) (q : List ℕ) (m : MessageForSend)
    → Queues m q
    → len ≤ length q
    → len ≤ block_size
    → (after : MessageForSend) × (erase len m ≡ some after)
      × Queues after (drop len q)
      × (after.beg_offset ≡ (m.beg_offset + len) % block_size)
unfolding erase
erase_lem len q m h enough short = elim (Bool-cases (ltb (m.beg_offset + len) block_size)) [
  | inl e ↦ (
    record m { beg_offset = m.beg_offset + len; count = sub_size m.count len },
    if-true _ _ _ e,
    drops_within len q enough m h (ground (arith, e)),
    ground (arith, e),
  )
  | inr e ↦ elim (List-cases m.bitlist) [
    | inl none_there ↦ absurd (
        omega (
          arith,
          ltb→le (m.beg_offset + len) block_size e,
          ap (λ l. length (bytes l)) none_there,
          ap length h.splits,
          length-splits h.sent q h.free,
          h.begins,
        ))
    | inr (b, blocks, there) ↦ (
      record m {
        bitlist = blocks;
        beg_offset = sub_size len (sub_size block_size m.beg_offset);
        count = sub_size m.count len;
      },
      if-false _ _ _ e ∙ rw there refl,
      drops_block len q enough b blocks m.count m.beg_offset m.end_offset m.need_write
          (subst (λ l. Queues (record m { bitlist = l }) q) there h)
          (ltb→le (m.beg_offset + len) block_size e) short,
      behind_block len m.beg_offset h.early short (ltb→le (m.beg_offset + len) block_size e),
    )
  ]
]

-- If `q` waits to be sent, then `erase(len)`, for a `len` of 1024 at most that `q` has, runs
-- without undefined behaviour, and `q` without its first `len` bytes waits.
pub erase_total :
    (len : ℕ) (q : List ℕ) (m : MessageForSend)
    → Queues m q
    → len ≤ length q
    → len ≤ block_size
    → (after : MessageForSend) × (erase len m ≡ some after) × Queues after (drop len q)
erase_total len q m h enough short =
    let (after, runs, h', place) = erase_lem len q m h enough short in (after, runs, h')
