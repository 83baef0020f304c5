-- ===== src/Messages/Append.antt =====
-- `add_message` of p2/messageforsend.cpp appends to the queue, but where the bytes end with a block.
use multithread.Base.{
  ℕ, suc, ◌+◌, ◌-◌, ◌*◌, ◌%◌, ◌≤◌, ◌<◌, ◌≡◌, refl, ◌∙◌, sym, ap, Bool, Option, some, List, [], ◌∷◌,
  ◌++◌, length, take, drop, arith, length-append, length-take, length-drop, append_assoc,
  append-nil, le→leb, lt→leb,
}
use native.Mathlib.Decide.{dec_le}
use multithread.Base.Size.{IsSize, sub_size, sub_size-eq-sub}
use multithread.Messages.Bytes.{encode}
use multithread.Messages.Message.{◌>>=◌}
use multithread.Messages.Send.{
  MessageForSend, block_size, fill_last, push_rest, push_blocks, add_message,
}
use multithread.Messages.Slices.{append_inj, empty_list, length-splits, join_parts}
use multithread.Messages.Queue.{bytes, Queues, bytes-append, AreBlocks-append, length-bytes}
use multithread.Messages.Fill.{WroteLast, write_last_lem, push_blocks_lem}

-- What `add_message` is to leave.
abbrev pub Appends : ℕ → List ℕ → List ℕ → Option MessageForSend → Type 0
Appends beg_offset q new res =
    (after : MessageForSend) × (res ≡ some after)
    × Queues after (q ++ new)
    × (after.beg_offset ≡ beg_offset)

-- The body of `add_message` on an encoded message.
unfoldable add_buf : List ℕ → List ℕ → MessageForSend → Option MessageForSend
add_buf raw buf m = do
  (offset, m') ← fill_last buf m
  m'' ← push_blocks (suc (length buf)) raw (drop offset buf) m'
  some (record m'' { count = m''.count + length buf })

module _ (raw buf q : List ℕ) (full : length raw ≡ block_size) (count beg_offset end_offset : ℕ)
    (need_write : Bool) (small : IsSize (count + length buf))
    (apart : 0 < (beg_offset + count + length buf) % block_size) where
  abbrev with_blocks : List (List ℕ) → MessageForSend
  with_blocks blocks = record {
    bitlist = blocks;
    count = count;
    beg_offset = beg_offset;
    end_offset = end_offset;
    need_write = need_write;
  }

  add_first :
      Queues (with_blocks []) q → Appends beg_offset q buf (add_buf raw buf (with_blocks []))
  unfolding add_buf fill_last
  add_first h =
      let sizes = length-splits h.sent q h.free in
      let p =
        push_blocks_lem raw full (suc (length buf)) buf (with_blocks []) (omega arith)
          (omega (arith, sizes, ap length h.splits, h.counted, h.begins)) in
      (
        record {
          bitlist = p.new;
          count = count + length buf;
          beg_offset = beg_offset;
          end_offset = p.end_offset;
          need_write = need_write;
        },
        rw p.runs refl,
        record {
          blocks = p.are;
          sent = [];
          free = p.free;
          splits =
              p.is
              ∙ ap (λ l. (l ++ buf) ++ p.free)
                  (sym (empty_list q (omega (arith, sizes, ap length h.splits))));
          begins = omega (arith, sizes, ap length h.splits, h.begins);
          early = h.early;
          counted = omega (arith, length-append q buf, h.counted);
          ends = λ some_block. p.size;
          small = small;
        },
        refl,
      )

  module _ (b : List ℕ) (blocks : List (List ℕ)) (h : Queues (with_blocks (b ∷ blocks)) q) where
    last_free : length h.free + end_offset ≡ block_size
    last_free = h.ends (omega arith)

    position : (beg_offset + count) + block_size ≡ block_size * suc (length blocks) + end_offset
    position = omega (
      arith,
      last_free,
      length-splits h.sent q h.free,
      ap length h.splits,
      h.counted,
      h.begins,
      length-bytes (b ∷ blocks) h.blocks,
    )

    -- The part before the free end of the last block is what was there.
    before-eq : (new : List ℕ) (w : WroteLast end_offset new (b ∷ blocks)) → w.before ≡ h.sent ++ q
    before-eq new w =
        append_inj w.before w.old_free (h.sent ++ q) h.free
          (omega (
            arith,
            last_free,
            w.old_size,
            ap length w.was,
            ap length h.splits,
            length-append w.before w.old_free,
            length-append (h.sent ++ q) h.free,
          ))
          (sym w.was ∙ h.splits)

    add_fitting :
        end_offset + length buf ≤ block_size
        → Appends beg_offset q buf (add_buf raw buf (with_blocks (b ∷ blocks)))
    unfolding add_buf fill_last push_blocks push_rest
    add_fitting fits =
        let w = write_last_lem end_offset buf b blocks h.blocks fits in
        let nothing : drop (length buf) buf ≡ [] =
          empty_list (drop (length buf) buf) (omega (arith, length-drop (length buf) buf)) in
        (
          record {
            bitlist = w.after;
            count = count + length buf;
            beg_offset = beg_offset;
            end_offset = end_offset + length buf;
            need_write = need_write;
          },
          rw (le→leb _ _ fits, w.runs, nothing) refl,
          record {
            blocks = w.are;
            sent = h.sent;
            free = w.free;
            splits =
                w.is
                ∙ ap (λ l. (l ++ buf) ++ w.free) (before-eq buf w)
                ∙ ap (λ l. l ++ w.free) (append_assoc h.sent q buf);
            begins = h.begins;
            early = h.early;
            counted = omega (arith, length-append q buf, h.counted);
            ends = λ some_block. w.size;
            small = small;
          },
          refl,
        )

    add_longer :
        block_size < end_offset + length buf
        → Appends beg_offset q buf (add_buf raw buf (with_blocks (b ∷ blocks)))
    unfolding add_buf fill_last
    add_longer long =
        let room = sub_size block_size end_offset in
        let room-eq : room ≡ block_size - end_offset =
          sub_size-eq-sub block_size end_offset (omega arith) (omega (arith, last_free)) in
        let part = take room buf in
        let w =
          write_last_lem end_offset part b blocks h.blocks
            (omega (arith, room-eq, length-take room buf, last_free)) in
        let filled : w.free ≡ [] =
          empty_list w.free (omega (arith, w.size, room-eq, length-take room buf, last_free)) in
        let p =
          push_blocks_lem raw full (suc (length buf)) (drop room buf) (with_blocks w.after)
            (omega (arith, length-drop room buf))
            (omega (arith, position, length-drop room buf, room-eq, last_free)) in
        (
          record {
            bitlist = w.after ++ p.new;
            count = count + length buf;
            beg_offset = beg_offset;
            end_offset = p.end_offset;
            need_write = need_write;
          },
          rw (lt→leb (end_offset + length buf) block_size long, w.runs, p.runs) refl,
          record {
            blocks = AreBlocks-append w.after p.new w.are p.are;
            sent = h.sent;
            free = p.free;
            splits =
                bytes-append w.after p.new
                ∙ ap (λ l. l ++ bytes p.new)
                    (w.is ∙ ap (◌++◌ (w.before ++ part)) filled ∙ append-nil (w.before ++ part))
                ∙ ap (◌++◌ (w.before ++ part)) p.is
                ∙ join_parts room w.before buf p.free
                ∙ ap (λ l. (l ++ buf) ++ p.free) (before-eq part w)
                ∙ ap (λ l. l ++ p.free) (append_assoc h.sent q buf);
            begins = h.begins;
            early = h.early;
            counted = omega (arith, length-append q buf, h.counted);
            ends = λ some_block. p.size;
            small = small;
          },
          refl,
        )

  add_blocks :
      (blocks : List (List ℕ))
      → Queues (with_blocks blocks) q
      → Appends beg_offset q buf (add_buf raw buf (with_blocks blocks))
  add_blocks [] h = add_first h
  add_blocks (b ∷ blocks) h = elim (dec_le (end_offset + length buf) block_size) [
    | yes fits ↦ add_fitting b blocks h fits
    | no long ↦ add_longer b blocks h (omega arith)
  ]

-- `add_message` appends to the queue, and leaves its front where it is.
pub add_message_lem :
    (raw message q : List ℕ) (m : MessageForSend)
    → Queues m q
    → length raw ≡ block_size
    → IsSize (m.count + length (encode message))
    → 0 < (m.beg_offset + m.count + length (encode message)) % block_size
    → Appends m.beg_offset q (encode message) (add_message raw message m)
unfolding add_message add_buf
add_message_lem raw message q m h full small apart =
    add_blocks raw (encode message) q full m.count m.beg_offset m.end_offset m.need_write small
      apart m.bitlist h

-- If `q` waits to be sent, and the new bytes do not end exactly at the end of a block, then
-- `add_message` runs without undefined behaviour, and `q` with the encoded message behind it
-- waits to be sent. New arrays hold any `raw` of their size; all counts stay below 2^64.
pub add_message_total :
    (raw message q : List ℕ) (m : MessageForSend)
    → Queues m q
    → length raw ≡ block_size
    → IsSize (m.count + length (encode message))
    → 0 < (m.beg_offset + m.count + length (encode message)) % block_size
    → (after : MessageForSend) × (add_message raw message m ≡ some after)
      × Queues after (q ++ encode message)
add_message_total raw message q m h full small apart =
    let (after, runs, h', same) = add_message_lem raw message q m h full small apart in
    (after, runs, h')
