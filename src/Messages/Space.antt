-- ===== src/Messages/Space.antt =====
-- How many blocks a `MessageForSend` (p2/messageforsend.cpp) holds, whatever is added and erased.
use multithread.Base.{
  ℕ, ◌+◌, ◌*◌, ◌%◌, ◌<◌, ◌≤◌, ◌≡◌, ◌∙◌, sym, ap, subst, some, List, [], ◌++◌, length, drop, arith,
  length-append, inl, inr, List-cases,
}
use multithread.Base.Size.{IsSize}
use multithread.Messages.Bytes.{encode}
use multithread.Messages.Dictionary.{some_inj}
use multithread.Messages.Send.{MessageForSend, block_size, start, add_message, erase}
use multithread.Messages.Queue.{Queues, length-bytes, start-Queues}
use multithread.Messages.Append.{add_message_total}
use multithread.Messages.Erase.{erase_total}

-- The states that a `MessageForSend` comes to, with the bytes that wait: it starts empty, whole
-- messages are added to it, none of which ends exactly with a block, and at most 1024 of the bytes that wait
-- are erased at once, as `writeMessages` does.
pub data Reaches : MessageForSend → List ℕ → Type 0 where
  started : Reaches start []
  added :
      (raw message q : List ℕ) (m after : MessageForSend)
      → Reaches m q
      → length raw ≡ block_size
      → IsSize (m.count + length (encode message))
      → 0 < (m.beg_offset + m.count + length (encode message)) % block_size
      → add_message raw message m ≡ some after
      → Reaches after (q ++ encode message)
  erased :
      (len : ℕ) (q : List ℕ) (m after : MessageForSend)
      → Reaches m q
      → len ≤ length q
      → len ≤ block_size
      → erase len m ≡ some after
      → Reaches after (drop len q)

Reaches-Queues : (m : MessageForSend) (q : List ℕ) → Reaches m q → Queues m q
Reaches-Queues m q started = start-Queues
Reaches-Queues m q (added raw message q' m' after r full small apart runs) =
    let (after', runs', h) =
      add_message_total raw message q' m' (Reaches-Queues m' q' r) full small apart in
    subst (λ s. Queues s (q' ++ encode message)) (some_inj (sym runs' ∙ runs)) h
Reaches-Queues m q (erased len q' m' after r enough short runs) =
    let (after', runs', h) = erase_total len q' m' (Reaches-Queues m' q' r) enough short in
    subst (λ s. Queues s (drop len q')) (some_inj (sym runs' ∙ runs)) h

-- Whatever messages are added and bytes erased from the start on, where no message ends exactly
-- with a block and at most 1024 of the bytes that wait are erased at once: `count` is the number of
-- bytes that wait, `beg_offset` lies in the first block, and the blocks have less than 2048 bytes
-- more than `count`.
pub Reaches-bound :
    (m : MessageForSend) (q : List ℕ)
    → Reaches m q
    → (m.count ≡ length q)
      × (m.beg_offset < block_size)
      × (block_size * length m.bitlist < m.count + 2 * block_size)
Reaches-bound m q r =
    let h = Reaches-Queues m q r in
    (
      h.counted,
      h.early,
      elim (List-cases m.bitlist) [
        | inl none_there ↦ omega (arith, ap length none_there)
        | inr (b, blocks, there) ↦ omega (
          arith,
          length-bytes m.bitlist h.blocks,
          ap length h.splits,
          length-append (h.sent ++ q) h.free,
          length-append h.sent q,
          h.begins,
          h.early,
          h.counted,
          h.ends (omega (arith, ap length there)),
        )
      ],
    )
