-- ===== src/Messages/Examples.antt =====
-- The theorems of the message layer at concrete buffers.
use multithread.Base.{
  ℕ, zero, suc, ◌≡◌, refl, true, false, some, List, [], ◌∷◌, ◌++◌, arith, ◌==◌, if◌then◌else◌,
  Bool-cases, inl, inr, length, ◌*◌, ◌+◌, ◌<◌,
}
use multithread.Base.Size.{sub_size}
use multithread.Messages.Bytes.{encode, encode_all, write}
use multithread.Messages.Message.{Message}
use multithread.Messages.Waits.{IsGood}
use multithread.Messages.Receiver.{MessageReceiver, delete_sock_fd, delete_sock_fd_keeps}
use multithread.Messages.Interleave.{Piece, process_all, messages_by, bytes_by, process_all_total}
use multithread.Messages.Send.{
  MessageForSend, block_size, start, fill_last, push_blocks, push_rest, add_message, getbitarray,
  erase,
}
use multithread.Messages.Queue.{Queues}
use multithread.Messages.Append.{add_message_total}
use multithread.Messages.Front.{getbitarray_total}
use multithread.Messages.Erase.{erase_total}
use multithread.Messages.Space.{Reaches, started, added, erased, Reaches-bound}
use multithread.Messages.Sender.{
  MessageSender, WaitForAll, broadcast, broadcast_total, delete_client, delete_client_keeps,
}
use multithread.Messages.Writing.{room, error, Wrote, write_client, write_client_total}

abbrev pub zeros : ℕ → List ℕ
zeros zero = []
zeros (suc n) = 0 ∷ zeros n

abbrev pub raw : Message
raw = record {
  have_count = true;
  len_msg = 7;
  cur_len = 9;
  cur_part = zeros 2048;
  cur_message = [];
  have_part_next_msg = true;
  len_add_part = 3;
  add_part = zeros 2048;
}

abbrev pub hi : List ℕ
hi = 104 ∷ 105 ∷ []

abbrev oh : List ℕ
oh = 111 ∷ 104 ∷ []

-- On socket 4 a message in two pieces, and between them a message on socket 5.
abbrev pieces : List Piece
pieces = (4, 2 ∷ 0 ∷ 0 ∷ 0 ∷ 104 ∷ []) ∷ (5, 2 ∷ 0 ∷ 0 ∷ 0 ∷ 111 ∷ 104 ∷ []) ∷ (4, 105 ∷ []) ∷ []

abbrev sent_by : ℕ → List (List ℕ)
sent_by k = if 4 == k then hi ∷ [] else if 5 == k then oh ∷ [] else []

pub hi-IsGood : IsGood (hi ∷ [])
hi-IsGood = (((omega arith, (omega arith, tt)), omega arith, omega arith), tt)

oh-IsGood : IsGood (oh ∷ [])
oh-IsGood = (((omega arith, (omega arith, tt)), omega arith, omega arith), tt)

sent_by-IsGood : (k : ℕ) → IsGood (sent_by k)
sent_by-IsGood k = elim (Bool-cases (4 == k)) [
  | inl e ↦ rw e hi-IsGood
  | inr e ↦ elim (Bool-cases (5 == k)) [ inl i ↦ rw (e, i) oh-IsGood | inr i ↦ rw (e, i) tt ]
]

pieces_by : (k : ℕ) → bytes_by k pieces ≡ encode_all (sent_by k)
unfolding encode_all encode
pieces_by k = elim (Bool-cases (4 == k)) [
  | inl e ↦ elim (Bool-cases (5 == k)) [
    | inl i ↦ absurd (ground (arith, e, i))
    | inr i ↦ rw (e, i) refl
  ]
  | inr e ↦ elim (Bool-cases (5 == k)) [ inl i ↦ rw (e, i) refl | inr i ↦ rw (e, i) refl ]
]

process_all_total_example :
    (out : List (ℕ × List ℕ)) × (after : MessageReceiver) × (process_all raw pieces []
      ≡ some (out, after))
    × ((k : ℕ) → messages_by k out ≡ sent_by k)
process_all_total_example =
    process_all_total raw pieces sent_by (record { part_size = refl; add_size = refl })
      ((omega arith, omega arith), ((omega arith, omega arith), ((omega arith, omega arith), tt)))
      sent_by-IsGood pieces_by

delete_sock_fd_keeps_example : delete_sock_fd 4 ((4, raw) ∷ []) ≡ (4, raw) ∷ []
delete_sock_fd_keeps_example = delete_sock_fd_keeps 4 ((4, raw) ∷ [])

-- One byte sent, three to be sent.
abbrev waiting : MessageForSend
waiting = record {
  bitlist = (1 ∷ 2 ∷ 3 ∷ 4 ∷ zeros 1020) ∷ [];
  count = 3;
  beg_offset = 1;
  end_offset = 4;
  need_write = false;
}

waiting-Queues : Queues waiting (2 ∷ 3 ∷ 4 ∷ [])
waiting-Queues = record {
  blocks = (refl, tt);
  sent = 1 ∷ [];
  free = zeros 1020;
  splits = refl;
  begins = refl;
  early = omega arith;
  counted = refl;
  ends = λ h. refl;
  small = omega arith;
}

add_message_total_example :
    (after : MessageForSend) × (add_message (zeros 1024) hi waiting ≡ some after)
    × Queues after ((2 ∷ 3 ∷ 4 ∷ []) ++ encode hi)
unfolding encode
add_message_total_example =
    add_message_total (zeros 1024) hi (2 ∷ 3 ∷ 4 ∷ []) waiting waiting-Queues refl (omega arith)
      (omega arith)

getbitarray_total_example : getbitarray 2 waiting ≡ some (2 ∷ 3 ∷ [])
getbitarray_total_example =
    getbitarray_total 2 (2 ∷ 3 ∷ 4 ∷ []) waiting waiting-Queues (omega arith)

erase_total_example :
    (after : MessageForSend) × (erase 2 waiting ≡ some after) × Queues after (4 ∷ [])
erase_total_example =
    erase_total 2 (2 ∷ 3 ∷ 4 ∷ []) waiting waiting-Queues (omega arith) (omega arith)

broadcast_total_example :
    (after : MessageSender) × (broadcast (zeros 1024) hi ((5, waiting) ∷ (6, waiting) ∷ [])
      ≡ some after)
    × WaitForAll after
        ((5, (2 ∷ 3 ∷ 4 ∷ []) ++ encode hi) ∷ (6, (2 ∷ 3 ∷ 4 ∷ []) ++ encode hi) ∷ [])
unfolding encode
broadcast_total_example =
    broadcast_total (zeros 1024) hi ((5, waiting) ∷ (6, waiting) ∷ [])
      ((5, 2 ∷ 3 ∷ 4 ∷ []) ∷ (6, 2 ∷ 3 ∷ 4 ∷ []) ∷ [])
      (refl, waiting-Queues, (refl, waiting-Queues, tt)) refl
      ((omega arith, omega arith), ((omega arith, omega arith), tt))

delete_client_keeps_example : delete_client 5 ((5, waiting) ∷ []) ≡ (5, waiting) ∷ []
delete_client_keeps_example = delete_client_keeps 5 ((5, waiting) ∷ [])

write_client_total_example :
    Wrote waiting (2 ∷ 3 ∷ 4 ∷ []) (write_client (room 1 ∷ error 11 ∷ []) waiting)
write_client_total_example =
    write_client_total (room 1 ∷ error 11 ∷ []) (2 ∷ 3 ∷ 4 ∷ []) waiting waiting-Queues

-- `hi` in a new buffer, and then without its first four bytes.
abbrev queued : MessageForSend
queued = record {
  bitlist = (2 ∷ 0 ∷ 0 ∷ 0 ∷ 104 ∷ 105 ∷ zeros 1018) ∷ [];
  count = 6;
  beg_offset = 0;
  end_offset = 6;
  need_write = false;
}

abbrev partly_sent : MessageForSend
partly_sent = record queued { beg_offset = 4; count = 2 }

partly_sent-Reaches : Reaches partly_sent (104 ∷ 105 ∷ [])
unfolding start encode write fill_last push_blocks push_rest add_message erase sub_size
partly_sent-Reaches =
    erased 4 (2 ∷ 0 ∷ 0 ∷ 0 ∷ 104 ∷ 105 ∷ []) queued partly_sent
      (added (zeros 1024) hi [] start queued started refl (omega arith) (omega arith) refl)
      (omega arith) (omega arith) refl

Reaches-bound_example :
    (partly_sent.count ≡ length {A = ℕ} (104 ∷ 105 ∷ []))
    × (partly_sent.beg_offset < block_size)
    × (block_size * length partly_sent.bitlist < partly_sent.count + 2 * block_size)
Reaches-bound_example = Reaches-bound partly_sent (104 ∷ 105 ∷ []) partly_sent-Reaches
