-- ===== src/Messages/Sender.antt =====
-- p2/messagesender.h and .cpp: `MessageSender`, one queue for each client.
use multithread.Base.{
  ℕ, ◌+◌, ◌%◌, ◌<◌, ◌≡◌, refl, Option, none, some, List, [], ◌∷◌, ◌++◌, length, map, arith,
}
use multithread.Base.Size.{IsSize}
use multithread.Messages.Bytes.{encode}
use multithread.Messages.Message.{◌>>=◌}
use multithread.Messages.Dictionary.{lookup, emplace, erase, erase_absent}
use multithread.Messages.Send.{MessageForSend, block_size, start, add_message}
use multithread.Messages.Queue.{Queues}
use multithread.Messages.Append.{add_message_total}

-- The member `messanger`.
abbrev pub MessageSender : Type 0
MessageSender = List (ℕ × MessageForSend)

unfoldable pub add_client : ℕ → MessageSender → MessageSender
add_client sock_fd s = emplace sock_fd start s

-- `MessageSender::add_message(msg)`
unfoldable pub broadcast : List ℕ → List ℕ → MessageSender → Option MessageSender
broadcast raw msg [] = some []
broadcast raw msg ((k, m) ∷ s) = do
  m' ← add_message raw msg m
  s' ← broadcast raw msg s
  some ((k, m') ∷ s')

-- `MessageSender::deleteSockFd(sockfd)`, with the test as it is written.
unfoldable pub delete_client : ℕ → MessageSender → MessageSender
delete_client sockfd s = elim (lookup sockfd s) [ none ↦ erase sockfd s | some m ↦ s ]

-- `deleteSockFd` of the sender changes nothing: a client that has gone stays, and the next
-- message is queued for its socket.
pub delete_client_keeps : (sockfd : ℕ) (s : MessageSender) → delete_client sockfd s ≡ s
unfolding delete_client
delete_client_keeps sockfd s = ground (arith, erase_absent sockfd s)

-- What waits for each client, in the order of the clients.
abbrev pub WaitForAll : MessageSender → List (ℕ × List ℕ) → Type 0
WaitForAll [] [] = Unit
WaitForAll ((k, m) ∷ s) ((j, q) ∷ queues) = (k ≡ j) × Queues m q × WaitForAll s queues
WaitForAll s queues = ⊥

-- `msg` does not end with a block of any client, and all counts stay below 2^64.
abbrev pub HaveRoom : List ℕ → MessageSender → Type 0
HaveRoom msg [] = Unit
HaveRoom msg ((k, m) ∷ s) =
    (IsSize (m.count + length (encode msg))
      × (0 < (m.beg_offset + m.count + length (encode msg)) % block_size))
    × HaveRoom msg s

-- If `queues` wait for the clients, and `msg` does not end exactly with a block of any of them,
-- then `add_message` of the sender runs, and every client's queue has the encoded `msg` at its
-- end; no client comes or goes. New arrays hold any `raw` of their size.
pub broadcast_total :
    (raw msg : List ℕ) (s : MessageSender) (queues : List (ℕ × List ℕ))
    → WaitForAll s queues
    → length raw ≡ block_size
    → HaveRoom msg s
    → (after : MessageSender) × (broadcast raw msg s ≡ some after)
      × WaitForAll after (map (λ e. (e.0, e.1 ++ encode msg)) queues)
unfolding broadcast
broadcast_total raw msg [] [] w full room = ([], refl, tt)
broadcast_total raw msg [] (q ∷ queues) w full room = absurd w
broadcast_total raw msg ((k, m) ∷ s) [] w full room = absurd w
broadcast_total raw msg ((k, m) ∷ s) ((j, q) ∷ queues) (same, h, w) full (fits, room) =
    let (m', runs, h') = add_message_total raw msg q m h full fits.0 fits.1 in
    let (s', all_run, w') = broadcast_total raw msg s queues w full room in
    ((k, m') ∷ s', rw (runs, all_run) refl, (same, h', w'))
