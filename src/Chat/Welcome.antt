-- ===== src/Chat/Welcome.antt =====
-- `processMasterEvent` of p2/server.cpp: a new client is greeted.
use multithread.Base.{
  ℕ, ◌≡◌, refl, ◌∙◌, sym, false, inl, inr, none, some, List, [], ◌∷◌, length, arith, Bool-cases,
  ◌==◌, ltb, ==-refl,
}
use multithread.Messages.Bytes.{encode}
use multithread.Messages.Message.{Message}
use multithread.Messages.Dictionary.{lookup, emplace, put, lookup-emplace}
use multithread.Messages.Send.{MessageForSend, block_size, start}
use multithread.Messages.Queue.{Queues, start-Queues}
use multithread.Messages.Append.{add_message_lem}
use multithread.Messages.Sender.{MessageSender, WaitForAll, add_client}
use multithread.Chat.Client.{Status}
use multithread.Chat.Server.{Sockets, Row, Server, greet, welcome, process_master_event}
use multithread.Chat.Queued.{Rooms, fds, with_row, write_messages_lem}

Rooms-nothing : (s : MessageSender) → Rooms [] s
Rooms-nothing [] = tt
Rooms-nothing ((k, m) ∷ s) = (tt, Rooms-nothing s)

-- A new client gets its queue in the place of its number.
emplace-WaitForAll :
    (k : ℕ) (m : MessageForSend) (q : List ℕ) (s : MessageSender) (queues : List (ℕ × List ℕ))
    → Queues m q
    → WaitForAll s queues
    → WaitForAll (emplace k m s) (emplace k q queues)
unfolding emplace
emplace-WaitForAll k m q [] [] h w = (refl, h, tt)
emplace-WaitForAll k m q [] (p ∷ queues) h w = absurd w
emplace-WaitForAll k m q ((j, n) ∷ s) [] h w = absurd w
emplace-WaitForAll k m q ((j, n) ∷ s) ((i, p) ∷ queues) h (same, hn, w) =
    elim (Bool-cases (j == k)) [
      | inl e ↦ rw (emplace, sym same, e) (refl, hn, w)
      | inr e ↦ elim (Bool-cases (ltb k j)) [
        | inl l ↦ rw (emplace, sym same, e, l) (refl, h, (refl, hn, w))
        | inr l ↦ rw (emplace, sym same, e, l) (refl, hn, emplace-WaitForAll k m q s queues h w)
      ]
    ]

module _ {ℓ} {V : Type ℓ} where
  put-emplace :
      (k : ℕ) (v w : V) (m : List (ℕ × V))
      → lookup k m ≡ none
      → put k w (emplace k v m) ≡ emplace k w m
  unfolding put emplace lookup
  put-emplace k v w [] absent = rw (put, ==-refl k) refl
  put-emplace k v w ((j, u) ∷ m) absent = ground (arith, put-emplace k v w m)

-- The first message of a new client.
greet_lem :
    (raw : Message) (raw_block : List ℕ) (new_fd : ℕ) (s : MessageSender)
    (queues : List (ℕ × List ℕ))
    → length raw_block ≡ block_size
    → lookup new_fd s ≡ none
    → WaitForAll s queues
    → (after : MessageSender) × (greet raw raw_block new_fd (add_client new_fd s) ≡ some after)
      × WaitForAll after (emplace new_fd (encode welcome) queues)
unfolding greet add_client encode start
greet_lem raw raw_block new_fd s queues full absent w =
    let (m, runs, h, same) =
      add_message_lem raw_block welcome [] start start-Queues full (omega arith) (omega arith) in
    let there : lookup new_fd (emplace new_fd start s) ≡ some start =
      lookup-emplace new_fd new_fd start s absent ∙ rw (==-refl new_fd) refl in
    (
      emplace new_fd m s,
      rw (greet, there, runs, put-emplace new_fd start m s absent) refl,
      emplace-WaitForAll new_fd m (encode welcome) s queues h w,
    )

-- Let a client connect on a socket that is not in the map. Then `processMasterEvent` runs without
-- undefined behaviour, the receiver stays as it is, and the sender has the new client in the place
-- of its number: what was sent on its socket and what waits for it are the encoded "Welcome", and what
-- was sent on each other client's socket and what waits for it are what waited for it before.
pub process_master_event_total :
    (raw : Message) (raw_block : List ℕ) (new_fd : ℕ) (sockets : Sockets) (s : Server)
    (queues : List (ℕ × List ℕ))
    → length raw_block ≡ block_size
    → lookup new_fd s.sender ≡ none
    → WaitForAll s.sender queues
    → (s' : Server) × (row : Row) × (status : Status) × (left : List (ℕ × List ℕ))
      × (process_master_event raw raw_block false (some new_fd) sockets s
          ≡ some (s', row ∷ [], status))
      × (s'.receiver ≡ s.receiver)
      × WaitForAll s'.sender left
      × (fds row ≡ fds (emplace new_fd (encode welcome) queues))
      × (with_row row left ≡ emplace new_fd (encode welcome) queues)
unfolding process_master_event
process_master_event_total raw raw_block new_fd sockets s queues full absent w =
    let (greeted, runs, waits) = greet_lem raw raw_block new_fd s.sender queues full absent w in
    let r = write_messages_lem sockets [] greeted _ waits (Rooms-nothing greeted) in
    (
      record s { sender = r.after },
      r.row,
      r.status,
      r.left,
      rw (runs, r.runs) refl,
      refl,
      r.waits,
      r.to,
      sym r.splits,
    )
