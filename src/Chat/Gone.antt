-- ===== src/Chat/Gone.antt =====
-- What becomes of the server (p2/server.cpp) when a client has gone.
use multithread.Base.{
  ℕ, ◌<◌, ◌≡◌, refl, ◌∙◌, ap, ◌≢◌, subst, Bool, true, false, Option, some, List, [], ◌∷◌, ◌++◌,
  length, arith, length-append,
}
use multithread.Messages.Bytes.{encode}
use multithread.Messages.Message.{◌>>=◌}
use multithread.Messages.Send.{MessageForSend, block_size}
use multithread.Messages.Queue.{Queues}
use multithread.Messages.Front.{getbitarray_total}
use multithread.Messages.Sender.{MessageSender, WaitForAll, broadcast, delete_client_keeps}
use multithread.Messages.Writing.{
  Answer, error, blocked, test_would_block, write_loop, write_client, write_client_total,
}
use multithread.Chat.Client.{Status, running, exit, hangs}
use multithread.Chat.Server.{Sockets, Row, Server, unsent, after_loop, disconnect, write_messages}
use multithread.Chat.Queued.{Rooms, with_bytes, broadcast_lem}

-- The call ends, and the server does not go on.
abbrev Stops : Option (Row × MessageSender × Status) → Type 0
Stops res =
    (row : Row) × (s : MessageSender) × (status : Status) × (res ≡ some (row, s, status))
    × (status ≢ running)

-- Error 9 of `send` passes the test for `EWOULDBLOCK`.
bad_file_blocks :
    (answers : List Answer) (q : List ℕ) (m : MessageForSend)
    → Queues m q
    → 0 < length q
    → (after : MessageForSend) × (write_client (error 9 ∷ answers) m ≡ some ([], after, blocked))
unfolding write_client write_loop test_would_block
bad_file_blocks answers [] m h some_left = absurd (omega arith)
bad_file_blocks answers (x ∷ q) m h some_left =
    (record m { need_write = true }, rw (getbitarray_total 1024 (x ∷ q) m h (omega arith)) refl)

after_client :
    (sockets : Sockets) (k : ℕ) (sent : List ℕ) (m : MessageForSend) (s : MessageSender)
    (status : Status)
    → Stops (write_messages sockets s)
    → Stops (
        elim status [
          | running ↦ write_messages sockets s
          | exit code ↦ some (unsent s, s, exit code)
          | hangs ↦ some (unsent s, s, hangs)
        ]
        >>= λ r. some ((k, sent) ∷ r.0, (k, m) ∷ r.1, r.2))
after_client sockets k sent m s running (row, s', status, runs, stops) =
    ((k, sent) ∷ row, (k, m) ∷ s', status, rw runs refl, stops)
after_client sockets k sent m s (exit code) later =
    ((k, sent) ∷ unsent s, (k, m) ∷ s, exit code, refl, λ e. cc)
after_client sockets k sent m s hangs later =
    ((k, sent) ∷ unsent s, (k, m) ∷ s, hangs, refl, λ e. cc)

-- `epoll_ctl` is refused after the loop.
refused-Stops :
    (ctl need_write : Bool) (sockets : Sockets) (k : ℕ) (sent : List ℕ) (m : MessageForSend)
    (s : MessageSender)
    → ctl ≡ false
    → Stops (
        elim (after_loop ctl need_write blocked) [
          | running ↦ write_messages sockets s
          | exit code ↦ some (unsent s, s, exit code)
          | hangs ↦ some (unsent s, s, hangs)
        ]
        >>= λ r. some ((k, sent) ∷ r.0, (k, m) ∷ r.1, r.2))
refused-Stops true need_write sockets k sent m s refused = absurd cc
refused-Stops false need_write sockets k sent m s refused =
    ((k, sent) ∷ unsent s, (k, m) ∷ s, exit 1, refl, λ e. cc)

write_messages-Stops :
    (sockets : Sockets) (fd : ℕ) (answers : List Answer) (q : List ℕ)
    (before later : List (ℕ × List ℕ)) (s : MessageSender)
    → WaitForAll s (before ++ (fd, q) ∷ later)
    → 0 < length q
    → sockets.answers fd ≡ error 9 ∷ answers
    → sockets.ctl fd ≡ false
    → Stops (write_messages sockets s)
unfolding write_messages
write_messages-Stops sockets fd answers q [] later [] w more bad refused = absurd w
write_messages-Stops sockets fd answers q ((j, p) ∷ before) later [] w more bad refused = absurd w
write_messages-Stops sockets fd answers q [] later ((k, m) ∷ s) (same, h, w) more bad refused =
    let (after, runs) = bad_file_blocks answers q m h more in
    let answered = ap sockets.answers same ∙ bad in
    rw (answered, runs)
      (refused-Stops (sockets.ctl k) m.need_write sockets k [] after s
        (ap sockets.ctl same ∙ refused))
write_messages-Stops sockets fd answers q ((j, p) ∷ before) later ((k, m) ∷ s) (same, h, w) more bad
      refused =
    let one = write_client_total (sockets.answers k) p m h in
    rw one.runs (
      after_client sockets k one.sent one.after s
        (after_loop (sockets.ctl k) m.need_write one.ending)
        (write_messages-Stops sockets fd answers q before later s w more bad refused))

with_bytes-at :
    (new : List ℕ) (before later : List (ℕ × List ℕ)) (fd : ℕ) (q : List ℕ)
    → with_bytes new (before ++ (fd, q) ∷ later)
      ≡ with_bytes new before ++ (fd, q ++ new) ∷ with_bytes new later
with_bytes-at new [] later fd q = refl
with_bytes-at new ((j, p) ∷ before) later fd q =
    ap (◌∷◌ (j, p ++ new)) (with_bytes-at new before later fd q)

encode-longer : (msg : List ℕ) → 0 < length (encode msg)
unfolding encode
encode-longer msg = omega arith

-- Let a client have closed its connection, so that `deleteClient` has closed the socket `fd`, and
-- let `send` and `epoll_ctl` fail on the closed socket, `send` with EBADF (9). Then the next
-- message that any client sends is still queued for `fd`, and the server does not go on after
-- `writeMessages`: it calls `exit`, or waits for an answer of an earlier client. At no client's
-- queue does the message end exactly with a block.
pub gone_client_stops :
    (raw_block msg : List ℕ) (sockets : Sockets) (s : Server) (fd : ℕ) (answers : List Answer)
    (q : List ℕ) (before later : List (ℕ × List ℕ))
    → length raw_block ≡ block_size
    → WaitForAll s.sender (before ++ (fd, q) ∷ later)
    → Rooms (msg ∷ []) s.sender
    → sockets.answers fd ≡ error 9 ∷ answers
    → sockets.ctl fd ≡ false
    → (queued : MessageSender) × (broadcast raw_block msg ((disconnect true fd s).0).sender
        ≡ some queued)
      × WaitForAll queued (with_bytes (encode msg) (before ++ (fd, q) ∷ later))
      × (row : Row) × (after : MessageSender) × (status : Status) × (write_messages sockets queued
          ≡ some (row, after, status))
      × (status ≢ running)
unfolding disconnect
gone_client_stops raw_block msg sockets s fd answers q before later full w room bad refused =
    let (queued, runs, waits, more) =
      broadcast_lem raw_block msg [] s.sender (before ++ (fd, q) ∷ later) w full room in
    let (row, after, status, writes, stops) =
      write_messages-Stops sockets fd answers (q ++ encode msg) (with_bytes (encode msg) before)
        (with_bytes (encode msg) later) queued
        (subst (WaitForAll queued) (with_bytes-at (encode msg) before later fd q) waits)
        (omega (arith, length-append q (encode msg), encode-longer msg)) bad refused in
    (
      queued,
      ap (broadcast raw_block msg) (delete_client_keeps fd s.sender) ∙ runs,
      waits,
      row,
      after,
      status,
      writes,
      stops,
    )
