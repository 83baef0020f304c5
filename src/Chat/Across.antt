-- ===== src/Chat/Across.antt =====
-- The client and the server of p2 together: what is typed at the client reaches the server.
use multithread.Base.{
  ℕ, ◌≡◌, ◌∙◌, sym, ap, none, some, List, [], ◌++◌, length, length-append, false, arith,
}
use multithread.Messages.Slices.{empty_list}
use multithread.Messages.Bytes.{encode_all}
use multithread.Messages.Message.{Message}
use multithread.Messages.Waits.{IsGood, Arrays}
use multithread.Messages.Dictionary.{lookup, some_inj}
use multithread.Messages.Receiver.{unknown}
use multithread.Messages.Send.{block_size}
use multithread.Messages.Sender.{WaitForAll}
use multithread.Chat.Client.{ChatClient, Ready, Status, running, new_client, rounds}
use multithread.Chat.Session.{all_typed, all_arrived, Allowed}
use multithread.Chat.Rounds.{chat_client_total}
use multithread.Chat.Server.{Sockets, Row, Server, Heard, read_client}
use multithread.Chat.Queued.{Rooms, fds, AllTo, owed, with_bytes}
use multithread.Chat.Passing.{AllFit, all_heard, read_client_total}

-- Let a client run on, and let the server receive what it has sent, in pieces of at most 1024
-- bytes, on a socket that the server has not read from. Then `readClient` runs without undefined
-- behaviour and prints the first of the words that were typed, in order; it prints all of them if
-- the client has nothing more to write and the server runs on. For every client, what was sent on
-- its socket and what then waits for it are what waited before, with the printed words encoded
-- behind it, and nothing is sent on other sockets. No word is empty or has a NUL, all are below 4 GiB, and none ends, encoded, exactly
-- at the end of a block of 1024 bytes, at the client or in a queue of the server.
pub typed_words_arrive :
    (raw : Message) (raw_block : List ℕ) (socket_fd fd : ℕ) (inputs : List Ready)
    (ms : List (List ℕ)) (stream : List ℕ) (c : ChatClient) (heard : List (Heard × Sockets))
    (s : Server) (queues : List (ℕ × List ℕ))
    → Arrays raw
    → length raw_block ≡ block_size
    → IsGood ms
    → Allowed 0 inputs
    → all_arrived inputs ++ stream ≡ encode_all ms
    → rounds raw raw_block socket_fd inputs new_client ≡ some c
    → c.status ≡ running
    → IsGood (all_typed inputs)
    → AllFit heard
    → all_heard heard ≡ c.sent
    → lookup fd s.receiver ≡ none
    → WaitForAll s.sender queues
    → Rooms (all_typed inputs) s.sender
    → (s' : Server) × (msgs : List (List ℕ)) × (rest : List (List ℕ)) × (rows : List Row)
      × (status : Status) × (left : List (ℕ × List ℕ)) × (read_client raw raw_block fd heard s
          ≡ some (s', msgs, rows, status))
      × (all_typed inputs ≡ msgs ++ rest)
      × (status ≡ running → c.needwrite ≡ false → msgs ≡ all_typed inputs)
      × WaitForAll s'.sender left
      × AllTo (fds queues) rows
      × (owed rows left ≡ with_bytes (encode_all msgs) queues)
typed_words_arrive raw raw_block socket_fd fd inputs ms stream c heard s queues arrays full good
      allowed comes runs runs_on typed_good fit carried absent waits room =
    let (c', waiting, left, runs', queued, in_order, all_gone, printed, reads) =
      chat_client_total raw raw_block socket_fd inputs ms stream arrays full good allowed comes in
    let same : c' ≡ c = some_inj (sym runs' ∙ runs) in
    let typed : c'.typed ≡ all_typed inputs = (reads (ap (λ d. d.status) same ∙ runs_on)).0 in
    let expected : all_heard heard ++ waiting ≡ encode_all (all_typed inputs) =
      ap (λ l. l ++ waiting) (carried ∙ ap (λ d. d.sent) (sym same))
      ∙ sym in_order
      ∙ ap encode_all typed in
    let (s', msgs, rest, rows, status, left', served, splits, complete, waits', to, sends) =
      read_client_total raw raw_block fd heard s (all_typed inputs) waiting queues arrays full fit
        (record {
          good = typed_good;
          expects = unknown absent expected;
          waits = waits;
          room = room;
        }) in
    let none_waits : c.needwrite ≡ false → waiting ≡ [] = λ quiet. empty_list waiting (
      omega (
        arith,
        ap length (all_gone (ap (λ d. d.needwrite) same ∙ quiet)),
        ap length in_order,
        length-append c'.sent waiting,
      )) in
    (
      s',
      msgs,
      rest,
      rows,
      status,
      left',
      served,
      splits,
      λ on quiet. (complete on).1 (none_waits quiet),
      waits',
      to,
      sends,
    )
