-- ===== src/Chat/Examples.antt =====
-- In `inputs` one word is typed and sent, and the message that comes back is printed.
use multithread.Base.{ℕ, ◌≡◌, refl, ◌++◌, some, none, List, [], ◌∷◌, arith}
use multithread.Messages.Bytes.{encode, encode_all}
use multithread.Messages.Queue.{Queues}
use multithread.Messages.Writing.{room}
use multithread.Messages.Examples.{zeros, raw, hi, hi-IsGood}
use multithread.Chat.Client.{ChatClient, Ready, bytes, running, new_client, rounds}
use multithread.Chat.Session.{all_typed}
use multithread.Chat.Rounds.{chat_client_total, typed_words_are_sent}
use multithread.Base.{true, false, ◌==◌, if◌then◌else◌, ◌≢◌}
use multithread.Messages.Receiver.{Expects, unknown}
use multithread.Messages.Dictionary.{lookup}
use multithread.Messages.Send.{start}
use multithread.Messages.Queue.{start-Queues}
use multithread.Messages.Sender.{MessageSender, WaitForAll, broadcast}
use multithread.Messages.Writing.{error}
use multithread.Chat.Client.{Status}
use multithread.Chat.Server
use multithread.Chat.Server.{Sockets, Row, Server, Heard, read_client, disconnect, write_messages}
use multithread.Chat.Queued.{fds, AllTo, owed, with_bytes}
use multithread.Chat.Passing.{Serves, read_client_total}
use multithread.Chat.Gone.{gone_client_stops}
use multithread.Messages.Dictionary.{emplace}
use multithread.Chat.Server.{process_master_event, welcome}
use multithread.Chat.Queued.{with_row}
use multithread.Chat.Client.{round, read_fds, read_typed, read_socket, write_fds}
use multithread.Messages.Send.{
  add_message, fill_last, push_blocks, push_rest, getbitarray, get_bytes, read, erase,
}
use multithread.Messages.Bytes.{write}
use multithread.Messages.Writing.{rooms, write_loop}
use multithread.Base.Size.{sub_size}
use multithread.Chat.Across.{typed_words_arrive}
use multithread.Chat.Welcome.{process_master_event_total}

-- A word, then five of its six bytes are sent and the answer begins, then the rest of both.
abbrev inputs : List Ready
inputs =
    record { typed = some hi; heard = none; writable = none }
    ∷ record {
      typed = none;
      heard = some (bytes (2 ∷ 0 ∷ 0 ∷ 0 ∷ 104 ∷ []));
      writable = some (room 4 ∷ []);
    }
    ∷ record { typed = none; heard = some (bytes (105 ∷ [])); writable = some (room 9 ∷ []) }
    ∷ []

abbrev no_more : List ℕ
no_more = []

chat_client_total_example :
    (c : ChatClient) × (waiting : List ℕ) × (left : List (List ℕ)) × (rounds raw
        (zeros 1024)
        3
        inputs
        new_client
      ≡ some c)
    × Queues c.for_send waiting
    × (encode_all c.typed ≡ c.sent ++ waiting)
    × (c.needwrite ≡ false → c.sent ≡ encode_all c.typed)
    × (hi ∷ [] ≡ c.printed ++ left)
    × (c.status ≡ running → (c.typed ≡ all_typed inputs) × (no_more ≡ [] → c.printed ≡ hi ∷ []))
unfolding encode encode_all
chat_client_total_example =
    chat_client_total raw (zeros 1024) 3 inputs (hi ∷ []) no_more
      (record { part_size = refl; add_size = refl }) refl hi-IsGood
      (
        (omega arith, omega arith),
        tt,
        (tt, (omega arith, omega arith), (tt, (omega arith, omega arith), tt)),
      )
      refl

-- Two clients, of which the first sends a message in two pieces.
abbrev two_clients : Server
two_clients = record { receiver = []; sender = (5, start) ∷ (6, start) ∷ [] }

abbrev no_queues : List (ℕ × List ℕ)
no_queues = (5, []) ∷ (6, []) ∷ []

abbrev open_sockets : Sockets
open_sockets = record { answers = λ k. room 9 ∷ []; ctl = λ k. true }

abbrev heard : List (Heard × Sockets)
heard =
    (Server.bytes (2 ∷ 0 ∷ 0 ∷ 0 ∷ 104 ∷ []), open_sockets)
    ∷ (Server.bytes (105 ∷ []), open_sockets)
    ∷ (Server.failed 11, open_sockets)
    ∷ []

two_clients-Serves : Serves 5 (hi ∷ []) (2 ∷ 0 ∷ 0 ∷ 0 ∷ 104 ∷ 105 ∷ []) no_queues two_clients
unfolding start encode encode_all lookup
two_clients-Serves = record {
  good = hi-IsGood;
  expects = unknown refl refl;
  waits = (refl, start-Queues, (refl, start-Queues, tt));
  room = ((omega arith, omega arith, tt), ((omega arith, omega arith, tt), tt));
}

read_client_total_example :
    (s' : Server) × (msgs : List (List ℕ)) × (rest : List (List ℕ)) × (rows : List Row)
    × (status : Status) × (left : List (ℕ × List ℕ)) × (read_client raw
          (zeros 1024)
          5
          heard
          two_clients
        ≡ some (s', msgs, rows, status))
    × (hi ∷ [] ≡ msgs ++ rest)
    × (status ≡ running → Expects s'.receiver 5 rest no_more × (no_more ≡ [] → msgs ≡ hi ∷ []))
    × WaitForAll s'.sender left
    × AllTo (fds no_queues) rows
    × (owed rows left ≡ with_bytes (encode_all msgs) no_queues)
read_client_total_example =
    read_client_total raw (zeros 1024) 5 heard two_clients (hi ∷ []) no_more no_queues
      (record { part_size = refl; add_size = refl }) refl
      ((omega arith, omega arith), ((omega arith, omega arith), tt)) two_clients-Serves

-- The second client has gone.
abbrev sockets_left : Sockets
sockets_left = record {
  answers = λ k. if k == 6 then error 9 ∷ [] else room 9 ∷ [];
  ctl = λ k. if k == 6 then false else true;
}

gone_client_stops_example :
    (queued : MessageSender) × (broadcast (zeros 1024) hi ((disconnect true 6 two_clients).0).sender
      ≡ some queued)
    × WaitForAll queued (with_bytes (encode hi) no_queues)
    × (row : Row) × (after : MessageSender) × (status : Status) × (write_messages sockets_left
          queued
        ≡ some (row, after, status))
    × (status ≢ running)
gone_client_stops_example =
    gone_client_stops (zeros 1024) hi sockets_left two_clients 6 [] [] ((5, []) ∷ []) [] refl
      two_clients-Serves.waits two_clients-Serves.room refl refl

process_master_event_total_example :
    (s' : Server) × (row : Row) × (status : Status) × (left : List (ℕ × List ℕ))
    × (process_master_event raw (zeros 1024) false (some 4) open_sockets two_clients
        ≡ some (s', row ∷ [], status))
    × (s'.receiver ≡ [])
    × WaitForAll s'.sender left
    × (fds row ≡ fds (emplace 4 (encode welcome) no_queues))
    × (with_row row left ≡ emplace 4 (encode welcome) no_queues)
unfolding lookup
process_master_event_total_example =
    process_master_event_total raw (zeros 1024) 4 open_sockets two_clients no_queues refl refl
      two_clients-Serves.waits

-- A client that types one word, and sends it.
abbrev typing : List Ready
typing =
    record { typed = some hi; heard = none; writable = none }
    ∷ record { typed = none; heard = none; writable = some (room 9 ∷ []) }
    ∷ []

abbrev has_typed : ChatClient
has_typed = record {
  receiver = [];
  for_send = record {
    bitlist = (2 ∷ 0 ∷ 0 ∷ 0 ∷ 104 ∷ 105 ∷ zeros 1018) ∷ [];
    count = 0;
    beg_offset = 6;
    end_offset = 6;
    need_write = false;
  };
  needwrite = false;
  status = running;
  typed = hi ∷ [];
  printed = [];
  sent = 2 ∷ 0 ∷ 0 ∷ 0 ∷ 104 ∷ 105 ∷ [];
}

typing-runs : rounds raw (zeros 1024) 3 typing new_client ≡ some has_typed
unfolding rounds round read_fds read_typed read_socket write_fds new_client start add_message
    fill_last push_blocks push_rest write encode getbitarray get_bytes read erase write_loop
    sub_size
typing-runs = refl

typed_words_arrive_example :
    (s' : Server) × (msgs : List (List ℕ)) × (rest : List (List ℕ)) × (rows : List Row)
    × (status : Status) × (left : List (ℕ × List ℕ)) × (read_client raw
          (zeros 1024)
          5
          heard
          two_clients
        ≡ some (s', msgs, rows, status))
    × (all_typed typing ≡ msgs ++ rest)
    × (status ≡ running → has_typed.needwrite ≡ false → msgs ≡ all_typed typing)
    × WaitForAll s'.sender left
    × AllTo (fds no_queues) rows
    × (owed rows left ≡ with_bytes (encode_all msgs) no_queues)
unfolding encode encode_all lookup
typed_words_arrive_example =
    typed_words_arrive raw (zeros 1024) 3 5 typing [] [] has_typed heard two_clients no_queues
      (record { part_size = refl; add_size = refl }) refl tt
      ((omega arith, omega arith), tt, (tt, tt, tt)) refl typing-runs refl hi-IsGood
      ((omega arith, omega arith), ((omega arith, omega arith), tt)) refl refl
      two_clients-Serves.waits two_clients-Serves.room

-- The word has been typed, and the client has not written yet.
abbrev typed_only : List Ready
typed_only = record { typed = some hi; heard = none; writable = none } ∷ []

abbrev to_write : ChatClient
to_write = record {
  receiver = [];
  for_send = record {
    bitlist = (2 ∷ 0 ∷ 0 ∷ 0 ∷ 104 ∷ 105 ∷ zeros 1018) ∷ [];
    count = 6;
    beg_offset = 0;
    end_offset = 6;
    need_write = false;
  };
  needwrite = true;
  status = running;
  typed = hi ∷ [];
  printed = [];
  sent = [];
}

typed_only-runs : rounds raw (zeros 1024) 3 typed_only new_client ≡ some to_write
unfolding rounds round read_fds read_typed read_socket new_client start add_message fill_last
    push_blocks push_rest write encode
typed_only-runs = refl

typed_words_are_sent_example :
    (after : ChatClient) × (write_fds raw
        (zeros 1024)
        3
        (some (rooms (1 ∷ 2 ∷ 3 ∷ 4 ∷ 5 ∷ 6 ∷ [])))
        to_write
      ≡ some after)
    × (after.sent ≡ encode_all (hi ∷ []))
    × (after.needwrite ≡ false)
unfolding encode encode_all
typed_words_are_sent_example =
    typed_words_are_sent raw (zeros 1024) 3 typed_only [] [] to_write (1 ∷ 2 ∷ 3 ∷ 4 ∷ 5 ∷ 6 ∷ [])
      (record { part_size = refl; add_size = refl }) refl tt ((omega arith, omega arith), tt, tt)
      refl typed_only-runs (omega arith)
