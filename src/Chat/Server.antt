-- ===== src/Chat/Server.antt =====
-- `Server` of p2/server.h and p2/server.cpp. `none` is undefined behaviour in the message layer.
-- What the kernel answers is an argument of each operation.
use multithread.Base.{
  ℕ, Bool, true, false, not, ◌&&◌, Option, none, some, List, [], ◌∷◌, ◌++◌, ◌==◌, if◌then◌else◌,
}
use multithread.Messages.Message.{Message, ◌>>=◌}
use multithread.Messages.Dictionary.{lookup, put}
use multithread.Messages.Receiver.{MessageReceiver, process, delete_sock_fd}
use multithread.Messages.Send.{add_message}
use multithread.Messages.Sender.{MessageSender, add_client, broadcast, delete_client}
use multithread.Messages.Writing.{
  Answer, Ending, emptied, blocked, exits, asks, zero_sent, test_would_block, write_client,
}
use multithread.Chat.Client.{Status, running, exit, hangs}

-- During one call of `writeMessages`: how each socket answers the calls of `send`, and whether
-- `epoll_ctl` succeeds for it.
pub record Sockets : Type 0 where
  pub answers : ℕ → List Answer
  pub ctl : ℕ → Bool

-- What one call of `writeMessages` has sent to each client.
abbrev pub Row : Type 0
Row = List (ℕ × List ℕ)

abbrev pub unsent : MessageSender → Row
unsent [] = []
unsent ((k, m) ∷ s) = (k, []) ∷ unsent s

-- The calls of `epoll_ctl` in `writeMessages`, and the calls of `exit`.
abbrev pub after_loop : Bool → Bool → Ending → Status
after_loop ctl need_write emptied = if need_write && not ctl then exit 1 else running
after_loop ctl need_write blocked = if ctl then running else exit 1
after_loop ctl need_write exits = exit 1
after_loop ctl need_write asks = hangs
after_loop ctl need_write (zero_sent errno) =
    if test_would_block errno && ctl then running else exit 1

-- `writeMessages()`. If it stops at a client, nothing is sent to the later ones.
unfoldable pub write_messages : Sockets → MessageSender → Option (Row × MessageSender × Status)
write_messages sockets [] = some ([], [], running)
write_messages sockets ((k, m) ∷ s) = do
  (sent, after, ending) ← write_client (sockets.answers k) m
  (row, later, status) ← elim (after_loop (sockets.ctl k) m.need_write ending) [
    | running ↦ write_messages sockets s
    | exit code ↦ some (unsent s, s, exit code)
    | hangs ↦ some (unsent s, s, hangs)
  ]
  some ((k, sent) ∷ row, (k, after) ∷ later, status)

-- The members that change.
pub record Server : Type 0 where
  pub receiver : MessageReceiver
  pub sender : MessageSender

-- `deleteClient(clientFd)`, with whether `epoll_ctl` succeeds.
unfoldable pub disconnect : Bool → ℕ → Server → Server × Status
disconnect ctl client_fd s =
    if ctl
    then (
      record {
        receiver = delete_sock_fd client_fd s.receiver;
        sender = delete_client client_fd s.sender;
      },
      running,
    )
    else (s, exit 1)

-- What `recv` returns.
pub data Heard : Type 0 where
  bytes : List ℕ → Heard
  closed : Heard
  failed : ℕ → Heard

-- The flags of an event at a client's socket.
pub record Flags : Type 0 where
  pub err : Bool
  pub hup : Bool
  pub input : Bool

-- An event, with what the handler's calls return.
pub data Event : Type 0 where
  at_master : Bool → Option ℕ → Sockets → Event
  at_client : Flags → Bool → ℕ → List (Heard × Sockets) → Event

-- "Welcome"
abbrev pub welcome : List ℕ
welcome = 87 ∷ 101 ∷ 108 ∷ 99 ∷ 111 ∷ 109 ∷ 101 ∷ []

-- A new `Message` holds `raw` before its constructor runs, and a new block `raw_block`.
module _ (raw : Message) (raw_block : List ℕ) where
  unfoldable pub broadcast_all : List (List ℕ) → MessageSender → Option MessageSender
  broadcast_all [] s = some s
  broadcast_all (msg ∷ msgs) s = do s' ← broadcast raw_block msg s; broadcast_all msgs s'

  -- The last branch of `readClient`: the messages that are complete, and what is sent.
  unfoldable pub pass_on :
      ℕ → List ℕ → Sockets → Server → Option (Server × List (List ℕ) × Row × Status)
  pass_on client_fd buf sockets s = do
    (msgs, receiver) ← process raw client_fd buf s.receiver
    sender ← broadcast_all msgs s.sender
    (row, sender', status) ← write_messages sockets sender
    some (record { receiver = receiver; sender = sender' }, msgs, row, status)

  -- `readClient(clientFd)`, on what `recv` returns; errno 11 is `EAGAIN`. It gives the messages in
  -- the order in which they are printed. At the end of the list a call of `recv` has no answer yet.
  unfoldable pub read_client :
      ℕ → List (Heard × Sockets) → Server → Option (Server × List (List ℕ) × List Row × Status)
  read_client client_fd [] s = some (s, [], [], hangs)
  read_client client_fd ((closed, sockets) ∷ rest) s =
      let (s', status) = disconnect (sockets.ctl client_fd) client_fd s in some (s', [], [], status)
  read_client client_fd ((failed errno, sockets) ∷ rest) s =
      if errno == 11 then some (s, [], [], running) else some (s, [], [], exit 1)
  read_client client_fd ((bytes buf, sockets) ∷ rest) s = do
    (s', msgs, row, status) ← pass_on client_fd buf sockets s
    elim status [
      | running ↦ do
        (s'', more, rows, status') ← read_client client_fd rest s'
        some (s'', msgs ++ more, row ∷ rows, status')
      | exit code ↦ some (s', msgs, row ∷ [], exit code)
      | hangs ↦ some (s', msgs, row ∷ [], hangs)
    ]

  -- `messanger.find(newFd)->second.add_message("Welcome")`
  unfoldable pub greet : ℕ → MessageSender → Option MessageSender
  greet new_fd s = elim (lookup new_fd s) [
    | none ↦ none
    | some m ↦ do m' ← add_message raw_block welcome m; some (put new_fd m' s)
  ]

  -- `processMasterEvent(event)`: `none` where `accept`, `fcntl` or `epoll_ctl` fails, else the new
  -- socket.
  unfoldable pub process_master_event :
      Bool → Option ℕ → Sockets → Server → Option (Server × List Row × Status)
  process_master_event true accepted sockets s = some (s, [], exit 1)
  process_master_event false none sockets s = some (s, [], exit 1)
  process_master_event false (some new_fd) sockets s = do
    greeted ← greet new_fd (add_client new_fd s.sender)
    (row, sender, status) ← write_messages sockets greeted
    some (record s { sender = sender }, row ∷ [], status)

  -- `processClientEvent(event)`
  unfoldable pub process_client_event :
      Flags
      → Bool
      → ℕ
      → List (Heard × Sockets)
      → Server
      → Option (Server × List (List ℕ) × List Row × Status)
  process_client_event flags ctl client_fd heard s =
      if flags.err
      then some (s, [], [], exit 1)
      else if flags.hup
      then (let (s', status) = disconnect ctl client_fd s in some (s', [], [], status))
      else if flags.input
      then read_client client_fd heard s
      else some (s, [], [], running)

  unfoldable pub process_event :
      Event → Server → Option (Server × List (List ℕ) × List Row × Status)
  process_event (at_master err accepted sockets) s = do
    (s', rows, status) ← process_master_event err accepted sockets s
    some (s', [], rows, status)
  process_event (at_client flags ctl client_fd heard) s =
      process_client_event flags ctl client_fd heard s

  -- `start()`, on the events of all calls of `epoll_wait` in order, where none fails.
  unfoldable pub serve : List Event → Server → Option (Server × List (List ℕ) × List Row × Status)
  serve [] s = some (s, [], [], running)
  serve (event ∷ events) s = do
    (s', msgs, rows, status) ← process_event event s
    elim status [
      | running ↦ do
        (s'', more, later, status') ← serve events s'
        some (s'', msgs ++ more, rows ++ later, status')
      | exit code ↦ some (s', msgs, rows, exit code)
      | hangs ↦ some (s', msgs, rows, hangs)
    ]
