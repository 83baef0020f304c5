-- ===== src/Chat/Client.antt =====
-- `Client` of p2/client.h and p2/client.cpp. `none` is undefined behaviour in the message layer.
use multithread.Base.{
  ℕ, Bool, true, false, ◌&&◌, Option, none, some, List, [], ◌∷◌, ◌++◌, if◌then◌else◌,
}
use multithread.Messages.Message.{Message, ◌>>=◌}
use multithread.Messages.Receiver.{MessageReceiver, process}
use multithread.Messages.Send.{MessageForSend, add_message, getbitarray}
use multithread.Messages.Send
use multithread.Messages.Writing.{
  Answer, Ending, emptied, blocked, exits, asks, zero_sent, write_loop,
}

-- What `recv` returns.
pub data Got : Type 0 where
  bytes : List ℕ → Got
  closed : Got
  failed : Got

-- `exit(code)`, or a call of `send` that has no answer yet.
pub data Status : Type 0 where
  running : Status
  exit : ℕ → Status
  hangs : Status

-- The members, and what was typed, printed and sent.
pub record ChatClient : Type 0 where
  pub receiver : MessageReceiver
  pub for_send : MessageForSend
  pub needwrite : Bool
  pub status : Status
  pub typed : List (List ℕ)
  pub printed : List (List ℕ)
  pub sent : List ℕ

-- What `select` reports in a round, if it does not fail, with the word that is typed, what `recv`
-- returns, and how the socket answers the calls of `send`.
pub record Ready : Type 0 where
  pub typed : Option (List ℕ)
  pub heard : Option Got
  pub writable : Option (List Answer)

-- The constructor, without the calls that make the socket.
unfoldable pub new_client : ChatClient
new_client = record {
  receiver = [];
  for_send = Send.start;
  needwrite = false;
  status = running;
  typed = [];
  printed = [];
  sent = [];
}

-- How `writeFds` leaves the client. `emptied` is its last `if`.
abbrev pub ends : Ending → ChatClient → ChatClient
ends emptied c = record c { needwrite = false }
ends blocked c = record c { needwrite = true }
ends exits c = record c { status = exit 1 }
ends asks c = record c { status = hangs }
ends (zero_sent errno) c = record c { status = exit 0 }

abbrev pub is_running : ChatClient → Bool
is_running c = elim c.status [ running ↦ true | _ ↦ false ]

-- A new `Message` holds `raw` before its constructor runs, and a new block `raw_block`.
module _ (raw : Message) (raw_block : List ℕ) (socket_fd : ℕ) where
  -- `readServer()`
  unfoldable pub read_server : Got → ChatClient → Option ChatClient
  read_server closed c = some (record c { status = exit 0 })
  read_server failed c = some (record c { status = exit 1 })
  read_server (bytes buf) c = do
    (msgs, r) ← process raw socket_fd buf c.receiver
    some (record c { receiver = r; printed = c.printed ++ msgs })

  -- The first `if` of `readFds`.
  unfoldable pub read_typed : Option (List ℕ) → ChatClient → Option ChatClient
  read_typed none c = some c
  read_typed (some msg) c = do
    m ← add_message raw_block msg c.for_send
    some (record c { for_send = m; needwrite = true; typed = c.typed ++ msg ∷ [] })

  -- The second.
  unfoldable pub read_socket : Option Got → ChatClient → Option ChatClient
  read_socket none c = some c
  read_socket (some got) c = read_server got c

  -- `readFds(read_tmp)`
  unfoldable pub read_fds : Ready → ChatClient → Option ChatClient
  read_fds ready c = do c' ← read_typed ready.typed c; read_socket ready.heard c'

  -- `writeFds(write_tmp)`: the loop is the one of the server.
  unfoldable pub write_fds : Option (List Answer) → ChatClient → Option ChatClient
  write_fds none c = some c
  write_fds (some answers) c = do
    buf ← getbitarray 1024 c.for_send
    (gone, m, ending) ← write_loop answers buf c.for_send
    some (ends ending (record c { for_send = m; sent = c.sent ++ gone }))

  -- A round of `start()`. It writes if `needwrite` was set before `select`.
  unfoldable pub round : Ready → ChatClient → Option ChatClient
  round ready c = do
    c' ← read_fds ready c
    if c.needwrite && is_running c' then write_fds ready.writable c' else some c'

  unfoldable pub rounds : List Ready → ChatClient → Option ChatClient
  rounds [] c = some c
  rounds (ready ∷ inputs) c = elim c.status [
    | running ↦ do c' ← round ready c; rounds inputs c'
    | _ ↦ some c
  ]
