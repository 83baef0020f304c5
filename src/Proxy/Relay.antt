-- ===== src/Proxy/Relay.antt =====
-- What the proxy's client (p3/proxy.cpp) carries from one socket to the other, when boost::asio
-- ends its operations in any order.
use multithread.Base.{
  ℕ, ◌≤◌, ◌<◌, ◌≡◌, true, false, Option, none, some, List, [], ◌∷◌, ◌++◌, take, drop, length,
}
use multithread.Messages.Message.{◌>>=◌}
use multithread.Messages.Bytes.{write}
use multithread.Proxy.Client.{
  Doing, idle, reading, writing, Way, Client, connect, user_read, user_write, server_read,
  server_write,
}

-- `BUF_SIZE`
abbrev pub buf_size : ℕ
buf_size = 1024

-- A client, with all bytes that have come and gone on its sockets.
pub record Relay : Type 0 where
  pub client : Client
  pub from_user : List ℕ
  pub to_server : List ℕ
  pub from_server : List ℕ
  pub to_user : List ℕ

-- How an operation ends.
pub data Event : Type 0 where
  connected : Event
  refused : Event
  user_sends : List ℕ → Event
  user_read_fails : Event
  server_takes : ℕ → Event
  user_write_fails : Event
  server_sends : List ℕ → Event
  server_read_fails : Event
  user_takes : ℕ → Event
  server_write_fails : Event

-- The end of an operation: the bytes are copied, and the operation is no longer under way.
abbrev pub ended : Way → Way
ended w = record w { doing = idle }

abbrev pub with_user : Way → Client → Client
with_user w c = record c { user = w }

abbrev pub with_server : Way → Client → Client
with_server w c = record c { server = w }

unfoldable pub receive : List ℕ → Way → Option Way
receive bytes w = do b ← write w.buffer 0 bytes; some (record w { buffer = b; doing = idle })

-- The server takes `n` bytes of a send.
unfoldable pub server_took : Doing → ℕ → Relay → Option Relay
server_took (writing offset len) n r = do
  c ← user_write false n (with_user (ended r.client.user) r.client)
  some (record r {
    client = c;
    to_server = r.to_server ++ take n (drop offset r.client.user.buffer);
  })
server_took op n r = none

-- The user takes `n` bytes of a send.
unfoldable pub user_took : Doing → ℕ → Relay → Option Relay
user_took (writing offset len) n r = do
  c ← server_write false n (with_server (ended r.client.server) r.client)
  some (record r { client = c; to_user = r.to_user ++ take n (drop offset r.client.server.buffer) })
user_took op n r = none

-- The handler runs that was bound to the operation.
unfoldable pub handle : Event → Relay → Option Relay
handle connected r = do
  c ← connect false (record r.client { connecting = false })
  some (record r { client = c })
handle refused r = do
  c ← connect true (record r.client { connecting = false })
  some (record r { client = c })
handle (user_sends bytes) r = do
  w ← receive bytes r.client.user
  c ← user_read false (length bytes) (with_user w r.client)
  some (record r { client = c; from_user = r.from_user ++ bytes })
handle user_read_fails r = do
  c ← user_read true 0 (with_user (ended r.client.user) r.client)
  some (record r { client = c })
handle (server_takes n) r = server_took r.client.user.doing n r
handle user_write_fails r = do
  c ← user_write true 0 (with_user (ended r.client.user) r.client)
  some (record r { client = c })
handle (server_sends bytes) r = do
  w ← receive bytes r.client.server
  c ← server_read false (length bytes) (with_server w r.client)
  some (record r { client = c; from_server = r.from_server ++ bytes })
handle server_read_fails r = do
  c ← server_read true 0 (with_server (ended r.client.server) r.client)
  some (record r { client = c })
handle (user_takes n) r = user_took r.client.server.doing n r
handle server_write_fails r = do
  c ← server_write true 0 (with_server (ended r.client.server) r.client)
  some (record r { client = c })

-- What boost::asio promises: an operation ends that is under way; `async_receive` brings at least
-- one byte and at most as many as the buffer has, and `async_send` takes at least one byte and at
-- most as many as it was given.
abbrev pub Receives : List ℕ → Way → Type 0
Receives bytes w = (w.doing ≡ reading) × (0 < length bytes) × (length bytes ≤ buf_size)

abbrev pub Takes : ℕ → Way → Type 0
Takes n w = (offset : ℕ) × (len : ℕ) × (w.doing ≡ writing offset len) × (0 < n) × (n ≤ len)

abbrev pub IsSending : Way → Type 0
IsSending w = (offset : ℕ) × (len : ℕ) × (w.doing ≡ writing offset len)

abbrev pub IsPossible : Event → Client → Type 0
IsPossible connected c = c.connecting ≡ true
IsPossible refused c = c.connecting ≡ true
IsPossible (user_sends bytes) c = Receives bytes c.user
IsPossible user_read_fails c = c.user.doing ≡ reading
IsPossible (server_takes n) c = Takes n c.user
IsPossible user_write_fails c = IsSending c.user
IsPossible (server_sends bytes) c = Receives bytes c.server
IsPossible server_read_fails c = c.server.doing ≡ reading
IsPossible (user_takes n) c = Takes n c.server
IsPossible server_write_fails c = IsSending c.server

-- Events one after another.
unfoldable pub handle_all : List Event → Relay → Option Relay
handle_all [] r = some r
handle_all (e ∷ es) r = do r' ← handle e r; handle_all es r'

-- Each event is possible when it comes.
abbrev pub Comes : List Event → Relay → Type 0
Comes [] r = Unit
Comes (e ∷ es) r = IsPossible e r.client × ((r' : Relay) → handle e r ≡ some r' → Comes es r')
