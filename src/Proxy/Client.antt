-- ===== src/Proxy/Client.antt =====
-- `Client` of p3/proxy.h and p3/proxy.cpp: two sockets, and the handlers that boost::asio calls when
-- an operation has ended. `none` is the start of an operation where one is under way in the same
-- direction, or a write past the end of a buffer.
use multithread.Base.{ℕ, ◌+◌, Bool, true, false, Option, none, some, List, ◌∷◌, ◌==◌, if◌then◌else◌}
use multithread.Messages.Message.{◌>>=◌}
use multithread.Base.Size.{sub_size}

-- The operation that is under way in one direction: none, `async_receive` into the buffer,
-- `async_send` of so many bytes of the buffer from an offset on, or `async_receive` into the
-- buffer from the other socket.
pub data Doing : Type 0 where
  idle : Doing
  reading : Doing
  writing : ℕ → ℕ → Doing
  misreading : Doing

-- One direction: `user_buffer`, `user_size_message`, `user_cur_size`, or the same of the server.
pub record Way : Type 0 where
  pub buffer : List ℕ
  pub size_message : ℕ
  pub cur_size : ℕ
  pub doing : Doing

-- `stops` are the calls of `father.stop`.
pub record Client : Type 0 where
  pub ind_number : ℕ
  pub user_open : Bool
  pub server_open : Bool
  pub server_work : Bool
  pub connecting : Bool
  pub user : Way
  pub server : Way
  pub stops : List ℕ

-- An operation starts.
unfoldable pub begin : Doing → Way → Option Way
begin op w = elim w.doing [ idle ↦ some (record w { doing = op }) | _ ↦ none ]

-- `start()`
unfoldable pub start : Client → Client
start c = record c { connecting = true }

-- `stop()`
unfoldable pub stop : Client → Client
stop c = record c { server_open = false; user_open = false; stops = c.ind_number ∷ c.stops }

-- `connect(error)`
unfoldable pub connect : Bool → Client → Option Client
connect true c = some (record c { user_open = false; server_open = false })
connect false c = do
  u ← begin reading (record c.user { cur_size = 0 })
  s ← begin reading (record c.server { cur_size = 0 })
  some (record c { server_work = true; user = u; server = s })

-- `userRead(error, size)`
unfoldable pub user_read : Bool → ℕ → Client → Option Client
user_read true size c = some (stop c)
user_read false size c = do
  let w = record c.user { cur_size = 0; size_message = size }
  w' ← (if size == 0 then begin reading w else begin (writing 0 size) w)
  some (record c { user = w' })

-- `userWrite(error, size)`
unfoldable pub user_write : Bool → ℕ → Client → Option Client
user_write true size c = some (stop c)
user_write false size c = do
  let w = record c.user { cur_size = c.user.cur_size + size }
  w' ←
      (if w.size_message == w.cur_size
        then begin reading (record w { size_message = 0; cur_size = 0 })
        else begin (writing w.cur_size (sub_size w.size_message w.cur_size)) w)
  some (record c { user = w' })

-- `serverRead(error, size)`: after an empty read it receives from the user's socket.
unfoldable pub server_read : Bool → ℕ → Client → Option Client
server_read true size c = some (stop c)
server_read false size c = do
  let w = record c.server { cur_size = 0; size_message = size }
  w' ← (if size == 0 then begin misreading w else begin (writing 0 size) w)
  some (record c { server = w' })

-- `serverWrite(error, size)`
unfoldable pub server_write : Bool → ℕ → Client → Option Client
server_write true size c = some (stop c)
server_write false size c = do
  let w = record c.server { cur_size = c.server.cur_size + size }
  w' ←
      (if w.size_message == w.cur_size
        then begin reading (record w { size_message = 0; cur_size = 0 })
        else begin (writing w.cur_size (sub_size w.size_message w.cur_size)) w)
  some (record c { server = w' })
