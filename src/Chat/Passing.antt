-- ===== src/Chat/Passing.antt =====
-- `readClient` of p2/server.cpp: every message that a client completes is queued for all clients.
use multithread.Base.{
  ℕ, ◌≤◌, ◌<◌, ◌≡◌, refl, ◌∙◌, sym, ap, subst, Bool, true, false, inl, inr, Option, some, List, [],
  ◌∷◌, ◌++◌, length, append_assoc, append-nil, ◌≢◌, if◌then◌else◌, Bool-cases, ◌==◌,
}
use multithread.Messages.Bytes.{encode_all}
use multithread.Messages.Message.{Message, ◌>>=◌}
use multithread.Messages.Waits.{IsGood, Arrays}
use multithread.Messages.Interleave.{IsGood-suffix, nothing_left}
use multithread.Messages.Receiver.{Expects, process_lem, delete_sock_fd_keeps}
use multithread.Messages.Send.{block_size}
use multithread.Messages.Sender.{WaitForAll, delete_client_keeps}
use multithread.Chat.Client.{Status, running, exit, hangs}
use multithread.Chat.Session.{encode_all-append}
use multithread.Chat.Server.{
  Sockets, Row, Server, Heard, bytes, closed, failed, disconnect, pass_on, read_client,
}
use multithread.Chat.Queued.{
  Rooms, fds, fds-with_row, fds-with_bytes, AllTo, with_row, owed, with_bytes, with_bytes-append,
  with_bytes-nothing, broadcast_all_lem, write_messages_lem,
}

-- The bytes that `recv` returns before it returns anything else.
abbrev pub all_heard : List (Heard × Sockets) → List ℕ
all_heard [] = []
all_heard ((bytes buf, sockets) ∷ heard) = buf ++ all_heard heard
all_heard ((_, sockets) ∷ heard) = []

-- `recv` fills at most the buffer of `readClient`.
abbrev pub AllFit : List (Heard × Sockets) → Type 0
AllFit [] = Unit
AllFit ((bytes buf, sockets) ∷ heard) = ((0 < length buf) × (length buf ≤ 1024)) × AllFit heard
AllFit ((_, sockets) ∷ heard) = AllFit heard

-- The server between two calls: `queues` wait for the clients, and `stream` of client `fd` is to
-- complete `ms`.
pub record Serves (fd : ℕ) (ms : List (List ℕ)) (stream : List ℕ) (queues : List (ℕ × List ℕ))
    (s : Server) : Type 0 where
  pub good : IsGood ms
  pub expects : Expects s.receiver fd ms stream
  pub waits : WaitForAll s.sender queues
  pub room : Rooms ms s.sender

-- What `pass_on` leaves.
pub record Passed (fd : ℕ) (ms : List (List ℕ)) (stream : List ℕ) (queues : List (ℕ × List ℕ))
    (res : Option (Server × List (List ℕ) × Row × Status)) : Type 0 where
  pub after : Server
  pub msgs : List (List ℕ)
  pub rest : List (List ℕ)
  pub row : Row
  pub status : Status
  pub left : List (ℕ × List ℕ)
  pub runs : res ≡ some (after, msgs, row, status)
  pub splits : ms ≡ msgs ++ rest
  pub to : fds row ≡ fds queues
  pub same_fds : fds left ≡ fds queues
  pub sends : with_row row left ≡ with_bytes (encode_all msgs) queues
  pub serves : Serves fd rest stream left after

-- What `readClient` leaves.
pub record Read (fd : ℕ) (ms : List (List ℕ)) (to_come : List ℕ) (queues : List (ℕ × List ℕ))
    (res : Option (Server × List (List ℕ) × List Row × Status)) : Type 0 where
  pub after : Server
  pub msgs : List (List ℕ)
  pub rest : List (List ℕ)
  pub rows : List Row
  pub status : Status
  pub stream : List ℕ
  pub left : List (ℕ × List ℕ)
  pub runs : res ≡ some (after, msgs, rows, status)
  pub splits : ms ≡ msgs ++ rest
  pub reads : status ≡ running → stream ≡ to_come
  pub to : AllTo (fds queues) rows
  pub sends : owed rows left ≡ with_bytes (encode_all msgs) queues
  pub serves : Serves fd rest stream left after

with_row-with_bytes :
    (row : Row) (new : List ℕ) (queues : List (ℕ × List ℕ))
    → with_row row (with_bytes new queues) ≡ with_bytes new (with_row row queues)
with_row-with_bytes [] new queues = refl
with_row-with_bytes ((k, sent) ∷ row) new [] = refl
with_row-with_bytes ((k, sent) ∷ row) new ((j, q) ∷ queues) =
    ap (◌∷◌ (j, if k == j then sent ++ (q ++ new) else q ++ new))
      (with_row-with_bytes row new queues)
    ∙ ap (λ l. (j, l) ∷ with_bytes new (with_row row queues)) (in_place (k == j))
  where
    in_place :
        (b : Bool)
        → (if b then sent ++ (q ++ new) else q ++ new) ≡ (if b then sent ++ q else q) ++ new
    in_place true = sym (append_assoc sent q new)
    in_place false = refl

module _ (raw : Message) (arrays : Arrays raw) (raw_block : List ℕ)
    (full : length raw_block ≡ block_size) (fd : ℕ) where
  pass_on_lem :
      (buf : List ℕ) (sockets : Sockets) (s : Server) (ms : List (List ℕ)) (stream : List ℕ)
      (queues : List (ℕ × List ℕ))
      → 0 < length buf
      → length buf ≤ 1024
      → Serves fd ms (buf ++ stream) queues s
      → Passed fd ms stream queues (pass_on raw raw_block fd buf sockets s)
  unfolding pass_on
  pass_on_lem buf sockets s ms stream queues more short h =
      let p = process_lem raw arrays fd buf stream ms h.good more short s.receiver h.expects in
      let (sender, queued, waits, room) =
        broadcast_all_lem raw raw_block p.out p.rest s.sender queues h.waits full
          (subst (λ l. Rooms l s.sender) p.splits h.room) in
      let w =
        write_messages_lem sockets p.rest sender (with_bytes (encode_all p.out) queues) waits
          room in
      record {
        after = record { receiver = p.after; sender = w.after };
        msgs = p.out;
        rest = p.rest;
        row = w.row;
        status = w.status;
        left = w.left;
        runs = rw (p.runs, queued, w.runs) refl;
        splits = p.splits;
        to = w.to ∙ fds-with_bytes (encode_all p.out) queues;
        same_fds =
            sym (fds-with_row w.row w.left)
            ∙ ap fds (sym w.splits)
            ∙ fds-with_bytes (encode_all p.out) queues;
        sends = sym w.splits;
        serves = record {
          good = IsGood-suffix p.out p.rest (subst IsGood p.splits h.good);
          expects = p.state;
          waits = w.waits;
          room = w.room;
        };
      }

  -- The loop stops with nothing more read or sent.
  stopped :
      (status : Status) (s : Server) (ms : List (List ℕ)) (stream : List ℕ)
      (queues : List (ℕ × List ℕ))
      → Serves fd ms stream queues s
      → Read fd ms stream queues (some (s, [], [], status))
  unfolding encode_all
  stopped status s ms stream queues h = record {
    after = s;
    msgs = [];
    rest = ms;
    rows = [];
    status = status;
    stream = stream;
    left = queues;
    runs = refl;
    splits = refl;
    reads = λ i. refl;
    to = tt;
    sends = sym (with_bytes-nothing queues);
    serves = h;
  }

  disconnect_lem :
      (ctl : Bool) (s : Server) (ms : List (List ℕ)) (stream : List ℕ) (queues : List (ℕ × List ℕ))
      → Serves fd ms stream queues s
      → Serves fd ms stream queues (disconnect ctl fd s).0
  unfolding disconnect
  disconnect_lem false s ms stream queues h = h
  disconnect_lem true s ms stream queues h = record {
    good = h.good;
    expects = rw (delete_sock_fd_keeps fd s.receiver) h.expects;
    waits = rw (delete_client_keeps fd s.sender) h.waits;
    room = rw (delete_client_keeps fd s.sender) h.room;
  }

  -- The loop after a piece of the stream.
  next_piece :
      (heard : List (Heard × Sockets)) (ms : List (List ℕ)) (stream : List ℕ)
      (queues : List (ℕ × List ℕ)) (res : Option (Server × List (List ℕ) × Row × Status))
      (p : Passed fd ms (all_heard heard ++ stream) queues res)
      → Read fd p.rest stream p.left (read_client raw raw_block fd heard p.after)
      → Read fd ms stream queues (elim p.status [
        | running ↦ read_client raw raw_block fd heard p.after >>= λ r.
            some (r.0, p.msgs ++ r.1, p.row ∷ r.2, r.3)
        | exit code ↦ some (p.after, p.msgs, p.row ∷ [], exit code)
        | hangs ↦ some (p.after, p.msgs, p.row ∷ [], hangs)
      ])
  next_piece heard ms stream queues res p r = go p.status
    where
      ends :
          (status : Status)
          → (status ≢ running)
          → Read fd ms stream queues (some (p.after, p.msgs, p.row ∷ [], status))
      ends status stops = record {
        after = p.after;
        msgs = p.msgs;
        rest = p.rest;
        rows = p.row ∷ [];
        status = status;
        stream = all_heard heard ++ stream;
        left = p.left;
        runs = refl;
        splits = p.splits;
        reads = λ i. absurd (stops i);
        to = (p.to, tt);
        sends = p.sends;
        serves = p.serves;
      }

      go :
          (status : Status)
          → Read fd ms stream queues (elim status [
            | running ↦ read_client raw raw_block fd heard p.after >>= λ r.
                some (r.0, p.msgs ++ r.1, p.row ∷ r.2, r.3)
            | exit code ↦ some (p.after, p.msgs, p.row ∷ [], exit code)
            | hangs ↦ some (p.after, p.msgs, p.row ∷ [], hangs)
          ])
      go (exit code) = ends (exit code) (λ i. cc)
      go hangs = ends hangs (λ i. cc)
      go running = record {
        after = r.after;
        msgs = p.msgs ++ r.msgs;
        rest = r.rest;
        rows = p.row ∷ r.rows;
        status = r.status;
        stream = r.stream;
        left = r.left;
        runs = rw r.runs refl;
        splits = p.splits ∙ ap (◌++◌ p.msgs) r.splits ∙ sym (append_assoc p.msgs r.msgs r.rest);
        reads = r.reads;
        to = (p.to, subst (λ l. AllTo l r.rows) p.same_fds r.to);
        sends =
            ap (with_row p.row) r.sends
            ∙ with_row-with_bytes p.row (encode_all r.msgs) p.left
            ∙ ap (with_bytes (encode_all r.msgs)) p.sends
            ∙ with_bytes-append (encode_all p.msgs) (encode_all r.msgs) queues
            ∙ ap (λ l. with_bytes l queues) (sym (encode_all-append p.msgs r.msgs));
        serves = r.serves;
      }

  pub read_client_lem :
      (heard : List (Heard × Sockets)) (s : Server) (ms : List (List ℕ)) (stream : List ℕ)
      (queues : List (ℕ × List ℕ))
      → AllFit heard
      → Serves fd ms (all_heard heard ++ stream) queues s
      → Read fd ms stream queues (read_client raw raw_block fd heard s)
  unfolding read_client
  read_client_lem [] s ms stream queues fit h = stopped hangs s ms stream queues h
  read_client_lem ((closed, sockets) ∷ heard) s ms stream queues fit h =
      stopped (disconnect (sockets.ctl fd) fd s).1 (disconnect (sockets.ctl fd) fd s).0 ms stream
        queues (disconnect_lem (sockets.ctl fd) s ms stream queues h)
  read_client_lem ((failed errno, sockets) ∷ heard) s ms stream queues fit h =
      elim (Bool-cases (errno == 11)) [
        | inl e ↦ rw e (stopped running s ms stream queues h)
        | inr e ↦ rw e (stopped (exit 1) s ms stream queues h)
      ]
  read_client_lem ((bytes buf, sockets) ∷ heard) s ms stream queues ((more, short), fit) h =
      let p = pass_on_lem buf sockets s ms (all_heard heard ++ stream) queues more short (record {
        good = h.good;
        expects =
            subst (Expects s.receiver fd ms) (append_assoc buf (all_heard heard) stream) h.expects;
        waits = h.waits;
        room = h.room;
      }) in
      let r = read_client_lem heard p.after p.rest stream p.left fit p.serves in
      rw p.runs (next_piece heard ms stream queues _ p r)

-- Let the bytes of one client arrive in any pieces of at most 1024 bytes, the other sockets answer
-- in any way and `epoll_ctl` fail or not. Then `readClient` runs without undefined behaviour, the
-- messages that it prints are the next ones of that client, in order. If the server runs on, it has
-- read all bytes up to the first call of `recv` without any, and printed all messages if these end
-- with the stream. For every client, what was sent on its socket and then what still waits for it
-- are what waited before, with the printed messages encoded behind it, and nothing is sent on other
-- sockets. The messages of the client are not empty, below 4 GiB and without NUL, and
-- at no client's queue one of them ends exactly at the end of a block of 1024 bytes.
pub read_client_total :
    (raw : Message) (raw_block : List ℕ) (fd : ℕ) (heard : List (Heard × Sockets)) (s : Server)
    (ms : List (List ℕ)) (stream : List ℕ) (queues : List (ℕ × List ℕ))
    → Arrays raw
    → length raw_block ≡ block_size
    → AllFit heard
    → Serves fd ms (all_heard heard ++ stream) queues s
    → (s' : Server) × (msgs : List (List ℕ)) × (rest : List (List ℕ)) × (rows : List Row)
      × (status : Status) × (left : List (ℕ × List ℕ)) × (read_client raw raw_block fd heard s
          ≡ some (s', msgs, rows, status))
      × (ms ≡ msgs ++ rest)
      × (status ≡ running → Expects s'.receiver fd rest stream × (stream ≡ [] → msgs ≡ ms))
      × WaitForAll s'.sender left
      × AllTo (fds queues) rows
      × (owed rows left ≡ with_bytes (encode_all msgs) queues)
read_client_total raw raw_block fd heard s ms stream queues arrays full fit h =
    let r = read_client_lem raw arrays raw_block full fd heard s ms stream queues fit h in
    (
      r.after,
      r.msgs,
      r.rest,
      r.rows,
      r.status,
      r.left,
      r.runs,
      r.splits,
      λ i.
          let here : Expects r.after.receiver fd r.rest stream =
            subst (Expects r.after.receiver fd r.rest) (r.reads i) r.serves.expects in
          (
            here,
            λ ended. sym (
                r.splits
                ∙ ap (◌++◌ r.msgs) (
                    nothing_left r.after.receiver fd r.rest r.serves.good
                      (subst (Expects r.after.receiver fd r.rest) ended here))
                ∙ append-nil r.msgs),
          ),
      r.serves.waits,
      r.to,
      r.sends,
    )
