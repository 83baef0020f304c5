-- ===== src/Chat/Queued.antt =====
-- `add_message` and `writeMessages` of the server (p2/server.cpp) on the queues of all clients.
use multithread.Base.{
  ℕ, Bool, true, false, ◌==◌, ==-refl, if◌then◌else◌, ◌∙◌, ◌+◌, ◌%◌, ◌≤◌, ◌<◌, ◌≡◌, refl, sym, ap,
  subst, Option, some, List, [], ◌∷◌, ◌++◌, length, map, append_assoc, append-nil, length-append,
  arith,
}
use multithread.Base.Size.{IsSize}
use multithread.Messages.Bytes.{encode, encode_all}
use multithread.Messages.Message.{Message}
use multithread.Messages.Send.{block_size}
use multithread.Messages.Append.{add_message_lem}
use multithread.Messages.Sender.{MessageSender, WaitForAll, broadcast}
use multithread.Messages.Writing.{write_client_total}
use multithread.Chat.Client.{Status, running, exit, hangs}
use multithread.Chat.Server.{Sockets, Row, unsent, after_loop, write_messages, broadcast_all}

-- Behind `total` bytes, no message ends exactly with a block, and sizes stay below 2^64.
abbrev pub AllApart : ℕ → List (List ℕ) → Type 0
AllApart total [] = Unit
AllApart total (msg ∷ msgs) =
    IsSize (total + length (encode msg))
    × (0 < (total + length (encode msg)) % block_size)
    × AllApart (total + length (encode msg)) msgs

-- That holds at each client's queue.
abbrev pub Rooms : List (List ℕ) → MessageSender → Type 0
Rooms msgs [] = Unit
Rooms msgs ((k, m) ∷ s) = AllApart (m.beg_offset + m.count) msgs × Rooms msgs s

-- The sockets, in the order of the map.
abbrev pub fds : List (ℕ × List ℕ) → List ℕ
fds [] = []
fds ((k, bytes) ∷ row) = k ∷ fds row

-- Each row is about the same sockets.
abbrev pub AllTo : List ℕ → List Row → Type 0
AllTo to [] = Unit
AllTo to (row ∷ rows) = (fds row ≡ to) × AllTo to rows

-- What was sent on each client's socket, before what waits for it.
abbrev pub with_row : Row → List (ℕ × List ℕ) → List (ℕ × List ℕ)
with_row ((k, sent) ∷ row) ((j, q) ∷ queues) =
    (j, if k == j then sent ++ q else q) ∷ with_row row queues
with_row row queues = queues

abbrev pub owed : List Row → List (ℕ × List ℕ) → List (ℕ × List ℕ)
owed [] queues = queues
owed (row ∷ rows) queues = with_row row (owed rows queues)

abbrev pub with_bytes : List ℕ → List (ℕ × List ℕ) → List (ℕ × List ℕ)
with_bytes new queues = map (λ e. (e.0, e.1 ++ new)) queues

pub AllApart-fewer :
    (msgs : List (List ℕ)) (a b : ℕ)
    → b ≤ a
    → a % block_size ≡ b % block_size
    → AllApart a msgs
    → AllApart b msgs
AllApart-fewer [] a b le e h = tt
AllApart-fewer (msg ∷ msgs) a b le e (small, apart, h) = (
  omega arith,
  omega arith,
  AllApart-fewer msgs (a + length (encode msg)) (b + length (encode msg)) (omega arith)
      (omega arith) h,
)

-- Every client's queue has the new message at its end, and keeps room for the others.
pub broadcast_lem :
    (raw_block msg : List ℕ) (msgs : List (List ℕ)) (s : MessageSender) (queues : List (ℕ × List ℕ))
    → WaitForAll s queues
    → length raw_block ≡ block_size
    → Rooms (msg ∷ msgs) s
    → (after : MessageSender) × (broadcast raw_block msg s ≡ some after)
      × WaitForAll after (with_bytes (encode msg) queues)
      × Rooms msgs after
unfolding broadcast
broadcast_lem raw_block msg msgs [] [] w full room = ([], refl, tt, tt)
broadcast_lem raw_block msg msgs [] (q ∷ queues) w full room = absurd w
broadcast_lem raw_block msg msgs ((k, m) ∷ s) [] w full room = absurd w
broadcast_lem raw_block msg msgs ((k, m) ∷ s) ((j, q) ∷ queues) (same, h, w) full
      ((small, apart, later), room) =
    let (m', runs, h', place) =
      add_message_lem raw_block msg q m h full (omega (arith, small)) (omega (arith, apart)) in
    let (s', all_run, w', room') = broadcast_lem raw_block msg msgs s queues w full room in
    (
      (k, m') ∷ s',
      rw (runs, all_run) refl,
      (same, h', w'),
      (
        AllApart-fewer msgs _ _
            (omega (arith, place, h.counted, h'.counted, length-append q (encode msg)))
            (omega (arith, place, h.counted, h'.counted, length-append q (encode msg))) later,
        room',
      ),
    )

pub with_bytes-append :
    (a b : List ℕ) (queues : List (ℕ × List ℕ))
    → with_bytes b (with_bytes a queues) ≡ with_bytes (a ++ b) queues
with_bytes-append a b [] = refl
with_bytes-append a b ((k, q) ∷ queues) = rw (append_assoc q a b, with_bytes-append a b queues) refl

pub with_bytes-nothing : (queues : List (ℕ × List ℕ)) → with_bytes [] queues ≡ queues
with_bytes-nothing [] = refl
with_bytes-nothing ((k, q) ∷ queues) = rw (append-nil q, with_bytes-nothing queues) refl

-- The queues after the messages `msgs`, with room for `rest`.
pub broadcast_all_lem :
    (raw : Message) (raw_block : List ℕ) (msgs rest : List (List ℕ)) (s : MessageSender)
    (queues : List (ℕ × List ℕ))
    → WaitForAll s queues
    → length raw_block ≡ block_size
    → Rooms (msgs ++ rest) s
    → (after : MessageSender) × (broadcast_all raw raw_block msgs s ≡ some after)
      × WaitForAll after (with_bytes (encode_all msgs) queues)
      × Rooms rest after
unfolding broadcast_all encode_all
broadcast_all_lem raw raw_block [] rest s queues w full room =
    (s, refl, subst (WaitForAll s) (sym (with_bytes-nothing queues)) w, room)
broadcast_all_lem raw raw_block (msg ∷ msgs) rest s queues w full room =
    let (s', runs, w', room') = broadcast_lem raw_block msg (msgs ++ rest) s queues w full room in
    let (after, all_run, w'', room'') =
      broadcast_all_lem raw raw_block msgs rest s' (with_bytes (encode msg) queues) w' full room' in
    (
      after,
      rw runs all_run,
      subst (WaitForAll after) (with_bytes-append (encode msg) (encode_all msgs) queues) w'',
      room'',
    )

-- What a call of `writeMessages` leaves.
pub record Rowed (msgs : List (List ℕ)) (queues : List (ℕ × List ℕ))
    (res : Option (Row × MessageSender × Status)) : Type 0 where
  pub row : Row
  pub after : MessageSender
  pub status : Status
  pub left : List (ℕ × List ℕ)
  pub runs : res ≡ some (row, after, status)
  pub waits : WaitForAll after left
  pub room : Rooms msgs after
  pub to : fds row ≡ fds queues
  pub splits : queues ≡ with_row row left

unchanged : (b : Bool) (q : List ℕ) → q ≡ (if b then q else q)
unchanged true q = refl
unchanged false q = refl

pub fds-with_row : (row : Row) (queues : List (ℕ × List ℕ)) → fds (with_row row queues) ≡ fds queues
fds-with_row [] queues = refl
fds-with_row ((k, sent) ∷ row) [] = refl
fds-with_row ((k, sent) ∷ row) ((j, q) ∷ queues) = ap (◌∷◌ j) (fds-with_row row queues)

pub fds-with_bytes :
    (new : List ℕ) (queues : List (ℕ × List ℕ)) → fds (with_bytes new queues) ≡ fds queues
fds-with_bytes new [] = refl
fds-with_bytes new ((j, q) ∷ queues) = ap (◌∷◌ j) (fds-with_bytes new queues)

unsent_lem :
    (status : Status) (msgs : List (List ℕ)) (s : MessageSender) (queues : List (ℕ × List ℕ))
    → WaitForAll s queues
    → Rooms msgs s
    → Rowed msgs queues (some (unsent s, s, status))
unsent_lem status msgs s queues w room = record {
  row = unsent s;
  after = s;
  status = status;
  left = queues;
  runs = refl;
  waits = w;
  room = room;
  to = addressed s queues w;
  splits = same s queues;
}
  where
    same : (s : MessageSender) (queues : List (ℕ × List ℕ)) → queues ≡ with_row (unsent s) queues
    same [] queues = refl
    same ((k, m) ∷ s) [] = refl
    same ((k, m) ∷ s) ((j, q) ∷ queues) =
        ap (λ p. (j, p) ∷ queues) (unchanged (k == j) q)
        ∙ ap (◌∷◌ (j, if k == j then q else q)) (same s queues)

    addressed :
        (s : MessageSender) (queues : List (ℕ × List ℕ))
        → WaitForAll s queues
        → fds (unsent s) ≡ fds queues
    addressed [] [] w = refl
    addressed [] (q ∷ queues) w = absurd w
    addressed ((k, m) ∷ s) [] w = absurd w
    addressed ((k, m) ∷ s) ((j, q) ∷ queues) (e, h, w) =
        ap (λ i. i ∷ fds (unsent s)) e ∙ ap (◌∷◌ j) (addressed s queues w)

-- After one client the call goes on or stops.
go_on :
    (sockets : Sockets) (status : Status) (msgs : List (List ℕ)) (s : MessageSender)
    (queues : List (ℕ × List ℕ))
    → WaitForAll s queues
    → Rooms msgs s
    → Rowed msgs queues (write_messages sockets s)
    → Rowed msgs queues (elim status [
      | running ↦ write_messages sockets s
      | exit code ↦ some (unsent s, s, exit code)
      | hangs ↦ some (unsent s, s, hangs)
    ])
go_on sockets running msgs s queues w room later = later
go_on sockets (exit code) msgs s queues w room later = unsent_lem (exit code) msgs s queues w room
go_on sockets hangs msgs s queues w room later = unsent_lem hangs msgs s queues w room

pub write_messages_lem :
    (sockets : Sockets) (msgs : List (List ℕ)) (s : MessageSender) (queues : List (ℕ × List ℕ))
    → WaitForAll s queues
    → Rooms msgs s
    → Rowed msgs queues (write_messages sockets s)
unfolding write_messages
write_messages_lem sockets msgs [] [] w room = record {
  row = [];
  after = [];
  status = running;
  left = [];
  runs = refl;
  waits = tt;
  room = tt;
  to = refl;
  splits = refl;
}
write_messages_lem sockets msgs [] (q ∷ queues) w room = absurd w
write_messages_lem sockets msgs ((k, m) ∷ s) [] w room = absurd w
write_messages_lem sockets msgs ((k, m) ∷ s) ((j, q) ∷ queues) (same, h, w) (apart, room) =
    let one = write_client_total (sockets.answers k) q m h in
    let r =
      go_on sockets (after_loop (sockets.ctl k) m.need_write one.ending) msgs s queues w room
        (write_messages_lem sockets msgs s queues w room) in
    record {
      row = (k, one.sent) ∷ r.row;
      after = (k, one.after) ∷ r.after;
      status = r.status;
      left = (j, one.rest) ∷ r.left;
      runs = rw (one.runs, r.runs) refl;
      waits = (same, one.waits, r.waits);
      room = (
        AllApart-fewer msgs _ _
            (omega (
              arith,
              one.place,
              h.counted,
              (one.waits).counted,
              ap length one.splits,
              length-append one.sent one.rest,
            ))
            (omega (
              arith,
              one.place,
              h.counted,
              (one.waits).counted,
              ap length one.splits,
              length-append one.sent one.rest,
            ))
            apart,
        r.room,
      );
      to = ap (λ i. i ∷ fds r.row) same ∙ ap (◌∷◌ j) r.to;
      splits =
          ap (λ p. (j, p) ∷ queues) one.splits
          ∙ ap (λ b. (j, if b then one.sent ++ one.rest else one.rest) ∷ queues)
              (sym (ap (λ i. k == i) (sym same) ∙ ==-refl k))
          ∙ ap (◌∷◌ (j, if k == j then one.sent ++ one.rest else one.rest)) r.splits;
    }
