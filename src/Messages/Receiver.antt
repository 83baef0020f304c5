-- ===== src/Messages/Receiver.antt =====
-- p2/messagereceiver.h and .cpp: one `Message` for each socket.
use multithread.Base.{
  ℕ, ◌≤◌, ◌<◌, ◌≡◌, refl, ◌∙◌, sym, ◌≢◌, false, Option, none, some, List, [], ◌++◌, arith, length,
  ==-refl, ne→==,
}
use multithread.Messages.Bytes.{encode_all}
use multithread.Messages.Message.{Message, ◌>>=◌, add_part_msg, initialise, get_message}
use multithread.Messages.Dictionary.{
  lookup, emplace, put, erase, lookup-emplace, lookup-put, erase_absent,
}
use multithread.Messages.Waits.{IsGood, Arrays, Waits}
use multithread.Messages.Receive.{add_part_msg_lem, start-Waits}
use multithread.Messages.Drain.{get_message_lem}

abbrev pub MessageReceiver : Type 0
MessageReceiver = List (ℕ × Message)

-- `raw` is what the fields of a new `Message` hold before the constructor sets them.
unfoldable pub construct : Message → List ℕ → Option Message
construct raw buf = initialise buf raw

-- `process(sockfd, buf, len)`
unfoldable pub process :
    Message → ℕ → List ℕ → MessageReceiver → Option (List (List ℕ) × MessageReceiver)
process raw sockfd buf r = elim (lookup sockfd r) [
  | none ↦ do
    new_message ← construct raw buf
    (msgs, m) ← get_message new_message
    some (msgs, put sockfd m (emplace sockfd new_message r))
  | some old ↦ do
    changed ← add_part_msg buf old
    (msgs, m) ← get_message changed
    some (msgs, put sockfd m r)
]

-- `deleteSockFd(sockfd)`, with the test as it is written: it erases where nothing was found.
unfoldable pub delete_sock_fd : ℕ → MessageReceiver → MessageReceiver
delete_sock_fd sockfd r = elim (lookup sockfd r) [ none ↦ erase sockfd r | some m ↦ r ]

-- `deleteSockFd` changes nothing: what was received from a closed socket stays, and is taken for
-- the start of what a later client sends on a socket with the same number.
pub delete_sock_fd_keeps : (sockfd : ℕ) (r : MessageReceiver) → delete_sock_fd sockfd r ≡ r
unfolding delete_sock_fd
delete_sock_fd_keeps sockfd r = ground (arith, erase_absent sockfd r)

-- The receiver waits, on socket `k`, for `stream` to complete `ms`.
pub data Expects (r : MessageReceiver) (k : ℕ) (ms : List (List ℕ)) (stream : List ℕ) : Type 0 where
  unknown : lookup k r ≡ none → stream ≡ encode_all ms → Expects r k ms stream
  known : (m : Message) → lookup k r ≡ some m → Waits m ms stream → Expects r k ms stream

pub record Processed (k : ℕ) (ms : List (List ℕ)) (stream : List ℕ) (r : MessageReceiver)
    (res : Option (List (List ℕ) × MessageReceiver)) : Type 0 where
  pub out : List (List ℕ)
  pub rest : List (List ℕ)
  pub after : MessageReceiver
  pub runs : res ≡ some (out, after)
  pub splits : ms ≡ out ++ rest
  pub state : Expects after k rest stream
  pub others : (j : ℕ) → j ≢ k → lookup j after ≡ lookup j r

module _ (raw : Message) (arrays : Arrays raw) (k : ℕ) (buf stream : List ℕ) (ms : List (List ℕ))
    (good : IsGood ms) (more : 0 < length buf) (short : length buf ≤ 1024)
    (r : MessageReceiver) where
  process_unknown :
      lookup k r ≡ none
      → buf ++ stream ≡ encode_all ms
      → Processed k ms stream r (process raw k buf r)
  unfolding process construct initialise
  process_unknown absent e =
      let start = record raw {
        cur_message = [];
        cur_len = 0;
        have_count = false;
        have_part_next_msg = false;
      } in
      let s = add_part_msg_lem start ms buf stream good more short (
        start-Waits start ms (buf ++ stream)
          (record { part_size = arrays.part_size; add_size = arrays.add_size }) refl refl refl e) in
      let d = get_message_lem s.after ms stream (length buf) good short s.state in
      let there : lookup k (emplace k s.after r) ≡ some s.after =
        lookup-emplace k k s.after r absent ∙ rw (==-refl k) refl in
      record {
        out = d.out;
        rest = d.rest;
        after = put k d.after (emplace k s.after r);
        runs = rw (absent, process, s.runs, d.runs) refl;
        splits = d.splits;
        state =
            known d.after (lookup-put k k d.after s.after _ there ∙ rw (==-refl k) refl) d.state;
        others = λ j ne.
            lookup-put k j d.after s.after _ there
            ∙ rw (ne→== k j (λ x. ne (sym x)))
                (lookup-emplace k j s.after r absent ∙ rw (ne→== k j (λ x. ne (sym x))) refl);
      }

  process_known :
      (old : Message)
      → lookup k r ≡ some old
      → Waits old ms (buf ++ stream)
      → Processed k ms stream r (process raw k buf r)
  unfolding process
  process_known old there w =
      let s = add_part_msg_lem old ms buf stream good more short w in
      let d = get_message_lem s.after ms stream (length buf) good short s.state in
      record {
        out = d.out;
        rest = d.rest;
        after = put k d.after r;
        runs = rw (there, process, s.runs, d.runs) refl;
        splits = d.splits;
        state = known d.after (lookup-put k k d.after old r there ∙ rw (==-refl k) refl) d.state;
        others = λ j ne. lookup-put k j d.after old r there ∙ rw (ne→== k j (λ x. ne (sym x))) refl;
      }

  pub process_lem : Expects r k ms (buf ++ stream) → Processed k ms stream r (process raw k buf r)
  process_lem (unknown absent e) = process_unknown absent e
  process_lem (known old there w) = process_known old there w
