-- ===== src/Chat/Rounds.antt =====
-- `Client::start` of p2/client.cpp: what the client sends is what was typed, in order, and what it
-- prints is what the server sent, in order.
use multithread.Base.{
  ℕ, take, ◌≤◌, ◌+◌, ◌≡◌, refl, ◌∙◌, sym, ap, ◌≢◌, ◌<◌, Bool, true, false, arith, subst, Option,
  some, List, [], ◌∷◌, ◌++◌, length, append_assoc, append-nil, length-append,
}
use multithread.Messages.Bytes.{encode_all}
use multithread.Messages.Dictionary.{lookup, some_inj}
use multithread.Messages.Front.{getbitarray_total}
use multithread.Messages.Writing.{rooms, write_loop_drains}
use multithread.Messages.Message.{Message}
use multithread.Messages.Receiver.{Expects, unknown}
use multithread.Messages.Waits.{IsGood, Arrays}
use multithread.Messages.Interleave.{nothing_left}
use multithread.Messages.Send.{block_size, start}
use multithread.Messages.Queue.{Queues, start-Queues}
use multithread.Chat.Client.{
  Status, running, exit, hangs, ChatClient, Ready, new_client, round, rounds, write_fds,
}
use multithread.Chat.Session.{
  words, arrived, all_typed, all_arrived, Allowed, Session, Talks, encode_all-append,
}
use multithread.Chat.Steps.{round_lem}

module _ (raw : Message) (arrays : Arrays raw) (raw_block : List ℕ)
    (full : length raw_block ≡ block_size) (socket_fd : ℕ) (ms : List (List ℕ)) where
  rounds_next :
      (ready : Ready) (inputs : List Ready) (c c' : ChatClient) (res : Option ChatClient)
      → c.status ≡ running
      → round raw raw_block socket_fd ready c ≡ some c'
      → rounds raw raw_block socket_fd inputs c' ≡ res
      → rounds raw raw_block socket_fd (ready ∷ inputs) c ≡ res
  unfolding rounds
  rounds_next ready inputs c c' res e now later = rw (e, now, rounds) later

  rounds_lem :
      (inputs : List Ready) (c : ChatClient) (stream : List ℕ)
      → Session socket_fd c ms (all_arrived inputs ++ stream)
      → Allowed (length (encode_all c.typed)) inputs
      → Talks socket_fd ms stream
          (c.typed ++ all_typed inputs)
          (rounds raw raw_block socket_fd inputs c)
  unfolding rounds
  rounds_lem [] c stream h a = record {
    after = c;
    runs = refl;
    to_come = stream;
    session = h;
    reads = λ e. (sym (append-nil c.typed), refl);
  }
  rounds_lem (ready ∷ inputs) c stream h (a, f, more) =
      go (λ c' h' a'. rounds_lem inputs c' stream h' a') c.status refl
    where
      stops :
          (res : Option ChatClient)
          → res ≡ some c
          → c.status ≢ running
          → Talks socket_fd ms stream (c.typed ++ all_typed (ready ∷ inputs)) res
      stops res e ne = record {
        after = c;
        runs = e;
        to_come = all_arrived (ready ∷ inputs) ++ stream;
        session = h;
        reads = λ i. absurd (ne i);
      }

      go :
          ((c' : ChatClient)
            → Session socket_fd c' ms (all_arrived inputs ++ stream)
            → Allowed (length (encode_all c'.typed)) inputs
            → Talks socket_fd ms stream
                (c'.typed ++ all_typed inputs)
                (rounds raw raw_block socket_fd inputs c'))
          → (s : Status) → c.status ≡ s
          → Talks socket_fd ms stream
              (c.typed ++ all_typed (ready ∷ inputs))
              (rounds raw raw_block socket_fd (ready ∷ inputs) c)
      go next running e =
          let r =
            round_lem raw arrays raw_block full socket_fd ms ready c (all_arrived inputs ++ stream)
              (subst (Session socket_fd c ms)
                (append_assoc (arrived ready.heard) (all_arrived inputs) stream) h)
              a f in
          let now : length (encode_all c.typed) + length (encode_all (words ready.typed))
              ≡ length (encode_all (r.after).typed) =
            sym (length-append (encode_all c.typed) (encode_all (words ready.typed)))
            ∙ ap length (sym (encode_all-append c.typed (words ready.typed)))
            ∙ ap (λ l. length (encode_all l)) (sym r.read) in
          let t = next r.after r.session (subst (λ n. Allowed n inputs) now more) in
          record {
            after = t.after;
            runs = rounds_next ready inputs c r.after _ e r.runs t.runs;
            to_come = t.to_come;
            session = t.session;
            reads = λ i.
                let (typed, same) = t.reads i in
                (
                  typed
                      ∙ ap (λ l. l ++ all_typed inputs) r.read
                      ∙ append_assoc c.typed (words ready.typed) (all_typed inputs),
                  same,
                );
          }
      go next (exit code) e = stops _ (rw e refl) (λ i. cc)
      go next hangs e = stops _ (rw e refl) (λ i. cc)

start-Session :
    (socket_fd : ℕ) (ms : List (List ℕ)) (stream : List ℕ)
    → IsGood ms
    → stream ≡ encode_all ms
    → Session socket_fd new_client ms stream
unfolding new_client encode_all start lookup
start-Session socket_fd ms stream good e = record {
  waiting = [];
  queues = start-Queues;
  wants = λ more. absurd (omega (arith, more));
  place = refl;
  in_order = refl;
  left = ms;
  splits = refl;
  good = good;
  expects = unknown refl e;
}

all_sent :
    (waiting sent typed : List ℕ) (b : Bool)
    → typed ≡ sent ++ waiting
    → (0 < length waiting → b ≡ true)
    → b ≡ false
    → sent ≡ typed
all_sent [] sent typed b e wants quiet = sym (append-nil sent) ∙ sym e
all_sent (x ∷ waiting) sent typed b e wants quiet =
    absurd (true-ne-false (sym (wants (omega arith)) ∙ quiet))
  where
    true-ne-false : true ≡ false → ⊥
    true-ne-false i = cc

-- Whatever is typed, whatever the socket answers, and however the stream of encoded messages is
-- cut into pieces of at most 1024 bytes, the client runs without undefined behaviour. Then the
-- bytes sent and those that still wait are together the encoded words that it read, in order; while
-- bytes wait, it has `needwrite` set, so without it all words that it read have been sent;
-- and what it printed is the front of the messages of the server, in order. If it has not
-- stopped, it has read all words typed, and printed all messages if all bytes of them arrived.
-- The messages of the server are not empty, below 4 GiB and without NUL; no word that is typed
-- ends, encoded, exactly at the end of a block of 1024 bytes, and fewer than 2^64 bytes are typed.
pub chat_client_total :
    (raw : Message) (raw_block : List ℕ) (socket_fd : ℕ) (inputs : List Ready) (ms : List (List ℕ))
    (stream : List ℕ)
    → Arrays raw
    → length raw_block ≡ block_size
    → IsGood ms
    → Allowed 0 inputs
    → all_arrived inputs ++ stream ≡ encode_all ms
    → (c : ChatClient) × (waiting : List ℕ) × (left : List (List ℕ)) × (rounds raw raw_block
          socket_fd inputs new_client
        ≡ some c)
      × Queues c.for_send waiting
      × (encode_all c.typed ≡ c.sent ++ waiting)
      × (c.needwrite ≡ false → c.sent ≡ encode_all c.typed)
      × (ms ≡ c.printed ++ left)
      × (c.status ≡ running → (c.typed ≡ all_typed inputs) × (stream ≡ [] → c.printed ≡ ms))
unfolding new_client encode_all
chat_client_total raw raw_block socket_fd inputs ms stream arrays full good allowed e =
    let t =
      rounds_lem raw arrays raw_block full socket_fd ms inputs new_client stream
        (start-Session socket_fd ms (all_arrived inputs ++ stream) good e) allowed in
    let s = t.session in
    (
      t.after,
      s.waiting,
      s.left,
      t.runs,
      s.queues,
      s.in_order,
      λ quiet.
          all_sent s.waiting t.after.sent (encode_all t.after.typed) t.after.needwrite s.in_order
            s.wants quiet,
      s.splits,
      λ i.
          let (typed, same) = t.reads i in
          (
            typed,
            λ ended. sym (
                s.splits
                ∙ ap (◌++◌ (t.after).printed) (
                    nothing_left (t.after).receiver socket_fd s.left s.good (
                      subst (Expects (t.after).receiver socket_fd s.left) (same ∙ ended) s.expects))
                ∙ append-nil (t.after).printed),
          ),
    )

-- Take a client after any rounds, as `chat_client_total` is about them, and let its socket then take
-- at least one byte of each `send`, in as many calls as bytes were typed. Then one call of `writeFds`
-- sends all that was still to be sent, and `needwrite` is cleared.
pub typed_words_are_sent :
    (raw : Message) (raw_block : List ℕ) (socket_fd : ℕ) (inputs : List Ready) (ms : List (List ℕ))
    (stream : List ℕ) (c : ChatClient) (ns : List ℕ)
    → Arrays raw
    → length raw_block ≡ block_size
    → IsGood ms
    → Allowed 0 inputs
    → all_arrived inputs ++ stream ≡ encode_all ms
    → rounds raw raw_block socket_fd inputs new_client ≡ some c
    → length (encode_all c.typed) ≤ length ns
    → (after : ChatClient) × (write_fds raw raw_block socket_fd (some (rooms ns)) c ≡ some after)
      × (after.sent ≡ encode_all c.typed)
      × (after.needwrite ≡ false)
unfolding write_fds
typed_words_are_sent raw raw_block socket_fd inputs ms stream c ns arrays full good allowed e runs
      enough =
    let (c', waiting, left, runs', queues, in_order, all_gone, printed, reads) =
      chat_client_total raw raw_block socket_fd inputs ms stream arrays full good allowed e in
    let same : c' ≡ c = some_inj (sym runs' ∙ runs) in
    let queues_c : Queues c.for_send waiting = subst (λ d. Queues d.for_send waiting) same queues in
    let in_order_c : encode_all c.typed ≡ c.sent ++ waiting =
      subst (λ d. encode_all d.typed ≡ d.sent ++ waiting) same in_order in
    let (m, all_go) =
      write_loop_drains ns (take 1024 waiting) waiting c.for_send queues_c refl
        (omega (arith, ap length in_order_c, length-append c.sent waiting)) in
    (
      record c { for_send = m; sent = c.sent ++ waiting; needwrite = false },
      rw (getbitarray_total 1024 waiting c.for_send queues_c (omega arith), all_go) refl,
      sym in_order_c,
      refl,
    )
