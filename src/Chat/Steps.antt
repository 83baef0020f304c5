-- ===== src/Chat/Steps.antt =====
-- `readFds` and `writeFds` of p2/client.cpp keep the order of what is typed, printed and sent.
use multithread.Base.{
  ℕ, ◌+◌, ◌≡◌, refl, ◌∙◌, sym, ap, subst, Bool, true, false, ◌&&◌, inl, inr, Option, none, some,
  List, [], ◌∷◌, ◌++◌, length, ◌<◌, if-true, if-false, arith, append_assoc, append-nil,
  length-append, Bool-cases, take,
}
use multithread.Messages.Bytes.{encode, encode_all}
use multithread.Messages.Message.{Message}
use multithread.Messages.Receiver.{process_lem}
use multithread.Messages.Waits.{IsGood, Arrays}
use multithread.Messages.Interleave.{IsGood-suffix}
use multithread.Messages.Send.{block_size}
use multithread.Messages.Append.{add_message_lem}
use multithread.Messages.Front.{getbitarray_total}
use multithread.Messages.Writing.{
  Answer, Ending, emptied, blocked, exits, asks, zero_sent, write_loop_lem,
}
use multithread.Chat.Client.{
  Got, bytes, closed, failed, Status, exit, hangs, ChatClient, Ready, read_server, read_typed,
  read_socket, read_fds, ends, write_fds, is_running, round,
}
use multithread.Chat.Session.{
  words, arrived, Apart, Fits, Session, Step, encode_all-append, encode_all-one,
}

module _ (raw : Message) (arrays : Arrays raw) (raw_block : List ℕ)
    (full : length raw_block ≡ block_size) (socket_fd : ℕ) (ms : List (List ℕ)) where
  with_status :
      (s : Status) (b : Bool) (c : ChatClient) (stream : List ℕ)
      → (h : Session socket_fd c ms stream) → (0 < length h.waiting → b ≡ true)
      → Session socket_fd (record c { status = s; needwrite = b }) ms stream
  with_status s b c stream h wants = record {
    wants = wants;
    waiting = h.waiting;
    queues = h.queues;
    place = h.place;
    in_order = h.in_order;
    left = h.left;
    splits = h.splits;
    good = h.good;
    expects = h.expects;
  }

  read_typed_lem :
      (typed : Option (List ℕ)) (c : ChatClient) (stream : List ℕ)
      → Session socket_fd c ms stream
      → Apart (length (encode_all c.typed)) typed
      → Step socket_fd ms stream
          (c.typed ++ words typed)
          (read_typed raw raw_block socket_fd typed c)
  unfolding read_typed
  read_typed_lem none c stream h a = record {
    after = c;
    runs = refl;
    session = h;
    read = sym (append-nil c.typed);
  }
  read_typed_lem (some msg) c stream h (small, apart) =
      let size : length (encode_all c.typed) ≡ length c.sent + length h.waiting =
        ap length h.in_order ∙ length-append c.sent h.waiting in
      let (m, runs, queues, place) =
        add_message_lem raw_block msg h.waiting c.for_send h.queues full
          (omega (arith, size, (h.queues).counted))
          (omega (arith, size, h.place, (h.queues).counted)) in
      record {
        after = record c { for_send = m; needwrite = true; typed = c.typed ++ msg ∷ [] };
        runs = rw runs refl;
        session = record {
          waiting = h.waiting ++ encode msg;
          queues = queues;
          wants = λ more. refl;
          place = place ∙ h.place;
          in_order =
              encode_all-append c.typed (msg ∷ [])
              ∙ ap (◌++◌ (encode_all c.typed)) (encode_all-one msg)
              ∙ ap (λ l. l ++ encode msg) h.in_order
              ∙ append_assoc c.sent h.waiting (encode msg);
          left = h.left;
          splits = h.splits;
          good = h.good;
          expects = h.expects;
        };
        read = refl;
      }

  read_socket_lem :
      (heard : Option Got) (c : ChatClient) (stream : List ℕ)
      → Session socket_fd c ms (arrived heard ++ stream)
      → Fits heard
      → Step socket_fd ms stream c.typed (read_socket raw raw_block socket_fd heard c)
  unfolding read_socket read_server
  read_socket_lem none c stream h f = record { after = c; runs = refl; session = h; read = refl }
  read_socket_lem (some closed) c stream h f = record {
    after = record c { status = exit 0 };
    runs = refl;
    session = with_status (exit 0) c.needwrite c stream h h.wants;
    read = refl;
  }
  read_socket_lem (some failed) c stream h f = record {
    after = record c { status = exit 1 };
    runs = refl;
    session = with_status (exit 1) c.needwrite c stream h h.wants;
    read = refl;
  }
  read_socket_lem (some (bytes buf)) c stream h (more, short) =
      let p =
        process_lem raw arrays socket_fd buf stream h.left h.good more short c.receiver h.expects in
      record {
        after = record c { receiver = p.after; printed = c.printed ++ p.out };
        runs = rw p.runs refl;
        session = record {
          waiting = h.waiting;
          queues = h.queues;
          wants = h.wants;
          place = h.place;
          in_order = h.in_order;
          left = p.rest;
          splits =
              h.splits ∙ ap (◌++◌ c.printed) p.splits ∙ sym (append_assoc c.printed p.out p.rest);
          good = IsGood-suffix p.out p.rest (subst IsGood p.splits h.good);
          expects = p.state;
        };
        read = refl;
      }

  ends-Session :
      (ending : Ending) (c : ChatClient) (stream : List ℕ)
      → (h : Session socket_fd c ms stream) → (ending ≡ emptied → h.waiting ≡ [])
      → Session socket_fd (ends ending c) ms stream
  ends-Session emptied c stream h all =
      with_status c.status false c stream h
        (λ more. absurd (omega (arith, more, ap length (all refl))))
  ends-Session blocked c stream h all = with_status c.status true c stream h (λ more. refl)
  ends-Session exits c stream h all = with_status (exit 1) c.needwrite c stream h h.wants
  ends-Session asks c stream h all = with_status hangs c.needwrite c stream h h.wants
  ends-Session (zero_sent errno) c stream h all =
      with_status (exit 0) c.needwrite c stream h h.wants

  ends-typed : (ending : Ending) (c : ChatClient) → (ends ending c).typed ≡ c.typed
  ends-typed emptied c = refl
  ends-typed blocked c = refl
  ends-typed exits c = refl
  ends-typed asks c = refl
  ends-typed (zero_sent errno) c = refl

  write_fds_lem :
      (writable : Option (List Answer)) (c : ChatClient) (stream : List ℕ)
      → Session socket_fd c ms stream
      → Step socket_fd ms stream c.typed (write_fds raw raw_block socket_fd writable c)
  unfolding write_fds
  write_fds_lem none c stream h = record { after = c; runs = refl; session = h; read = refl }
  write_fds_lem (some answers) c stream h =
      let w = write_loop_lem answers (take 1024 h.waiting) h.waiting c.for_send h.queues refl in
      let c' : ChatClient = record c { for_send = w.after; sent = c.sent ++ w.sent } in
      record {
        after = ends w.ending c';
        runs = rw (getbitarray_total 1024 h.waiting c.for_send h.queues (omega arith), w.runs) refl;
        session =
            ends-Session w.ending c' stream
              (record {
                waiting = w.rest;
                queues = w.waits;
                wants = λ more.
                    h.wants (omega (arith, more, ap length w.splits, length-append w.sent w.rest));
                place = omega (arith, w.place, h.place, length-append c.sent w.sent);
                in_order =
                    h.in_order
                    ∙ ap (◌++◌ c.sent) w.splits
                    ∙ sym (append_assoc c.sent w.sent w.rest);
                left = h.left;
                splits = h.splits;
                good = h.good;
                expects = h.expects;
              })
              w.all;
        read = ends-typed w.ending c';
      }

  pub round_lem :
      (ready : Ready) (c : ChatClient) (stream : List ℕ)
      → Session socket_fd c ms (arrived ready.heard ++ stream)
      → Apart (length (encode_all c.typed)) ready.typed
      → Fits ready.heard
      → Step socket_fd ms stream
          (c.typed ++ words ready.typed)
          (round raw raw_block socket_fd ready c)
  unfolding round read_fds
  round_lem ready c stream h a f =
      let t = read_typed_lem ready.typed c (arrived ready.heard ++ stream) h a in
      let s = read_socket_lem ready.heard t.after stream t.session f in
      let w = write_fds_lem ready.writable s.after stream s.session in
      elim (Bool-cases (c.needwrite && is_running s.after)) [
        | inl e ↦ record {
          after = w.after;
          runs = rw (t.runs, s.runs) (if-true _ _ _ e ∙ w.runs);
          session = w.session;
          read = w.read ∙ s.read ∙ t.read;
        }
        | inr e ↦ record {
          after = s.after;
          runs = rw (t.runs, s.runs) (if-false _ _ _ e);
          session = s.session;
          read = s.read ∙ t.read;
        }
      ]
