-- ===== src/Proxy/Handlers.antt =====
-- Each handler of p3/proxy.cpp leaves both directions in order.
use multithread.Base.{
  ℕ, ◌+◌, ◌-◌, ◌<◌, ◌≡◌, ◌≢◌, refl, ◌∙◌, sym, ap, true, false, Option, some, List, [], ◌++◌, take,
  drop, length, append-nil, arith, ne→==,
}
use multithread.Proxy.Client.{
  Doing, idle, reading, writing, Way, Client, begin, stop, connect, user_read, user_write,
  server_read, server_write,
}
use multithread.Proxy.Relay.{
  buf_size, Relay, Event, connected, refused, user_sends, user_read_fails, server_takes,
  user_write_fails, server_sends, server_read_fails, user_takes, server_write_fails, ended,
  with_user, with_server, server_took, user_took, handle, Receives, Takes, IsPossible,
}
use multithread.Proxy.Carried.{Carries, rests, waits, sends, filled, received, took}

-- Once the server is connected, and as long as the client is not stopped, an operation is under way
-- in each direction.
abbrev pub Busy : Client → Type 0
Busy c = c.server_work ≡ true → c.user_open ≡ true → (c.user.doing ≢ idle) × (c.server.doing ≢ idle)

-- What holds between two events.
pub record Relays (r : Relay) : Type 0 where
  pub user_full : length r.client.user.buffer ≡ buf_size
  pub server_full : length r.client.server.buffer ≡ buf_size
  pub to_server : Carries r.client.user r.from_user r.to_server
  pub to_user : Carries r.client.server r.from_server r.to_user
  pub before :
      r.client.connecting ≡ true
      → (r.client.user.doing ≡ idle)
        × (r.client.server.doing ≡ idle)
        × (r.from_user ≡ r.to_server)
        × (r.from_server ≡ r.to_user)
  pub busy : Busy r.client

abbrev pub Handled : Relay → Option Relay → Type 0
Handled r res = (r' : Relay) × (res ≡ some r') × Relays r'

pub idle-ne-reading : (d : Doing) → d ≡ idle → d ≡ reading → ⊥
idle-ne-reading d a b = cc

pub idle-ne-writing : (d : Doing) (o l : ℕ) → d ≡ idle → d ≡ writing o l → ⊥
idle-ne-writing d o l a b = cc

false-ne-true : false ≡ true → ⊥
false-ne-true e = cc

given_up : (w : Way) (from to : List ℕ) → Carries w from to → Carries (ended w) from to
given_up w from to (rests lost d e) = rests lost refl e
given_up w from to (waits d e) = rests [] refl (e ∙ sym (append-nil to))
given_up w from to (sends o l d c s p f e) = rests (take l (drop o w.buffer)) refl e

handles_user_fails :
    (r : Relay)
    → Relays r
    → Handled r (some (record r { client = stop (with_user (ended r.client.user) r.client) }))
unfolding stop
handles_user_fails r h = (
  record r { client = stop (with_user (ended r.client.user) r.client) },
  refl,
  record {
    user_full = h.user_full;
    server_full = h.server_full;
    to_server = given_up r.client.user r.from_user r.to_server h.to_server;
    to_user = h.to_user;
    before = λ i. (refl, (h.before i).1, (h.before i).2, (h.before i).3);
    busy = λ i closed. absurd (false-ne-true closed);
  },
)

handles_server_fails :
    (r : Relay)
    → Relays r
    → Handled r (some (record r { client = stop (with_server (ended r.client.server) r.client) }))
unfolding stop
handles_server_fails r h = (
  record r { client = stop (with_server (ended r.client.server) r.client) },
  refl,
  record {
    user_full = h.user_full;
    server_full = h.server_full;
    to_server = h.to_server;
    to_user = given_up r.client.server r.from_server r.to_user h.to_user;
    before = λ i. ((h.before i).0, refl, (h.before i).2, (h.before i).3);
    busy = λ i closed. absurd (false-ne-true closed);
  },
)

begin-idle : (op : Doing) (w : Way) → w.doing ≡ idle → begin op w ≡ some (record w { doing = op })
unfolding begin
begin-idle op w e = rw (begin, e) refl

handles_connected :
    (r : Relay) → Relays r → r.client.connecting ≡ true → Handled r (handle connected r)
unfolding handle connect
handles_connected r h i =
    let (u, s, eu, es) = h.before i in
    (
      record r {
        client = record r.client {
          connecting = false;
          server_work = true;
          user = record r.client.user { cur_size = 0; doing = reading };
          server = record r.client.server { cur_size = 0; doing = reading };
        };
      },
      rw
          (
            begin-idle reading (record r.client.user { cur_size = 0 }) u,
            begin-idle reading (record r.client.server { cur_size = 0 }) s,
          )
          refl,
      record {
        user_full = h.user_full;
        server_full = h.server_full;
        to_server = waits refl eu;
        to_user = waits refl es;
        before = λ j. absurd (cc);
        busy = λ i j. (λ k. cc, λ k. cc);
      },
    )

handles_refused : (r : Relay) → Relays r → Handled r (handle refused r)
unfolding handle connect
handles_refused r h = (
  record r {
    client = record r.client { connecting = false; user_open = false; server_open = false };
  },
  refl,
  record {
    user_full = h.user_full;
    server_full = h.server_full;
    to_server = h.to_server;
    to_user = h.to_user;
    before = λ j. absurd (cc);
    busy = λ i closed. absurd (false-ne-true closed);
  },
)

handles_user_sends :
    (bytes : List ℕ) (r : Relay)
    → Relays r
    → Receives bytes r.client.user
    → Handled r (handle (user_sends bytes) r)
unfolding handle user_read begin
handles_user_sends bytes r h p =
    let rc = received r.client.user r.from_user r.to_server bytes h.to_server h.user_full p in
    (
      record r {
        client = with_user (filled r.client.user rc.buffer bytes) r.client;
        from_user = r.from_user ++ bytes;
      },
      rw (rc.runs, ne→== (length bytes) 0 (λ e. omega (arith, e, p.1))) refl,
      record {
        user_full = rc.size;
        server_full = h.server_full;
        to_server = rc.carries;
        to_user = h.to_user;
        before = λ i. absurd (idle-ne-reading _ (h.before i).0 p.0);
        busy = λ i j. (λ k. cc, (h.busy i j).1);
      },
    )

handles_server_sends :
    (bytes : List ℕ) (r : Relay)
    → Relays r
    → Receives bytes r.client.server
    → Handled r (handle (server_sends bytes) r)
unfolding handle server_read begin
handles_server_sends bytes r h p =
    let rc = received r.client.server r.from_server r.to_user bytes h.to_user h.server_full p in
    (
      record r {
        client = with_server (filled r.client.server rc.buffer bytes) r.client;
        from_server = r.from_server ++ bytes;
      },
      rw (rc.runs, ne→== (length bytes) 0 (λ e. omega (arith, e, p.1))) refl,
      record {
        user_full = h.user_full;
        server_full = rc.size;
        to_server = h.to_server;
        to_user = rc.carries;
        before = λ i. absurd (idle-ne-reading _ (h.before i).1 p.0);
        busy = λ i j. ((h.busy i j).0, λ k. cc);
      },
    )

-- The server takes a part of a send.
pub record Sent (n offset len : ℕ) (r : Relay) : Type 0 where
  pub after : Relay
  pub runs : handle (server_takes n) r ≡ some after
  pub relays : Relays after
  pub same_bytes : after.from_user ≡ r.from_user
  pub whole : n ≡ len → after.client.user.doing ≡ reading
  pub part : n < len → after.client.user.doing ≡ writing (offset + n) (len - n)

pub handles_server-Takes :
    (n : ℕ) (r : Relay) → Relays r → (t : Takes n r.client.user) → Sent n t.0 t.1 r
unfolding handle server_took user_write
handles_server-Takes n r h t =
    let tk = took r.client.user r.from_user r.to_server n h.to_server h.user_full t in
    record {
      after = record r {
        client = with_user tk.after r.client;
        to_server = r.to_server ++ take n (drop t.0 r.client.user.buffer);
      };
      runs = ap (λ d. server_took d n r) t.2 ∙ rw tk.runs refl;
      relays = record {
        user_full = tk.size;
        server_full = h.server_full;
        to_server = tk.carries;
        to_user = h.to_user;
        before = λ i. absurd (idle-ne-writing _ t.0 t.1 (h.before i).0 t.2);
        busy = λ i j. (tk.goes_on, (h.busy i j).1);
      };
      same_bytes = refl;
      whole = tk.whole;
      part = tk.part;
    }

handles_user_takes :
    (n : ℕ) (r : Relay) → Relays r → Takes n r.client.server → Handled r (handle (user_takes n) r)
unfolding handle user_took server_write
handles_user_takes n r h t =
    let tk = took r.client.server r.from_server r.to_user n h.to_user h.server_full t in
    (
      record r {
        client = with_server tk.after r.client;
        to_user = r.to_user ++ take n (drop t.0 r.client.server.buffer);
      },
      ap (λ d. user_took d n r) t.2 ∙ rw tk.runs refl,
      record {
        user_full = h.user_full;
        server_full = tk.size;
        to_server = h.to_server;
        to_user = tk.carries;
        before = λ i. absurd (idle-ne-writing _ t.0 t.1 (h.before i).1 t.2);
        busy = λ i j. ((h.busy i j).0, tk.goes_on);
      },
    )

-- A possible event is handled.
pub handle-Relays :
    (e : Event) (r : Relay) → Relays r → IsPossible e r.client → Handled r (handle e r)
unfolding handle user_read user_write server_read server_write
handle-Relays connected r h p = handles_connected r h p
handle-Relays refused r h p = handles_refused r h
handle-Relays (user_sends bytes) r h p = handles_user_sends bytes r h p
handle-Relays user_read_fails r h p = handles_user_fails r h
handle-Relays (server_takes n) r h p =
    let t = handles_server-Takes n r h p in (t.after, t.runs, t.relays)
handle-Relays user_write_fails r h p = handles_user_fails r h
handle-Relays (server_sends bytes) r h p = handles_server_sends bytes r h p
handle-Relays server_read_fails r h p = handles_server_fails r h
handle-Relays (user_takes n) r h p = handles_user_takes n r h p
handle-Relays server_write_fails r h p = handles_server_fails r h
