-- ===== src/Proxy/Delivery.antt =====
-- The proxy (p3/proxy.cpp) loses, repeats and reorders nothing of what it carries.
use multithread.Base.{
  ℕ, ◌+◌, ◌-◌, ◌<◌, ◌≡◌, refl, ◌∙◌, sym, ap, true, false, some, List, [], ◌∷◌, ◌++◌, take, drop,
  append-nil, arith,
}
use multithread.Proxy.Client.{Doing, idle, reading, writing, Way, start}
use multithread.Proxy.Relay.{Relay, Event, server_takes, handle_all}
use multithread.Proxy.Carried.{Carries, rests, waits, sends}
use multithread.Proxy.Handlers.{idle-ne-reading, Relays, handles_server-Takes}

Carries-prefix :
    (w : Way) (from to : List ℕ)
    → Carries w from to
    → (rest : List ℕ) × (from ≡ to ++ rest) × (w.doing ≡ reading → rest ≡ [])
Carries-prefix w from to (rests lost d e) = (lost, e, λ i. absurd (idle-ne-reading _ d i))
Carries-prefix w from to (waits d e) = ([], e ∙ sym (append-nil to), λ i. refl)
Carries-prefix w from to (sends o l d c s p f e) = (take l (drop o w.buffer), e, λ i. cc)

-- The client before `start`, with what the buffers held.
abbrev pub new_relay : ℕ → List ℕ → List ℕ → Relay
new_relay number user_bytes server_bytes = record {
  client = record {
    ind_number = number;
    user_open = true;
    server_open = true;
    server_work = false;
    connecting = false;
    user = record { buffer = user_bytes; size_message = 0; cur_size = 0; doing = idle };
    server = record { buffer = server_bytes; size_message = 0; cur_size = 0; doing = idle };
    stops = [];
  };
  from_user = [];
  to_server = [];
  from_server = [];
  to_user = [];
}

abbrev pub started_relay : ℕ → List ℕ → List ℕ → Relay
started_relay number user_bytes server_bytes =
    let r = new_relay number user_bytes server_bytes in record r { client = start r.client }

-- Numbers of at least one, and their sum.
abbrev pub sum : List ℕ → ℕ
sum [] = 0
sum (k ∷ ks) = k + sum ks

abbrev pub ArePositive : List ℕ → Type 0
ArePositive [] = Unit
ArePositive (k ∷ ks) = (0 < k) × ArePositive ks

abbrev pub takes : List ℕ → List Event
takes [] = []
takes (k ∷ ks) = server_takes k ∷ takes ks

never_empty : (w : Way) (from to : List ℕ) (o : ℕ) → Carries w from to → w.doing ≡ writing o 0 → ⊥
never_empty w from to o (rests lost d e) h = cc
never_empty w from to o (waits d e) h = cc
never_empty w from to o (sends o' l d c s p f e) h = omega (arith, p, ap length_of (sym d ∙ h))
  where
    length_of : Doing → ℕ
    length_of (writing i k) = k
    length_of op = 0

-- While a send of `len` bytes to the server is under way, let the server take them in parts of at
-- least one byte, which sum up to `len`. Then every part is handled, and at the end all that came
-- from the user has been sent, and the proxy receives from the user again.
pub relay_delivers :
    (parts : List ℕ) (r : Relay) (offset len : ℕ)
    → Relays r
    → r.client.user.doing ≡ writing offset len
    → ArePositive parts
    → sum parts ≡ len
    → (r' : Relay) × (handle_all (takes parts) r ≡ some r')
      × (r'.client.user.doing ≡ reading)
      × (r'.from_user ≡ r.from_user)
      × (r'.to_server ≡ r.from_user)
unfolding handle_all
relay_delivers [] r o len h d positive e =
    absurd
      (never_empty r.client.user r.from_user r.to_server o h.to_server (d ∙ ap (writing o) (sym e)))
relay_delivers (n ∷ []) r o len h d positive e =
    let t = handles_server-Takes n r h (o, len, d, positive.0, omega arith) in
    let reads = t.whole (omega arith) in
    let (rest, splits, none_left) =
      Carries-prefix t.after.client.user t.after.from_user t.after.to_server t.relays.to_server in
    (
      t.after,
      rw t.runs refl,
      reads,
      t.same_bytes,
      sym (append-nil t.after.to_server)
          ∙ ap (◌++◌ t.after.to_server) (sym (none_left reads))
          ∙ sym splits
          ∙ t.same_bytes,
    )
relay_delivers (n ∷ m ∷ parts) r o len h d positive e =
    let t = handles_server-Takes n r h (o, len, d, positive.0, omega arith) in
    let (r', runs, reads, same_bytes, all_sent) =
      relay_delivers (m ∷ parts) t.after (o + n) (len - n) t.relays
        (t.part (omega (arith, positive.1))) positive.1 (omega arith) in
    (r', rw (t.runs, runs) refl, reads, same_bytes ∙ t.same_bytes, all_sent ∙ t.same_bytes)
