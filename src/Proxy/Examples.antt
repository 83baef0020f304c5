-- ===== src/Proxy/Examples.antt =====
-- The theorems about the proxy at concrete inputs.
use multithread.Base.{ℕ, zero, suc, ◌≡◌, refl, true, false, some, List, [], ◌∷◌, arith}
use multithread.Proxy.Client.{reading, writing, start}
use multithread.Proxy.Relay.{Relay, handle_all}
use multithread.Proxy.Carried.{waits, sends}
use multithread.Proxy.Handlers.{Relays}
use multithread.Proxy.Delivery.{relay_delivers, started_relay, takes}
use multithread.Proxy.Accept.{
  ClientServer, Happening, accept, stops, happen, construct, stop_keeps, set_new_client,
  handle_accept, add_client, accepts,
}
use multithread.Base.Size.{add_size}
use multithread.Proxy.Accept
use multithread.Proxy.Config.{Source, read_config, print_config, read_config-print}
use multithread.Messages.Dictionary.{assign, lookup, emplace}

abbrev zeros : ℕ → List ℕ
zeros zero = []
zeros (suc n) = 0 ∷ zeros n

abbrev buffer : List ℕ
buffer = zeros 1024

abbrev linked : Relay
linked =
    let r = started_relay 0 buffer buffer in
    record r {
      client = record r.client {
        connecting = false;
        server_work = true;
        user = record r.client.user { doing = reading };
        server = record r.client.server { doing = reading };
      };
    }

-- Three bytes of the user wait in the buffer.
abbrev loaded : Relay
loaded = record {
  client = record linked.client {
    user = record {
      buffer = 7 ∷ 8 ∷ 9 ∷ zeros 1021;
      size_message = 3;
      cur_size = 0;
      doing = writing 0 3;
    };
  };
  from_user = 7 ∷ 8 ∷ 9 ∷ [];
  to_server = [];
  from_server = [];
  to_user = [];
}

loaded-Relays : Relays loaded
unfolding start
loaded-Relays = record {
  user_full = refl;
  server_full = refl;
  to_server = sends 0 3 refl refl refl (omega arith) (omega arith) refl;
  to_user = waits refl refl;
  before = λ i. absurd (cc);
  busy = λ i j. (λ k. cc, λ k. cc);
}

relay_delivers_example :
    (r' : Relay) × (handle_all (takes (1 ∷ 2 ∷ [])) loaded ≡ some r')
    × (r'.client.user.doing ≡ reading)
    × (r'.from_user ≡ 7 ∷ 8 ∷ 9 ∷ [])
    × (r'.to_server ≡ 7 ∷ 8 ∷ 9 ∷ [])
relay_delivers_example =
    relay_delivers (1 ∷ 2 ∷ []) loaded 0 3 loaded-Relays refl (omega arith, (omega arith, tt)) refl

-- The first client, of number 0, is stored under 1.
first_stored : lookup 1 (happen (accept false ∷ []) construct).clients ≡ some 0
unfolding happen handle_accept set_new_client add_client assign construct add_size lookup emplace
first_stored = refl

stop_keeps_example :
    lookup 1 (Accept.stop 0 (happen (accept false ∷ []) construct)).clients ≡ some 0
unfolding accepts
stop_keeps_example = stop_keeps (accept false ∷ []) 1 0 (omega arith) first_stored

-- "80,a:1,b:2" and "8,c:3"
abbrev sources : List Source
sources =
    record { src_port = 56 ∷ 48 ∷ []; dsts = (97 ∷ [], 49 ∷ []) ∷ (98 ∷ [], 50 ∷ []) ∷ [] }
    ∷ record { src_port = 56 ∷ []; dsts = (99 ∷ [], 51 ∷ []) ∷ [] }
    ∷ []

read_config-print_example : read_config (print_config sources) ≡ sources
read_config-print_example = read_config-print sources (ground arith)
