-- ===== src/Proxy/Accept.antt =====
-- `ClientServer` and `handle_accept` of p3/proxy.h and p3/proxy.cpp: the clients of one port. The
-- server that the distribution chooses for a client is a parameter; it is not looked at here.
use multithread.Base.{
  ℕ, suc, ◌+◌, ◌≡◌, refl, ◌∙◌, Bool, true, false, Option, none, some, List, [], ◌∷◌, arith, ne→==,
}
use multithread.Base.Size.{add_size, add_size-eq-add, IsSize}
use multithread.Messages.Dictionary.{
  lookup, emplace, put, assign, erase, lookup-erase_ne, Entries, Entries-emplace, Entries-put,
  Entries-erase, Entries-lookup,
}

-- A client stands for itself by its number.
pub record ClientServer : Type 0 where
  pub cur_client : ℕ
  pub clients : List (ℕ × ℕ)
  pub ind_number : ℕ

-- `set_new_client()`
unfoldable pub set_new_client : ClientServer → ClientServer
set_new_client s = record s { cur_client = s.ind_number; ind_number = add_size s.ind_number 1 }

-- `add_client()`
unfoldable pub add_client : ClientServer → ClientServer
add_client s = record s { clients = assign s.ind_number s.cur_client s.clients }

-- `stop(number)`
unfoldable pub stop : ℕ → ClientServer → ClientServer
stop number s = record s { clients = erase number s.clients }

-- `handle_accept(clientserver, error)`, without the calls of `start` and `async_accept`.
unfoldable pub handle_accept : Bool → ClientServer → ClientServer
handle_accept true s = set_new_client s
handle_accept false s = set_new_client (add_client s)

-- The constructor.
unfoldable pub construct : ClientServer
unfolding set_new_client
construct = set_new_client (record { cur_client = 0; clients = []; ind_number = 0 })

-- What happens to a port: connections come, with or without an error, and clients stop.
pub data Happening : Type 0 where
  accept : Bool → Happening
  stops : ℕ → Happening

unfoldable pub happen : List Happening → ClientServer → ClientServer
happen [] s = s
happen (accept error ∷ hs) s = happen hs (handle_accept error s)
happen (stops number ∷ hs) s = happen hs (stop number s)

-- Each client stands under the number behind its own, and the next client is the newest.
record IsOff (s : ClientServer) : Type 0 where
  entries : Entries (λ k c. k ≡ c + 1) s.clients
  newest : s.ind_number ≡ s.cur_client + 1

unfoldable pub accepts : List Happening → ℕ
accepts [] = 0
accepts (accept error ∷ hs) = suc (accepts hs)
accepts (stops number ∷ hs) = accepts hs

Entries-assign :
    (k c : ℕ) (m : List (ℕ × ℕ))
    → k ≡ c + 1
    → Entries (λ k c. k ≡ c + 1) m
    → Entries (λ k c. k ≡ c + 1) (assign k c m)
unfolding assign
Entries-assign k c m p h = go (lookup k m)
  where
    go :
        (o : Option ℕ)
        → Entries (λ k c. k ≡ c + 1) (elim o [ none ↦ emplace k c m | some old ↦ put k c m ])
    go none = Entries-emplace (λ k c. k ≡ c + 1) k c m p h
    go (some old) = Entries-put (λ k c. k ≡ c + 1) k c m p h

handle_accept-IsOff :
    (error : Bool) (s : ClientServer)
    → IsSize (s.ind_number + 1)
    → IsOff s
    → IsOff (handle_accept error s) × ((handle_accept error s).ind_number ≡ s.ind_number + 1)
unfolding handle_accept set_new_client add_client
handle_accept-IsOff true s small h =
    let e = add_size-eq-add s.ind_number 1 small in (record { entries = h.entries; newest = e }, e)
handle_accept-IsOff false s small h =
    let e = add_size-eq-add s.ind_number 1 small in
    (
      record {
        entries = Entries-assign s.ind_number s.cur_client s.clients h.newest h.entries;
        newest = e;
      },
      e,
    )

happen-IsOff :
    (hs : List Happening) (s : ClientServer)
    → IsSize (s.ind_number + accepts hs)
    → IsOff s
    → IsOff (happen hs s)
unfolding happen accepts stop
happen-IsOff [] s small h = h
happen-IsOff (accept error ∷ hs) s small h =
    let (h', e) = handle_accept-IsOff error s (omega arith) h in
    happen-IsOff hs (handle_accept error s) (omega (arith, e)) h'
happen-IsOff (stops number ∷ hs) s small h = happen-IsOff hs (stop number s) small (record {
  entries = Entries-erase (λ k c. k ≡ c + 1) number s.clients h.entries;
  newest = h.newest;
})

-- Let connections come to a port, and its clients stop, in any order, with fewer than 2^64 - 1
-- connections. Then a client that is in the map stays there when it stops: `add_client` stores it
-- under a number that is not its own, and `stop` erases by its own.
pub stop_keeps :
    (hs : List Happening) (k c : ℕ)
    → IsSize (1 + accepts hs)
    → lookup k (happen hs construct).clients ≡ some c
    → lookup k (stop c (happen hs construct)).clients ≡ some c
unfolding stop construct set_new_client add_size
stop_keeps hs k c small e =
    let h = happen-IsOff hs construct small (record { entries = tt; newest = refl }) in
    let off = Entries-lookup (λ k c. k ≡ c + 1) k c (happen hs construct).clients h.entries e in
    lookup-erase_ne c k (happen hs construct).clients (ne→== c k (λ i. omega (arith, i, off))) ∙ e
