-- ===== src/Chat/Session.antt =====
-- What a client of p2/client.cpp has read, printed and sent, between two calls.
use multithread.Base.{
  ℕ, ◌+◌, ◌%◌, ◌≤◌, ◌<◌, ◌≡◌, refl, ◌∙◌, sym, ap, true, Option, none, some, List, [], ◌∷◌, ◌++◌,
  length, append_assoc, append-nil,
}
use multithread.Base.Size.{IsSize}
use multithread.Messages.Bytes.{encode, encode_all}
use multithread.Messages.Receiver.{Expects}
use multithread.Messages.Waits.{IsGood}
use multithread.Messages.Send.{block_size}
use multithread.Messages.Queue.{Queues}
use multithread.Chat.Client.{Got, bytes, running, ChatClient, Ready}

-- The words that are typed, and the bytes that arrive.
abbrev pub words : Option (List ℕ) → List (List ℕ)
words none = []
words (some msg) = msg ∷ []

abbrev pub arrived : Option Got → List ℕ
arrived (some (bytes buf)) = buf
arrived _ = []

abbrev pub all_typed : List Ready → List (List ℕ)
all_typed [] = []
all_typed (ready ∷ inputs) = words ready.typed ++ all_typed inputs

abbrev pub all_arrived : List Ready → List ℕ
all_arrived [] = []
all_arrived (ready ∷ inputs) = arrived ready.heard ++ all_arrived inputs

-- With `total` bytes typed so far, the next message does not end exactly at the end of a block.
abbrev pub Apart : ℕ → Option (List ℕ) → Type 0
Apart total none = Unit
Apart total (some msg) =
    IsSize (total + length (encode msg)) × (0 < (total + length (encode msg)) % block_size)

-- `recv` fills at most the buffer of `readServer`.
abbrev pub Fits : Option Got → Type 0
Fits (some (bytes buf)) = (0 < length buf) × (length buf ≤ 1024)
Fits _ = Unit

abbrev pub Allowed : ℕ → List Ready → Type 0
Allowed total [] = Unit
Allowed total (ready ∷ inputs) =
    Apart total ready.typed
    × Fits ready.heard
    × Allowed (total + length (encode_all (words ready.typed))) inputs

-- The client between two calls: `waiting` is still to be sent, and `stream` is to come.
pub record Session (socket_fd : ℕ) (c : ChatClient) (ms : List (List ℕ)) (stream : List ℕ)
    : Type 0 where
  pub waiting : List ℕ
  pub queues : Queues c.for_send waiting
  pub place : c.for_send.beg_offset ≡ length c.sent % 1024
  pub wants : 0 < length waiting → c.needwrite ≡ true
  pub in_order : encode_all c.typed ≡ c.sent ++ waiting
  pub left : List (List ℕ)
  pub splits : ms ≡ c.printed ++ left
  pub good : IsGood left
  pub expects : Expects c.receiver socket_fd left stream

-- One step of the client, with the words that it reads.
pub record Step (socket_fd : ℕ) (ms : List (List ℕ)) (stream : List ℕ) (expected : List (List ℕ))
    (res : Option ChatClient) : Type 0 where
  pub after : ChatClient
  pub runs : res ≡ some after
  pub session : Session socket_fd after ms stream
  pub read : after.typed ≡ expected

-- The rounds. While it runs, the client has read all that was typed and all that arrived.
pub record Talks (socket_fd : ℕ) (ms : List (List ℕ)) (stream : List ℕ) (expected : List (List ℕ))
    (res : Option ChatClient) : Type 0 where
  pub after : ChatClient
  pub runs : res ≡ some after
  pub to_come : List ℕ
  pub session : Session socket_fd after ms to_come
  pub reads : after.status ≡ running → (after.typed ≡ expected) × (to_come ≡ stream)

pub encode_all-append :
    (xs ys : List (List ℕ)) → encode_all (xs ++ ys) ≡ encode_all xs ++ encode_all ys
unfolding encode_all
encode_all-append [] ys = refl
encode_all-append (x ∷ xs) ys =
    ap (◌++◌ (encode x)) (encode_all-append xs ys)
    ∙ sym (append_assoc (encode x) (encode_all xs) (encode_all ys))

pub encode_all-one : (msg : List ℕ) → encode_all (msg ∷ []) ≡ encode msg
unfolding encode_all
encode_all-one msg = append-nil (encode msg)
