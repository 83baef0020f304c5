-- ===== src/Messages/Interleave.antt =====
-- Pieces from several sockets, in any order: each socket's messages come out whole and in order.
use multithread.Base.{
  ℕ, ◌≤◌, ◌<◌, ◌≡◌, refl, ◌∙◌, sym, ap, inl, inr, false, Option, some, List, [], ◌∷◌, ◌++◌, ◌==◌,
  if◌then◌else◌, arith, length, length-append, length-take, subst, ==-refl, ==→eq, ==→ne,
  Bool-cases, append_assoc, append-nil, map, take, if-true, if-false,
}
use multithread.Messages.Bytes.{encode_all, encode}
use multithread.Messages.Message.{Message, ◌>>=◌}
use multithread.Messages.Dictionary.{lookup, lookup-empty}
use multithread.Messages.Waits.{IsGood, Arrays, header, body}
use multithread.Messages.Receiver.{
  MessageReceiver, process, Expects, unknown, known, Processed, process_lem,
}

-- What `recv` returned, and on which socket.
abbrev pub Piece : Type 0
Piece = ℕ × List ℕ

-- `process` for one piece after another; each message with the socket that it came by.
pub process_all :
    Message → List Piece → MessageReceiver → Option (List (ℕ × List ℕ) × MessageReceiver)
process_all raw [] r = some ([], r)
process_all raw ((k, buf) ∷ pieces) r = do
  (msgs, r') ← process raw k buf r
  (later, r'') ← process_all raw pieces r'
  some (map (λ m. (k, m)) msgs ++ later, r'')

-- The bytes that came by socket `k`, and the messages.
abbrev pub bytes_by : ℕ → List Piece → List ℕ
bytes_by k [] = []
bytes_by k ((j, buf) ∷ pieces) = if j == k then buf ++ bytes_by k pieces else bytes_by k pieces

abbrev pub messages_by : ℕ → List (ℕ × List ℕ) → List (List ℕ)
messages_by k [] = []
messages_by k ((j, m) ∷ out) = if j == k then m ∷ messages_by k out else messages_by k out

-- Pieces of one byte at least, and of the size of the buffer at most.
abbrev pub ArePieces : List Piece → Type 0
ArePieces [] = Unit
ArePieces ((j, buf) ∷ pieces) = ((0 < length buf) × (length buf ≤ 1024)) × ArePieces pieces

messages_by-append :
    (k : ℕ) (xs ys : List (ℕ × List ℕ))
    → messages_by k (xs ++ ys) ≡ messages_by k xs ++ messages_by k ys
messages_by-append k [] ys = refl
messages_by-append k ((j, m) ∷ xs) ys = ground (arith, messages_by-append k xs ys)

messages_by-same : (k : ℕ) (ms : List (List ℕ)) → messages_by k (map (λ m. (k, m)) ms) ≡ ms
messages_by-same k [] = refl
messages_by-same k (m ∷ ms) = ground (arith, messages_by-same k ms)

messages_by-other :
    (j k : ℕ) (ms : List (List ℕ)) → (j == k) ≡ false → messages_by k (map (λ m. (j, m)) ms) ≡ []
messages_by-other j k [] h = refl
messages_by-other j k (m ∷ ms) h = ground (arith, messages_by-other j k ms h)

Expects-frame :
    (r r' : MessageReceiver) (k : ℕ) (ms : List (List ℕ)) (stream : List ℕ)
    → lookup k r' ≡ lookup k r
    → Expects r k ms stream
    → Expects r' k ms stream
Expects-frame r r' k ms stream e (unknown a s) = unknown (e ∙ a) s
Expects-frame r r' k ms stream e (known m a w) = known m (e ∙ a) w

pub IsGood-suffix : (xs ys : List (List ℕ)) → IsGood (xs ++ ys) → IsGood ys
IsGood-suffix [] ys g = g
IsGood-suffix (x ∷ xs) ys g = IsGood-suffix xs ys g.1

-- Each socket has handed out a first part of its messages, and waits for the rest.
pub record Delivered (ms : ℕ → List (List ℕ)) (stream : ℕ → List ℕ)
    (res : Option (List (ℕ × List ℕ) × MessageReceiver)) : Type 0 where
  pub out : List (ℕ × List ℕ)
  pub after : MessageReceiver
  pub rest : ℕ → List (List ℕ)
  pub runs : res ≡ some (out, after)
  pub splits : (k : ℕ) → ms k ≡ messages_by k out ++ rest k
  pub state : (k : ℕ) → Expects after k (rest k) (stream k)

-- The step from one piece to the next, on every socket.
module _ (raw : Message) (j : ℕ) (buf : List ℕ) (pieces : List Piece) (ms : ℕ → List (List ℕ))
    (stream : ℕ → List ℕ) (r : MessageReceiver) (good : (k : ℕ) → IsGood (ms k))
    (w : (k : ℕ) → Expects r k (ms k) (bytes_by k ((j, buf) ∷ pieces) ++ stream k)) where
  here : Expects r j (ms j) (buf ++ (bytes_by j pieces ++ stream j))
  here =
      subst (Expects r j (ms j))
        (ap (λ l. l ++ stream j) (if-true (j == j) _ _ (==-refl j))
          ∙ append_assoc buf (bytes_by j pieces) (stream j))
        (w j)

  module _ (p : Processed j (ms j) (bytes_by j pieces ++ stream j) r (process raw j buf r)) where
    abbrev left : ℕ → List (List ℕ)
    left k = if j == k then p.rest else ms k

    left-IsGood : (k : ℕ) → IsGood (left k)
    left-IsGood k = elim (Bool-cases (j == k)) [
      | inl e ↦ rw e (IsGood-suffix p.out p.rest (subst IsGood p.splits (good j)))
      | inr e ↦ rw e (good k)
    ]

    left-Expects : (k : ℕ) → Expects p.after k (left k) (bytes_by k pieces ++ stream k)
    left-Expects k = elim (Bool-cases (j == k)) [
      | inl e ↦ rw e (
          subst (λ i. Expects p.after i p.rest (bytes_by i pieces ++ stream i)) (==→eq j k e)
            p.state)
      | inr e ↦ rw e (
          Expects-frame r p.after k (ms k) (bytes_by k pieces ++ stream k)
            (p.others k (λ x. ==→ne j k e (sym x)))
            (subst (Expects r k (ms k)) (ap (λ l. l ++ stream k) (if-false (j == k) _ _ e)) (w k)))
    ]

    left-splits :
        (k : ℕ) (out : List (ℕ × List ℕ)) (rest : List (List ℕ))
        → left k ≡ messages_by k out ++ rest
        → ms k ≡ messages_by k (map (λ m. (j, m)) p.out ++ out) ++ rest
    left-splits k out rest h = elim (Bool-cases (j == k)) [
      | inl e ↦
          ap ms (sym (==→eq j k e))
          ∙ p.splits
          ∙ ap (◌++◌ p.out) (sym (if-true (j == k) _ _ e) ∙ h)
          ∙ sym (append_assoc p.out (messages_by k out) rest)
          ∙ ap (λ l. (l ++ messages_by k out) ++ rest)
              (sym (messages_by-same k p.out)
                ∙ ap (λ i. messages_by k (map (λ m. (i, m)) p.out)) (sym (==→eq j k e)))
          ∙ ap (λ l. l ++ rest) (sym (messages_by-append k (map (λ m. (j, m)) p.out) out))
      | inr e ↦
          sym (if-false (j == k) _ _ e)
          ∙ h
          ∙ ap (λ l. (l ++ messages_by k out) ++ rest) (sym (messages_by-other j k p.out e))
          ∙ ap (λ l. l ++ rest) (sym (messages_by-append k (map (λ m. (j, m)) p.out) out))
    ]

module _ (raw : Message) (arrays : Arrays raw) where
  pub process_all_lem :
      (pieces : List Piece) (ms : ℕ → List (List ℕ)) (stream : ℕ → List ℕ) (r : MessageReceiver)
      → ArePieces pieces
      → ((k : ℕ) → IsGood (ms k))
      → ((k : ℕ) → Expects r k (ms k) (bytes_by k pieces ++ stream k))
      → Delivered ms stream (process_all raw pieces r)
  unfolding process_all
  process_all_lem [] ms stream r sizes good w = record {
    out = [];
    after = r;
    rest = ms;
    runs = refl;
    splits = λ k. refl;
    state = w;
  }
  process_all_lem ((j, buf) ∷ pieces) ms stream r sizes good w =
      let p =
        process_lem raw arrays j buf (bytes_by j pieces ++ stream j) (ms j) (good j) (sizes.0).0
          (sizes.0).1 r (here raw j buf pieces ms stream r good w) in
      let d =
        process_all_lem pieces (left raw j buf pieces ms stream r good w p) stream p.after sizes.1
          (left-IsGood raw j buf pieces ms stream r good w p)
          (left-Expects raw j buf pieces ms stream r good w p) in
      record {
        out = map (λ m. (j, m)) p.out ++ d.out;
        after = d.after;
        rest = d.rest;
        runs = rw (p.runs, d.runs) refl;
        splits =
            λ k. left-splits raw j buf pieces ms stream r good w p k d.out (d.rest k) (d.splits k);
        state = d.state;
      }

-- Nothing is left to hand out when the stream has ended.
pub nothing_left :
    (r : MessageReceiver) (k : ℕ) (ms : List (List ℕ)) → IsGood ms → Expects r k ms [] → ms ≡ []
unfolding encode_all encode
nothing_left r k [] g w = refl
nothing_left r k (m ∷ ms) g (unknown a e) = absurd (omega (arith, ap length e))
nothing_left r k (m ∷ ms) g (known old a (header h)) = absurd (
    omega (
      arith,
      h.few,
      length-append (take old.cur_len old.cur_part) [],
      length-take old.cur_len old.cur_part,
      ap length h.splits,
      length-append m (encode_all ms),
      (g.0).1,
    ))
nothing_left r k (m ∷ ms) g (known old a (body b none_left)) =
    absurd (omega (arith, b.more, ap length b.comes, length-append b.suffix (encode_all b.rest)))

-- The receiver starts with no socket known. If on each socket the pieces, of 1 to 1024 bytes
-- each, make up the encoding of good messages, then the loop of `process` calls never writes past
-- an array, and the messages of each socket come out whole and in order, however the streams were
-- cut and mixed.
pub process_all_total :
    (raw : Message) (pieces : List Piece) (ms : ℕ → List (List ℕ))
    → Arrays raw
    → ArePieces pieces
    → ((k : ℕ) → IsGood (ms k))
    → ((k : ℕ) → bytes_by k pieces ≡ encode_all (ms k))
    → (out : List (ℕ × List ℕ)) × (after : MessageReceiver) × (process_all raw pieces []
        ≡ some (out, after))
      × ((k : ℕ) → messages_by k out ≡ ms k)
process_all_total raw pieces ms arrays sizes good e =
    let d =
      process_all_lem raw arrays pieces ms (λ k. []) [] sizes good
        (λ k. unknown (lookup-empty k) (append-nil (bytes_by k pieces) ∙ e k)) in
    (
      d.out,
      d.after,
      d.runs,
      λ k.
          sym (append-nil (messages_by k d.out))
          ∙ ap (◌++◌ (messages_by k d.out)) (
              sym (
                nothing_left d.after k (d.rest k)
                  (IsGood-suffix (messages_by k d.out) (d.rest k)
                    (subst IsGood (d.splits k) (good k)))
                  (d.state k)))
          ∙ sym (d.splits k),
    )
