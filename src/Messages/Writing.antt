-- ===== src/Messages/Writing.antt =====
-- The loops of p2/server.cpp (`writeMessages`) and p2/client.cpp (`writeFds`) that hand the queue
-- to `send`. What the socket does is a list of answers, one for each call.
use multithread.Base.{
  ℕ, zero, suc, ◌/◌, ◌%◌, not, ◌||◌, if-true, if-false, ◌+◌, ◌≤◌, ◌<◌, length-append, ◌≡◌, refl,
  ◌∙◌, sym, ap, Bool, true, false, inl, inr, Option, some, List, [], ◌∷◌, ◌++◌, length, take, drop,
  ltb, ◌==◌, if◌then◌else◌, arith, append_assoc, take-append-drop, length-take, length-drop,
  Bool-cases,
}
use multithread.Messages.Message.{◌>>=◌}
use multithread.Messages.Send.{MessageForSend, getbitarray, erase}
use multithread.Messages.Queue.{Queues}
use multithread.Messages.Front.{getbitarray_total}
use multithread.Messages.Erase.{erase_lem}

-- `send` with room for `n + 1` bytes takes that many, or all if there are fewer; or it returns -1
-- with an error number, or 0, and then `errno` is some number.
pub data Answer : Type 0 where
  room : ℕ → Answer
  error : ℕ → Answer
  nothing : ℕ → Answer

-- How the loop ends. At `asks` a call of `send` has no answer yet; at `zero_sent` it returned 0.
pub data Ending : Type 0 where
  emptied : Ending
  blocked : Ending
  exits : Ending
  asks : Ending
  zero_sent : ℕ → Ending

-- `errno & EWOULDBLOCK`, which is 11 on Linux, in binary 1011.
unfoldable pub test_would_block : ℕ → Bool
test_would_block errno = not (errno % 4 == 0) || (errno / 8 % 2 == 1)

-- What `send` takes of a buffer, with room for `n + 1` bytes.
abbrev pub taken : ℕ → List ℕ → ℕ
taken n buf = if ltb n (length buf) then suc n else length buf

-- The loop on what `getbitarray` has put in `buf`, with the bytes that `send` takes in all.
unfoldable pub write_loop :
    List Answer → List ℕ → MessageForSend → Option (List ℕ × MessageForSend × Ending)
write_loop answers [] m = some ([], m, emptied)
write_loop [] (x ∷ buf) m = some ([], m, asks)
write_loop (error errno ∷ answers) (x ∷ buf) m =
    if test_would_block errno then some ([], m, blocked) else some ([], m, exits)
write_loop (nothing errno ∷ answers) (x ∷ buf) m = some ([], m, zero_sent errno)
write_loop (room n ∷ answers) (x ∷ buf) m = do
  m' ← erase (taken n (x ∷ buf)) m
  buf' ← getbitarray 1024 m'
  (sent, after, ending) ← write_loop answers buf' m'
  some (take (taken n (x ∷ buf)) (x ∷ buf) ++ sent, after, ending)

-- `need_write` behind the loop. The server takes a 0 of `send` as an error.
abbrev pub wants_write : Ending → Bool → Bool
wants_write emptied b = false
wants_write blocked b = true
wants_write exits b = b
wants_write asks b = b
wants_write (zero_sent errno) b = if test_would_block errno then true else b

-- The body of `writeMessages` for one client, without the calls of `epoll_ctl`.
unfoldable pub write_client :
    List Answer → MessageForSend → Option (List ℕ × MessageForSend × Ending)
write_client answers m = do
  buf ← getbitarray 1024 m
  (sent, after, ending) ← write_loop answers buf m
  some (sent, record after { need_write = wants_write ending after.need_write }, ending)

-- The bytes that have gone are the front of the queue, and the rest still waits.
pub record Wrote (m : MessageForSend) (q : List ℕ) (res : Option (List ℕ × MessageForSend × Ending))
    : Type 0 where
  pub sent : List ℕ
  pub after : MessageForSend
  pub ending : Ending
  pub rest : List ℕ
  pub runs : res ≡ some (sent, after, ending)
  pub splits : q ≡ sent ++ rest
  pub waits : Queues after rest
  pub place : after.beg_offset ≡ (m.beg_offset + length sent) % 1024
  pub all : ending ≡ emptied → rest ≡ []

take_nothing : (k : ℕ) (q : List ℕ) → 0 < k → [] ≡ take k q → q ≡ []
take_nothing k [] h e = refl
take_nothing k (x ∷ q) h e = absurd (omega (arith, ap length e, length-take k (x ∷ q)))

taken-le : (n : ℕ) (buf : List ℕ) → taken n buf ≤ length buf
taken-le n buf = ground arith

taken_within :
    (n k : ℕ) (buf q : List ℕ) → buf ≡ take k q → (taken n buf ≤ length q) × (taken n buf ≤ k)
taken_within n k buf q e = (
  omega (arith, taken-le n buf, ap length e, length-take k q),
  omega (arith, taken-le n buf, ap length e, length-take k q),
)

take-take : (k n : ℕ) (xs : List ℕ) → k ≤ n → take k (take n xs) ≡ take k xs
take-take zero n xs h = refl
take-take (suc k) zero xs h = absurd (omega arith)
take-take (suc k) (suc n) [] h = refl
take-take (suc k) (suc n) (x ∷ xs) h = ap (◌∷◌ x) (take-take k n xs (omega arith))

pub write_loop_lem :
    (answers : List Answer) (buf q : List ℕ) (m : MessageForSend)
    → Queues m q
    → buf ≡ take 1024 q
    → Wrote m q (write_loop answers buf m)
unfolding write_loop
write_loop_lem answers [] q m h e = record {
  sent = [];
  after = m;
  ending = emptied;
  rest = q;
  runs = refl;
  splits = refl;
  waits = h;
  place = omega (arith, h.early);
  all = λ i. take_nothing 1024 q (omega arith) e;
}
write_loop_lem [] (x ∷ buf) q m h e = record {
  sent = [];
  after = m;
  ending = asks;
  rest = q;
  runs = refl;
  splits = refl;
  waits = h;
  place = omega (arith, h.early);
  all = λ i. cc;
}
write_loop_lem (error errno ∷ answers) (x ∷ buf) q m h e =
    elim (Bool-cases (test_would_block errno)) [
      | inl t ↦ record {
        sent = [];
        after = m;
        ending = blocked;
        rest = q;
        runs = if-true _ _ _ t;
        splits = refl;
        waits = h;
        place = omega (arith, h.early);
        all = λ i. cc;
      }
      | inr t ↦ record {
        sent = [];
        after = m;
        ending = exits;
        rest = q;
        runs = if-false _ _ _ t;
        splits = refl;
        waits = h;
        place = omega (arith, h.early);
        all = λ i. cc;
      }
    ]
write_loop_lem (nothing errno ∷ answers) (x ∷ buf) q m h e = record {
  sent = [];
  after = m;
  ending = zero_sent errno;
  rest = q;
  runs = refl;
  splits = refl;
  waits = h;
  place = omega (arith, h.early);
  all = λ i. cc;
}
write_loop_lem (room n ∷ answers) (x ∷ buf) q m h e =
    let k = taken n (x ∷ buf) in
    let (within, short) = taken_within n 1024 (x ∷ buf) q e in
    let (m', erased, h', place) = erase_lem k q m h within short in
    let more = getbitarray_total 1024 (drop k q) m' h' (omega arith) in
    let w = write_loop_lem answers (take 1024 (drop k q)) (drop k q) m' h' refl in
    record {
      sent = take k (x ∷ buf) ++ w.sent;
      after = w.after;
      ending = w.ending;
      rest = w.rest;
      runs = rw (erased, more, w.runs) refl;
      splits =
          sym (take-append-drop k q)
          ∙ ap (λ l. l ++ drop k q) (sym (take-take k 1024 q short) ∙ ap (take k) (sym e))
          ∙ ap (◌++◌ (take k (x ∷ buf))) w.splits
          ∙ sym (append_assoc (take k (x ∷ buf)) w.sent w.rest);
      waits = w.waits;
      place = omega (
        arith,
        w.place,
        place,
        length-append (take k (x ∷ buf)) w.sent,
        length-take k (x ∷ buf),
        taken-le n (x ∷ buf),
      );
      all = w.all;
    }

-- A socket that takes at least one byte of each `send`.
abbrev pub rooms : List ℕ → List Answer
rooms [] = []
rooms (n ∷ ns) = room n ∷ rooms ns

-- Then the whole queue goes.
pub write_loop_drains :
    (ns buf q : List ℕ) (m : MessageForSend)
    → Queues m q
    → buf ≡ take 1024 q
    → length q ≤ length ns
    → (after : MessageForSend) × (write_loop (rooms ns) buf m ≡ some (q, after, emptied))
unfolding write_loop
write_loop_drains ns [] q m h e enough =
    (m, ap (λ l. some (l, m, emptied)) (sym (take_nothing 1024 q (omega arith) e)))
write_loop_drains [] (x ∷ buf) q m h e enough =
    absurd (omega (arith, ap length e, length-take 1024 q))
write_loop_drains (n ∷ ns) (x ∷ buf) q m h e enough =
    let k = taken n (x ∷ buf) in
    let (within, short) = taken_within n 1024 (x ∷ buf) q e in
    let (m', erased, h', place) = erase_lem k q m h within short in
    let more = getbitarray_total 1024 (drop k q) m' h' (omega arith) in
    let some_taken : 0 < k = ground arith in
    let (after, runs) =
      write_loop_drains ns (take 1024 (drop k q)) (drop k q) m' h' refl
        (omega (arith, length-drop k q, some_taken)) in
    (
      after,
      rw (erased, more, runs)
          (ap (λ l. some (l, after, emptied))
            (ap (λ l. l ++ drop k q) (ap (take k) e ∙ take-take k 1024 q short)
              ∙ take-append-drop k q)),
    )

with_need_write :
    (b : Bool) (m : MessageForSend) (q : List ℕ)
    → Queues m q
    → Queues (record m { need_write = b }) q
with_need_write b m q h = record {
  blocks = h.blocks;
  sent = h.sent;
  free = h.free;
  splits = h.splits;
  begins = h.begins;
  early = h.early;
  counted = h.counted;
  ends = h.ends;
  small = h.small;
}

-- If `q` waits to be sent, then, whatever the socket answers, the loop runs without undefined
-- behaviour; the bytes that `send` took and those that still wait are together `q`; and if it
-- ends because nothing is left in the queue, all of `q` has gone. `beg_offset` counts on.
pub write_client_total :
    (answers : List Answer) (q : List ℕ) (m : MessageForSend)
    → Queues m q
    → Wrote m q (write_client answers m)
unfolding write_client
write_client_total answers q m h =
    let w = write_loop_lem answers (take 1024 q) q m h refl in
    record {
      sent = w.sent;
      after = record w.after { need_write = wants_write w.ending (w.after).need_write };
      ending = w.ending;
      rest = w.rest;
      runs = rw (getbitarray_total 1024 q m h (omega arith), w.runs) refl;
      splits = w.splits;
      waits = with_need_write _ w.after w.rest w.waits;
      place = w.place;
      all = w.all;
    }
