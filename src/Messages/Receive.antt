-- ===== src/Messages/Receive.antt =====
-- `add_part_msg` of p2/message.cpp within the first four bytes of a message, and as a whole.
use multithread.Base.{
  ℕ, ◌+◌, ◌≤◌, ◌<◌, ◌≡◌, refl, ap, ◌∙◌, sym, true, false, List, [], ◌∷◌, ◌++◌, length, take, drop,
  arith, length-append, append_assoc, subst, length-take, le→ltb, lt→ltb, if-true, if-false,
}
use native.Mathlib.Decide.{dec_le}
use multithread.Base.Size.{add_size, add_size-eq-add, sub_size, sub_size-eq-sub}
use multithread.Messages.Bytes.{encode_all, encode, store32, load32, load32-store32, take-append}
use multithread.Messages.Message.{Message, copy_tmp, add_header, add_part_msg}
use multithread.Messages.Waits.{
  IsGood, Arrays, InHeader, InBody, Waits, header, body, After, waits, completes, cut, Written,
  write_within,
}
use multithread.Messages.Body.{Steps, add_body_lem}

pub After-weaken :
    (m : Message) (ms : List (List ℕ)) (stream : List ℕ) (b c : ℕ)
    → b ≤ c
    → After m ms stream b
    → After m ms stream c
After-weaken m ms stream b c le (waits w) = waits w
After-weaken m ms stream b c le (completes w) = completes (record {
  arrays = w.arrays;
  count = w.count;
  rest = w.rest;
  first = w.first;
  full = w.full;
  left = ground (arith, w.left);
})

-- The header is complete, and `bytes` of the message are in.
record Opened (ms : List (List ℕ)) (got stream : List ℕ) : Type 0 where
  message : List ℕ
  rest : List (List ℕ)
  bytes : List ℕ
  first : ms ≡ message ∷ rest
  splits : got ≡ store32 (length message) ++ bytes
  comes : bytes ++ stream ≡ message ++ encode_all rest

opened_lem :
    (ms : List (List ℕ)) (got stream : List ℕ)
    → got ++ stream ≡ encode_all ms
    → 4 < length got
    → Opened ms got stream
unfolding encode_all encode
opened_lem [] got stream e h = absurd (omega (arith, ap length e, length-append got stream))
opened_lem (message ∷ rest) got stream e h =
    let (w, p, q) =
      cut got stream (store32 (length message)) (message ++ encode_all rest)
        (e ∙ append_assoc (store32 (length message)) message (encode_all rest)) (omega arith) in
    record { message = message; rest = rest; bytes = w; first = refl; splits = p; comes = sym q }

module _ (m : Message) (ms : List (List ℕ)) (buf stream : List ℕ)
    (h : InHeader m ms (buf ++ stream)) (good : IsGood ms) (some_bytes : 0 < length buf)
    (short : length buf ≤ 1024) (w : Written m.cur_part m.cur_len buf) where
  abbrev got : List ℕ
  got = take m.cur_len m.cur_part ++ buf

  got_len : length got ≡ m.cur_len + length buf
  got_len = omega (
    arith,
    length-append (take m.cur_len m.cur_part) buf,
    length-take m.cur_len m.cur_part,
    h.arrays.part_size,
    h.few,
  )

  got_size : add_size m.cur_len (length buf) ≡ length got
  got_size = omega (arith, add_size-eq-add m.cur_len (length buf), got_len, h.few)

  got_splits : got ++ stream ≡ encode_all ms
  got_splits = append_assoc (take m.cur_len m.cur_part) buf stream ∙ h.splits

  still : length got ≤ 4 → Steps ms stream (length buf) (add_header buf m)
  unfolding add_header
  still le = record {
    after = record m { cur_part = w.result; cur_len = length got };
    runs = rw (w.runs, got_size, le→ltb 4 (length got) le) refl;
    state = waits (
        header (record {
          arrays = record { part_size = w.size ∙ h.arrays.part_size; add_size = h.arrays.add_size };
          no_count = h.no_count;
          no_rest = h.no_rest;
          few = le;
          splits =
              ap (λ l. take (length got) l ++ stream) w.holds
              ∙ ap (λ l. l ++ stream) (take-append got w.tail (length got) refl)
              ∙ got_splits;
        }));
  }

  abbrev opening : Message
  opening = record m {
    cur_part = w.result;
    len_msg = load32 w.result;
    have_count = true;
    cur_len = 0;
    cur_message = [];
  }

  opening-InBody : (o : Opened ms got stream) → InBody opening ms (o.bytes ++ stream)
  opening-InBody o = record {
    arrays = record { part_size = w.size ∙ h.arrays.part_size; add_size = h.arrays.add_size };
    count = refl;
    message = o.message;
    rest = o.rest;
    suffix = o.message;
    first = o.first;
    splits = refl;
    len_msg =
        ap load32 (w.holds ∙ ap (λ l. l ++ w.tail) o.splits)
        ∙ load32-store32 (length o.message) (o.bytes ++ w.tail) ((subst IsGood o.first good).0).2;
    cur_len = refl;
    more = ((subst IsGood o.first good).0).1;
    comes = o.comes;
  }

  opens : 4 < length got → Steps ms stream (length buf) (add_header buf m)
  unfolding add_header copy_tmp
  opens gt =
      let o = opened_lem ms got stream got_splits gt in
      let size : length o.bytes + 4 ≡ length got = omega (arith, ap length o.splits) in
      let body_bytes : take (sub_size (length got) 4) (drop 4 w.result) ≡ o.bytes =
        ap (λ l. take (sub_size (length got) 4) (drop 4 l))
          (w.holds ∙ ap (λ l. l ++ w.tail) o.splits)
        ∙ take-append o.bytes w.tail (sub_size (length got) 4)
            (omega (arith, sub_size-eq-sub (length got) 4 (omega (arith, got_len, h.few)), size)) in
      let s =
        add_body_lem opening ms o.bytes stream (opening-InBody o) good (omega (arith, size))
          (omega (arith, size, got_len, h.few)) in
      record {
        after = s.after;
        runs =
            rw
              (
                w.runs,
                got_size,
                lt→ltb 4 (length got) gt,
                body_bytes,
                le→ltb 1024 (length o.bytes) (omega (arith, size, got_len, h.few)),
                s.runs,
              )
              refl;
        state =
            After-weaken s.after ms stream (length o.bytes) (length buf)
              (omega (arith, size, got_len, h.few)) s.state;
      }

  add_header_lem : Steps ms stream (length buf) (add_header buf m)
  add_header_lem = elim (dec_le (length got) 4) [ yes le ↦ still le | no gt ↦ opens (omega arith) ]

-- A piece of the stream, given to a `Message` that waits for it.
pub add_part_msg_lem :
    (m : Message) (ms : List (List ℕ)) (buf stream : List ℕ)
    → IsGood ms
    → 0 < length buf
    → length buf ≤ 1024
    → Waits m ms (buf ++ stream)
    → Steps ms stream (length buf) (add_part_msg buf m)
unfolding add_part_msg
add_part_msg_lem m ms buf stream good more short (header h) =
    subst (Steps ms stream (length buf)) (sym (if-false m.have_count _ _ h.no_count)) (
      add_header_lem m ms buf stream h good more short
        (write_within m.cur_part m.cur_len buf (omega (arith, h.few, h.arrays.part_size))))
add_part_msg_lem m ms buf stream good more short (body b none_left) =
    subst (Steps ms stream (length buf)) (sym (if-true m.have_count _ _ b.count))
      (add_body_lem m ms buf stream b good more short)

-- A `Message` with no byte of the next message waits for it from its first byte on.
pub start-Waits :
    (m : Message) (ms : List (List ℕ)) (stream : List ℕ)
    → Arrays m
    → m.have_count ≡ false
    → m.have_part_next_msg ≡ false
    → m.cur_len ≡ 0
    → stream ≡ encode_all ms
    → Waits m ms stream
start-Waits m ms stream a no_count no_rest none_yet e = header (record {
  arrays = a;
  no_count = no_count;
  no_rest = no_rest;
  few = omega arith;
  splits = ap (λ n. take n m.cur_part ++ stream) none_yet ∙ e;
})
