-- ===== src/Messages/Body.antt =====
-- `add_part_msg` of p2/message.cpp within a message: a piece of the stream takes a `Message` from
-- one state that waits for the rest to the next.
use multithread.Base.{
  ℕ, ◌+◌, ◌≤◌, ◌<◌, ◌≡◌, refl, ap, ◌∙◌, sym, true, false, inl, inr, Option, some, List, [], ◌∷◌,
  ◌++◌, length, take, drop, arith, length-append, append_assoc, append-nil, subst, le→leb, lt→leb,
}
use native.Mathlib.Decide.{dec_le}
use multithread.Base.Size.{add_size, add_size-eq-add, sub_size, sub_size-eq-sub}
use multithread.Messages.Bytes.{encode_all, IsText, take-append, drop-append}
use multithread.Messages.Message.{Message, add_body}
use multithread.Messages.Waits.{
  IsGood, InBody, Waits, body, Completes, After, waits, completes, cut, Written, write_within,
  array_size,
}
use multithread.Messages.Text.{IsText-prefix, IsText-suffix, add_to_cur_msg_lem}

-- What a call on one piece of the stream leaves.
pub record Steps (ms : List (List ℕ)) (stream : List ℕ) (bound : ℕ) (r : Option Message)
    : Type 0 where
  pub after : Message
  pub runs : r ≡ some after
  pub state : After after ms stream bound

module _ (m : Message) (ms : List (List ℕ)) (buf stream : List ℕ) (b : InBody m ms (buf ++ stream))
    (good : IsGood ms) (some_bytes : 0 < length buf) (short : length buf ≤ 1024) where
  pub IsGood-here : IsGood (b.message ∷ b.rest)
  IsGood-here = subst IsGood b.first good

  lengths : length m.cur_message + length b.suffix ≡ length b.message
  lengths = omega (arith, length-append m.cur_message b.suffix, ap length b.splits)

  suffix-IsText : IsText b.suffix
  suffix-IsText =
      IsText-suffix m.cur_message b.suffix (subst IsText (sym b.splits) (IsGood-here.0).0)

  new_len : add_size m.cur_len (length buf) ≡ m.cur_len + length buf
  new_len =
      add_size-eq-add m.cur_len (length buf) (omega (arith, lengths, b.cur_len, (IsGood-here.0).2))

  delta : sub_size m.len_msg m.cur_len ≡ length b.suffix
  delta = omega (
    arith,
    sub_size-eq-sub m.len_msg m.cur_len (omega (arith, b.len_msg, (IsGood-here.0).2)),
    lengths,
    b.cur_len,
    b.len_msg,
  )

  abbrev within : List ℕ → Message
  within part = record m {
    cur_part = part;
    cur_len = add_size m.cur_len (length buf);
    cur_message = m.cur_message ++ buf;
    have_part_next_msg = false;
  }

  within-Waits :
      (part w : List ℕ)
      → length part ≡ array_size
      → b.suffix ≡ buf ++ w
      → stream ≡ w ++ encode_all b.rest
      → 0 < length w
      → Waits (within part) ms stream
  within-Waits part w size p q more =
      body
        (record {
          arrays = record { part_size = size; add_size = b.arrays.add_size };
          count = b.count;
          message = b.message;
          rest = b.rest;
          suffix = w;
          first = b.first;
          splits = append_assoc m.cur_message buf w ∙ ap (◌++◌ m.cur_message) (sym p) ∙ b.splits;
          len_msg = b.len_msg;
          cur_len = omega (arith, new_len, b.cur_len, length-append m.cur_message buf);
          more = more;
          comes = q;
        })
        refl

  within-Completes :
      (part : List ℕ)
      → length part ≡ array_size
      → b.suffix ≡ buf
      → stream ≡ encode_all b.rest
      → Completes (within part) ms stream (length buf)
  within-Completes part size p q = record {
    arrays = record { part_size = size; add_size = b.arrays.add_size };
    count = b.count;
    rest = b.rest;
    first = b.first ∙ ap (λ x. x ∷ b.rest) (sym b.splits ∙ ap (◌++◌ m.cur_message) p);
    full = omega (arith, b.len_msg, new_len, lengths, b.cur_len, ap length p);
    left = inl (refl, q);
  }

  within-After :
      (part w : List ℕ)
      → length part ≡ array_size
      → b.suffix ≡ buf ++ w
      → stream ≡ w ++ encode_all b.rest
      → After (within part) ms stream (length buf)
  within-After part [] size p q = completes (within-Completes part size (p ∙ append-nil buf) q)
  within-After part (x ∷ w) size p q = waits (within-Waits part (x ∷ w) size p q (omega arith))

  -- The piece ends within the message, or with it.
  inside : length buf ≤ length b.suffix → Steps ms stream (length buf) (add_body buf m)
  unfolding add_body
  inside le =
      let (w, p, q) = cut b.suffix (encode_all b.rest) buf stream (sym b.comes) le in
      let a =
        add_to_cur_msg_lem buf m b.arrays.part_size (omega arith)
          (IsText-prefix buf w (subst IsText p suffix-IsText)) in
      record {
        after = within a.part;
        runs =
            rw
              (
                le→leb (add_size m.cur_len (length buf)) m.len_msg
                    (omega (arith, new_len, lengths, b.cur_len, b.len_msg)),
                a.runs,
              )
              refl;
        state = within-After a.part w a.size p q;
      }

  abbrev past : List ℕ → List ℕ → Message
  past part add_part = record m {
    cur_part = part;
    cur_len = add_size m.cur_len (length b.suffix);
    cur_message = m.cur_message ++ b.suffix;
    have_part_next_msg = true;
    add_part = add_part;
    len_add_part = sub_size (length buf) (length b.suffix);
  }

  past-Completes :
      (part w : List ℕ)
      → length part ≡ array_size
      → buf ≡ b.suffix ++ w
      → encode_all b.rest ≡ w ++ stream
      → 0 < length w
      → (z : Written m.add_part 0 w) → Completes (past part z.result) ms stream (length buf)
  past-Completes part w size p q more z = record {
    arrays = record { part_size = size; add_size = z.size ∙ b.arrays.add_size };
    count = b.count;
    rest = b.rest;
    first = b.first ∙ ap (λ x. x ∷ b.rest) (sym b.splits);
    full = omega (
      arith,
      b.len_msg,
      lengths,
      b.cur_len,
      add_size-eq-add m.cur_len (length b.suffix),
      (IsGood-here.0).2,
    );
    left = inr (refl, held, left_some, left_less);
  }
    where
      left_len : sub_size (length buf) (length b.suffix) ≡ length w
      left_len = omega (
        arith,
        sub_size-eq-sub (length buf) (length b.suffix),
        ap length p,
        length-append b.suffix w,
      )

      held : take (sub_size (length buf) (length b.suffix)) z.result ++ stream ≡ encode_all b.rest
      held =
          rw (left_len, z.holds)
            (ap (λ l. l ++ stream) (take-append w z.tail (length w) refl) ∙ sym q)

      left_some : 0 < sub_size (length buf) (length b.suffix)
      left_some = omega (arith, left_len, more)

      left_less : sub_size (length buf) (length b.suffix) < length buf
      left_less = omega (arith, left_len, ap length p, length-append b.suffix w, b.more)

  -- The piece goes on behind the message.
  beyond : length b.suffix < length buf → Steps ms stream (length buf) (add_body buf m)
  unfolding add_body
  beyond lt =
      let (w, p, q) = cut buf stream b.suffix (encode_all b.rest) b.comes (omega arith) in
      let a = add_to_cur_msg_lem b.suffix m b.arrays.part_size (omega arith) suffix-IsText in
      let more : length b.suffix + length w ≡ length buf =
        omega (arith, ap length p, length-append b.suffix w) in
      let z = write_within m.add_part 0 w (omega (arith, b.arrays.add_size, more)) in
      let taken : take (length b.suffix) buf ≡ b.suffix =
        ap (take (length b.suffix)) p ∙ take-append b.suffix w (length b.suffix) refl in
      let dropped : drop (length b.suffix) buf ≡ w =
        ap (drop (length b.suffix)) p ∙ drop-append b.suffix w (length b.suffix) refl in
      record {
        after = past a.part z.result;
        runs =
            rw
              (
                lt→leb (add_size m.cur_len (length buf)) m.len_msg
                    (omega (arith, new_len, lengths, b.cur_len, b.len_msg)),
                delta,
                taken,
                dropped,
                a.runs,
                z.runs,
              )
              refl;
        state = completes (past-Completes a.part w a.size p q (omega (arith, more)) z);
      }

  pub add_body_lem : Steps ms stream (length buf) (add_body buf m)
  add_body_lem = elim (dec_le (length buf) (length b.suffix)) [
    | yes le ↦ inside le
    | no gt ↦ beyond (omega arith)
  ]
