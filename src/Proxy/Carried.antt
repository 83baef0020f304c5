-- ===== src/Proxy/Carried.antt =====
-- One direction of the proxy (p3/proxy.cpp): a receive, and the sends that follow.
use multithread.Base.{
  ℕ, ◌+◌, ◌-◌, ◌≤◌, ◌<◌, ◌≡◌, ◌≢◌, refl, ◌∙◌, sym, ap, Option, some, List, ◌++◌, take, drop, length,
  ◌==◌, inl, inr, append_assoc, arith, Bool-cases, ==→eq, if◌then◌else◌, if-true, if-false, ==→ne,
}
use multithread.Base.Size.{sub_size, sub_size-eq-sub}
use multithread.Messages.Bytes.{take-append}
use multithread.Messages.Slices.{take-split, drop-drop}
use multithread.Messages.Waits.{write_within}
use multithread.Proxy.Client.{Doing, idle, reading, writing, Way, begin}
use multithread.Proxy.Relay.{buf_size, ended, receive, Receives, Takes}

-- One direction: what came has gone, but for the bytes that are in the buffer, or were lost when
-- the direction was given up.
pub data Carries (w : Way) (from to : List ℕ) : Type 0 where
  rests : (lost : List ℕ) → w.doing ≡ idle → from ≡ to ++ lost → Carries w from to
  waits : w.doing ≡ reading → from ≡ to → Carries w from to
  sends :
      (offset len : ℕ)
      → w.doing ≡ writing offset len
      → w.cur_size ≡ offset
      → offset + len ≡ w.size_message
      → 0 < len
      → w.size_message ≤ buf_size
      → from ≡ to ++ take len (drop offset w.buffer)
      → Carries w from to

abbrev pub filled : Way → List ℕ → List ℕ → Way
filled w b bytes = record w {
  buffer = b;
  doing = writing 0 (length bytes);
  cur_size = 0;
  size_message = length bytes;
}

-- A receive, and the send that follows.
pub record Received (w : Way) (from to bytes : List ℕ) : Type 0 where
  pub buffer : List ℕ
  pub runs : receive bytes w ≡ some (record w { buffer = buffer; doing = idle })
  pub size : length buffer ≡ buf_size
  pub carries : Carries (filled w buffer bytes) (from ++ bytes) to

pub received :
    (w : Way) (from to bytes : List ℕ)
    → Carries w from to
    → length w.buffer ≡ buf_size
    → Receives bytes w
    → Received w from to bytes
unfolding receive
received w from to bytes (rests lost d e) full (reads, more, fits) = absurd (cc)
received w from to bytes (sends o n d c s p f e) full (reads, more, fits) = absurd (cc)
received w from to bytes (waits d e) full (reads, more, fits) =
    let wr = write_within w.buffer 0 bytes (omega (arith, full)) in
    record {
      buffer = wr.result;
      runs = rw wr.runs refl;
      size = wr.size ∙ full;
      carries = sends 0 (length bytes) refl refl (omega arith) more fits (
          ap (λ l. l ++ bytes) e
          ∙ ap (◌++◌ to) (
              sym (
                ap (take (length bytes)) wr.holds
                ∙ take-append bytes wr.tail (length bytes) refl)));
    }

-- What is left to send when `n` bytes have been taken.
abbrev pub rest_sent : ℕ → Way → Way
rest_sent n w = record (ended w) { cur_size = w.cur_size + n }

abbrev pub sends_on : Way → Option Way
sends_on w =
    if w.size_message == w.cur_size
    then begin reading (record w { size_message = 0; cur_size = 0 })
    else begin (writing w.cur_size (sub_size w.size_message w.cur_size)) w

pub record Took (w : Way) (from to : List ℕ) (n offset len : ℕ) : Type 0 where
  pub after : Way
  pub runs : sends_on (rest_sent n w) ≡ some after
  pub size : length after.buffer ≡ buf_size
  pub carries : Carries after from (to ++ take n (drop offset w.buffer))
  pub whole : n ≡ len → after.doing ≡ reading
  pub part : n < len → after.doing ≡ writing (offset + n) (len - n)
  pub goes_on : after.doing ≢ idle

pub took :
    (w : Way) (from to : List ℕ) (n : ℕ)
    → Carries w from to
    → length w.buffer ≡ buf_size
    → (t : Takes n w) → Took w from to n t.0 t.1
unfolding begin
took w from to n (rests lost d e) full (o, l, sending, more, fits) = absurd (cc)
took w from to n (waits d e) full (o, l, sending, more, fits) = absurd (cc)
took w from to n (sends o' l' d c s p f e) full (o, l, sending, more, fits) =
    let same_offset : o' ≡ o = ap offset_of (sym d ∙ sending) in
    let same_len : l' ≡ l = ap len_of (sym d ∙ sending) in
    let here : from ≡ to ++ take l (drop o w.buffer) =
      e
      ∙ ap (λ i. to ++ take i (drop o' w.buffer)) same_len
      ∙ ap (λ i. to ++ take l (drop i w.buffer)) same_offset in
    elim (Bool-cases (w.size_message == w.cur_size + n)) [
      | inl done ↦ record {
        after = record w { size_message = 0; cur_size = 0; doing = reading };
        runs = if-true _ _ _ done;
        size = full;
        whole = λ i. refl;
        goes_on = λ i. cc;
        part = λ i. absurd (omega (arith, ==→eq w.size_message (w.cur_size + n) done));
        carries = waits refl (
            here
            ∙ ap (λ i. to ++ take i (drop o w.buffer))
                (omega (arith, ==→eq w.size_message (w.cur_size + n) done)));
      }
      | inr partly ↦
          let left : sub_size w.size_message (w.cur_size + n) ≡ l - n =
            sub_size-eq-sub w.size_message (w.cur_size + n) (omega arith) (omega arith)
            ∙ omega arith in
          record {
            after = record w {
              cur_size = w.cur_size + n;
              doing = writing (w.cur_size + n) (l - n);
            };
            runs =
                if-false _ _ _ partly
                ∙ ap
                    (λ i.
                      some (record w {
                        cur_size = w.cur_size + n;
                        doing = writing (w.cur_size + n) i;
                      }))
                    left;
            size = full;
            goes_on = λ i. cc;
            whole = λ i. absurd (omega (arith, ==→ne w.size_message (w.cur_size + n) partly));
            part = λ i. ap (λ k. writing (k + n) (l - n)) (c ∙ same_offset);
            carries =
                sends (w.cur_size + n) (l - n) refl refl (omega arith)
                  (omega (arith, ==→ne w.size_message (w.cur_size + n) partly)) f
                  (here
                    ∙ ap (◌++◌ to) (sym (take-split n l (drop o w.buffer) fits))
                    ∙ sym (
                        append_assoc to (take n (drop o w.buffer))
                          (take (l - n) (drop n (drop o w.buffer))))
                    ∙ ap (λ i. (to ++ take n (drop o w.buffer)) ++ take (l - n) i)
                        (drop-drop o n w.buffer)
                    ∙ ap (λ i. (to ++ take n (drop o w.buffer)) ++ take (l - n) (drop i w.buffer))
                        (omega arith));
          }
    ]
  where
    offset_of : Doing → ℕ
    offset_of (writing i k) = i
    offset_of op = 0

    len_of : Doing → ℕ
    len_of (writing i k) = k
    len_of op = 0
