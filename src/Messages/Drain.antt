-- ===== src/Messages/Drain.antt =====
-- `get_message`: the loop ends, and hands out each message that is complete, in order.
use multithread.Base.{
  ℕ, zero, suc, ◌≤◌, ◌<◌, ◌≡◌, refl, ap, ◌∙◌, sym, true, false, ◌&&◌, ◌⊎◌, inl, inr, Option, some,
  List, [], ◌∷◌, ◌++◌, length, take, ◌==◌, if◌then◌else◌, arith, length-append, append_assoc,
  append-nil, subst, length-take, le→ltb, if-true, if-false,
}
use multithread.Messages.Bytes.{encode_all}
use multithread.Messages.Message.{
  Message, ◌>>=◌, copy_tmp, initialise, get_message_loop, get_message,
}
use multithread.Messages.Waits.{
  IsGood, Arrays, Waits, header, body, Completes, After, waits, completes,
}
use multithread.Messages.Body.{Steps}
use multithread.Messages.Receive.{add_part_msg_lem, start-Waits}

-- What `get_message` hands out, and the state that it leaves.
pub record Drained (ms : List (List ℕ)) (stream : List ℕ) (msgs : List (List ℕ))
    (r : Option (List (List ℕ) × Message)) : Type 0 where
  pub out : List (List ℕ)
  pub rest : List (List ℕ)
  pub after : Message
  pub runs : r ≡ some (msgs ++ out, after)
  pub splits : ms ≡ out ++ rest
  pub state : Waits after rest stream

-- The loop stops at a message that is not complete.
idle :
    (m : Message) (ms : List (List ℕ)) (stream : List ℕ)
    → IsGood ms
    → Waits m ms stream
    → (m.have_count && (m.len_msg == m.cur_len)) ≡ false
idle m ms stream good (header h) = ground (arith, h.no_count)
idle m ms stream good (body b none_left) =
    ground (
      arith,
      b.len_msg,
      b.cur_len,
      b.more,
      length-append m.cur_message b.suffix,
      ap length b.splits,
    )

abbrev reset : Message → Message
reset m = record m { have_count = false; cur_len = 0; cur_message = [] }

abbrev cleared : Message → Message
cleared m = record m {
  cur_message = [];
  cur_len = 0;
  have_count = false;
  have_part_next_msg = false;
}

cleared-Arrays : (m : Message) → Arrays m → Arrays (cleared m)
cleared-Arrays m a = record { part_size = a.part_size; add_size = a.add_size }

-- What follows a complete message: the rest of the piece is read, if there is one.
abbrev resumed : Message → Option Message
resumed m =
    if m.have_part_next_msg
    then (copy_tmp (take m.len_add_part m.add_part) >>= λ tmp. initialise tmp (reset m))
    else some (reset m)

resume_rest :
    (m : Message) (ms : List (List ℕ)) (stream : List ℕ)
    → IsGood ms
    → Arrays m
    → m.have_part_next_msg ≡ true
    → take m.len_add_part m.add_part ++ stream ≡ encode_all ms
    → 0 < m.len_add_part
    → m.len_add_part ≤ 1024
    → Steps ms stream m.len_add_part (resumed m)
unfolding copy_tmp initialise
resume_rest m ms stream good a some_left e more small =
    let tmp = take m.len_add_part m.add_part in
    let size : length tmp ≡ m.len_add_part =
      omega (arith, length-take m.len_add_part m.add_part, a.add_size) in
    let s =
      add_part_msg_lem (cleared m) ms tmp stream good (omega (arith, size)) (omega (arith, size))
        (start-Waits (cleared m) ms (tmp ++ stream) (cleared-Arrays m a) refl refl refl e) in
    record {
      after = s.after;
      runs =
          if-true m.have_part_next_msg _ _ some_left
          ∙ rw (le→ltb 1024 (length tmp) (omega (arith, size)), s.runs) refl;
      state = subst (After s.after ms stream) size s.state;
    }

resume_none :
    (m : Message) (ms : List (List ℕ)) (stream : List ℕ)
    → Arrays m
    → m.have_part_next_msg ≡ false
    → stream ≡ encode_all ms
    → (resumed m ≡ some (reset m)) × Waits (reset m) ms stream
resume_none m ms stream a none_left e = (
  if-false m.have_part_next_msg _ _ none_left,
  start-Waits (reset m) ms stream (record { part_size = a.part_size; add_size = a.add_size }) refl
      none_left refl e,
)

Drained-Waits :
    (fuel : ℕ) (m : Message) (ms : List (List ℕ)) (stream : List ℕ) (msgs : List (List ℕ))
    → IsGood ms
    → 0 < fuel
    → Waits m ms stream
    → Drained ms stream msgs (get_message_loop fuel m msgs)
unfolding get_message_loop
Drained-Waits zero m ms stream msgs good h w = elim h [ ]
Drained-Waits (suc fuel) m ms stream msgs good h w = record {
  out = [];
  rest = ms;
  after = m;
  runs =
      rw (idle m ms stream good w, get_message_loop)
        (ap (λ l. some (l, m)) (sym (append-nil msgs)));
  splits = refl;
  state = w;
}

-- One round hands a complete message out.
Drained-next :
    (fuel : ℕ) (m next : Message) (ms : List (List ℕ)) (stream : List ℕ) (msgs rest : List (List ℕ))
    → (m.have_count && (m.len_msg == m.cur_len)) ≡ true
    → ms ≡ m.cur_message ∷ rest
    → resumed m ≡ some next
    → Drained rest stream
        (msgs ++ m.cur_message ∷ [])
        (get_message_loop fuel next (msgs ++ m.cur_message ∷ []))
    → Drained ms stream msgs (get_message_loop (suc fuel) m msgs)
unfolding get_message_loop
Drained-next fuel m next ms stream msgs rest full first runs d = record {
  out = m.cur_message ∷ d.out;
  rest = d.rest;
  after = d.after;
  runs =
      rw (full, get_message_loop, runs, d.runs)
        (ap (λ l. some (l, d.after)) (append_assoc msgs (m.cur_message ∷ []) d.out));
  splits = first ∙ ap (◌∷◌ m.cur_message) d.splits;
  state = d.state;
}

loop_lem :
    (fuel : ℕ) (m : Message) (ms : List (List ℕ)) (stream : List ℕ) (bound : ℕ)
    (msgs : List (List ℕ))
    → IsGood ms
    → bound ≤ 1025
    → bound < fuel
    → 1 < fuel
    → After m ms stream bound
    → Drained ms stream msgs (get_message_loop fuel m msgs)
loop_lem zero m ms stream bound msgs good small lt two s = elim lt [ ]
loop_lem (suc fuel) m ms stream bound msgs good small lt two (waits w) =
    Drained-Waits (suc fuel) m ms stream msgs good (omega arith) w
loop_lem (suc fuel) m ms stream bound msgs good small lt two (completes c) =
    let good_rest = (subst IsGood c.first good).1 in
    let full : (m.have_count && (m.len_msg == m.cur_len)) ≡ true =
      ground (arith, c.count, c.full) in
    elim (c.left) [
      | inl (none_left, e) ↦
          let (runs, w) = resume_none m c.rest stream c.arrays none_left e in
          Drained-next fuel m (reset m) ms stream msgs c.rest full c.first runs (
            Drained-Waits fuel (reset m) c.rest stream (msgs ++ m.cur_message ∷ []) good_rest
              (omega arith) w)
      | inr (some_left, e, more, less) ↦
          let s = resume_rest m c.rest stream good_rest c.arrays some_left e more (omega arith) in
          Drained-next fuel m s.after ms stream msgs c.rest full c.first s.runs (
            loop_lem fuel s.after c.rest stream m.len_add_part (msgs ++ m.cur_message ∷ [])
              good_rest (omega arith) (omega arith) (omega arith) s.state)
    ]

-- The fuel of `get_message` is enough.
pub get_message_lem :
    (m : Message) (ms : List (List ℕ)) (stream : List ℕ) (bound : ℕ)
    → IsGood ms
    → bound ≤ 1024
    → After m ms stream bound
    → Drained ms stream [] (get_message m)
unfolding get_message
get_message_lem m ms stream bound good small (waits w) =
    Drained-Waits (suc (suc m.len_add_part)) m ms stream [] good (omega arith) w
get_message_lem m ms stream bound good small (completes c) = elim (c.left) [
  | inl l ↦
      loop_lem (suc (suc m.len_add_part)) m ms stream 1 [] good (omega arith) (omega arith)
        (omega arith) (completes (rebound 1 (inl l)))
  | inr (some_left, e, more, less) ↦
      loop_lem (suc (suc m.len_add_part)) m ms stream (suc m.len_add_part) [] good (omega arith)
        (omega arith) (omega arith)
        (completes (rebound (suc m.len_add_part) (inr (some_left, e, more, omega arith))))
]
  where
    rebound :
        (k : ℕ)
        → ((m.have_part_next_msg ≡ false) × (stream ≡ encode_all c.rest))
          ⊎ ((m.have_part_next_msg ≡ true)
              × (take m.len_add_part m.add_part ++ stream ≡ encode_all c.rest)
              × (0 < m.len_add_part)
              × (m.len_add_part < k))
        → Completes m ms stream k
    rebound k l = record {
      arrays = c.arrays;
      count = c.count;
      rest = c.rest;
      first = c.first;
      full = c.full;
      left = l;
    }
