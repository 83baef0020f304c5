-- ===== src/Messages/Waits.antt =====
-- What a `Message` has of the stream of encoded messages, between two calls and within one.
use multithread.Base.{
  ℕ, ◌+◌, ◌≤◌, ◌<◌, ◌≡◌, refl, sym, true, false, ◌⊎◌, some, List, [], ◌∷◌, ◌++◌, length, take, drop,
  ◌^◌, arith, length-append, length-take, length-drop,
}
use multithread.Messages.Bytes.{encode_all, write, IsText}
use multithread.Messages.Message.{Message}

-- Messages that the layer transports: not empty, below 4 GiB, with no NUL byte.
abbrev pub IsGood : List (List ℕ) → Type 0
IsGood [] = Unit
IsGood (m ∷ ms) = (IsText m × (0 < length m) × (length m < 2 ^ 32)) × IsGood ms

abbrev pub array_size : ℕ
array_size = 2048

-- The arrays have their size.
pub record Arrays (m : Message) : Type 0 where
  pub part_size : length m.cur_part ≡ array_size
  pub add_size : length m.add_part ≡ array_size

-- Within the first four bytes of `ms`, with `stream` to come.
pub record InHeader (m : Message) (ms : List (List ℕ)) (stream : List ℕ) : Type 0 where
  pub arrays : Arrays m
  pub no_count : m.have_count ≡ false
  pub no_rest : m.have_part_next_msg ≡ false
  pub few : m.cur_len ≤ 4
  pub splits : take m.cur_len m.cur_part ++ stream ≡ encode_all ms

-- Within the first message of `ms`, of which `suffix` and then the others are to come.
pub record InBody (m : Message) (ms : List (List ℕ)) (stream : List ℕ) : Type 0 where
  pub arrays : Arrays m
  pub count : m.have_count ≡ true
  pub message : List ℕ
  pub rest : List (List ℕ)
  pub suffix : List ℕ
  pub first : ms ≡ message ∷ rest
  pub splits : m.cur_message ++ suffix ≡ message
  pub len_msg : m.len_msg ≡ length message
  pub cur_len : m.cur_len ≡ length m.cur_message
  pub more : 0 < length suffix
  pub comes : stream ≡ suffix ++ encode_all rest

-- Between two calls of `process`.
pub data Waits (m : Message) (ms : List (List ℕ)) (stream : List ℕ) : Type 0 where
  header : InHeader m ms stream → Waits m ms stream
  body : InBody m ms stream → m.have_part_next_msg ≡ false → Waits m ms stream

-- With the first message of `ms` complete, and perhaps a rest of the piece behind it, which is
-- shorter than `bound`.
pub record Completes (m : Message) (ms : List (List ℕ)) (stream : List ℕ) (bound : ℕ) : Type 0 where
  pub arrays : Arrays m
  pub count : m.have_count ≡ true
  pub rest : List (List ℕ)
  pub first : ms ≡ m.cur_message ∷ rest
  pub full : m.len_msg ≡ m.cur_len
  pub left :
      ((m.have_part_next_msg ≡ false) × (stream ≡ encode_all rest))
      ⊎ ((m.have_part_next_msg ≡ true)
          × (take m.len_add_part m.add_part ++ stream ≡ encode_all rest)
          × (0 < m.len_add_part)
          × (m.len_add_part < bound))

pub data After (m : Message) (ms : List (List ℕ)) (stream : List ℕ) (bound : ℕ) : Type 0 where
  waits : Waits m ms stream → After m ms stream bound
  completes : Completes m ms stream bound → After m ms stream bound

-- Two ways to cut one list.
pub cut {ℓ} :
    {A : Type ℓ} (xs ys us vs : List A)
    → xs ++ ys ≡ us ++ vs
    → length us ≤ length xs
    → (w : List A) × (xs ≡ us ++ w) × (vs ≡ w ++ ys)
cut xs ys [] vs e h = (xs, refl, sym e)
cut [] ys (u ∷ us) vs e h = absurd (omega arith)
cut (x ∷ xs) ys (u ∷ us) vs e h =
    let (w, p, q) = cut xs ys us vs (ground arith) (omega arith) in (w, ground arith, q)

-- A write within the array.
pub record Written (buffer : List ℕ) (offset : ℕ) (bytes : List ℕ) : Type 0 where
  pub result : List ℕ
  pub tail : List ℕ
  pub runs : write buffer offset bytes ≡ some result
  pub size : length result ≡ length buffer
  pub holds : result ≡ (take offset buffer ++ bytes) ++ tail

pub write_within :
    (buffer : List ℕ) (offset : ℕ) (bytes : List ℕ)
    → offset + length bytes ≤ length buffer
    → Written buffer offset bytes
unfolding write
write_within buffer offset bytes h = record {
  result = take offset buffer ++ bytes ++ drop (offset + length bytes) buffer;
  tail = drop (offset + length bytes) buffer;
  runs = ground arith;
  size = omega (
    arith,
    length-append (take offset buffer ++ bytes) (drop (offset + length bytes) buffer),
    length-append (take offset buffer) bytes,
    length-take offset buffer,
    length-drop (offset + length bytes) buffer,
  );
  holds = refl;
}
