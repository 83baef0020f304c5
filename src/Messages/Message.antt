-- ===== src/Messages/Message.antt =====
-- p2/message.h and p2/message.cpp: `Message`, which puts messages together from the pieces that
-- `recv` returns. `none` is undefined behaviour: a write past the end of an array.
use multithread.Base.{
  ℕ, zero, suc, Bool, true, false, ◌&&◌, Option, none, some, List, [], ◌∷◌, ◌++◌, length, take,
  drop, ltb, leb, ◌==◌, if◌then◌else◌,
}
use multithread.Base.Size.{add_size, sub_size}
use multithread.Messages.Bytes.{load32, write, c_string}

infixl 5 ◌>>=◌
abbrev pub ◌>>=◌ {ℓ κ} : {A : Type ℓ} {B : Type κ} → Option A → (A → Option B) → Option B
none >>= f = none
some a >>= f = f a

-- The arrays are lists of their whole size. A field that the constructor leaves uninitialised
-- holds whatever was there.
pub record Message : Type 0 where
  pub have_count : Bool
  pub len_msg : ℕ
  pub cur_len : ℕ
  pub cur_part : List ℕ
  pub cur_message : List ℕ
  pub have_part_next_msg : Bool
  pub len_add_part : ℕ
  pub add_part : List ℕ

-- The size of the local arrays `tmp_buf`.
abbrev pub tmp_size : ℕ
tmp_size = 1024

-- `memcpy(tmp_buf, bytes, len)`, and `tmp_buf` as it is passed on with `len`.
unfoldable pub copy_tmp : List ℕ → Option (List ℕ)
copy_tmp bytes = if ltb tmp_size (length bytes) then none else some bytes

unfoldable pub have_full_message : Message → Bool
have_full_message m = m.have_count && (m.len_msg == m.cur_len)

unfoldable pub add_to_cur_msg : List ℕ → Message → Option Message
add_to_cur_msg buf m = do
  part ← write m.cur_part 0 buf
  ended ← write part (length buf) (0 ∷ [])
  some (record m {
    cur_part = ended;
    cur_len = add_size m.cur_len (length buf);
    cur_message = m.cur_message ++ c_string ended;
  })

-- `add_part_msg` where the length of the message is known.
unfoldable pub add_body : List ℕ → Message → Option Message
add_body buf m =
    if leb (add_size m.cur_len (length buf)) m.len_msg
    then (do m' ← add_to_cur_msg buf m; some (record m' { have_part_next_msg = false }))
    else (do
      let delta_len = sub_size m.len_msg m.cur_len
      m' ← add_to_cur_msg (take delta_len buf) m
      rest ← write m'.add_part 0 (drop delta_len buf)
      some (record m' {
        have_part_next_msg = true;
        add_part = rest;
        len_add_part = sub_size (length buf) delta_len;
      }))

-- `add_part_msg` where it is not: the call of itself finds `have_count` set.
unfoldable pub add_header : List ℕ → Message → Option Message
add_header buf m = do
  part ← write m.cur_part m.cur_len buf
  let len = add_size m.cur_len (length buf)
  if ltb 4 len
      then (do
        tmp ← copy_tmp (take (sub_size len 4) (drop 4 part))
        add_body tmp (record m {
          cur_part = part;
          len_msg = load32 part;
          have_count = true;
          cur_len = 0;
          cur_message = [];
        }))
      else some (record m { cur_part = part; cur_len = len })

unfoldable pub add_part_msg : List ℕ → Message → Option Message
add_part_msg buf m = if m.have_count then add_body buf m else add_header buf m

unfoldable pub initialise : List ℕ → Message → Option Message
initialise buf m =
    add_part_msg buf
      (record m { cur_message = []; cur_len = 0; have_count = false; have_part_next_msg = false })

-- The loop of `get_message`, with the messages that it has pushed. A round that finds a rest of
-- the piece takes at least four bytes of it, and two rounds at most find none, so fuel
-- `len_add_part + 2` is enough.
unfoldable pub get_message_loop : ℕ → Message → List (List ℕ) → Option (List (List ℕ) × Message)
get_message_loop zero m msgs = none
get_message_loop (suc fuel) m msgs = elim (m.have_count && (m.len_msg == m.cur_len)) [
  | true ↦ do
    let reset = record m { have_count = false; cur_len = 0; cur_message = [] }
    m' ←
        (if m.have_part_next_msg
          then (do tmp ← copy_tmp (take m.len_add_part m.add_part); initialise tmp reset)
          else some reset)
    get_message_loop fuel m' (msgs ++ m.cur_message ∷ [])
  | false ↦ some (msgs, m)
]

unfoldable pub get_message : Message → Option (List (List ℕ) × Message)
get_message m = get_message_loop (suc (suc m.len_add_part)) m []
