-- ===== src/Messages/Send.antt =====
-- p2/messageforsend.h and .cpp: `MessageForSend`, the bytes that wait to be sent to one client.
-- `none` is undefined behaviour: a copy past the end of an array, or a block that is not there.
-- Sums of sizes of bytes in memory stay below 2^64; a difference that no test guards wraps around.
use multithread.Base.{
  ℕ, zero, suc, ◌+◌, ◌-◌, Bool, true, false, Option, none, some, List, [], ◌∷◌, ◌++◌, length, take,
  drop, ltb, leb, ◌==◌, if◌then◌else◌,
}
use multithread.Base.Size.{sub_size}
use multithread.Messages.Bytes.{encode, write}
use multithread.Messages.Message.{◌>>=◌}

-- The size of the arrays in `bitlist`.
abbrev pub block_size : ℕ
block_size = 1024

pub record MessageForSend : Type 0 where
  pub bitlist : List (List ℕ)
  pub count : ℕ
  pub beg_offset : ℕ
  pub end_offset : ℕ
  pub need_write : Bool

-- The constructor.
unfoldable pub start : MessageForSend
start = record { bitlist = []; count = 0; beg_offset = 0; end_offset = 0; need_write = false }

-- `memcpy((*end_iter) + offset, bytes, len)`, where `end_iter` is at the last block.
unfoldable pub write_last : ℕ → List ℕ → List (List ℕ) → Option (List (List ℕ))
write_last offset bytes [] = none
write_last offset bytes (b ∷ []) = do b' ← write b offset bytes; some (b' ∷ [])
write_last offset bytes (b ∷ c ∷ blocks) = do
  rest ← write_last offset bytes (c ∷ blocks)
  some (b ∷ rest)

-- The `if` of `add_message` on the last block: how many bytes went there, and the new state.
unfoldable pub fill_last : List ℕ → MessageForSend → Option (ℕ × MessageForSend)
fill_last buf m = elim m.bitlist [
  | [] ↦ some (0, m)
  | b ∷ blocks ↦
      if leb (m.end_offset + length buf) block_size
      then (do
        written ← write_last m.end_offset buf (b ∷ blocks)
        some (length buf, record m { bitlist = written; end_offset = m.end_offset + length buf }))
      else (do
        let room = sub_size block_size m.end_offset
        written ← write_last m.end_offset (take room buf) (b ∷ blocks)
        some (room, record m { bitlist = written }))
]

-- The `if` of `add_message` behind the `while`, on the bytes from `offset` on. A new array holds
-- `raw` before it is written.
unfoldable pub push_rest : List ℕ → List ℕ → MessageForSend → Option MessageForSend
push_rest raw bytes m = if length bytes == 0 then some m else (do
  tmp ← write raw 0 bytes
  some (record m { bitlist = m.bitlist ++ tmp ∷ []; end_offset = length bytes }))

-- The `while` and that `if`. Each round takes 1024 bytes, so `length bytes + 1` is enough fuel.
unfoldable pub push_blocks : ℕ → List ℕ → List ℕ → MessageForSend → Option MessageForSend
push_blocks zero raw bytes m = none
push_blocks (suc fuel) raw bytes m = elim (leb block_size (length bytes)) [
  | true ↦ do
    tmp ← write raw 0 (take block_size bytes)
    push_blocks fuel raw (drop block_size bytes) (record m { bitlist = m.bitlist ++ tmp ∷ [] })
  | false ↦ push_rest raw bytes m
]

-- `add_message(message)`
unfoldable pub add_message : List ℕ → List ℕ → MessageForSend → Option MessageForSend
add_message raw message m = do
  let buf = encode message
  (offset, m') ← fill_last buf m
  m'' ← push_blocks (suc (length buf)) raw (drop offset buf) m'
  some (record m'' { count = m''.count + length buf })

-- `memcpy(to, from + offset, len)` as far as it reads; `none` is a read past the end of the array.
unfoldable pub read : List ℕ → ℕ → ℕ → Option (List ℕ)
read buffer offset len =
    if ltb (length buffer) (offset + len) then none else some (take len (drop offset buffer))

-- `getbitarray` with a `len` of at most `count`.
unfoldable pub get_bytes : ℕ → MessageForSend → Option (List ℕ)
get_bytes len m = elim (len == 0) [
  | true ↦ some []
  | false ↦ elim m.bitlist [
    | [] ↦ none
    | b ∷ blocks ↦ if leb (m.beg_offset + len) block_size then read b m.beg_offset len else (do
      let offset = sub_size block_size m.beg_offset
      one ← read b m.beg_offset offset
      two ← elim blocks [ [] ↦ none | c ∷ more ↦ read c 0 (len - offset) ]
      some (one ++ two))
  ]
]

-- `getbitarray(buf, len)`: the bytes that it copies to `buf`, of which it returns the number.
unfoldable pub getbitarray : ℕ → MessageForSend → Option (List ℕ)
getbitarray len m = get_bytes (if ltb m.count len then m.count else len) m

-- `erase(len)`
unfoldable pub erase : ℕ → MessageForSend → Option MessageForSend
erase len m =
    if ltb (m.beg_offset + len) block_size
    then some (record m { beg_offset = m.beg_offset + len; count = sub_size m.count len })
    else elim m.bitlist [
      | [] ↦ none
      | b ∷ blocks ↦
          let delta = sub_size block_size m.beg_offset in
          some (record m {
            bitlist = blocks;
            beg_offset = sub_size len delta;
            count = sub_size m.count len;
          })
    ]
