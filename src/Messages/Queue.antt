-- ===== src/Messages/Queue.antt =====
-- The queue of bytes that a `MessageForSend` stands for.
use multithread.Base.{
  ℕ, ◌+◌, ◌*◌, ◌<◌, ◌≡◌, refl, ◌∙◌, sym, ap, List, [], ◌∷◌, ◌++◌, length, arith, length-append,
  append_assoc,
}
use multithread.Base.Size.{IsSize}
use multithread.Messages.Send.{MessageForSend, block_size, start}

-- The bytes of all blocks.
abbrev pub bytes : List (List ℕ) → List ℕ
bytes [] = []
bytes (b ∷ blocks) = b ++ bytes blocks

abbrev pub AreBlocks : List (List ℕ) → Type 0
AreBlocks [] = Unit
AreBlocks (b ∷ blocks) = (length b ≡ block_size) × AreBlocks blocks

-- `q` waits to be sent: it stands in the blocks behind `beg_offset` bytes and before the part of
-- the last block that is free.
pub record Queues (m : MessageForSend) (q : List ℕ) : Type 0 where
  pub blocks : AreBlocks m.bitlist
  pub sent : List ℕ
  pub free : List ℕ
  pub splits : bytes m.bitlist ≡ (sent ++ q) ++ free
  pub begins : length sent ≡ m.beg_offset
  pub early : m.beg_offset < block_size
  pub counted : m.count ≡ length q
  pub ends : 0 < length m.bitlist → length free + m.end_offset ≡ block_size
  pub small : IsSize m.count

pub bytes-append : (xs ys : List (List ℕ)) → bytes (xs ++ ys) ≡ bytes xs ++ bytes ys
bytes-append [] ys = refl
bytes-append (x ∷ xs) ys =
    ap (◌++◌ x) (bytes-append xs ys) ∙ sym (append_assoc x (bytes xs) (bytes ys))

pub AreBlocks-append : (xs ys : List (List ℕ)) → AreBlocks xs → AreBlocks ys → AreBlocks (xs ++ ys)
AreBlocks-append [] ys hx hy = hy
AreBlocks-append (x ∷ xs) ys hx hy = (hx.0, AreBlocks-append xs ys hx.1 hy)

pub length-bytes :
    (blocks : List (List ℕ)) → AreBlocks blocks → length (bytes blocks) ≡ block_size * length blocks
length-bytes [] h = omega arith
length-bytes (b ∷ blocks) h =
    omega (arith, length-append b (bytes blocks), length-bytes blocks h.1, h.0)

-- Nothing waits at first.
pub start-Queues : Queues start []
unfolding start
start-Queues = record {
  blocks = tt;
  sent = [];
  free = [];
  splits = refl;
  begins = refl;
  early = omega arith;
  counted = refl;
  ends = λ h. absurd (omega arith);
  small = omega arith;
}
