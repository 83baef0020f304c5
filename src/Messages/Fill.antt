-- ===== src/Messages/Fill.antt =====
-- What the copies of `add_message` (p2/messageforsend.cpp) leave in the last block and in new ones.
use multithread.Base.{
  ℕ, zero, suc, ◌+◌, ◌%◌, ◌≤◌, ◌<◌, ◌≡◌, refl, ◌∙◌, sym, ap, Option, some, List, [], ◌∷◌, ◌++◌,
  length, take, drop, arith, length-append, length-take, length-drop, append_assoc, append-nil,
  take-append-drop, le→leb, lt→leb, ne→==,
}
use native.Mathlib.Decide.{dec_le}
use multithread.Messages.Bytes.{write}
use multithread.Messages.Waits.{write_within}
use multithread.Messages.Send.{MessageForSend, block_size, write_last, push_rest, push_blocks}
use multithread.Messages.Slices.{empty_list, take-drop-append}
use multithread.Messages.Queue.{bytes, AreBlocks}

-- A copy to the last block.
pub record WroteLast (offset : ℕ) (new : List ℕ) (blocks : List (List ℕ)) : Type 0 where
  pub after : List (List ℕ)
  pub before : List ℕ
  pub old_free : List ℕ
  pub free : List ℕ
  pub runs : write_last offset new blocks ≡ some after
  pub are : AreBlocks after
  pub same : length after ≡ length blocks
  pub was : bytes blocks ≡ before ++ old_free
  pub is : bytes after ≡ (before ++ new) ++ free
  pub old_size : length old_free + offset ≡ block_size
  pub size : length free + (offset + length new) ≡ block_size

pub write_last_lem :
    (offset : ℕ) (new : List ℕ) (b : List ℕ) (blocks : List (List ℕ))
    → AreBlocks (b ∷ blocks)
    → offset + length new ≤ block_size
    → WroteLast offset new (b ∷ blocks)
unfolding write_last
write_last_lem offset new b [] are h =
    let w = write_within b offset new (omega (arith, are.0)) in
    record {
      after = w.result ∷ [];
      before = take offset b;
      old_free = drop offset b;
      free = w.tail;
      runs = rw w.runs refl;
      are = (w.size ∙ are.0, tt);
      same = refl;
      was = append-nil b ∙ sym (take-append-drop offset b);
      is = append-nil w.result ∙ w.holds;
      old_size = omega (arith, length-drop offset b, are.0);
      size = omega (
        arith,
        w.size,
        are.0,
        ap length w.holds,
        length-append (take offset b ++ new) w.tail,
        length-append (take offset b) new,
        length-take offset b,
      );
    }
write_last_lem offset new b (c ∷ blocks) are h =
    let w = write_last_lem offset new c blocks are.1 h in
    record {
      after = b ∷ w.after;
      before = b ++ w.before;
      old_free = w.old_free;
      free = w.free;
      runs = rw w.runs refl;
      are = (are.0, w.are);
      same = ap suc w.same;
      was = ap (◌++◌ b) w.was ∙ sym (append_assoc b w.before w.old_free);
      is =
          ap (◌++◌ b) w.is
          ∙ sym (append_assoc b (w.before ++ new) w.free)
          ∙ ap (λ l. l ++ w.free) (sym (append_assoc b w.before new));
      old_size = w.old_size;
      size = w.size;
    }

-- A copy that fills an array.
pub write_whole : (buffer new : List ℕ) → length buffer ≡ length new → write buffer 0 new ≡ some new
write_whole buffer new h =
    let w = write_within buffer 0 new (omega arith) in
    w.runs
    ∙ ap some (
        w.holds
        ∙ ap (◌++◌ new)
            (empty_list w.tail (omega (arith, w.size, ap length w.holds, length-append new w.tail)))
        ∙ append-nil new)

-- The new blocks for `rest`, which does not fill the last of them.
pub record PushedBlocks (m : MessageForSend) (rest : List ℕ) (res : Option MessageForSend)
    : Type 0 where
  pub new : List (List ℕ)
  pub free : List ℕ
  pub end_offset : ℕ
  pub runs : res ≡ some (record m { bitlist = m.bitlist ++ new; end_offset = end_offset })
  pub are : AreBlocks new
  pub is : bytes new ≡ rest ++ free
  pub size : length free + end_offset ≡ block_size

module _ (raw : List ℕ) (full : length raw ≡ block_size) where
  pub push_blocks_lem :
      (fuel : ℕ) (rest : List ℕ) (m : MessageForSend)
      → length rest < fuel
      → 0 < length rest % block_size
      → PushedBlocks m rest (push_blocks fuel raw rest m)
  unfolding push_blocks push_rest
  push_blocks_lem zero rest m f h = absurd (omega arith)
  push_blocks_lem (suc fuel) rest m f h = elim (dec_le block_size (length rest)) [
    | yes long ↦
        let part = take block_size rest in
        let w = write_whole raw part (full ∙ omega (arith, length-take block_size rest)) in
        let p =
          push_blocks_lem fuel (drop block_size rest)
            (record m { bitlist = m.bitlist ++ part ∷ [] })
            (omega (arith, length-drop block_size rest))
            (omega (arith, length-drop block_size rest)) in
        record {
          new = part ∷ p.new;
          free = p.free;
          end_offset = p.end_offset;
          runs =
              rw (push_blocks, le→leb _ _ long, w)
                (p.runs
                  ∙ ap (λ l. some (record m { bitlist = l; end_offset = p.end_offset }))
                      (append_assoc m.bitlist (part ∷ []) p.new));
          are = (omega (arith, length-take block_size rest), p.are);
          is = ap (◌++◌ part) p.is ∙ take-drop-append block_size rest p.free;
          size = p.size;
        }
    | no short ↦
        let w = write_within raw 0 rest (omega (arith, full)) in
        record {
          new = w.result ∷ [];
          free = w.tail;
          end_offset = length rest;
          runs =
              rw
                (
                  push_blocks,
                  push_rest,
                  lt→leb block_size (length rest) (omega arith),
                  ne→== (length rest) 0 (λ e. omega (arith, e)),
                  w.runs,
                )
                refl;
          are = (w.size ∙ full, tt);
          is = append-nil w.result ∙ w.holds;
          size = omega (arith, full, w.size, ap length w.holds, length-append rest w.tail);
        }
  ]
