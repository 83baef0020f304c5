-- ===== src/Messages/Text.antt =====
-- `add_to_cur_msg` of p2/message.cpp on text.
use multithread.Base.{
  ℕ, ◌<◌, ◌≡◌, refl, ap, ◌∙◌, some, List, [], ◌∷◌, ◌++◌, length, take, arith, append_assoc,
}
use multithread.Base.Size.{add_size}
use multithread.Messages.Bytes.{c_string, c_string_text, IsText, take-append}
use multithread.Messages.Message.{Message, add_to_cur_msg}
use multithread.Messages.Waits.{write_within, array_size}

pub IsText-prefix : (xs ys : List ℕ) → IsText (xs ++ ys) → IsText xs
IsText-prefix [] ys t = tt
IsText-prefix (x ∷ xs) ys t = (t.0, IsText-prefix xs ys t.1)

pub IsText-suffix : (xs ys : List ℕ) → IsText (xs ++ ys) → IsText ys
IsText-suffix [] ys t = t
IsText-suffix (x ∷ xs) ys t = IsText-suffix xs ys t.1

-- `add_to_cur_msg` of text appends it.
pub record Added (buf : List ℕ) (m : Message) : Type 0 where
  pub part : List ℕ
  pub size : length part ≡ array_size
  pub runs :
      add_to_cur_msg buf m
      ≡ some (record m {
        cur_part = part;
        cur_len = add_size m.cur_len (length buf);
        cur_message = m.cur_message ++ buf;
      })

pub add_to_cur_msg_lem :
    (buf : List ℕ) (m : Message)
    → length m.cur_part ≡ array_size
    → length buf < array_size
    → IsText buf
    → Added buf m
unfolding add_to_cur_msg
add_to_cur_msg_lem buf m full short text =
    let w = write_within m.cur_part 0 buf (omega arith) in
    let z = write_within w.result (length buf) (0 ∷ []) (omega (arith, w.size)) in
    let ended : c_string z.result ≡ buf =
      ap c_string (z.holds ∙ ap (λ l. (take (length buf) l ++ 0 ∷ []) ++ z.tail) w.holds)
      ∙ ap (λ l. c_string ((l ++ 0 ∷ []) ++ z.tail)) (take-append buf w.tail (length buf) refl)
      ∙ ap c_string (append_assoc buf (0 ∷ []) z.tail)
      ∙ c_string_text buf z.tail text in
    record {
      part = z.result;
      size = z.size ∙ w.size ∙ full;
      runs = rw (w.runs, z.runs, ended) refl;
    }
