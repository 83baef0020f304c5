-- ===== src/Index/Ordered.antt =====
-- The `set` of all words of p4/main.cpp is in order, and holds the words of all maps.
use multithread.Base.{
  ℕ, suc, ◌≤◌, ◌≡◌, refl, ◌∙◌, ap, Bool, true, false, inl, inr, ◌||◌, List, [], ◌∷◌, ◌==◌, ltb,
  arith, Bool-cases,
}
use multithread.Index.Create.{insert, Dict, add_words}
use multithread.Index.Batches.{add_all}
use multithread.Index.Postings.{mem, mem-insert}
use multithread.Index.Least.{keys, any_key}
use multithread.Index.Layout.{Rises}

insert-Rises : (b d : ℕ) (xs : List ℕ) → b ≤ d → Rises b xs → Rises b (insert d xs)
unfolding insert
insert-Rises b d [] le h = (le, tt)
insert-Rises b d (x ∷ xs) le (first, h) = elim (Bool-cases (x == d)) [
  | inl e ↦ rw (insert, e) (first, h)
  | inr e ↦ elim (Bool-cases (ltb d x)) [
    | inl l ↦ rw (insert, e, l) (le, (ground (arith, l), h))
    | inr l ↦ rw (insert, e, l) (first, insert-Rises (suc x) d xs (ground (arith, e, l)) h)
  ]
]

or_move : (a b c : Bool) → (a || (b || c)) ≡ ((b || a) || c)
or_move true true c = refl
or_move true false c = refl
or_move false true c = refl
or_move false false c = refl

add_words-Rises : (dict : Dict) (words : List ℕ) → Rises 0 words → Rises 0 (add_words dict words)
unfolding add_words
add_words-Rises [] words h = h
add_words-Rises ((w, docids) ∷ dict) words h =
    add_words-Rises dict (insert w words) (insert-Rises 0 w words (omega arith) h)

mem-add_words :
    (w : ℕ) (dict : Dict) (words : List ℕ)
    → mem w (add_words dict words) ≡ (mem w (keys dict) || mem w words)
unfolding add_words
mem-add_words w [] words = refl
mem-add_words w ((k, docids) ∷ dict) words =
    mem-add_words w dict (insert k words)
    ∙ ap (λ b. mem w (keys dict) || b) (mem-insert w k words)
    ∙ or_move (mem w (keys dict)) (k == w) (mem w words)

pub add_all-Rises :
    (dicts : List Dict) (words : List ℕ) → Rises 0 words → Rises 0 (add_all dicts words)
add_all-Rises [] words h = h
add_all-Rises (dict ∷ dicts) words h =
    add_all-Rises dicts (add_words dict words) (add_words-Rises dict words h)

pub mem-add_all :
    (w : ℕ) (dicts : List Dict) (words : List ℕ)
    → mem w (add_all dicts words) ≡ (any_key w dicts || mem w words)
mem-add_all w [] words = refl
mem-add_all w (dict ∷ dicts) words =
    mem-add_all w dicts (add_words dict words)
    ∙ ap (λ b. any_key w dicts || b) (mem-add_words w dict words)
    ∙ or_move (any_key w dicts) (mem w (keys dict)) (mem w words)
