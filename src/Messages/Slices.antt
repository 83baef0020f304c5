-- ===== src/Messages/Slices.antt =====
-- Parts of concatenated lists.
use multithread.Base.{
  ℕ, zero, suc, ◌+◌, ◌-◌, ◌≤◌, ◌≡◌, refl, ◌∙◌, sym, ap, inl, inr, List, [], ◌∷◌, ◌++◌, length, take,
  drop, ltb, if◌then◌else◌, arith, length-append, length-take, append_assoc, append-nil,
  take-append-drop, Bool-cases,
}
use multithread.Messages.Bytes.{take-append}

pub append_inj : (xs ys us vs : List ℕ) → length xs ≡ length us → xs ++ ys ≡ us ++ vs → xs ≡ us
append_inj xs ys us vs h e =
    sym (take-append xs ys (length xs) refl)
    ∙ ap (take (length xs)) e
    ∙ take-append us vs (length xs) (sym h)

pub empty_list : (xs : List ℕ) → length xs ≡ 0 → xs ≡ []
empty_list [] h = refl
empty_list (x ∷ xs) h = absurd (omega arith)

pub take-drop-append : (n : ℕ) (xs ys : List ℕ) → take n xs ++ (drop n xs ++ ys) ≡ xs ++ ys
take-drop-append n xs ys =
    sym (append_assoc (take n xs) (drop n xs) ys) ∙ ap (λ l. l ++ ys) (take-append-drop n xs)

pub length-splits :
    (xs ys zs : List ℕ) → length ((xs ++ ys) ++ zs) ≡ length xs + length ys + length zs
length-splits xs ys zs = omega (arith, length-append (xs ++ ys) zs, length-append xs ys)

pub join_parts :
    (n : ℕ) (xs ys zs : List ℕ) → (xs ++ take n ys) ++ (drop n ys ++ zs) ≡ (xs ++ ys) ++ zs
join_parts n xs ys zs =
    append_assoc xs (take n ys) (drop n ys ++ zs)
    ∙ ap (◌++◌ xs) (take-drop-append n ys zs)
    ∙ sym (append_assoc xs ys zs)

pub slice-append :
    (k n : ℕ) (xs ys : List ℕ) → k + n ≤ length xs → take n (drop k (xs ++ ys)) ≡ take n (drop k xs)
slice-append zero zero xs ys h = refl
slice-append zero (suc n) [] ys h = absurd (omega arith)
slice-append zero (suc n) (x ∷ xs) ys h = ap (◌∷◌ x) (slice-append zero n xs ys (omega arith))
slice-append (suc k) n [] ys h = absurd (omega arith)
slice-append (suc k) n (x ∷ xs) ys h = slice-append k n xs ys (omega arith)

pub drop-within : (k : ℕ) (xs ys : List ℕ) → k ≤ length xs → drop k (xs ++ ys) ≡ drop k xs ++ ys
drop-within zero xs ys h = refl
drop-within (suc k) [] ys h = absurd (omega arith)
drop-within (suc k) (x ∷ xs) ys h = drop-within k xs ys (omega arith)

pub take-beyond :
    (n : ℕ) (xs ys : List ℕ) → length xs ≤ n → take n (xs ++ ys) ≡ xs ++ take (n - length xs) ys
take-beyond n [] ys h = ap (λ i. take i ys) (omega arith)
take-beyond zero (x ∷ xs) ys h = absurd (omega arith)
take-beyond (suc n) (x ∷ xs) ys h =
    ap (◌∷◌ x) (take-beyond n xs ys (omega arith) ∙ ap (λ i. xs ++ take i ys) (omega arith))

take-nil : (n : ℕ) (xs : List ℕ) → length xs ≡ 0 → take n xs ≡ []
take-nil n xs h = empty_list (take n xs) (omega (arith, length-take n xs))

pub take-all : (n : ℕ) (xs : List ℕ) → length xs ≤ n → take n xs ≡ xs
take-all n xs h =
    ap (take n) (sym (append-nil xs))
    ∙ take-beyond n xs [] h
    ∙ ap (◌++◌ xs) (take-nil (n - length xs) [] refl)
    ∙ append-nil xs

pub take-asked :
    (asked : ℕ) (xs : List ℕ)
    → take (if ltb (length xs) asked then length xs else asked) xs ≡ take asked xs
take-asked asked xs = elim (Bool-cases (ltb (length xs) asked)) [
  | inl e ↦ rw e (take-all (length xs) xs (omega arith) ∙ sym (take-all asked xs (ground arith)))
  | inr e ↦ rw e refl
]

suc_out : (m n : ℕ) → suc m + n ≡ suc (m + n)
suc_out m n = omega arith

drop-nil : (n : ℕ) → drop {A = ℕ} n [] ≡ []
drop-nil zero = refl
drop-nil (suc n) = refl

pub drop-more : (xs ys : List ℕ) (n : ℕ) → drop (length xs + n) (xs ++ ys) ≡ drop n ys
drop-more [] ys n = ap (λ i. drop i ys) (omega arith)
drop-more (x ∷ xs) ys n =
    ap (λ i. drop i (x ∷ (xs ++ ys))) (suc_out (length xs) n) ∙ drop-more xs ys n

pub drop-drop : (k n : ℕ) (xs : List ℕ) → drop n (drop k xs) ≡ drop (k + n) xs
drop-drop zero n xs = ap (λ i. drop i xs) (omega arith)
drop-drop (suc k) n [] = drop-nil n ∙ sym (drop-nil (suc k + n))
drop-drop (suc k) n (x ∷ xs) = drop-drop k n xs ∙ ap (λ i. drop i (x ∷ xs)) (sym (suc_out k n))

pub take-split : (k n : ℕ) (xs : List ℕ) → k ≤ n → take k xs ++ take (n - k) (drop k xs) ≡ take n xs
take-split zero n xs h = ap (λ i. take i xs) (omega arith)
take-split (suc k) zero xs h = absurd (omega arith)
take-split (suc k) (suc n) [] h = take-nil (suc n - suc k) [] refl
take-split (suc k) (suc n) (x ∷ xs) h =
    ap (◌∷◌ x)
      (ap (λ i. take k xs ++ take i (drop k xs)) (omega arith) ∙ take-split k n xs (omega arith))
