-- ===== src/Sort/Ascending.antt =====
-- `merge_sort` returns the ascending permutation of its segment.
use multithread.Base.{
  ℕ, zero, suc, ◌+◌, ◌/◌, ◌≤◌, ◌≡◌, refl, ◌∙◌, sym, ap, subst, Bool, true, false, inl, inr, List,
  [], ◌∷◌, ◌++◌, length, take, drop, leb, ◌==◌, if◌then◌else◌, arith, Bool-cases, append_assoc,
  append-nil, take-append-drop, length-take, length-drop, leb→le,
}
use multithread.Sort.Merge.{ℤ, pos, negsuc, lt, merge_loop, sort_segment, merge_sort}

abbrev same : ℤ → ℤ → Bool
same (pos a) (pos b) = a == b
same (negsuc a) (negsuc b) = a == b
same x y = false

-- How often a value stands in a list.
unfoldable pub occurrences : ℤ → List ℤ → ℕ
occurrences v [] = 0
occurrences v (x ∷ l) = (if same v x then 1 else 0) + occurrences v l

-- No element is less than the one before it, the first not less than `b`.
abbrev IsAscendingFrom : ℤ → List ℤ → Type 0
IsAscendingFrom b [] = Unit
IsAscendingFrom b (x ∷ l) = (lt x b ≡ false) × IsAscendingFrom x l

abbrev pub IsAscending : List ℤ → Type 0
IsAscending [] = Unit
IsAscending (x ∷ l) = IsAscendingFrom x l

occurrences-append :
    (v : ℤ) (xs ys : List ℤ) → occurrences v (xs ++ ys) ≡ occurrences v xs + occurrences v ys
unfolding occurrences
occurrences-append v [] ys = omega arith
occurrences-append v (x ∷ xs) ys = omega (arith, occurrences-append v xs ys)

lt-asymm : (x y : ℤ) → lt x y ≡ true → lt y x ≡ false
lt-asymm (pos a) (pos b) h = ground arith
lt-asymm (pos a) (negsuc b) h = cc
lt-asymm (negsuc a) (pos b) h = refl
lt-asymm (negsuc a) (negsuc b) h = ground arith

merge_loop-less :
    (x y : ℤ) (l r tmp : List ℤ)
    → lt x y ≡ true
    → merge_loop (x ∷ l) (y ∷ r) tmp ≡ merge_loop l (y ∷ r) (tmp ++ x ∷ [])
unfolding merge_loop
merge_loop-less x y l r tmp e = rw (merge_loop, e) refl

merge_loop-not_less :
    (x y : ℤ) (l r tmp : List ℤ)
    → lt x y ≡ false
    → merge_loop (x ∷ l) (y ∷ r) tmp ≡ merge_loop (x ∷ l) r (tmp ++ y ∷ [])
unfolding merge_loop
merge_loop-not_less x y l r tmp e = rw (merge_loop, e) refl

merge_loop-tmp : (l r tmp : List ℤ) → merge_loop l r tmp ≡ tmp ++ merge_loop l r []
unfolding merge_loop
merge_loop-tmp [] [] tmp = sym (append-nil tmp)
merge_loop-tmp [] (y ∷ r) tmp =
    merge_loop-tmp [] r (tmp ++ y ∷ [])
    ∙ append_assoc tmp (y ∷ []) (merge_loop [] r [])
    ∙ ap (◌++◌ tmp) (sym (merge_loop-tmp [] r (y ∷ [])))
merge_loop-tmp (x ∷ l) [] tmp =
    merge_loop-tmp l [] (tmp ++ x ∷ [])
    ∙ append_assoc tmp (x ∷ []) (merge_loop l [] [])
    ∙ ap (◌++◌ tmp) (sym (merge_loop-tmp l [] (x ∷ [])))
merge_loop-tmp (x ∷ l) (y ∷ r) tmp = elim (Bool-cases (lt x y)) [
  | inl e ↦
      merge_loop-less x y l r tmp e
      ∙ merge_loop-tmp l (y ∷ r) (tmp ++ x ∷ [])
      ∙ append_assoc tmp (x ∷ []) (merge_loop l (y ∷ r) [])
      ∙ ap (◌++◌ tmp) (sym (merge_loop-tmp l (y ∷ r) (x ∷ [])) ∙ sym (merge_loop-less x y l r [] e))
  | inr e ↦
      merge_loop-not_less x y l r tmp e
      ∙ merge_loop-tmp (x ∷ l) r (tmp ++ y ∷ [])
      ∙ append_assoc tmp (y ∷ []) (merge_loop (x ∷ l) r [])
      ∙ ap (◌++◌ tmp)
          (sym (merge_loop-tmp (x ∷ l) r (y ∷ [])) ∙ sym (merge_loop-not_less x y l r [] e))
]

-- An element that the loop has put down before the rest.
first-IsAscendingFrom :
    (b x : ℤ) (l r : List ℤ)
    → lt x b ≡ false
    → IsAscendingFrom x (merge_loop l r [])
    → IsAscendingFrom b (merge_loop l r (x ∷ []))
first-IsAscendingFrom b x l r h s =
    subst (IsAscendingFrom b) (sym (merge_loop-tmp l r (x ∷ []))) (h, s)

merge_loop-IsAscendingFrom :
    (b : ℤ) (l r : List ℤ)
    → IsAscendingFrom b l
    → IsAscendingFrom b r
    → IsAscendingFrom b (merge_loop l r [])
unfolding merge_loop
merge_loop-IsAscendingFrom b [] [] sl sr = tt
merge_loop-IsAscendingFrom b [] (y ∷ r) sl sr =
    first-IsAscendingFrom b y [] r sr.0 (merge_loop-IsAscendingFrom y [] r tt sr.1)
merge_loop-IsAscendingFrom b (x ∷ l) [] sl sr =
    first-IsAscendingFrom b x l [] sl.0 (merge_loop-IsAscendingFrom x l [] sl.1 tt)
merge_loop-IsAscendingFrom b (x ∷ l) (y ∷ r) sl sr = elim (Bool-cases (lt x y)) [
  | inl e ↦ subst (IsAscendingFrom b) (sym (merge_loop-less x y l r [] e)) (
      first-IsAscendingFrom b x l (y ∷ r) sl.0
        (merge_loop-IsAscendingFrom x l (y ∷ r) sl.1 (lt-asymm x y e, sr.1)))
  | inr e ↦ subst (IsAscendingFrom b) (sym (merge_loop-not_less x y l r [] e)) (
      first-IsAscendingFrom b y (x ∷ l) r sr.0
        (merge_loop-IsAscendingFrom y (x ∷ l) r (e, sl.1) sr.1))
]

merge_loop-IsAscending :
    (l r : List ℤ) → IsAscending l → IsAscending r → IsAscending (merge_loop l r [])
unfolding merge_loop
merge_loop-IsAscending [] [] sl sr = tt
merge_loop-IsAscending [] (y ∷ r) sl sr =
    subst IsAscending (sym (merge_loop-tmp [] r (y ∷ []))) (merge_loop-IsAscendingFrom y [] r tt sr)
merge_loop-IsAscending (x ∷ l) [] sl sr =
    subst IsAscending (sym (merge_loop-tmp l [] (x ∷ []))) (merge_loop-IsAscendingFrom x l [] sl tt)
merge_loop-IsAscending (x ∷ l) (y ∷ r) sl sr = elim (Bool-cases (lt x y)) [
  | inl e ↦
      subst IsAscending (sym (merge_loop-less x y l r [] e ∙ merge_loop-tmp l (y ∷ r) (x ∷ [])))
        (merge_loop-IsAscendingFrom x l (y ∷ r) sl (lt-asymm x y e, sr))
  | inr e ↦
      subst IsAscending (sym (merge_loop-not_less x y l r [] e ∙ merge_loop-tmp (x ∷ l) r (y ∷ [])))
        (merge_loop-IsAscendingFrom y (x ∷ l) r (e, sl) sr)
]

merge_loop-occurrences :
    (v : ℤ) (l r tmp : List ℤ)
    → occurrences v (merge_loop l r tmp) ≡ occurrences v tmp + occurrences v l + occurrences v r
unfolding merge_loop occurrences
merge_loop-occurrences v [] [] tmp = omega arith
merge_loop-occurrences v [] (y ∷ r) tmp =
    omega (arith, merge_loop-occurrences v [] r (tmp ++ y ∷ []), occurrences-append v tmp (y ∷ []))
merge_loop-occurrences v (x ∷ l) [] tmp =
    omega (arith, merge_loop-occurrences v l [] (tmp ++ x ∷ []), occurrences-append v tmp (x ∷ []))
merge_loop-occurrences v (x ∷ l) (y ∷ r) tmp = elim (Bool-cases (lt x y)) [
  | inl e ↦ omega (
    arith,
    ap (occurrences v) (merge_loop-less x y l r tmp e),
    merge_loop-occurrences v l (y ∷ r) (tmp ++ x ∷ []),
    occurrences-append v tmp (x ∷ []),
  )
  | inr e ↦ omega (
    arith,
    ap (occurrences v) (merge_loop-not_less x y l r tmp e),
    merge_loop-occurrences v (x ∷ l) r (tmp ++ y ∷ []),
    occurrences-append v tmp (y ∷ []),
  )
]

short-IsAscending : (l : List ℤ) → length l ≤ 1 → IsAscending l
short-IsAscending [] h = tt
short-IsAscending (x ∷ []) h = tt
short-IsAscending (x ∷ y ∷ l) h = absurd (omega arith)

record Sorted (segment result : List ℤ) : Type 0 where
  pub ascends : IsAscending result
  pub same_elements : (v : ℤ) → occurrences v result ≡ occurrences v segment

sort_segment_lem :
    (fuel : ℕ) (segment : List ℤ)
    → length segment ≤ fuel
    → Sorted segment (sort_segment fuel segment)
unfolding sort_segment occurrences
sort_segment_lem zero segment h = record {
  ascends = short-IsAscending segment (omega arith);
  same_elements = λ v. refl;
}
sort_segment_lem (suc fuel) segment h = elim (Bool-cases (leb (length segment) 1)) [
  | inl e ↦
      subst (Sorted segment) (rw (sort_segment, e) refl)
        (record { ascends = short-IsAscending segment (leb→le _ _ e); same_elements = λ v. refl })
  | inr e ↦
      let half = length segment / 2 in
      let l =
        sort_segment_lem fuel (take half segment) (ground (arith, length-take half segment)) in
      let r =
        sort_segment_lem fuel (drop half segment) (ground (arith, length-drop half segment)) in
      subst (Sorted segment) (rw (sort_segment, e) refl) (record {
        ascends =
            merge_loop-IsAscending (sort_segment fuel (take half segment))
              (sort_segment fuel (drop half segment)) l.ascends r.ascends;
        same_elements = λ v. omega (
          arith,
          merge_loop-occurrences v (sort_segment fuel (take half segment))
              (sort_segment fuel (drop half segment)) [],
          l.same_elements v,
          r.same_elements v,
          occurrences-append v (take half segment) (drop half segment),
          ap (occurrences v) (take-append-drop half segment),
        );
      })
]

-- For every segment, `merge_sort` returns a segment in which no element is less than the one
-- before it, and in which every value stands as often as in the segment that was given.
pub merge_sort_total :
    (segment : List ℤ)
    → IsAscending (merge_sort segment)
      × ((v : ℤ) → occurrences v (merge_sort segment) ≡ occurrences v segment)
unfolding merge_sort
merge_sort_total segment =
    let s = sort_segment_lem (length segment) segment (omega arith) in (s.ascends, s.same_elements)
