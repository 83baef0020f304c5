-- ===== src/Index/Names.antt =====
-- `createName` and `removeIndexFiles` of p4/main.cpp, on a directory as a list of names and files.
use multithread.Base.{
  ℕ, zero, suc, ◌+◌, ◌*◌, ◌-◌, ◌/◌, ◌%◌, ◌<◌, ◌≡◌, refl, ◌∙◌, sym, ap, true, false, Option, none,
  some, List, [], ◌∷◌, ◌++◌, length, ltb, ◌==◌, ◌&&◌, ltb→le, ◌≤◌, drop, if◌then◌else◌, arith, inl,
  inr, Bool-cases, ==→eq, ==-refl, length-append,
}
use multithread.Shell.Parser.{same}

-- The decimal digits of a number, as `<<` writes them. Each round divides by ten, so the number and
-- one are enough rounds.
abbrev decimal : ℕ → ℕ → List ℕ
decimal zero n = []
decimal (suc fuel) n = elim (ltb n 10) [
  | true ↦ (48 + n) ∷ []
  | false ↦ decimal fuel (n / 10) ++ (48 + n % 10) ∷ []
]

unfoldable pub create_name : List ℕ → ℕ → List ℕ
create_name name number = name ++ decimal (suc number) number

abbrev pub Directory : Type 0
Directory = List (List ℕ × List ℕ)

abbrev pub file_of : List ℕ → Directory → Option (List ℕ)
file_of name [] = none
file_of name ((n, file) ∷ dir) = if same n name then some file else file_of name dir

-- `remove` of the system.
unfoldable pub remove : List ℕ → Directory → Directory
remove name [] = []
remove name ((n, file) ∷ dir) = if same n name then remove name dir else (n, file) ∷ remove name dir

-- The loop of `removeIndexFiles` from `i` on, for `count` more files.
unfoldable pub remove_loop : List ℕ → ℕ → ℕ → Directory → Directory
remove_loop name_input i zero dir = dir
remove_loop name_input i (suc count) dir =
    remove_loop name_input (suc i) count (remove (create_name name_input i) dir)

unfoldable pub remove_index_files : List ℕ → ℕ → Directory → Directory
remove_index_files name_input cnt_index_file dir = remove_loop name_input 0 cnt_index_file dir

same_refl : (s : List ℕ) → same s s ≡ true
same_refl [] = refl
same_refl (c ∷ s) = rw (==-refl c, same_refl s) refl

same→eq : (s t : List ℕ) → same s t ≡ true → s ≡ t
same→eq [] [] e = refl
same→eq [] (b ∷ t) e = cc
same→eq (a ∷ s) [] e = cc
same→eq (a ∷ s) (b ∷ t) e = elim (Bool-cases (a == b)) [
  | inl h ↦
      ap (λ c. c ∷ s) (==→eq a b h) ∙ ap (◌∷◌ b) (same→eq s t (ap (λ k. k && same s t) (sym h) ∙ e))
  | inr h ↦ absurd (false-ne-true (ap (λ k. k && same s t) (sym h) ∙ e))
]
  where
    false-ne-true : false ≡ true → ⊥
    false-ne-true i = cc

-- What a file name means as a number, behind the digits of `acc`.
abbrev value : ℕ → List ℕ → ℕ
value acc [] = acc
value acc (c ∷ s) = value (10 * acc + (c - 48)) s

value-append :
    (acc : ℕ) (s : List ℕ) (c : ℕ) → value acc (s ++ c ∷ []) ≡ 10 * value acc s + (c - 48)
value-append acc [] c = refl
value-append acc (d ∷ s) c = value-append (10 * acc + (d - 48)) s c

decimal-one : (fuel n : ℕ) → ltb n 10 ≡ true → decimal (suc fuel) n ≡ (48 + n) ∷ []
decimal-one fuel n e = rw (decimal, e) refl

decimal-more :
    (fuel n : ℕ)
    → ltb n 10 ≡ false
    → decimal (suc fuel) n ≡ decimal fuel (n / 10) ++ (48 + n % 10) ∷ []
decimal-more fuel n e = rw (decimal, e) refl

value-decimal : (fuel n : ℕ) → n < fuel → value 0 (decimal fuel n) ≡ n
value-decimal zero n h = absurd (omega arith)
value-decimal (suc fuel) n h = elim (Bool-cases (ltb n 10)) [
  | inl e ↦ ap (value 0) (decimal-one fuel n e) ∙ omega arith
  | inr e ↦
      ap (value 0) (decimal-more fuel n e)
      ∙ value-append 0 (decimal fuel (n / 10)) (48 + n % 10)
      ∙ omega (arith, value-decimal fuel (n / 10) (omega (arith, ltb→le n 10 e)), ltb→le n 10 e)
]

length-decimal : (fuel n : ℕ) → 0 < length (decimal (suc fuel) n)
length-decimal fuel n = elim (Bool-cases (ltb n 10)) [
  | inl e ↦ omega (arith, ap length (decimal-one fuel n e))
  | inr e ↦ omega (
    arith,
    ap length (decimal-more fuel n e),
    length-append (decimal fuel (n / 10)) ((48 + n % 10) ∷ []),
  )
]

drop_name : (name s : List ℕ) → drop (length name) (name ++ s) ≡ s
drop_name [] s = refl
drop_name (c ∷ name) s = drop_name name s

-- The names of two index files are the same only if their numbers are.
create_name-injective : (name : List ℕ) (i j : ℕ) → create_name name i ≡ create_name name j → i ≡ j
unfolding create_name
create_name-injective name i j e =
    let same_decimal : decimal (suc i) i ≡ decimal (suc j) j =
      sym (drop_name name (decimal (suc i) i))
      ∙ ap (drop (length name)) e
      ∙ drop_name name (decimal (suc j) j) in
    sym (value-decimal (suc i) i (omega arith))
    ∙ ap (value 0) same_decimal
    ∙ value-decimal (suc j) j (omega arith)

file_of-remove : (name : List ℕ) (dir : Directory) → file_of name (remove name dir) ≡ none
unfolding remove
file_of-remove name [] = refl
file_of-remove name ((n, file) ∷ dir) = elim (Bool-cases (same n name)) [
  | inl e ↦ rw (remove, e) (file_of-remove name dir)
  | inr e ↦ rw (remove, e) (rw (file_of, e) (file_of-remove name dir))
]

-- What has another name stays.
file_of-remove_other :
    (name other : List ℕ) (dir : Directory)
    → same name other ≡ false
    → file_of other (remove name dir) ≡ file_of other dir
unfolding remove
file_of-remove_other name other [] h = refl
file_of-remove_other name other ((n, file) ∷ dir) h = elim (Bool-cases (same n name)) [
  | inl e ↦
      let not_here : same n other ≡ false = ap (λ s. same s other) (same→eq n name e) ∙ h in
      rw (remove, e, not_here) (file_of-remove_other name other dir h)
  | inr e ↦ elim (Bool-cases (same n other)) [
    | inl e' ↦ rw (remove, e, e') refl
    | inr e' ↦ rw (remove, e, e') (file_of-remove_other name other dir h)
  ]
]

-- A file that is not there does not come back.
remove_loop-none :
    (name other : List ℕ) (i count : ℕ) (dir : Directory)
    → file_of other dir ≡ none
    → file_of other (remove_loop name i count dir) ≡ none
unfolding remove_loop
remove_loop-none name other i zero dir h = h
remove_loop-none name other i (suc count) dir h =
    remove_loop-none name other (suc i) count (remove (create_name name i) dir)
      (elim (Bool-cases (same (create_name name i) other)) [
        | inl e ↦
            ap (λ s. file_of s (remove (create_name name i) dir))
              (sym (same→eq (create_name name i) other e))
            ∙ file_of-remove (create_name name i) dir
        | inr e ↦ file_of-remove_other (create_name name i) other dir e ∙ h
      ])

remove_loop-gone :
    (name : List ℕ) (i j count : ℕ) (dir : Directory)
    → i ≤ j
    → j < i + count
    → file_of (create_name name j) (remove_loop name i count dir) ≡ none
unfolding remove_loop
remove_loop-gone name i j zero dir le lt = absurd (omega arith)
remove_loop-gone name i j (suc count) dir le lt = elim (Bool-cases (i == j)) [
  | inl e ↦
      remove_loop-none name (create_name name j) (suc i) count (remove (create_name name i) dir) (
        ap (λ k. file_of (create_name name j) (remove (create_name name k) dir)) (==→eq i j e)
        ∙ file_of-remove (create_name name j) dir)
  | inr e ↦
      remove_loop-gone name (suc i) j count (remove (create_name name i) dir) (ground (arith, e))
        (omega arith)
]

name_differs : (name : List ℕ) (i : ℕ) → same (create_name name i) name ≡ false
unfolding create_name
name_differs name i = elim (Bool-cases (same (create_name name i) name)) [
  | inl e ↦ absurd (
      omega (
        arith,
        ap length (same→eq (create_name name i) name e),
        length-append name (decimal (suc i) i),
        length-decimal i i,
      ))
  | inr e ↦ e
]

remove_loop-output :
    (name : List ℕ) (i count : ℕ) (dir : Directory)
    → file_of name (remove_loop name i count dir) ≡ file_of name dir
unfolding remove_loop
remove_loop-output name i zero dir = refl
remove_loop-output name i (suc count) dir =
    remove_loop-output name (suc i) count (remove (create_name name i) dir)
    ∙ file_of-remove_other (create_name name i) name dir (name_differs name i)

remove_loop-later :
    (name : List ℕ) (i j count : ℕ) (dir : Directory)
    → i + count ≤ j
    → file_of (create_name name j) (remove_loop name i count dir) ≡ file_of (create_name name j) dir
unfolding remove_loop
remove_loop-later name i j zero dir le = refl
remove_loop-later name i j (suc count) dir le =
    remove_loop-later name (suc i) j count (remove (create_name name i) dir) (omega arith)
    ∙ file_of-remove_other (create_name name i) (create_name name j) dir other
  where
    other : same (create_name name i) (create_name name j) ≡ false
    other = elim (Bool-cases (same (create_name name i) (create_name name j))) [
      | inl e ↦ absurd (
          omega (
            arith,
            create_name-injective name i j (same→eq (create_name name i) (create_name name j) e),
          ))
      | inr e ↦ e
    ]

-- `removeIndexFiles` removes each of the first `cnt_index_file` index files, and keeps the files of
-- later numbers, and the index itself, whose name is that of the index files without a number.
pub remove_index_files_total :
    (name : List ℕ) (cnt_index_file i j : ℕ) (dir : Directory)
    → i < cnt_index_file
    → cnt_index_file ≤ j
    → (file_of (create_name name i) (remove_index_files name cnt_index_file dir) ≡ none)
      × (file_of (create_name name j) (remove_index_files name cnt_index_file dir)
          ≡ file_of (create_name name j) dir)
      × (file_of name (remove_index_files name cnt_index_file dir) ≡ file_of name dir)
unfolding remove_index_files
remove_index_files_total name cnt_index_file i j dir lt le = (
  remove_loop-gone name 0 i cnt_index_file dir (omega arith) (omega arith),
  remove_loop-later name 0 j cnt_index_file dir (omega arith),
  remove_loop-output name 0 cnt_index_file dir,
)
