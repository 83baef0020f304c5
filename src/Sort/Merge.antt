-- ===== src/Sort/Merge.antt =====
-- `merge_sort` of p8/merge_sort.cpp, on the segment `[left, right)` as a list. The two parallel
-- sections work on disjoint parts of the array, so their order does not matter.
use multithread.Base.{
  ℕ, zero, suc, ◌/◌, Bool, true, false, List, [], ◌∷◌, ◌++◌, length, take, drop, ltb, leb,
}

-- `int`
pub data ℤ : Type 0 where
  pos : ℕ → ℤ
  negsuc : ℕ → ℤ

-- `<` on `int`
abbrev pub lt : ℤ → ℤ → Bool
lt (pos a) (pos b) = ltb a b
lt (pos a) (negsuc b) = false
lt (negsuc a) (pos b) = true
lt (negsuc a) (negsuc b) = ltb b a

-- The `while` that merges the parts, of which `left` and `right` are left, into `tmp_array`.
unfoldable pub merge_loop : List ℤ → List ℤ → List ℤ → List ℤ
merge_loop [] [] tmp = tmp
merge_loop [] (y ∷ right) tmp = merge_loop [] right (tmp ++ y ∷ [])
merge_loop (x ∷ left) [] tmp = merge_loop left [] (tmp ++ x ∷ [])
merge_loop (x ∷ left) (y ∷ right) tmp = elim (lt x y) [
  | true ↦ merge_loop left (y ∷ right) (tmp ++ x ∷ [])
  | false ↦ merge_loop (x ∷ left) right (tmp ++ y ∷ [])
]

-- The recursion, to a depth of `fuel`: each call halves the segment, so the segment's length is
-- enough.
unfoldable pub sort_segment : ℕ → List ℤ → List ℤ
sort_segment zero segment = segment
sort_segment (suc fuel) segment = elim (leb (length segment) 1) [
  | true ↦ segment
  | false ↦
      let left_size = length segment / 2 in
      merge_loop (sort_segment fuel (take left_size segment))
        (sort_segment fuel (drop left_size segment)) []
]

unfoldable pub merge_sort : List ℤ → List ℤ
merge_sort segment = sort_segment (length segment) segment
