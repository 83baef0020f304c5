-- ===== src/Sort/Examples.antt =====
-- Runs of the merge sort.
use multithread.Base.{◌≡◌, refl, List, [], ◌∷◌}
use multithread.Sort.Merge.{ℤ, pos, negsuc, merge_sort, merge_loop, sort_segment}
use multithread.Sort.Ascending.{IsAscending, occurrences, merge_sort_total}

abbrev numbers : List ℤ
numbers = pos 3 ∷ negsuc 1 ∷ pos 3 ∷ pos 0 ∷ negsuc 4 ∷ []

sorts_numbers : merge_sort numbers ≡ negsuc 4 ∷ negsuc 1 ∷ pos 0 ∷ pos 3 ∷ pos 3 ∷ []
unfolding merge_sort sort_segment merge_loop
sorts_numbers = refl

merge_sort_total_example :
    IsAscending (merge_sort numbers)
    × ((v : ℤ) → occurrences v (merge_sort numbers) ≡ occurrences v numbers)
merge_sort_total_example = merge_sort_total numbers
