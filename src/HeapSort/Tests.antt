-- ===== src/HeapSort/Tests.antt =====
-- A vector of four ints.
use my_learning.Base.{◌≡◌, refl, arith, update, ok, ◌>>=◌}
use my_learning.HeapSort.{Vector, heap_sort, read}
use my_learning.HeapSort.Rearranged.{IsRearranged}
use my_learning.HeapSort.Sort.{IsSorted, heap_sort_lem}

four : Vector
four = record { size = 4; at = update (update (update (update (λ i. 0) 0 3) 1 9) 2 1) 3 5 }

largest_last : (heap_sort four >>= λ w. read w 3) ≡ ok 9
unfolding heap_sort my_learning.HeapSort.init my_learning.HeapSort.init_below
    my_learning.HeapSort.sort_below my_learning.HeapSort.max_heapify my_learning.HeapSort.largest_of
    my_learning.HeapSort.larger my_learning.HeapSort.left my_learning.HeapSort.right
    my_learning.HeapSort.swap read four
largest_last = refl

heap_sort_lem_example : (w : Vector) × (heap_sort four ≡ ok w) × IsSorted w × IsRearranged four w
unfolding four
heap_sort_lem_example = heap_sort_lem four (omega arith)
