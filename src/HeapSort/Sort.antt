-- ===== src/HeapSort/Sort.antt =====
-- Heap::init and heapSort.
use my_learning.Base.{ℕ, zero, suc, ◌+◌, ◌/◌, ◌≡◌, ◌≤◌, ◌<◌, refl, subst, arith, ok, ℕ_discrete}
use my_learning.HeapSort.{Vector, init_below, init, sort_below, heap_sort}
use my_learning.HeapSort.Rearranged.{
  IsRearranged, IsRearranged-refl, IsRearranged-trans, swapped, IsRearranged-swapped,
}
use my_learning.HeapSort.Sift.{IsHeap, IsMended, parent, max_heapify_mends, swap_lem}

abbrev pub IsSorted : Vector → Type 0
IsSorted v = (i j : ℕ) → i ≤ j → j < v.size → v.at i ≤ v.at j

-- below `k` a heap, from `k` on sorted, and no item below `k` larger than one from `k` on
record IsPart (k : ℕ) (v : Vector) : Type 0 where
  heap : IsHeap 0 k v
  above : (i j : ℕ) → i < k → k ≤ j → j < v.size → v.at i ≤ v.at j
  sorted : (i j : ℕ) → k ≤ i → i ≤ j → j < v.size → v.at i ≤ v.at j

-- no item of a heap is larger than the first
root_largest : (n hi c : ℕ) (v : Vector) → IsHeap 0 hi v → c < n → c < hi → v.at c ≤ v.at 0
root_largest zero hi c v h l k = absurd (omega arith)
root_largest (suc n) hi c v h l k = elim (ℕ_discrete c 0) [
  | yes e ↦ rw e (omega arith)
  | no e ↦ omega (
    arith,
    h c (omega arith) k (omega arith),
    root_largest n hi (parent c) v h (omega arith) (omega arith),
  )
]

-- Heap::init makes a heap of any vector of fewer than 2 ^ 30 items, and loses none.
init_below_lem :
    (i : ℕ) (v : Vector)
    → v.size < 0x40000000
    → i < 0x3fffffff
    → IsHeap i v.size v
    → (w : Vector) × (init_below i v ≡ ok w) × IsHeap 0 v.size w × IsRearranged v w
unfolding init_below
init_below_lem zero v h k b = (v, refl, b, IsRearranged-refl v)
init_below_lem (suc i) v h k b =
    let (w, e, d) =
      max_heapify_mends (v.size + 1) i v.size i v (omega arith) (omega arith) h (omega arith)
        (record {
          edges = λ c p q r s. b c p q (omega arith);
          bridged = λ c p q r s t. absurd (omega arith);
        }) in
    let same = d.rearranged.size in
    let (x, f, g, r) = init_below_lem i w (omega arith) (omega arith) (rw same d.heap) in
    (x, rw e f, subst (λ n. IsHeap 0 n x) same g, IsRearranged-trans d.rearranged r)

swapped-IsPart :
    (i : ℕ) (v w : Vector)
    → i < v.size
    → IsPart (suc i) v
    → IsMended 0 i (swapped v 0 i) w
    → IsPart i w
swapped-IsPart i v w h p d =
    let root = λ (c : ℕ) (l : c < suc i). root_largest (suc c) (suc i) c v p.heap (omega arith) l in
    let top : (j : ℕ) → i ≤ j → j < v.size → v.at 0 ≤ (swapped v 0 i).at j =
      λ j k l. ground (arith, p.above 0 j) in
    let under : (j : ℕ) → j < i → w.at j ≤ v.at 0 =
      λ j k. d.bound (v.at 0) (λ j' k'. ground (arith, root j', root i)) j k in
    let same : w.size ≡ v.size = d.rearranged.size in
    record {
      heap = d.heap;
      above = λ a b k l m. omega (arith, under a k, top b l (omega arith), d.rest b l);
      sorted = λ a b k l m. ground (arith, d.rest a, d.rest b, p.above 0 b, p.sorted a b);
    }

sort_below_lem :
    (i : ℕ) (v : Vector)
    → i ≤ v.size
    → v.size < 0x40000000
    → IsPart i v
    → (w : Vector) × (sort_below i v ≡ ok w) × IsSorted w × IsRearranged v w
unfolding sort_below
sort_below_lem zero v h k p =
    (v, refl, (λ a b l m. p.sorted a b (omega arith) l m), IsRearranged-refl v)
sort_below_lem (suc i) v h k p =
    let (w, e, d) =
      max_heapify_mends (i + 1) 0 i 0 (swapped v 0 i) (omega arith) (omega arith) k (omega arith)
        (record {
          edges = λ c q r s t. ground (arith, p.heap c);
          bridged = λ c q r s t. absurd (omega arith);
        }) in
    let same : w.size ≡ v.size = d.rearranged.size in
    let (x, f, g, r) =
      sort_below_lem i w (omega arith) (omega arith) (swapped-IsPart i v w (omega arith) p d) in
    (
      x,
      rw (swap_lem v 0 i (omega arith) (omega arith), e) f,
      g,
      IsRearranged-trans (IsRearranged-swapped v 0 i (omega arith) (omega arith))
          (IsRearranged-trans d.rearranged r),
    )

-- heapSort ends for every vector of fewer than 2 ^ 30 ints, without an access out of range or an
-- overflow of an index, and leaves the same ints in ascending order.
pub heap_sort_lem :
    (v : Vector)
    → v.size < 0x40000000
    → (w : Vector) × (heap_sort v ≡ ok w) × IsSorted w × IsRearranged v w
unfolding heap_sort init
heap_sort_lem v h =
    let (w, e, b, r) =
      init_below_lem (v.size / 2) v h (omega arith) (λ c p q s. absurd (omega arith)) in
    let same : w.size ≡ v.size = r.size in
    let (x, f, g, s) = sort_below_lem w.size w (omega arith) (omega arith) (record {
      heap = λ c p q t. b c p (omega arith) t;
      above = λ i j k l m. absurd (omega arith);
      sorted = λ i j k l m. absurd (omega arith);
    }) in
    (x, rw e f, g, IsRearranged-trans r s)
