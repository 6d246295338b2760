-- ===== src/HeapSort.antt =====
-- Alog/lib/heap.cpp: heap sort of a std::vector<int>. The code only compares and moves the ints, which
-- stand by their place in the order of all ints, x + 2 ^ 31. An access out of range and an overflow of
-- an index abort. The recursion of maxHeapfiy is on fuel, one more than the size of the heap.
pub mod Rearranged
pub mod Sift
pub mod Sort
mod Tests
use my_learning.Base.{
  ℕ, zero, suc, ◌+◌, ◌-◌, ◌*◌, ◌/◌, Bool, ltb, ◌==◌, update, if◌then◌else◌, Run, ok, abort, ◌>>=◌,
  ◌>>◌, assert,
}

pub record Vector : Type 0 where
  pub size : ℕ
  pub at : ℕ → ℕ

-- the first index that an int does not hold
abbrev pub int_limit : ℕ
int_limit = 0x80000000

unfoldable pub left : ℕ → Run ℕ
left i = assert (ltb (i * 2 + 1) int_limit) >> ok (i * 2 + 1)

unfoldable pub right : ℕ → Run ℕ
right i = assert (ltb (i * 2 + 2) int_limit) >> ok (i * 2 + 2)

unfoldable pub read : Vector → ℕ → Run ℕ
read vec i = assert (ltb i vec.size) >> ok (vec.at i)

-- std::swap(vec[i], vec[j])
unfoldable pub swap : Vector → ℕ → ℕ → Run Vector
swap vec i j = do
  a ← read vec i
  b ← read vec j
  ok (record vec { at = update (update vec.at i b) j a })

-- `child` where it is inside the heap and larger than `largest`
unfoldable pub larger : Vector → ℕ → ℕ → ℕ → Run ℕ
larger vec heapsize child largest =
    if ltb child heapsize
    then (do a ← read vec child; b ← read vec largest; ok (if ltb b a then child else largest))
    else ok largest

unfoldable pub largest_of : Vector → ℕ → ℕ → Run ℕ
largest_of vec index heapsize = do
  l ← left index
  r ← right index
  largest ← larger vec heapsize l index
  larger vec heapsize r largest

unfoldable pub max_heapify : ℕ → Vector → ℕ → ℕ → Run Vector
max_heapify zero vec index heapsize = abort
max_heapify (suc fuel) vec index heapsize = do
  largest ← largest_of vec index heapsize
  if largest == index
      then ok vec
      else (do vec' ← swap vec index largest; max_heapify fuel vec' largest heapsize)

-- the rounds of Heap::init for the indices below `i`, downwards
unfoldable pub init_below : ℕ → Vector → Run Vector
init_below zero vec = ok vec
init_below (suc i) vec = max_heapify (vec.size + 1) vec i vec.size >>= init_below i

unfoldable pub init : Vector → Run Vector
init vec = init_below (vec.size / 2) vec

-- the rounds of heapSort with `i` items left, where `i` is the heap's size too
unfoldable pub sort_below : ℕ → Vector → Run Vector
sort_below zero vec = ok vec
sort_below (suc i) vec = do
  swapped ← swap vec 0 i
  vec' ← max_heapify (i + 1) swapped 0 i
  sort_below i vec'

unfoldable pub heap_sort : Vector → Run Vector
heap_sort vec = init vec >>= λ heap. sort_below heap.size heap
