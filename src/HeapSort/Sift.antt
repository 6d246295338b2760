-- ===== src/HeapSort/Sift.antt =====
-- maxHeapfiy mends a heap with one item out of place.
use my_learning.Base.{
  ℕ, zero, suc, ◌+◌, ◌-◌, ◌*◌, ◌/◌, ◌≡◌, ◌≢◌, ◌≤◌, ◌<◌, ◌⊎◌, inl, inr, refl, subst, arith, ltb,
  ◌==◌, lt→ltb, if◌then◌else◌, ok, ◌>>=◌, Bool-cases, if-false,
}
use my_learning.HeapSort.{
  Vector, left, right, read, swap, larger, largest_of, max_heapify, int_limit,
}
use my_learning.HeapSort.Rearranged.{
  IsRearranged, IsRearranged-refl, IsRearranged-trans, swapped, IsRearranged-swapped,
}

abbrev pub parent : ℕ → ℕ
parent c = (c - 1) / 2

-- From `lo` on and below `hi`, no item is larger than its parent.
abbrev pub IsHeap : ℕ → ℕ → Vector → Type 0
IsHeap lo hi v = (c : ℕ) → 0 < c → c < hi → lo ≤ parent c → v.at c ≤ v.at (parent c)

-- The same but for the children of `i`, which are at most `i`'s parent.
pub record IsHeapBut (lo hi i : ℕ) (v : Vector) : Type 0 where
  pub edges : (c : ℕ) → 0 < c → c < hi → lo ≤ parent c → parent c ≢ i → v.at c ≤ v.at (parent c)
  pub bridged :
      (c : ℕ) → 0 < c → c < hi → parent c ≡ i → 0 < i → lo ≤ parent i → v.at c ≤ v.at (parent i)

-- the largest of `i` and its children below `hi`
record IsLargest (hi i m : ℕ) (v : Vector) : Type 0 where
  place : (m ≡ i) ⊎ ((m < hi) × ((m ≡ 2 * i + 1) ⊎ (m ≡ 2 * i + 2)))
  below : (m ≡ i) ⊎ (v.at i < v.at m)
  most : (c : ℕ) → 0 < c → c < hi → parent c ≡ i → v.at c ≤ v.at m

-- what a call of maxHeapfiy leaves
pub record IsMended (lo hi : ℕ) (v w : Vector) : Type 0 where
  pub heap : IsHeap lo hi w
  pub rearranged : IsRearranged v w
  pub rest : (j : ℕ) → hi ≤ j → w.at j ≡ v.at j
  pub bound : (u : ℕ) → ((j : ℕ) → j < hi → v.at j ≤ u) → (j : ℕ) → j < hi → w.at j ≤ u

larger_out : (v : Vector) (hi c m : ℕ) → hi ≤ c → larger v hi c m ≡ ok m
unfolding larger
larger_out v hi c m h =
    if-false (ltb c hi) (do a ← read v c; b ← read v m; ok (if ltb b a then c else m)) (ok m)
      (ground arith)

larger_in :
    (v : Vector) (hi c m : ℕ)
    → c < hi
    → hi ≤ v.size
    → m < v.size
    → larger v hi c m ≡ ok (if ltb (v.at m) (v.at c) then c else m)
unfolding larger read
larger_in v hi c m h k l = rw (lt→ltb c hi h, lt→ltb c v.size (omega arith), lt→ltb m v.size l) refl

pub swap_lem : (v : Vector) (i j : ℕ) → i < v.size → j < v.size → swap v i j ≡ ok (swapped v i j)
unfolding swap read
swap_lem v i j hi hj = rw (lt→ltb i v.size hi, lt→ltb j v.size hj) refl

children : (i : ℕ) → i < 0x3fffffff → (left i ≡ ok (i * 2 + 1)) × (right i ≡ ok (i * 2 + 2))
unfolding left right
children i h = (
  rw (lt→ltb (i * 2 + 1) int_limit (omega arith)) refl,
  rw (lt→ltb (i * 2 + 2) int_limit (omega arith)) refl,
)

largest_of_lem :
    (hi i : ℕ) (v : Vector)
    → hi ≤ v.size
    → i < 0x3fffffff
    → (m : ℕ) × (largest_of v i hi ≡ ok m) × IsLargest hi i m v
unfolding largest_of
largest_of_lem hi i v h k =
    let (l, r) = children i k in
    elim (Bool-cases (ltb (i * 2 + 2) hi)) [
      | inl e ↦
          let m : ℕ = if ltb (v.at i) (v.at (i * 2 + 1)) then i * 2 + 1 else i in
          let n : ℕ = if ltb (v.at m) (v.at (i * 2 + 2)) then i * 2 + 2 else m in
          (
            n,
            rw (l, r, larger_in v hi (i * 2 + 1) i (ground arith) h (ground arith))
                (larger_in v hi (i * 2 + 2) m (ground arith) h (ground arith)),
            record { place = ground arith; below = ground arith; most = λ c p q s. ground arith },
          )
      | inr e ↦ elim (Bool-cases (ltb (i * 2 + 1) hi)) [
        | inl f ↦
            let m : ℕ = if ltb (v.at i) (v.at (i * 2 + 1)) then i * 2 + 1 else i in
            (
              m,
              rw (l, r, larger_in v hi (i * 2 + 1) i (ground arith) h (ground arith))
                  (larger_out v hi (i * 2 + 2) m (ground arith)),
              record { place = ground arith; below = ground arith; most = λ c p q s. ground arith },
            )
        | inr f ↦ (
          i,
          rw (l, r, larger_out v hi (i * 2 + 1) i (ground arith))
              (larger_out v hi (i * 2 + 2) i (ground arith)),
          record { place = inl refl; below = inl refl; most = λ c p q s. absurd (ground arith) },
        )
      ]
    ]

swapped-IsHeapBut :
    (lo hi i m : ℕ) (v : Vector)
    → IsHeapBut lo hi i v
    → IsLargest hi i m v
    → m ≢ i
    → IsHeapBut lo hi m (swapped v i m)
swapped-IsHeapBut lo hi i m v b s ne = record {
  edges = λ c p q r t. ground (arith, b.edges c p q r, b.bridged m, s.most c p q, s.place, s.below);
  bridged = λ c p q r t u. ground (arith, b.edges c p q, s.place, s.below, u);
}

swapped-IsMended :
    (lo hi i m : ℕ) (v w : Vector)
    → hi ≤ v.size
    → IsLargest hi i m v
    → m ≢ i
    → IsMended lo hi (swapped v i m) w
    → IsMended lo hi v w
swapped-IsMended lo hi i m v w h s ne d =
    let inside : (i < hi) × (m < hi) = ground (arith, s.place) in
    record {
      heap = d.heap;
      rearranged =
          IsRearranged-trans (IsRearranged-swapped v i m (omega arith) (omega arith)) d.rearranged;
      rest = λ j k. ground (arith, d.rest j k);
      bound =
          λ u f j k. d.bound u (λ j' k'. ground (arith, f j' k', f i inside.0, f m inside.1)) j k;
    }

settled-IsMended :
    (lo hi i : ℕ) (v : Vector) → IsHeapBut lo hi i v → IsLargest hi i i v → IsMended lo hi v v
settled-IsMended lo hi i v b s = record {
  heap = λ c p q r. ground (arith, b.edges c p q r, s.most c p q);
  rearranged = IsRearranged-refl v;
  rest = λ j k. refl;
  bound = λ u f j k. f j k;
}

pub max_heapify_mends :
    (fuel lo hi i : ℕ) (v : Vector)
    → hi - i < fuel
    → hi ≤ v.size
    → v.size < 0x40000000
    → i < 0x3fffffff
    → IsHeapBut lo hi i v
    → (w : Vector) × (max_heapify fuel v i hi ≡ ok w) × IsMended lo hi v w
unfolding max_heapify
max_heapify_mends zero lo hi i v f h k l b = absurd (omega arith)
max_heapify_mends (suc fuel) lo hi i v f h k l b =
    let (m, e, s) = largest_of_lem hi i v h l in
    elim (Bool-cases (m == i)) [
      | inl same ↦ (
        v,
        rw (e, same) refl,
        settled-IsMended lo hi i v b (subst (λ x. IsLargest hi i x v) (ground (arith, same)) s),
      )
      | inr other ↦
          let inside : (i < m) × (m < hi) = ground (arith, s.place, other) in
          let ne : m ≢ i = omega arith in
          let (w, r, d) =
            max_heapify_mends fuel lo hi m (swapped v i m) (omega arith) h k (omega arith)
              (swapped-IsHeapBut lo hi i m v b s ne) in
          (
            w,
            rw (e, other, swap_lem v i m (omega arith) (omega arith)) r,
            swapped-IsMended lo hi i m v w h s ne d,
          )
    ]
