-- ===== src/HeapSort/Rearranged.antt =====
-- Vectors that are rearrangements of each other.
use my_learning.Base.{ℕ, ◌≡◌, ◌<◌, refl, ◌∙◌, arith, update}
use my_learning.HeapSort.{Vector}

-- `w` has the items of `v`, each as often as `v`: `to` says which item of `v` stands where
pub record IsRearranged (v w : Vector) : Type 0 where
  pub size : w.size ≡ v.size
  pub to : ℕ → ℕ
  pub from : ℕ → ℕ
  pub to_from : (i : ℕ) → to (from i) ≡ i
  pub from_to : (i : ℕ) → from (to i) ≡ i
  pub to_inside : (i : ℕ) → i < v.size → to i < v.size
  pub from_inside : (i : ℕ) → i < v.size → from i < v.size
  pub items : (i : ℕ) → w.at i ≡ v.at (to i)

pub IsRearranged-refl : (v : Vector) → IsRearranged v v
IsRearranged-refl v = record {
  size = refl;
  to = λ i. i;
  from = λ i. i;
  to_from = λ i. refl;
  from_to = λ i. refl;
  to_inside = λ i h. h;
  from_inside = λ i h. h;
  items = λ i. refl;
}

pub IsRearranged-trans : {v w x : Vector} → IsRearranged v w → IsRearranged w x → IsRearranged v x
IsRearranged-trans {v} {w} {x} p q = record {
  size = q.size ∙ p.size;
  to = λ i. p.to (q.to i);
  from = λ i. q.from (p.from i);
  to_from = λ i. rw (q.to_from (p.from i)) (p.to_from i);
  from_to = λ i. rw (p.from_to (q.to i)) (q.from_to i);
  to_inside =
      λ i h. p.to_inside (q.to i) (omega (arith, p.size, q.to_inside i (omega (arith, p.size, h))));
  from_inside = λ i h.
      omega (arith, p.size, q.from_inside (p.from i) (omega (arith, p.size, p.from_inside i h)));
  items = λ i. q.items i ∙ p.items (q.to i);
}

abbrev pub swapped : Vector → ℕ → ℕ → Vector
swapped v i j = record v { at = update (update v.at i (v.at j)) j (v.at i) }

pub IsRearranged-swapped :
    (v : Vector) (i j : ℕ) → i < v.size → j < v.size → IsRearranged v (swapped v i j)
IsRearranged-swapped v i j hi hj =
    let turn : ℕ → ℕ = update (update (λ k. k) i j) j i in
    let twice : (k : ℕ) → turn (turn k) ≡ k = λ k. ground arith in
    record {
      size = refl;
      to = turn;
      from = turn;
      to_from = twice;
      from_to = twice;
      to_inside = λ k h. ground arith;
      from_inside = λ k h. ground arith;
      items = λ k. ground arith;
    }
