-- ===== src/BinarySearchTree/Leftmost.antt =====
-- minimum: the node that a chain of left children ends in.
use my_learning.Base.{ℕ, zero, suc, ◌+◌, ◌≡◌, ◌<◌, refl, ap, arith, List, [], ◌∷◌, ◌++◌, Run, ok}
use my_learning.BinarySearchTree.{TreeNode, Tree, node_at, minimum}
use my_learning.BinarySearchTree.Shape.{
  Shape, leaf, node, Context, left_of, plug, top_of, parent_of, inorder, count, times, times_around,
  one, Holds, HoldsAround, IsAt, node_at-IsAt,
}
use my_learning.BinarySearchTree.Walk.{null_false}

-- addresses, keys and right children along a chain of left children, from the top
abbrev pub Chain : Type 0
Chain = List (ℕ × ℕ × Shape)

abbrev pub hang : Chain → Shape → Shape
hang [] s = s
hang ((p, k, r) ∷ ls) s = node (hang ls s) p k r

abbrev pub under : Context → Chain → Context
under c [] = c
under c ((p, k, r) ∷ ls) = under (left_of c p k r) ls

pub record Leftmost (s : Shape) (r : Run ℕ) : Type 0 where
  pub chain : Chain
  pub least : ℕ
  pub key : ℕ
  pub larger : Shape
  pub place : s ≡ hang chain (node leaf least key larger)
  pub found : r ≡ ok least

pub minimum-Leftmost :
    (fuel up : ℕ) (t : Tree) (l : Shape) (p k : ℕ) (r : Shape)
    → count (node l p k r) < fuel
    → Holds t.nodes up (node l p k r)
    → Leftmost (node l p k r) (minimum fuel t p)
unfolding minimum
minimum-Leftmost zero up t l p k r f d = absurd (omega arith)
minimum-Leftmost (suc fuel) up t leaf p k r f (e, m, n) = record {
  chain = [];
  least = p;
  key = k;
  larger = r;
  place = refl;
  found = rw (node_at-IsAt t p k 0 (top_of r) up e) refl;
}
minimum-Leftmost (suc fuel) up t (node l q j s) p k r f (e, m, n) =
    let w = minimum-Leftmost fuel p t l q j s (omega arith) m in
    record {
      chain = (p, k, r) ∷ w.chain;
      least = w.least;
      key = w.key;
      larger = w.larger;
      place = ap (λ z. node z p k r) w.place;
      found =
          rw
            (
              node_at-IsAt t p k q (top_of r) up e,
              null_false t.nodes q j (top_of l) (top_of s) p m.0,
            )
            w.found;
    }

pub inorder-hang :
    (ls : Chain) (m k : ℕ) (r : Shape)
    → inorder (hang ls (node leaf m k r)) ≡ k ∷ inorder (hang ls r)
inorder-hang [] m k r = refl
inorder-hang ((p, j, s) ∷ ls) m k r = ap (λ z. z ++ j ∷ inorder s) (inorder-hang ls m k r)

pub times-hang :
    (a : ℕ) (ls : Chain) (m k : ℕ) (r : Shape)
    → times a (hang ls (node leaf m k r)) ≡ one a m + times a (hang ls r)
times-hang a [] m k r = omega arith
times-hang a ((p, j, s) ∷ ls) m k r = omega (arith, times-hang a ls m k r)

pub times-under :
    (a : ℕ) (c : Context) (ls : Chain) (s : Shape)
    → times_around a (under c ls) + times a s ≡ times_around a c + times a (hang ls s)
times-under a c [] s = refl
times-under a c ((p, j, r) ∷ ls) s = omega (arith, times-under a (left_of c p j r) ls s)

pub count-hang :
    (ls : Chain) (m k : ℕ) (r : Shape) → count (hang ls (node leaf m k r)) ≡ 1 + count (hang ls r)
count-hang [] m k r = omega arith
count-hang ((p, j, s) ∷ ls) m k r = omega (arith, count-hang ls m k r)

module _ (root : ℕ) (h : my_learning.BinarySearchTree.Shape.Store) where
  pub hung :
      (c : Context) (ls : Chain) (s : Shape)
      → HoldsAround root h (under c ls) (top_of s)
      → Holds h (parent_of (under c ls)) s
      → HoldsAround root h c (top_of (hang ls s)) × Holds h (parent_of c) (hang ls s)
  hung c [] s d m = (d, m)
  hung c ((p, k, r) ∷ ls) s d m =
      let ((e, n, f), g) = hung (left_of c p k r) ls s d m in (f, (e, g, n))

  pub unhung :
      (c : Context) (ls : Chain) (s : Shape)
      → HoldsAround root h c (top_of (hang ls s))
      → Holds h (parent_of c) (hang ls s)
      → HoldsAround root h (under c ls) (top_of s) × Holds h (parent_of (under c ls)) s
  unhung c [] s d m = (d, m)
  unhung c ((p, k, r) ∷ ls) s d (e, g, n) = unhung (left_of c p k r) ls s (e, n, d) g

-- the parent of the chain's end is in the chain
pub parent_under :
    (c : Context) (p k : ℕ) (r : Shape) (ls : Chain) (s : Shape)
    → 0 < times (parent_of (under c ((p, k, r) ∷ ls))) (hang ((p, k, r) ∷ ls) s)
parent_under c p k r [] s = ground arith
parent_under c p k r ((q, j, x) ∷ ls) s = omega (arith, parent_under (left_of c p k r) q j x ls s)
