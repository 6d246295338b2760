-- ===== src/BinarySearchTree/Place.antt =====
-- Where insert puts a key: the end of its loop, and the link to the new node.
use my_learning.Base.{
  ℕ, zero, suc, ◌≡◌, ◌≤◌, ◌<◌, inl, inr, refl, sym, subst, arith, false, [], ◌∷◌, ◌++◌, All, ltb,
  ◌==◌, if◌then◌else◌, Run, ok, ◌>>=◌, Bool-cases, ltb→lt, lt→ltb,
}
use my_learning.BinarySearchTree.{Tree, node_at, set_left, set_right, descend}
use my_learning.BinarySearchTree.Keys.{
  IsAscending, IsAscending-around, IsAscending-parts, StartsAbove, All-mono, All-append,
}
use my_learning.BinarySearchTree.Shape.{
  Shape, leaf, node, Context, top, left_of, right_of, plug, top_of, parent_of, inorder, before,
  after, count, Holds, HoldsAround, node_at-IsAt, pointed,
}
use my_learning.BinarySearchTree.Walk.{null_false}

-- the hole is on the side of its parent where the key belongs
abbrev pub Side : ℕ → Context → Type 0
Side key top = Unit
Side key (left_of c p k r) = key < k
Side key (right_of l p k c) = k ≤ key

-- a hole where the key belongs
pub record IsPlace (key : ℕ) (c : Context) : Type 0 where
  pub low : All (λ x. x ≤ key) (before c)
  pub high : StartsAbove key (after c)
  pub side : Side key c

-- where the loop of insert ends
pub record Landed (whole : Shape) (key : ℕ) (r : Run ℕ) : Type 0 where
  pub context : Context
  pub whole_is : whole ≡ plug context leaf
  pub ends : r ≡ ok (parent_of context)
  pub is_place : IsPlace key context

pub descend-Holds :
    (fuel up key : ℕ) (t : Tree) (c : Context) (s : Shape)
    → count s < fuel
    → Holds t.nodes up s
    → IsAscending (inorder s)
    → IsPlace key c
    → Landed (plug c s) key (descend fuel t key (parent_of c) (top_of s))
unfolding descend
descend-Holds zero up key t c s f d a v = absurd (omega arith)
descend-Holds (suc fuel) up key t c leaf f d a v = record {
  context = c;
  whole_is = refl;
  ends = refl;
  is_place = v;
}
descend-Holds (suc fuel) up key t c (node l p k r) f (e, m, n) a v =
    let nf = null_false t.nodes p k (top_of l) (top_of r) up e in
    let at = node_at-IsAt t p k (top_of l) (top_of r) up e in
    let (low, high) = IsAscending-around k (inorder l) (inorder r) a in
    let (al, ar) = IsAscending-parts k (inorder l) (inorder r) a in
    elim (Bool-cases (ltb key k)) [
      | inl x ↦ subst (Landed (plug c (node l p k r)) key) (sym (rw (nf, at, x) refl)) (
          descend-Holds fuel p key t (left_of c p k r) l (omega arith) m al
            (record { low = v.low; high = ltb→lt key k x; side = ltb→lt key k x }))
      | inr x ↦
          let le : k ≤ key = ground (arith, x) in
          subst (Landed (plug c (node l p k r)) key) (sym (rw (nf, at, x) refl)) (
            descend-Holds fuel p key t (right_of l p k c) r (omega arith) n ar (record {
              low =
                  All-append (λ x. x ≤ key) (before c) (inorder l ++ k ∷ []) v.low
                    (All-append (λ x. x ≤ key) (inorder l) (k ∷ [])
                      (All-mono (λ x. x ≤ key) (inorder l) (λ x h. omega (arith, h, le)) low)
                      (le, tt));
              high = v.high;
              side = le;
            }))
    ]

-- the end of insert
abbrev pub link : Tree → ℕ → ℕ → ℕ → Run Tree
link t key p x =
    if p == 0
    then ok (record t { root = x })
    else (do n ← node_at t p; if ltb key n.data_ then set_left t p x else set_right t p x)

pub link-pointed :
    (t : Tree) (key x : ℕ) (c : Context) (y : ℕ)
    → HoldsAround t.root t.nodes c y
    → Side key c
    → link t key (parent_of c) x ≡ ok (pointed t c x)
unfolding set_left set_right
link-pointed t key x top y d h = refl
link-pointed t key x (left_of c p k r) y (e, m, n) h =
    rw
      (
        null_false t.nodes p k y (top_of r) (parent_of c) e,
        node_at-IsAt t p k y (top_of r) (parent_of c) e,
        lt→ltb key k h,
      )
      refl
link-pointed t key x (right_of l p k c) y (e, m, n) h =
    let no : ltb key k ≡ false = ground (arith, h) in
    rw
      (
        null_false t.nodes p k (top_of l) y (parent_of c) e,
        node_at-IsAt t p k (top_of l) y (parent_of c) e,
        no,
      )
      refl
