-- ===== src/BinarySearchTree/Shape/Stores.antt =====
-- A store of nodes that holds a tree.
use my_learning.Base.{
  ℕ, ◌≡◌, ◌≢◌, ◌≤◌, ◌<◌, refl, ◌∙◌, arith, Option, none, some, List, ◌==◌, update, ok, abort,
  if-false,
}
use my_learning.BinarySearchTree.{TreeNode, Tree, node_at}
use my_learning.BinarySearchTree.Keys.{IsAscending}
use my_learning.BinarySearchTree.Shape.Forms.{
  Shape, Context, top_of, parent_of, plug, inorder, times, times_around, leaf, node, top, left_of,
  right_of,
}

abbrev pub Store : Type 0
Store = ℕ → Option TreeNode

-- the store has a node at `p`
pub record IsAt (h : Store) (p k l r up : ℕ) : Type 0 where
  pub not_null : p ≢ 0
  pub holds : h p ≡ some (record { data_ = k; left = l; right = r; parent = up })

-- the store holds a shape, whose top has the parent `up`
abbrev pub Holds : Store → ℕ → Shape → Type 0
Holds h up leaf = Unit
Holds h up (node l p k r) = IsAt h p k (top_of l) (top_of r) up × Holds h p l × Holds h p r

-- the store holds what is around a hole, with the pointer `x` where the hole is
abbrev pub HoldsAround : ℕ → Store → Context → ℕ → Type 0
HoldsAround root h top x = root ≡ x
HoldsAround root h (left_of c p k r) x =
    IsAt h p k x (top_of r) (parent_of c) × Holds h p r × HoldsAround root h c p
HoldsAround root h (right_of l p k c) x =
    IsAt h p k (top_of l) x (parent_of c) × Holds h p l × HoldsAround root h c p

-- Every node of the store is one of the shape's, once.
pub record IsTree (t : Tree) (s : Shape) : Type 0 where
  pub root : t.root ≡ top_of s
  pub holds : Holds t.nodes 0 s
  pub once : (a : ℕ) → times a s ≤ 1
  pub only : (a : ℕ) → times a s ≡ 0 → t.nodes a ≡ none

-- the tree stands for the ascending list of its keys
pub record Stands (t : Tree) (xs : List ℕ) : Type 0 where
  pub shape : Shape
  pub is_tree : IsTree t shape
  pub keys : inorder shape ≡ xs
  pub ascending : IsAscending xs

pub update_same {ℓ} : {A : Type ℓ} (f : ℕ → A) (i : ℕ) (v : A) → update f i v i ≡ v
update_same f i v = ground arith

pub update_other {ℓ} : {A : Type ℓ} (f : ℕ → A) (i j : ℕ) (v : A) → j ≢ i → update f i v j ≡ f j
update_other f i j v ne = ground (arith, ne)

pub update_twice {ℓ} :
    {A : Type ℓ} (f : ℕ → A) (i : ℕ) (v w : A) (j : ℕ)
    → update (update f i v) i w j ≡ update f i w j
update_twice f i v w j = ground arith

pub frame :
    (h g : Store) (up : ℕ) (s : Shape)
    → Holds h up s
    → ((a : ℕ) → 0 < times a s → g a ≡ h a)
    → Holds g up s
frame h g up leaf d same = tt
frame h g up (node l p k r) (e, m, n) same = (
  record { not_null = e.not_null; holds = same p (ground arith) ∙ e.holds },
  frame h g p l m λ a i. same a (omega arith),
  frame h g p r n λ a i. same a (omega arith),
)

pub frame_around :
    (root : ℕ) (h g : Store) (c : Context) (x : ℕ)
    → HoldsAround root h c x
    → ((a : ℕ) → 0 < times_around a c → g a ≡ h a)
    → HoldsAround root g c x
frame_around root h g top x d same = d
frame_around root h g (left_of c p k r) x (e, m, n) same = (
  record { not_null = e.not_null; holds = same p (ground arith) ∙ e.holds },
  frame h g p r m λ a i. same a (omega arith),
  frame_around root h g c p n λ a i. same a (omega arith),
)
frame_around root h g (right_of l p k c) x (e, m, n) same = (
  record { not_null = e.not_null; holds = same p (ground arith) ∙ e.holds },
  frame h g p l m λ a i. same a (omega arith),
  frame_around root h g c p n λ a i. same a (omega arith),
)

-- a store holds a plugged shape as it holds both parts
pub plugged :
    (root : ℕ) (h : Store) (c : Context) (s : Shape)
    → HoldsAround root h c (top_of s)
    → Holds h (parent_of c) s
    → (root ≡ top_of (plug c s)) × Holds h 0 (plug c s)
plugged root h top s d m = (d, m)
plugged root h (left_of c p k r) s (e, n, d) m = plugged root h c (node s p k r) d (e, m, n)
plugged root h (right_of l p k c) s (e, n, d) m = plugged root h c (node l p k s) d (e, n, m)

pub unplugged :
    (root : ℕ) (h : Store) (c : Context) (s : Shape)
    → root ≡ top_of (plug c s)
    → Holds h 0 (plug c s)
    → HoldsAround root h c (top_of s) × Holds h (parent_of c) s
unplugged root h top s d m = (d, m)
unplugged root h (left_of c p k r) s d m =
    let (n, (e, f, g)) = unplugged root h c (node s p k r) d m in ((e, g, n), f)
unplugged root h (right_of l p k c) s d m =
    let (n, (e, f, g)) = unplugged root h c (node l p k s) d m in ((e, f, n), g)

pub node_at-IsAt :
    (t : Tree) (p k l r up : ℕ)
    → IsAt t.nodes p k l r up
    → node_at t p ≡ ok (record { data_ = k; left = l; right = r; parent = up })
unfolding node_at
node_at-IsAt t p k l r up e =
    if-false (p == 0) abort _ (ground (arith, e.not_null)) ∙ rw e.holds refl

-- a node at an address is not a free one
pub times-Holds : (h : Store) (up a : ℕ) (s : Shape) → Holds h up s → h a ≡ none → times a s ≡ 0
times-Holds h up a leaf d e = refl
times-Holds h up a (node l p k r) (f, m, n) e =
    ground (arith, f.holds, e, times-Holds h p a l m e, times-Holds h p a r n e)

pub times_null : (h : Store) (up : ℕ) (s : Shape) → Holds h up s → times 0 s ≡ 0
times_null h up leaf d = refl
times_null h up (node l p k r) (f, m, n) =
    ground (arith, f.not_null, times_null h p l m, times_null h p r n)

-- a new pointer where the hole is
abbrev pub pointed : Tree → Context → ℕ → Tree
pointed t top x = record t { root = x }
pointed t (left_of c p k r) x = record t {
  nodes =
      update t.nodes p
        (some (record { data_ = k; left = x; right = top_of r; parent = parent_of c }));
}
pointed t (right_of l p k c) x = record t {
  nodes =
      update t.nodes p
        (some (record { data_ = k; left = top_of l; right = x; parent = parent_of c }));
}

pub HoldsAround-pointed :
    (t : Tree) (c : Context) (x y : ℕ)
    → HoldsAround t.root t.nodes c y
    → ((a : ℕ) → times_around a c ≤ 1)
    → HoldsAround (pointed t c x).root (pointed t c x).nodes c x
HoldsAround-pointed t top x y d u = refl
HoldsAround-pointed t (left_of c p k r) x y (e, m, n) u =
    let t' = pointed t (left_of c p k r) x in
    (
      record { not_null = e.not_null; holds = ground arith },
      frame t.nodes t'.nodes p r m λ a i. ground (arith, u a, i),
      frame_around t.root t.nodes t'.nodes c p n λ a i. ground (arith, u a, i),
    )
HoldsAround-pointed t (right_of l p k c) x y (e, m, n) u =
    let t' = pointed t (right_of l p k c) x in
    (
      record { not_null = e.not_null; holds = ground arith },
      frame t.nodes t'.nodes p l m λ a i. ground (arith, u a, i),
      frame_around t.root t.nodes t'.nodes c p n λ a i. ground (arith, u a, i),
    )

pub pointed-other :
    (t : Tree) (c : Context) (x a : ℕ) → times_around a c ≡ 0 → (pointed t c x).nodes a ≡ t.nodes a
pointed-other t top x a h = refl
pointed-other t (left_of c p k r) x a h = ground (arith, h)
pointed-other t (right_of l p k c) x a h = ground (arith, h)
