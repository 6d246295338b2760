-- ===== src/BinarySearchTree/Find.antt =====
-- search and minimum.
use my_learning.Base.{
  ℕ, zero, suc, ◌≡◌, ◌≢◌, ◌<◌, ◌⊎◌, inl, inr, refl, ap, sym, ◌∙◌, subst, arith, true, false, List,
  ◌∷◌, ◌++◌, ltb, ◌==◌, Run, ok, Bool-cases, ltb→lt,
}
use my_learning.BinarySearchTree.{TreeNode, Tree, node_at, search_from, search}
use my_learning.BinarySearchTree.Keys.{
  IsAscending, member, IsAscending-around, member_right, member_left, member_middle,
  IsAscending-parts,
}
use my_learning.BinarySearchTree.Shape.{
  Shape, leaf, node, Context, top, left_of, right_of, plug, top_of, parent_of, inorder, count,
  Holds, IsTree, Stands, node_at-IsAt, unplugged, inorder-plug, HoldsAround, before, after,
}
use my_learning.BinarySearchTree.Walk.{null_false}

-- a node with the key in a plugged shape
pub record Found (whole : Shape) (p key : ℕ) : Type 0 where
  pub context : Context
  pub smaller : Shape
  pub larger : Shape
  pub place : whole ≡ plug context (node smaller p key larger)

-- what a search from the top of `s` gives
abbrev pub Searched : Run ℕ → Context → Shape → ℕ → Type 0
Searched r c s key =
    ((r ≡ ok 0) × (member key (inorder s) ≡ false))
    ⊎ ((p : ℕ) × (r ≡ ok p) × (p ≢ 0) × Found (plug c s) p key)

search_from-Holds :
    (fuel up key : ℕ) (t : Tree) (c : Context) (s : Shape)
    → count s < fuel
    → Holds t.nodes up s
    → IsAscending (inorder s)
    → Searched (search_from fuel t key (top_of s)) c s key
unfolding search_from
search_from-Holds zero up key t c s f d a = absurd (omega arith)
search_from-Holds (suc fuel) up key t c leaf f d a = inl (refl, refl)
search_from-Holds (suc fuel) up key t c (node l p k r) f (e, m, n) a =
    let nf = null_false t.nodes p k (top_of l) (top_of r) up e in
    let at = node_at-IsAt t p k (top_of l) (top_of r) up e in
    let (low, high) = IsAscending-around k (inorder l) (inorder r) a in
    let (al, ar) = IsAscending-parts k (inorder l) (inorder r) a in
    elim (Bool-cases (k == key)) [
      | inl x ↦
          let same : k ≡ key = ground (arith, x) in
          inr (
            p,
            rw (nf, at, x) refl,
            e.not_null,
            record { context = c; smaller = l; larger = r; place = rw same refl },
          )
      | inr x ↦ elim (Bool-cases (ltb k key)) [
        | inl y ↦
            subst (λ z. Searched z c (node l p k r) key) (sym (rw (nf, at, x, y) refl))
              (elim (search_from-Holds fuel p key t (right_of l p k c) r (omega arith) n ar) [
                | inl (g, h) ↦
                    inl (g, member_right key k (inorder l) (inorder r) low (ltb→lt k key y) ∙ h)
                | inr found ↦ inr found
              ])
        | inr y ↦
            subst (λ z. Searched z c (node l p k r) key) (sym (rw (nf, at, x, y) refl))
              (elim (search_from-Holds fuel p key t (left_of c p k r) l (omega arith) m al) [
                | inl (g, h) ↦
                    inl
                      (g, member_left key k (inorder l) (inorder r) high (ground (arith, x, y)) ∙ h)
                | inr found ↦ inr found
              ])
      ]
    ]

pub search-Searched :
    (fuel key : ℕ) (t : Tree) (xs : List ℕ) (v : Stands t xs)
    → count v.shape < fuel
    → Searched (search fuel key t) top v.shape key
unfolding search
search-Searched fuel key t xs v f =
    subst (λ z. Searched (search_from fuel t key z) top v.shape key) (sym v.is_tree.root)
      (search_from-Holds fuel 0 key t top v.shape f v.is_tree.holds
        (subst IsAscending (sym v.keys) v.ascending))

-- what the store holds around a found node
pub held :
    (t : Tree) (s : Shape) (p key : ℕ)
    → IsTree t s
    → (w : Found s p key)
    → HoldsAround t.root t.nodes w.context p
      × Holds t.nodes (parent_of w.context) (node w.smaller p key w.larger)
held t s p key i w =
    unplugged t.root t.nodes w.context (node w.smaller p key w.larger) (i.root ∙ ap top_of w.place)
      (subst (Holds t.nodes 0) w.place i.holds)

Found-keys :
    (s : Shape) (p key : ℕ) (w : Found s p key)
    → inorder s
      ≡ before w.context ++ (inorder w.smaller ++ key ∷ inorder w.larger ++ after w.context)
Found-keys s p key w = ap inorder w.place ∙ inorder-plug w.context (node w.smaller p key w.larger)

-- Given enough fuel, search ends with a node of the asked key, or with the null pointer exactly when
-- the key is not in the list that the tree stands for.
pub search_lem :
    (fuel key : ℕ) (t : Tree) (xs : List ℕ) (v : Stands t xs)
    → count v.shape < fuel
    → ((search fuel key t ≡ ok 0) × (member key xs ≡ false))
      ⊎ ((p : ℕ) × (n : TreeNode) × (search fuel key t ≡ ok p)
          × (node_at t p ≡ ok n)
          × (n.data_ ≡ key)
          × (member key xs ≡ true))
search_lem fuel key t xs v f = elim (search-Searched fuel key t xs v f) [
  | inl (e, m) ↦ inl (e, ap (member key) (sym v.keys) ∙ m)
  | inr (p, e, ne, w) ↦
      let (around, (at, _, _)) = held t v.shape p key v.is_tree w in
      inr (
        p,
        _,
        e,
        node_at-IsAt t p key (top_of w.smaller) (top_of w.larger) (parent_of w.context) at,
        refl,
        ap (member key) (sym v.keys ∙ Found-keys v.shape p key w)
            ∙ member_middle key (before w.context) (inorder w.smaller) (inorder w.larger)
                (after w.context),
      )
]
