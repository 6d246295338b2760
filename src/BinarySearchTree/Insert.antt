-- ===== src/BinarySearchTree/Insert.antt =====
-- insert.
use my_learning.Base.{
  ℕ, suc, ◌≡◌, ◌≢◌, ◌≤◌, ◌<◌, refl, ap, sym, ◌∙◌, subst, arith, none, some, List, update, ok,
}
use my_learning.BinarySearchTree.{TreeNode, Tree, write, set_parent, descend, insert}
use my_learning.BinarySearchTree.Keys.{IsAscending, put, put-append, IsAscending-put}
use my_learning.BinarySearchTree.Shape.{
  leaf, node, Context, top, plug, parent_of, inorder, before, after, count, times, times_around,
  HoldsAround, IsAt, IsTree, Stands, node_at-IsAt, frame, unplugged, plugged, inorder-plug,
  times-plug, one_other, times-Holds, update_same, update_other, update_twice, times_apart,
  once_plug, only_plug, count-plug, pointed, HoldsAround-pointed, pointed-other,
}
use my_learning.BinarySearchTree.Place.{descend-Holds, link-pointed}

-- a store with a node at a new address, and nothing else new
IsTree-pointed :
    (t t₂ : Tree) (c : Context) (new_node key : ℕ)
    → IsTree t (plug c leaf)
    → new_node ≢ 0
    → t.nodes new_node ≡ none
    → t₂.root ≡ t.root
    → ((a : ℕ)
        → t₂.nodes a
          ≡ update t.nodes new_node
              (some (record { data_ = key; left = 0; right = 0; parent = parent_of c }))
              a)
    → HoldsAround t₂.root t₂.nodes c 0
      × IsTree (pointed t₂ c new_node) (plug c (node leaf new_node key leaf))
IsTree-pointed t t₂ c new_node key i ne free root₂ nodes₂ =
    let fresh : TreeNode = record { data_ = key; left = 0; right = 0; parent = parent_of c } in
    let unused = times-Holds t.nodes 0 new_node (plug c leaf) i.holds free in
    let around_times : (a : ℕ) → times_around a c ≡ times a (plug c leaf) =
      λ a. omega (arith, times-plug a c leaf) in
    let same : (a : ℕ) → a ≢ new_node → t₂.nodes a ≡ t.nodes a =
      λ a h. nodes₂ a ∙ update_other t.nodes new_node a (some fresh) h in
    let whole =
      frame t.nodes t₂.nodes 0 (plug c leaf) i.holds
        λ a h. same a (times_apart new_node a (plug c leaf) unused h) in
    let (around, _) = unplugged t₂.root t₂.nodes c leaf (root₂ ∙ i.root) whole in
    let d =
      HoldsAround-pointed t₂ c new_node 0 around
        (λ a. subst (λ z. z ≤ 1) (sym (around_times a)) (i.once a)) in
    let at : IsAt (pointed t₂ c new_node).nodes new_node key 0 0 (parent_of c) = record {
      not_null = ne;
      holds =
          pointed-other t₂ c new_node new_node (around_times new_node ∙ unused)
          ∙ nodes₂ new_node
          ∙ update_same t.nodes new_node (some fresh);
    } in
    let t₃ = pointed t₂ c new_node in
    let (r, h) = plugged t₃.root t₃.nodes c (node leaf new_node key leaf) d (at, tt, tt) in
    (
      around,
      record {
        root = r;
        holds = h;
        once = λ a.
            once_plug new_node key a c (around_times new_node ∙ unused)
              (subst (λ z. z ≤ 1) (sym (around_times a)) (i.once a));
        only = λ a e.
            let (out, other) = only_plug new_node key a c e in
            pointed-other t₂ c new_node a out
            ∙ same a other
            ∙ i.only a (sym (around_times a) ∙ out);
      },
    )

-- Given enough fuel and a new address, insert leaves a search tree that stands for the list with the
-- key put in behind the keys that are not larger, and that has one node more, the new one.
pub insert_lem :
    (fuel new_node key : ℕ) (t : Tree) (xs : List ℕ) (v : Stands t xs)
    → count v.shape < fuel
    → new_node ≢ 0
    → t.nodes new_node ≡ none
    → (t' : Tree) × (w : Stands t' (put key xs)) × (insert fuel new_node key t ≡ ok t')
      × (count w.shape ≡ suc (count v.shape))
      × ((a : ℕ) → a ≢ new_node → times a w.shape ≡ times a v.shape)
unfolding insert set_parent
insert_lem fuel new_node key t xs v f ne free =
    let i = v.is_tree in
    let s = v.shape in
    let t₁ = write t new_node (record { data_ = key; left = 0; right = 0; parent = 0 }) in
    let unused = times-Holds t.nodes 0 new_node s i.holds free in
    let held =
      frame t.nodes t₁.nodes 0 s i.holds
        λ a h. update_other t.nodes new_node a _ (times_apart new_node a s unused h) in
    let l =
      descend-Holds fuel 0 key t₁ top s f held (subst IsAscending (sym v.keys) v.ascending)
        (record { low = tt; high = tt; side = tt }) in
    let c = l.context in
    let t₂ =
      write t₁ new_node (record { data_ = key; left = 0; right = 0; parent = parent_of c }) in
    let (around, j) =
      IsTree-pointed t t₂ c new_node key (subst (IsTree t) l.whole_is i) ne free refl
        (λ a. update_twice t.nodes new_node _ _ a) in
    let at =
      node_at-IsAt t₁ new_node key 0 0 0
        (record { not_null = ne; holds = update_same t.nodes new_node _ }) in
    let ends = ap (descend fuel t₁ key 0) i.root ∙ l.ends in
    (
      pointed t₂ c new_node,
      record {
        shape = plug c (node leaf new_node key leaf);
        is_tree = j;
        keys =
            inorder-plug c (node leaf new_node key leaf)
            ∙ sym (put-append key (before c) (after c) l.is_place.low l.is_place.high)
            ∙ ap (put key) (sym (inorder-plug c leaf) ∙ ap inorder (sym l.whole_is) ∙ v.keys);
        ascending = IsAscending-put key xs v.ascending;
      },
      rw (ends, at) (link-pointed t₂ key new_node c 0 around l.is_place.side),
      omega (
        arith,
        count-plug c (node leaf new_node key leaf),
        count-plug c leaf,
        ap count l.whole_is,
      ),
      λ a other. omega (
        arith,
        times-plug a c (node leaf new_node key leaf),
        times-plug a c leaf,
        ap (times a) l.whole_is,
        one_other a new_node other,
      ),
    )
