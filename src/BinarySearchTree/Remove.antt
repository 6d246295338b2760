-- ===== src/BinarySearchTree/Remove.antt =====
-- remove.
use my_learning.Base.{
  ℕ, ◌⊎◌, ◌+◌, ◌≡◌, ◌≢◌, ◌≤◌, ◌<◌, inl, inr, refl, ap, sym, ◌∙◌, subst, arith, true, false, none,
  List, ◌++◌, update, if◌then◌else◌, ok, ℕ_discrete,
}
use my_learning.BinarySearchTree.{Tree, search, remove, free}
use my_learning.BinarySearchTree.Keys.{
  IsAscending, member, take_out, take_out_absent, take_out_middle, member_middle,
  IsAscending-take_out,
}
use my_learning.BinarySearchTree.Shape.{
  Shape, node, Context, plug, top_of, parent_of, inorder, before, after, count, times, times_around,
  one, IsTree, Stands, node_at-IsAt, frame, frame_around, plugged, times-plug, inorder-plug,
  count-plug, update_same, update_other, times_apart, one_other,
}
use my_learning.BinarySearchTree.Walk.{free-IsAt}
use my_learning.BinarySearchTree.Find.{Found, search-Searched, held}
use my_learning.BinarySearchTree.Detach.{one_self, around_apart}
use my_learning.BinarySearchTree.Replace.{IsUnlinked}
use my_learning.BinarySearchTree.Unlink.{==_false, unlink-Unlinked}

-- the node is deleted, and a tree is left
free-IsUnlinked :
    (t t' : Tree) (c : Context) (p : ℕ) (s : Shape)
    → IsUnlinked t t' c p s
    → ((a : ℕ) → times_around a c + one a p + times a s ≤ 1)
    → ((a : ℕ) → times_around a c + one a p + times a s ≡ 0 → t.nodes a ≡ none)
    → (t'' : Tree) × (free t' p ≡ ok t'') × IsTree t'' (plug c s)
free-IsUnlinked t t' c p s i u out =
    let (k, l, r, up, at) = i.target in
    let t'' : Tree = record t' { nodes = update t'.nodes p none } in
    let self = one_self p in
    let away : times_around p c ≡ 0 = omega (arith, u p, self) in
    let apart : times p s ≡ 0 = omega (arith, u p, self) in
    let d =
      frame_around t'.root t'.nodes t''.nodes c (top_of s) i.around
        λ a h. update_other t'.nodes p a none (around_apart a p c away h) in
    let m =
      frame t'.nodes t''.nodes (parent_of c) s i.holds
        λ a h. update_other t'.nodes p a none (times_apart p a s apart h) in
    let (root, whole) = plugged t''.root t''.nodes c s d m in
    (
      t'',
      free-IsAt t' p k l r up at,
      record {
        root = root;
        holds = whole;
        once = λ a. omega (arith, times-plug a c s, u a);
        only = λ a h. elim (ℕ_discrete a p) [
          | yes e ↦ ap t''.nodes e ∙ update_same t'.nodes p none
          | no e ↦
              let nowhere : times_around a c + one a p + times a s ≡ 0 =
                omega (arith, h, times-plug a c s, one_other a p e) in
              update_other t'.nodes p a none e ∙ i.other a nowhere ∙ out a nowhere
        ];
      },
    )

-- what remove leaves
abbrev Removed : ℕ → ℕ → (t : Tree) → (xs : List ℕ) → Stands t xs → Type 0
Removed fuel key t xs v =
    (t' : Tree) × (w : Stands t' (take_out key xs)) × (remove fuel key t ≡ ok t')
    × (count v.shape ≡ count w.shape + (if member key xs then 1 else 0))
    × ((member key xs ≡ true) ⊎ (t' ≡ t))
    × ((a : ℕ) → times a w.shape ≤ times a v.shape)

remove-Found :
    (fuel key : ℕ) (t : Tree) (xs : List ℕ) (v : Stands t xs) (p : ℕ)
    → count v.shape < fuel
    → search fuel key t ≡ ok p
    → p ≢ 0
    → Found v.shape p key
    → Removed fuel key t xs v
unfolding remove
remove-Found fuel key t xs v p f e ne w =
    let c = w.context in
    let l = w.smaller in
    let r = w.larger in
    let here = node l p key r in
    let (d, h) = held t v.shape p key v.is_tree w in
    let once : (a : ℕ) → times_around a c + times a here ≤ 1 =
      λ a. subst (λ z. z ≤ 1) (ap (times a) w.place ∙ times-plug a c here) (v.is_tree.once a) in
    let keys = sym v.keys ∙ ap inorder w.place ∙ inorder-plug c here in
    let present : member key xs ≡ true =
      ap (member key) keys ∙ member_middle key (before c) (inorder l) (inorder r) (after c) in
    let size = ap count w.place ∙ count-plug c here in
    let found = unlink-Unlinked fuel t c l p key r h d once (omega (arith, size, f)) in
    let (t', g, i) =
      free-IsUnlinked t found.after_tree c p found.shape found.unlinked
        (λ a. omega (arith, once a, found.same_times a))
        (λ a z.
          v.is_tree.only a
            (ap (times a) w.place ∙ times-plug a c here ∙ omega (arith, z, found.same_times a))) in
    (
      t',
      record {
        shape = plug c found.shape;
        is_tree = i;
        keys =
            inorder-plug c found.shape
            ∙ ap (λ z. before c ++ (z ++ after c)) found.same_keys
            ∙ sym (
                take_out_middle key (before c) (inorder l) (inorder r) (after c)
                  (subst IsAscending keys v.ascending))
            ∙ ap (take_out key) (sym keys);
        ascending = IsAscending-take_out key xs v.ascending;
      },
      rw
          (
            e,
            ==_false p 0 ne,
            node_at-IsAt t p key (top_of l) (top_of r) (parent_of c) h.0,
            found.ends,
          )
          g,
      rw present (omega (arith, size, count-plug c found.shape, found.one_less)),
      inl present,
      λ a. omega (
        arith,
        ap (times a) w.place,
        times-plug a c here,
        times-plug a c found.shape,
        found.same_times a,
      ),
    )

-- Given enough fuel, remove leaves a search tree that stands for the list without one occurrence of the
-- key: the very tree where the key is not in the list, and otherwise one with a node less, which is
-- deleted. It uses no other node.
pub remove_lem :
    (fuel key : ℕ) (t : Tree) (xs : List ℕ) (v : Stands t xs)
    → count v.shape < fuel
    → (t' : Tree) × (w : Stands t' (take_out key xs)) × (remove fuel key t ≡ ok t')
      × (count v.shape ≡ count w.shape + (if member key xs then 1 else 0))
      × ((member key xs ≡ true) ⊎ (t' ≡ t))
      × ((a : ℕ) → times a w.shape ≤ times a v.shape)
unfolding remove
remove_lem fuel key t xs v f = elim (search-Searched fuel key t xs v f) [
  | inl (e, m) ↦
      let absent : member key xs ≡ false = ap (member key) (sym v.keys) ∙ m in
      (
        t,
        record {
          shape = v.shape;
          is_tree = v.is_tree;
          keys = v.keys ∙ sym (take_out_absent key xs absent);
          ascending = IsAscending-take_out key xs v.ascending;
        },
        rw e refl,
        rw absent (omega arith),
        inr refl,
        λ a. omega arith,
      )
  | inr (p, e, ne, w) ↦ remove-Found fuel key t xs v p f e ne w
]
