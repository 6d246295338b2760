-- ===== src/BinarySearchTree/Tests.antt =====
-- A tree of three nodes, from which the root is removed.
use my_learning.Base.{
  true, ◌⊎◌, ℕ, suc, ◌+◌, ◌≡◌, ◌≢◌, ◌≤◌, refl, arith, Option, none, some, List, [], ◌∷◌, update,
  if◌then◌else◌, Run, ok, ◌>>=◌,
}
use my_learning.BinarySearchTree
use my_learning.BinarySearchTree.{
  TreeNode, Tree, empty_tree, insert, search, remove, inorder_print, destroy, node_at,
}
use my_learning.BinarySearchTree.Keys.{put, take_out, member}
use my_learning.BinarySearchTree.Shape.{Shape, leaf, node, count, times, IsTree, Stands}
use my_learning.BinarySearchTree.Walk.{walk_lem}
use my_learning.BinarySearchTree.Insert.{insert_lem}
use my_learning.BinarySearchTree.Remove.{remove_lem}
use my_learning.BinarySearchTree.Sessions.{
  Op, puts, takes_out, finds, AllNew, run_ops, answers_of, keys_after, sessions_lem,
}

-- 5 at the root, 3 and 8 below it
abbrev made : Tree
made = record {
  root = 1;
  nodes =
      update
        (update
          (update (λ p. none) 1 (some (record { data_ = 5; left = 2; right = 3; parent = 0 }))) 2
          (some (record { data_ = 3; left = 0; right = 0; parent = 1 })))
        3 (some (record { data_ = 8; left = 0; right = 0; parent = 1 }));
}

-- the root and the nodes of a run
abbrev shown :
    Run Tree → Run (ℕ × Option TreeNode × Option TreeNode × Option TreeNode × Option TreeNode)
shown run = run >>= λ t. ok (t.root, t.nodes 0, t.nodes 1, t.nodes 2, t.nodes 3)

three_made : shown (insert 9 1 5 empty_tree >>= insert 9 2 3 >>= insert 9 3 8) ≡ shown (ok made)
unfolding insert my_learning.BinarySearchTree.descend my_learning.BinarySearchTree.set_parent
    my_learning.BinarySearchTree.set_left my_learning.BinarySearchTree.set_right node_at
three_made = refl

-- the root's place is taken by its successor
root_removed :
    shown (remove 9 5 made)
    ≡ ok (
      3,
      none,
      none,
      some (record { data_ = 3; left = 0; right = 0; parent = 3 }),
      some (record { data_ = 8; left = 2; right = 0; parent = 0 }),
    )
unfolding remove search my_learning.BinarySearchTree.search_from my_learning.BinarySearchTree.unlink
    my_learning.BinarySearchTree.minimum my_learning.BinarySearchTree.put_in_place
    my_learning.BinarySearchTree.detach my_learning.BinarySearchTree.transplant
    my_learning.BinarySearchTree.relink my_learning.BinarySearchTree.free
    my_learning.BinarySearchTree.set_parent my_learning.BinarySearchTree.set_left
    my_learning.BinarySearchTree.set_right node_at
root_removed = refl

abbrev shape : Shape
shape = node (node leaf 2 3 leaf) 1 5 (node leaf 3 8 leaf)

shape-IsTree : IsTree made shape
shape-IsTree = record {
  root = refl;
  holds = (
    record { not_null = omega arith; holds = refl },
    (record { not_null = omega arith; holds = refl }, tt, tt),
    (record { not_null = omega arith; holds = refl }, tt, tt),
  );
  once = λ a. ground arith;
  only = λ a h. ground (arith, h);
}

stands : Stands made (3 ∷ 5 ∷ 8 ∷ [])
stands = record {
  shape = shape;
  is_tree = shape-IsTree;
  keys = refl;
  ascending = ((omega arith, (omega arith, tt)), ((omega arith, tt), (tt, tt)));
}

walk_lem_example :
    (inorder_print 9 made made.root ≡ ok (3 ∷ 5 ∷ 8 ∷ []))
    × ((t' : Tree) × (destroy 9 made made.root ≡ ok t') × ((a : ℕ) → t'.nodes a ≡ none))
unfolding stands
walk_lem_example = walk_lem 9 made (3 ∷ 5 ∷ 8 ∷ []) stands (omega arith)

insert_lem_example :
    (t' : Tree) × (w : Stands t' (put 5 (3 ∷ 5 ∷ 8 ∷ []))) × (insert 9 7 5 made ≡ ok t')
    × (count w.shape ≡ suc (count stands.shape))
    × ((a : ℕ) → a ≢ 7 → times a w.shape ≡ times a stands.shape)
unfolding stands
insert_lem_example = insert_lem 9 7 5 made (3 ∷ 5 ∷ 8 ∷ []) stands (omega arith) (omega arith) refl

remove_lem_example :
    (t' : Tree) × (w : Stands t' (take_out 5 (3 ∷ 5 ∷ 8 ∷ []))) × (remove 9 5 made ≡ ok t')
    × (count stands.shape ≡ count w.shape + (if member 5 (3 ∷ 5 ∷ 8 ∷ []) then 1 else 0))
    × ((member 5 (3 ∷ 5 ∷ 8 ∷ []) ≡ true) ⊎ (t' ≡ made))
    × ((a : ℕ) → times a w.shape ≤ times a stands.shape)
unfolding stands
remove_lem_example = remove_lem 9 5 made (3 ∷ 5 ∷ 8 ∷ []) stands (omega arith)

abbrev session : List Op
session = puts 1 5 ∷ puts 2 3 ∷ finds 3 ∷ takes_out 5 ∷ finds 5 ∷ puts 1 7 ∷ []

-- The address of the node that is removed comes back.
session-AllNew : AllNew 9 session empty_tree
unfolding insert remove BinarySearchTree.descend BinarySearchTree.set_parent node_at
    BinarySearchTree.set_left search BinarySearchTree.search_from BinarySearchTree.unlink
    BinarySearchTree.transplant BinarySearchTree.relink BinarySearchTree.free
    BinarySearchTree.set_right
session-AllNew = (omega arith, refl, (omega arith, refl, (omega arith, refl, tt)))

sessions_lem_example :
    (t' : Tree) × (run_ops 9 session empty_tree ≡ ok (t', answers_of session []))
    × Stands t' (keys_after session [])
sessions_lem_example = sessions_lem 9 session (omega arith) session-AllNew
