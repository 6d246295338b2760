-- ===== src/BinarySearchTree/Shape.antt =====
-- The trees that a store of nodes holds, and the lemmas on them.
mod Forms
mod Stores
pub use my_learning.BinarySearchTree.Shape.Forms.{
  Shape, Context, top_of, parent_of, plug, inorder, before, after, one, times, times_around, count,
  count_around, leaf, node, top, left_of, right_of, times-plug, count-plug, inorder-plug,
  times_apart, once_plug, one_other, only_plug,
}
pub use my_learning.BinarySearchTree.Shape.Stores.{
  Store, IsAt, Holds, HoldsAround, IsTree, Stands, update_same, update_other, update_twice, frame,
  frame_around, plugged, unplugged, node_at-IsAt, times-Holds, times_null, pointed,
  HoldsAround-pointed, pointed-other,
}
