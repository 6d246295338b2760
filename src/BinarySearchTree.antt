-- ===== src/BinarySearchTree.antt =====
-- Alog/lib/binarySearchTree.cpp: a search tree of ints with parent pointers, on a store of nodes. An int
-- stands by its place in the order of all ints, x + 2 ^ 31. Address 0 is the null pointer; following it
-- or a pointer to a deleted node aborts, and so does a loop or a recursion that runs out of fuel.
pub mod Keys
pub mod Shape
pub mod Walk
pub mod Find
pub mod Place
pub mod Insert
pub mod Transplant
pub mod Leftmost
pub mod Detach
pub mod Replace
pub mod Unlink
pub mod Remove
pub mod Sessions
mod Tests
use my_learning.Base.{
  ℕ, zero, suc, ◌+◌, Bool, Option, none, some, List, [], ◌∷◌, ◌++◌, ltb, ◌==◌, update,
  if◌then◌else◌, Run, ok, abort, ◌>>=◌,
}

pub record TreeNode : Type 0 where
  pub data_ : ℕ
  pub left : ℕ
  pub right : ℕ
  pub parent : ℕ

pub record Tree : Type 0 where
  pub root : ℕ
  pub nodes : ℕ → Option TreeNode

-- the constructor
abbrev pub empty_tree : Tree
empty_tree = record { root = 0; nodes = λ p. none }

unfoldable pub node_at : Tree → ℕ → Run TreeNode
node_at t p = if p == 0 then abort else elim (t.nodes p) [ none ↦ abort | some n ↦ ok n ]

abbrev pub write : Tree → ℕ → TreeNode → Tree
write t p n = record t { nodes = update t.nodes p (some n) }

unfoldable pub set_left : Tree → ℕ → ℕ → Run Tree
set_left t p x = node_at t p >>= λ n. ok (write t p (record n { left = x }))

unfoldable pub set_right : Tree → ℕ → ℕ → Run Tree
set_right t p x = node_at t p >>= λ n. ok (write t p (record n { right = x }))

unfoldable pub set_parent : Tree → ℕ → ℕ → Run Tree
set_parent t p x = node_at t p >>= λ n. ok (write t p (record n { parent = x }))

-- delete
unfoldable pub free : Tree → ℕ → Run Tree
free t p = node_at t p >>= λ n. ok (record t { nodes = update t.nodes p none })

-- the loop of insert: the node that the new one goes under
unfoldable pub descend : ℕ → Tree → ℕ → ℕ → ℕ → Run ℕ
descend zero t key p now = abort
descend (suc fuel) t key p now = if now == 0 then ok p else (do
  n ← node_at t now
  descend fuel t key now (if ltb key n.data_ then n.left else n.right))

-- insert, with the address that new gives
unfoldable pub insert : ℕ → ℕ → ℕ → Tree → Run Tree
insert fuel new_node key t = do
  let t₁ = write t new_node (record { data_ = key; left = 0; right = 0; parent = 0 })
  p ← descend fuel t₁ key 0 t₁.root
  t₂ ← set_parent t₁ new_node p
  if p == 0 then ok (record t₂ { root = new_node }) else (do
    n ← node_at t₂ p
    if ltb key n.data_ then set_left t₂ p new_node else set_right t₂ p new_node)

unfoldable pub search_from : ℕ → Tree → ℕ → ℕ → Run ℕ
search_from zero t key now = abort
search_from (suc fuel) t key now = if now == 0 then ok 0 else (do
  n ← node_at t now
  if n.data_ == key
      then ok now
      else search_from fuel t key (if ltb n.data_ key then n.right else n.left))

unfoldable pub search : ℕ → ℕ → Tree → Run ℕ
search fuel key t = search_from fuel t key t.root

-- the ints that inorderPrint prints
unfoldable pub inorder_print : ℕ → Tree → ℕ → Run (List ℕ)
inorder_print zero t p = abort
inorder_print (suc fuel) t p = if p == 0 then ok [] else (do
  n ← node_at t p
  before ← inorder_print fuel t n.left
  after ← inorder_print fuel t n.right
  ok (before ++ n.data_ ∷ after))

unfoldable pub destroy : ℕ → Tree → ℕ → Run Tree
destroy zero t p = abort
destroy (suc fuel) t p = if p == 0 then ok t else (do
  n ← node_at t p
  t₁ ← destroy fuel t n.left
  n₁ ← node_at t₁ p
  t₂ ← destroy fuel t₁ n₁.right
  free t₂ p)

unfoldable pub minimum : ℕ → Tree → ℕ → Run ℕ
minimum zero t p = abort
minimum (suc fuel) t p = do n ← node_at t p; if n.left == 0 then ok p else minimum fuel t n.left

-- the first half of transplant: what pointed to `source` points to `target`
unfoldable pub relink : Tree → ℕ → ℕ → ℕ → Run Tree
relink t source target up = if up == 0 then ok (record t { root = target }) else (do
  p ← node_at t up
  if source == p.left then set_left t up target else set_right t up target)

unfoldable pub transplant : Tree → ℕ → ℕ → Run Tree
transplant t source target = do
  s ← node_at t source
  t₁ ← relink t source target s.parent
  if target == 0 then ok t₁ else (do s₁ ← node_at t₁ source; set_parent t₁ target s₁.parent)

-- remove's branch for a replacement that is not a child of `target`
unfoldable pub detach : Tree → ℕ → ℕ → Run Tree
detach t target replace = do
  m ← node_at t replace
  t₁ ← transplant t replace m.right
  n₁ ← node_at t₁ target
  t₂ ← set_right t₁ replace n₁.right
  m₂ ← node_at t₂ replace
  set_parent t₂ m₂.right replace

-- remove's branch for two children, once the replacement is known
unfoldable pub put_in_place : Tree → ℕ → ℕ → Run Tree
put_in_place t target replace = do
  t₂ ← transplant t target replace
  n₂ ← node_at t₂ target
  t₃ ← set_left t₂ replace n₂.left
  m₃ ← node_at t₃ replace
  set_parent t₃ m₃.left replace

unfoldable pub unlink : ℕ → Tree → ℕ → TreeNode → Run Tree
unlink fuel t target n =
    if n.left == 0
    then transplant t target n.right
    else if n.right == 0
    then transplant t target n.left
    else (do
      replace ← minimum fuel t n.right
      m ← node_at t replace
      t₁ ← if m.parent == target then ok t else detach t target replace
      put_in_place t₁ target replace)

unfoldable pub remove : ℕ → ℕ → Tree → Run Tree
remove fuel key t = do
  target ← search fuel key t
  if target == 0
      then ok t
      else (do n ← node_at t target; t' ← unlink fuel t target n; free t' target)
