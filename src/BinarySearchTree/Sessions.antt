-- ===== src/BinarySearchTree/Sessions.antt =====
-- A tree in use: any sequence of inserts, removals and searches from the constructor on.
use my_learning.Base.{
  ℕ, ◌+◌, ◌≡◌, ◌≢◌, ◌<◌, inl, inr, refl, subst, arith, Bool, false, not, none, some, List, [], ◌∷◌,
  length, ◌==◌, if◌then◌else◌, Run, ok, abort, ◌>>=◌, Bool-cases,
}
use my_learning.BinarySearchTree.{TreeNode, node_at, Tree, empty_tree, insert, search, remove}
use my_learning.Base.Both.{Ends}
use my_learning.BinarySearchTree.Keys.{put, take_out, member}
use my_learning.BinarySearchTree.Shape.{leaf, count, Stands}
use my_learning.BinarySearchTree.Find.{search_lem}
use my_learning.BinarySearchTree.Insert.{insert_lem}
use my_learning.BinarySearchTree.Remove.{remove_lem}

-- an insert with the address that new gives, a removal, and a test whether search finds a node
pub data Op : Type 0 where
  puts : ℕ → ℕ → Op
  takes_out : ℕ → Op
  finds : ℕ → Op

abbrev pub run_ops : ℕ → List Op → Tree → Run (Tree × List Bool)
run_ops fuel [] t = let ended : Tree × List Bool = (t, []) in ok ended
run_ops fuel (puts new_node key ∷ rest) t = insert fuel new_node key t >>= run_ops fuel rest
run_ops fuel (takes_out key ∷ rest) t = remove fuel key t >>= run_ops fuel rest
run_ops fuel (finds key ∷ rest) t = do
  p ← search fuel key t
  (t', answers) ← run_ops fuel rest t
  let ended : Tree × List Bool = (t', not (p == 0) ∷ answers) in ok ended

-- the same on a list
abbrev pub keys_after : List Op → List ℕ → List ℕ
keys_after [] xs = xs
keys_after (puts new_node key ∷ rest) xs = keys_after rest (put key xs)
keys_after (takes_out key ∷ rest) xs = keys_after rest (take_out key xs)
keys_after (finds key ∷ rest) xs = keys_after rest xs

abbrev pub answers_of : List Op → List ℕ → List Bool
answers_of [] xs = []
answers_of (puts new_node key ∷ rest) xs = answers_of rest (put key xs)
answers_of (takes_out key ∷ rest) xs = answers_of rest (take_out key xs)
answers_of (finds key ∷ rest) xs = member key xs ∷ answers_of rest xs

-- new gives addresses that are not null and where no node is; those of deleted nodes may come back
abbrev pub AllNew : ℕ → List Op → Tree → Type 0
AllNew fuel [] t = Unit
AllNew fuel (puts new_node key ∷ rest) t =
    (new_node ≢ 0)
    × (t.nodes new_node ≡ none)
    × Ends (AllNew fuel rest) (insert fuel new_node key t)
AllNew fuel (takes_out key ∷ rest) t = Ends (AllNew fuel rest) (remove fuel key t)
AllNew fuel (finds key ∷ rest) t = AllNew fuel rest t

not_null : (t : Tree) (p : ℕ) (n : TreeNode) → node_at t p ≡ ok n → (p == 0) ≡ false
unfolding node_at
not_null t p n e = elim (Bool-cases (p == 0)) [
  | inl z ↦ absurd (
      ground (
        arith,
        subst (λ b. (if b then abort else elim (t.nodes p) [ none ↦ abort | some m ↦ ok m ]) ≡ ok n)
            z e,
      ))
  | inr z ↦ z
]

run_ops-Stands :
    (fuel : ℕ) (ops : List Op) (t : Tree) (xs : List ℕ) (v : Stands t xs)
    → count v.shape + length ops < fuel
    → AllNew fuel ops t
    → (t' : Tree) × (run_ops fuel ops t ≡ ok (t', answers_of ops xs))
      × Stands t' (keys_after ops xs)
run_ops-Stands fuel [] t xs v f n = (t, refl, v)
run_ops-Stands fuel (puts new_node key ∷ rest) t xs v f (ne, free, n) =
    let (t₁, w, e, more, same) = insert_lem fuel new_node key t xs v (omega arith) ne free in
    let (t', r, z) =
      run_ops-Stands fuel rest t₁ (put key xs) w (omega (arith, f, more))
        (subst (Ends (AllNew fuel rest)) e n) in
    (t', rw e r, z)
run_ops-Stands fuel (takes_out key ∷ rest) t xs v f n =
    let (t₁, w, e, less, _, same) = remove_lem fuel key t xs v (omega arith) in
    let (t', r, z) =
      run_ops-Stands fuel rest t₁ (take_out key xs) w (omega (arith, f, less))
        (subst (Ends (AllNew fuel rest)) e n) in
    (t', rw e r, z)
run_ops-Stands fuel (finds key ∷ rest) t xs v f n =
    let (t', r, z) = run_ops-Stands fuel rest t xs v (omega arith) n in
    elim (search_lem fuel key t xs v (omega arith)) [
      | inl (e, m) ↦ (t', rw (e, r, m) refl, z)
      | inr (p, node, e, at, k, m) ↦ (t', rw (e, r, not_null t p node at, m) refl, z)
    ]

empty_stands : Stands empty_tree []
empty_stands = record {
  shape = leaf;
  is_tree = record { root = refl; holds = tt; once = λ a. omega arith; only = λ a h. refl };
  keys = refl;
  ascending = tt;
}

-- Whatever is done with a new tree, each search finds a node exactly when the key is in the list that the
-- same inserts and removals make, nothing aborts, and the tree stands for that list in the end. Fuel for
-- more steps than there are calls is enough. `new` returns addresses that are not null and not in use.
pub sessions_lem :
    (fuel : ℕ) (ops : List Op)
    → length ops < fuel
    → AllNew fuel ops empty_tree
    → (t' : Tree) × (run_ops fuel ops empty_tree ≡ ok (t', answers_of ops []))
      × Stands t' (keys_after ops [])
unfolding empty_stands
sessions_lem fuel ops f n = run_ops-Stands fuel ops empty_tree [] empty_stands (omega arith) n
