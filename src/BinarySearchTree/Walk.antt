-- ===== src/BinarySearchTree/Walk.antt =====
-- inorderPrint and the destructor.
use my_learning.Base.{
  ℕ, zero, suc, ◌≡◌, ◌≤◌, ◌<◌, refl, ap, ◌∙◌, arith, false, Option, none, List, ◌==◌, update, ok,
  ℕ_discrete,
}
use my_learning.BinarySearchTree.{TreeNode, Tree, inorder_print, destroy, free}
use my_learning.BinarySearchTree.Shape.{
  Shape, leaf, node, top_of, inorder, times, count, Holds, IsAt, Stands, node_at-IsAt, frame,
}

pub null_false : (h : ℕ → Option TreeNode) (p k l r up : ℕ) → IsAt h p k l r up → (p == 0) ≡ false
null_false h p k l r up e = ground (arith, e.not_null)

inorder_print-Holds :
    (fuel up : ℕ) (t : Tree) (s : Shape)
    → count s < fuel
    → Holds t.nodes up s
    → inorder_print fuel t (top_of s) ≡ ok (inorder s)
unfolding inorder_print
inorder_print-Holds zero up t s f d = absurd (omega arith)
inorder_print-Holds (suc fuel) up t leaf f d = refl
inorder_print-Holds (suc fuel) up t (node l p k r) f (e, m, n) =
    rw
      (
        null_false t.nodes p k (top_of l) (top_of r) up e,
        node_at-IsAt t p k (top_of l) (top_of r) up e,
        inorder_print-Holds fuel p t l (omega arith) m,
        inorder_print-Holds fuel p t r (omega arith) n,
      )
      refl

-- what a call of destroy leaves of a shape
record IsDestroyed (t t' : Tree) (s : Shape) : Type 0 where
  gone : (a : ℕ) → 0 < times a s → t'.nodes a ≡ none
  rest : (a : ℕ) → times a s ≡ 0 → t'.nodes a ≡ t.nodes a

pub free-IsAt :
    (t : Tree) (p k l r up : ℕ)
    → IsAt t.nodes p k l r up
    → free t p ≡ ok (record t { nodes = update t.nodes p none })
unfolding free
free-IsAt t p k l r up e = rw (node_at-IsAt t p k l r up e) refl

IsDestroyed-node :
    (t t₁ t₂ : Tree) (l : Shape) (p k : ℕ) (r : Shape)
    → IsDestroyed t t₁ l
    → IsDestroyed t₁ t₂ r
    → IsDestroyed t (record t₂ { nodes = update t₂.nodes p none }) (node l p k r)
IsDestroyed-node t t₁ t₂ l p k r d e = record {
  gone = λ a i. elim (ℕ_discrete (times a r) 0) [
    | yes x ↦ ground (arith, d.gone a, e.rest a x, i, x)
    | no x ↦ ground (arith, e.gone a (omega (arith, x)))
  ];
  rest = λ a i. ground (arith, d.rest a (omega (arith, i)), e.rest a (omega (arith, i)), i);
}

destroy-Holds :
    (fuel up : ℕ) (t : Tree) (s : Shape)
    → count s < fuel
    → Holds t.nodes up s
    → ((a : ℕ) → times a s ≤ 1)
    → (t' : Tree) × (destroy fuel t (top_of s) ≡ ok t') × IsDestroyed t t' s
unfolding destroy
destroy-Holds zero up t s f d u = absurd (omega arith)
destroy-Holds (suc fuel) up t leaf f d u =
    (t, refl, record { gone = λ a i. absurd (omega arith); rest = λ a i. refl })
destroy-Holds (suc fuel) up t (node l p k r) f (e, m, n) u =
    let self = u p in
    let (t₁, e₁, d₁) = destroy-Holds fuel p t l (omega arith) m (λ a. omega (arith, u a)) in
    let at₁ : IsAt t₁.nodes p k (top_of l) (top_of r) up = record {
      not_null = e.not_null;
      holds = d₁.rest p (ground arith) ∙ e.holds;
    } in
    let r₁ = frame t.nodes t₁.nodes p r n λ a i. d₁.rest a (omega (arith, u a)) in
    let (t₂, e₂, d₂) = destroy-Holds fuel p t₁ r (omega arith) r₁ (λ a. omega (arith, u a)) in
    let at₂ : IsAt t₂.nodes p k (top_of l) (top_of r) up = record {
      not_null = e.not_null;
      holds = d₂.rest p (ground arith) ∙ at₁.holds;
    } in
    (
      record t₂ { nodes = update t₂.nodes p none },
      rw
          (
            null_false t.nodes p k (top_of l) (top_of r) up e,
            node_at-IsAt t p k (top_of l) (top_of r) up e,
            e₁,
            node_at-IsAt t₁ p k (top_of l) (top_of r) up at₁,
            e₂,
          )
          (free-IsAt t₂ p k (top_of l) (top_of r) up at₂),
      IsDestroyed-node t t₁ t₂ l p k r d₁ d₂,
    )

-- Given as much fuel as there are nodes and one more, inorderPrint prints the keys in ascending order,
-- and the destructor deletes every node, each once.
pub walk_lem :
    (fuel : ℕ) (t : Tree) (xs : List ℕ) (v : Stands t xs)
    → count v.shape < fuel
    → (inorder_print fuel t t.root ≡ ok xs)
      × ((t' : Tree) × (destroy fuel t t.root ≡ ok t') × ((a : ℕ) → t'.nodes a ≡ none))
walk_lem fuel t xs v f =
    let i = v.is_tree in
    let (t', e, d) = destroy-Holds fuel 0 t v.shape f i.holds i.once in
    (
      ap (inorder_print fuel t) i.root
          ∙ inorder_print-Holds fuel 0 t v.shape f i.holds
          ∙ ap (λ z. ok z) v.keys,
      (
        t',
        ap (destroy fuel t) i.root ∙ e,
        λ a. elim (ℕ_discrete (times a v.shape) 0) [
          | yes x ↦ d.rest a x ∙ i.only a x
          | no x ↦ d.gone a (omega (arith, x))
        ],
      ),
    )
