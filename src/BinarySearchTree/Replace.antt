-- ===== src/BinarySearchTree/Replace.antt =====
-- The branch of remove for two children, once the replacement is ready.
use my_learning.Base.{ℕ, ◌+◌, ◌≡◌, ◌≢◌, ◌≤◌, ◌<◌, sym, ◌∙◌, subst, arith, ok}
use my_learning.BinarySearchTree.{Tree, write, set_left, put_in_place}
use my_learning.BinarySearchTree.Shape.{
  Shape, leaf, node, Context, top_of, parent_of, count, times, times_around, one, Holds,
  HoldsAround, IsAt, node_at-IsAt, frame, frame_around, update_same, update_other, times_apart,
}
use my_learning.BinarySearchTree.Transplant.{
  reparented, reparented-other, reparented-root, Holds-reparented, set_parent-reparented,
  transplanted, transplant_lem,
}
use my_learning.BinarySearchTree.Detach.{
  sum, one_apart, alone, IsAlone-below, around_apart, IsReady,
}

-- The target at `p` is out of the tree: `s` stands in its place.
pub record IsUnlinked (t t' : Tree) (c : Context) (p : ℕ) (s : Shape) : Type 0 where
  pub around : HoldsAround t'.root t'.nodes c (top_of s)
  pub holds : Holds t'.nodes (parent_of c) s
  pub target : (k : ℕ) × (l : ℕ) × (r : ℕ) × (up : ℕ) × IsAt t'.nodes p k l r up
  pub other : (a : ℕ) → times_around a c + one a p + times a s ≡ 0 → t'.nodes a ≡ t.nodes a

module _ (t : Tree) (c : Context) (p key : ℕ) (l : Shape) (m mk : ℕ) (rest : Shape) where
  pub put_in_place-IsReady :
      IsReady t c p key l m mk rest
      → 0 < count l
      → ((a : ℕ) → sum a c p l (node leaf m mk rest) ≤ 1)
      → (t' : Tree) × (put_in_place t p m ≡ ok t') × IsUnlinked t t' c p (node l m mk rest)
  unfolding put_in_place set_left
  put_in_place-IsReady r pos u =
      let new = node leaf m mk rest in
      let v = alone p c l new (u p) in
      let (w, ne) = IsAlone-below p c l m mk rest (u m) in
      let moved =
        transplant_lem t c new p key (top_of l) r.right_child r.parent r.target r.around v.around
          r.replacement (λ a. omega (arith, u a)) in
      let t₂ = transplanted t c new in
      let at₂ : IsAt t₂.nodes p key (top_of l) r.right_child (parent_of c) = record {
        not_null = r.target.not_null;
        holds = moved.other p (omega (arith, v.around, v.others)) ∙ r.target.holds;
      } in
      let l₂ =
        frame t.nodes t₂.nodes p l r.left_child λ a i. moved.other a (omega (arith, u a, i)) in
      let (m₂, _, r₂) = moved.holds in
      let t₃ =
        write t₂ m
          (record { data_ = mk; left = top_of l; right = top_of rest; parent = parent_of c }) in
      let at₃ : IsAt t₃.nodes m mk (top_of l) (top_of rest) (parent_of c) = record {
        not_null = m₂.not_null;
        holds = update_same t₂.nodes m _;
      } in
      let l₃ =
        frame t₂.nodes t₃.nodes p l l₂
          λ a i. update_other t₂.nodes m a _ (times_apart m a l w.left_child i) in
      let t₄ = reparented t₃ l m in
      let same : (a : ℕ) → a ≢ m → times a l ≡ 0 → t₄.nodes a ≡ t₂.nodes a =
        λ a h i. reparented-other t₃ l m a i ∙ update_other t₂.nodes m a _ h in
      (
        t₄,
        rw
            (
              moved.run,
              node_at-IsAt t₂ p key (top_of l) r.right_child (parent_of c) at₂,
              node_at-IsAt t₂ m mk 0 (top_of rest) (parent_of c) m₂,
              node_at-IsAt t₃ m mk (top_of l) (top_of rest) (parent_of c) at₃,
            )
            (set_parent-reparented t₃ l p m l₃ pos),
        record {
          around =
              subst (λ z. HoldsAround z t₄.nodes c m) (sym (reparented-root t₃ l m))
                (frame_around t₂.root t₂.nodes t₄.nodes c m moved.around
                  λ a i. same a (around_apart a m c w.around i) (omega (arith, u a, i)));
          holds = (
            record {
              not_null = at₃.not_null;
              holds = reparented-other t₃ l m m w.left_child ∙ at₃.holds;
            },
            Holds-reparented t₃ l p m l₃ (λ a. omega (arith, u a)),
            frame t₂.nodes t₄.nodes m rest r₂
                λ a i. same a (times_apart m a rest w.others i) (omega (arith, u a, i)),
          );
          target = (
            key,
            top_of l,
            r.right_child,
            parent_of c,
            record { not_null = at₂.not_null; holds = same p ne v.left_child ∙ at₂.holds },
          );
          other = λ a i.
              same a (one_apart a m (omega (arith, i))) (omega (arith, i))
              ∙ moved.other a (omega (arith, i));
        },
      )
