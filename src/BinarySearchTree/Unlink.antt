-- ===== src/BinarySearchTree/Unlink.antt =====
-- The three branches of remove.
use my_learning.Base.{
  ℕ, suc, ◌+◌, ◌≡◌, ◌≢◌, ◌≤◌, ◌<◌, refl, ap, sym, ◌∙◌, subst, arith, true, false, [], ◌∷◌, ◌++◌,
  ◌==◌, if◌then◌else◌, Run, ok, ◌>>=◌, append_nil,
}
use my_learning.BinarySearchTree.{Tree, node_at, transplant, detach, put_in_place, unlink}
use my_learning.BinarySearchTree.Shape.{
  Shape, leaf, node, Context, right_of, top_of, parent_of, inorder, count, times, times_around, one,
  Holds, HoldsAround, IsAt, node_at-IsAt, times_apart,
}
use my_learning.BinarySearchTree.Walk.{null_false}
use my_learning.BinarySearchTree.Leftmost.{
  Chain, hang, minimum-Leftmost, inorder-hang, times-hang, count-hang, under, unhung, parent_under,
}
use my_learning.BinarySearchTree.Transplant.{transplanted, transplant_lem}
use my_learning.BinarySearchTree.Detach.{sum, one_self, IsReady, detach_lem}
use my_learning.BinarySearchTree.Replace.{IsUnlinked, put_in_place-IsReady}

pub ==_false : (a b : ℕ) → a ≢ b → (a == b) ≡ false
==_false a b ne = ground (arith, ne)

-- what unlink makes of the target's subtree
pub record Unlinked (t : Tree) (c : Context) (l : Shape) (p key : ℕ) (r : Shape) (run : Run Tree)
    : Type 0 where
  pub after_tree : Tree
  pub shape : Shape
  pub ends : run ≡ ok after_tree
  pub unlinked : IsUnlinked t after_tree c p shape
  pub same_times : (a : ℕ) → one a p + times a shape ≡ times a (node l p key r)
  pub same_keys : inorder shape ≡ inorder l ++ inorder r
  pub one_less : suc (count shape) ≡ count (node l p key r)

module _ (t : Tree) (c : Context) (l : Shape) (p key : ℕ) (r : Shape)
    (at : IsAt t.nodes p key (top_of l) (top_of r) (parent_of c))
    (around : HoldsAround t.root t.nodes c p)
    (once : (a : ℕ) → times_around a c + times a (node l p key r) ≤ 1) where
  -- one child `u`, or none
  child_takes_place :
      (u : Shape)
      → Holds t.nodes p u
      → ((a : ℕ) → times_around a c + one a p + times a u ≤ 1)
      → (transplant t p (top_of u) ≡ ok (transplanted t c u))
        × IsUnlinked t (transplanted t c u) c p u
  child_takes_place u m v =
      let self = one_self p in
      let away : times_around p c ≡ 0 = omega (arith, v p, self) in
      let apart : times p u ≡ 0 = omega (arith, v p, self) in
      let moved =
        transplant_lem t c u p key (top_of l) (top_of r) p at around away m
          (λ a. omega (arith, v a)) in
      (
        moved.run,
        record {
          around = moved.around;
          holds = moved.holds;
          target = (
            key,
            top_of l,
            top_of r,
            parent_of c,
            record {
              not_null = at.not_null;
              holds = moved.other p (omega (arith, away, apart)) ∙ at.holds;
            },
          );
          other = λ a i. moved.other a (omega (arith, i));
        },
      )

  ready-Unlinked :
      (t₁ : Tree) (m mk : ℕ) (rest : Shape) (run : Run Tree)
      → run ≡ put_in_place t₁ p m
      → IsReady t₁ c p key l m mk rest
      → ((a : ℕ) → sum a c p l (node leaf m mk rest) ≡ 0 → t₁.nodes a ≡ t.nodes a)
      → 0 < count l
      → ((a : ℕ) → times a r ≡ one a m + times a rest)
      → inorder r ≡ mk ∷ inorder rest
      → count r ≡ 1 + count rest
      → Unlinked t c l p key r run
  ready-Unlinked t₁ m mk rest run e ready other pos same keys less =
      let (t', f, i) =
        put_in_place-IsReady t₁ c p key l m mk rest ready pos
          (λ a. omega (arith, once a, same a)) in
      record {
        after_tree = t';
        shape = node l m mk rest;
        ends = e ∙ f;
        unlinked = record {
          around = i.around;
          holds = i.holds;
          target = i.target;
          other = λ a h. i.other a h ∙ other a (omega (arith, h));
        };
        same_times = λ a. omega (arith, same a);
        same_keys = ap (λ z. inorder l ++ z) (sym keys);
        one_less = omega (arith, less);
      }

  module _ (pos : 0 < count l) (hl : Holds t.nodes p l) where
    -- two children, with the replacement as a child of the target or further below
    replaced :
        (ls : Chain) (m mk : ℕ) (s : Shape)
        → r ≡ hang ls (node leaf m mk s)
        → Holds t.nodes p (hang ls (node leaf m mk s))
        → Unlinked t c l p key r (do
          n ← node_at t m
          t₁ ← if n.parent == p then ok t else detach t p m
          put_in_place t₁ p m)
    replaced [] m mk s e h =
        let own : (p == p) ≡ true = ground arith in
        ready-Unlinked t m mk s _ (rw (node_at-IsAt t m mk 0 (top_of s) p h.0, own) refl)
          (record {
            around = around;
            right_child = top_of r;
            target = at;
            left_child = hl;
            parent = p;
            replacement = h;
          })
          (λ a i. refl) pos (λ a. ap (times a) e ∙ omega arith) (ap inorder e)
          (ap count e ∙ omega arith)
    replaced ((q, j, x) ∷ ls) m mk s e h =
        let chain : Chain = (q, j, x) ∷ ls in
        let outer = right_of l p key c in
        let end = node leaf m mk s in
        let here : HoldsAround t.root t.nodes outer (top_of (hang chain end)) =
          (subst (λ z. IsAt t.nodes p key (top_of l) (top_of z) (parent_of c)) e at, hl, around) in
        let (_, (low, _, _)) = unhung t.root t.nodes outer chain end here h in
        let up = parent_of (under outer chain) in
        let inside = parent_under outer q j x ls end in
        let own = one_self p in
        let clear : times p (hang chain end) ≡ 0 =
          ap (times p) (sym e) ∙ omega (arith, once p, own) in
        let deeper : (up == p) ≡ false =
          ==_false up p (times_apart p up (hang chain end) clear inside) in
        let same : (a : ℕ) → times a r ≡ one a m + times a (hang chain s) =
          λ a. ap (times a) e ∙ times-hang a chain m mk s in
        let (t₁, d) =
          detach_lem t c p key l m mk s chain here h (omega arith)
            (λ a. omega (arith, once a, same a)) in
        ready-Unlinked t₁ m mk (hang chain s) _
          (rw (node_at-IsAt t m mk 0 (top_of s) up low, deeper, d.run) refl) d.ready d.other pos
          same (ap inorder e ∙ inorder-hang chain m mk s) (ap count e ∙ count-hang chain m mk s)

pub unlink-Unlinked :
    (fuel : ℕ) (t : Tree) (c : Context) (l : Shape) (p key : ℕ) (r : Shape)
    → Holds t.nodes (parent_of c) (node l p key r)
    → HoldsAround t.root t.nodes c p
    → ((a : ℕ) → times_around a c + times a (node l p key r) ≤ 1)
    → count r < fuel
    → Unlinked t c l p key r (
        unlink fuel t p
          (record { data_ = key; left = top_of l; right = top_of r; parent = parent_of c }))
unfolding unlink
unlink-Unlinked fuel t c leaf p key r (at, hl, hr) d u f =
    let (e, i) = child_takes_place t c leaf p key r at d u r hr (λ a. omega (arith, u a)) in
    record {
      after_tree = transplanted t c r;
      shape = r;
      ends = e;
      unlinked = i;
      same_times = λ a. omega arith;
      same_keys = refl;
      one_less = omega arith;
    }
unlink-Unlinked fuel t c (node ll q j lr) p key leaf (at, hl, hr) d u f =
    let l = node ll q j lr in
    let (e, i) = child_takes_place t c l p key leaf at d u l hl (λ a. omega (arith, u a)) in
    record {
      after_tree = transplanted t c l;
      shape = l;
      ends = rw (null_false t.nodes q j (top_of ll) (top_of lr) p hl.0) e;
      unlinked = i;
      same_times = λ a. omega arith;
      same_keys = sym (append_nil (inorder l));
      one_less = omega arith;
    }
unlink-Unlinked fuel t c (node ll q j lr) p key (node rl x y rr) (at, hl, hr) d u f =
    let w = minimum-Leftmost fuel p t rl x y rr f hr in
    let run =
      replaced t c (node ll q j lr) p key (node rl x y rr) at d u (omega arith) hl w.chain w.least
        w.key w.larger w.place (subst (Holds t.nodes p) w.place hr) in
    subst (Unlinked t c (node ll q j lr) p key (node rl x y rr))
      (sym (
        rw
          (
            null_false t.nodes q j (top_of ll) (top_of lr) p hl.0,
            null_false t.nodes x y (top_of rl) (top_of rr) p hr.0,
            w.found,
          )
          refl))
      run
