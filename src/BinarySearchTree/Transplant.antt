-- ===== src/BinarySearchTree/Transplant.antt =====
-- transplant, and a node that gets another parent.
use my_learning.Base.{
  ℕ, ◌+◌, ◌≡◌, ◌≢◌, ◌≤◌, ◌<◌, refl, sym, ◌∙◌, subst, arith, true, false, ◌==◌, ok,
}
use my_learning.BinarySearchTree.{Tree, write, set_left, set_right, set_parent, relink, transplant}
use my_learning.BinarySearchTree.Shape.{
  Shape, leaf, node, Context, top, left_of, right_of, top_of, parent_of, count, times, times_around,
  Holds, HoldsAround, IsAt, node_at-IsAt, frame, frame_around, pointed, HoldsAround-pointed,
  pointed-other, update_same, update_other, times_apart,
}
use my_learning.BinarySearchTree.Walk.{null_false}

-- the top of a shape with another parent
abbrev pub reparented : Tree → Shape → ℕ → Tree
reparented t leaf up = t
reparented t (node l p k r) up =
    write t p (record { data_ = k; left = top_of l; right = top_of r; parent = up })

pub reparented-other :
    (t : Tree) (s : Shape) (up a : ℕ) → times a s ≡ 0 → (reparented t s up).nodes a ≡ t.nodes a
reparented-other t leaf up a h = refl
reparented-other t (node l p k r) up a h = update_other t.nodes p a _ (ground (arith, h))

pub reparented-root : (t : Tree) (s : Shape) (up : ℕ) → (reparented t s up).root ≡ t.root
reparented-root t leaf up = refl
reparented-root t (node l p k r) up = refl

pub Holds-reparented :
    (t : Tree) (s : Shape) (old up : ℕ)
    → Holds t.nodes old s
    → ((a : ℕ) → times a s ≤ 1)
    → Holds (reparented t s up).nodes up s
Holds-reparented t leaf old up d u = tt
Holds-reparented t (node l p k r) old up (e, m, n) u =
    let g = (reparented t (node l p k r) up).nodes in
    let self = u p in
    (
      record { not_null = e.not_null; holds = update_same t.nodes p _ },
      frame t.nodes g p l m
          λ a i. update_other t.nodes p a _ (times_apart p a l (ground (arith, self)) i),
      frame t.nodes g p r n
          λ a i. update_other t.nodes p a _ (times_apart p a r (ground (arith, self)) i),
    )

pub set_parent-reparented :
    (t : Tree) (s : Shape) (old up : ℕ)
    → Holds t.nodes old s
    → 0 < count s
    → set_parent t (top_of s) up ≡ ok (reparented t s up)
unfolding set_parent
set_parent-reparented t leaf old up d h = absurd (omega arith)
set_parent-reparented t (node l p k r) old up (e, m, n) h =
    rw (node_at-IsAt t p k (top_of l) (top_of r) old e) refl

pub around_other :
    (root : ℕ) (t : Tree) (s : Shape) (up : ℕ) (c : Context) (x : ℕ)
    → HoldsAround root t.nodes c x
    → ((a : ℕ) → times_around a c + times a s ≤ 1)
    → HoldsAround root (reparented t s up).nodes c x
around_other root t s up c x d u =
    frame_around root t.nodes (reparented t s up).nodes c x d
      λ a i. reparented-other t s up a (omega (arith, u a, i))

-- a shape without a node does not start there
top_apart : (p : ℕ) (s : Shape) → times p s ≡ 0 → p ≢ 0 → (p == top_of s) ≡ false
top_apart p leaf h ne = ground (arith, ne)
top_apart p (node l q k r) h ne = ground (arith, h)

relink-pointed :
    (t : Tree) (c : Context) (source target : ℕ)
    → HoldsAround t.root t.nodes c source
    → times_around source c ≡ 0
    → source ≢ 0
    → relink t source target (parent_of c) ≡ ok (pointed t c target)
unfolding relink set_left set_right
relink-pointed t top source target d h ne = refl
relink-pointed t (left_of c p k r) source target (e, m, n) h ne =
    let same : (source == source) ≡ true = ground arith in
    rw
      (
        null_false t.nodes p k source (top_of r) (parent_of c) e,
        node_at-IsAt t p k source (top_of r) (parent_of c) e,
        same,
      )
      refl
relink-pointed t (right_of l p k c) source target (e, m, n) h ne =
    rw
      (
        null_false t.nodes p k (top_of l) source (parent_of c) e,
        node_at-IsAt t p k (top_of l) source (parent_of c) e,
        top_apart source l (omega (arith, h)) ne,
      )
      refl

abbrev pub transplanted : Tree → Context → Shape → Tree
transplanted t c u = reparented (pointed t c (top_of u)) u (parent_of c)

-- what transplant leaves when the shape `u` takes the place of the hole of `c`
pub record IsTransplanted (t : Tree) (c : Context) (u : Shape) (p : ℕ) : Type 0 where
  pub run : transplant t p (top_of u) ≡ ok (transplanted t c u)
  pub around : HoldsAround (transplanted t c u).root (transplanted t c u).nodes c (top_of u)
  pub holds : Holds (transplanted t c u).nodes (parent_of c) u
  pub other : (a : ℕ) → times_around a c + times a u ≡ 0 → (transplanted t c u).nodes a ≡ t.nodes a

module _ (t : Tree) (c : Context) (u : Shape) (p k l r old : ℕ) where
  transplant-run :
      IsAt t.nodes p k l r (parent_of c)
      → HoldsAround t.root t.nodes c p
      → times_around p c ≡ 0
      → Holds (pointed t c (top_of u)).nodes old u
      → transplant t p (top_of u) ≡ ok (transplanted t c u)
  unfolding transplant
  transplant-run e d h m =
      elim u
          as (λ u.
            Holds (pointed t c (top_of u)).nodes old u
            → transplant t p (top_of u) ≡ ok (transplanted t c u)) [
              | leaf ↦ λ m.
                  rw (node_at-IsAt t p k l r (parent_of c) e, relink-pointed t c p 0 d h e.not_null)
                    refl
              | node ul q uk ur ↦ λ m.
                  let t₁ = pointed t c q in
                  let at =
                    node_at-IsAt t₁ p k l r (parent_of c) (record {
                      not_null = e.not_null;
                      holds = pointed-other t c q p h ∙ e.holds;
                    }) in
                  rw
                    (
                      node_at-IsAt t p k l r (parent_of c) e,
                      relink-pointed t c p q d h e.not_null,
                      null_false t₁.nodes q uk (top_of ul) (top_of ur) old m.0,
                      at,
                    )
                    (set_parent-reparented t₁ (node ul q uk ur) old (parent_of c) m (omega arith))
            ]
        m

  pub transplant_lem :
      IsAt t.nodes p k l r (parent_of c)
      → HoldsAround t.root t.nodes c p
      → times_around p c ≡ 0
      → Holds t.nodes old u
      → ((a : ℕ) → times_around a c + times a u ≤ 1)
      → IsTransplanted t c u p
  transplant_lem e d h m v =
      let t₁ = pointed t c (top_of u) in
      let m₁ =
        frame t.nodes t₁.nodes old u m
          λ a i. pointed-other t c (top_of u) a (omega (arith, v a, i)) in
      let d₁ = HoldsAround-pointed t c (top_of u) p d (λ a. omega (arith, v a)) in
      record {
        run = transplant-run e d h m₁;
        around =
            subst (λ z. HoldsAround z (transplanted t c u).nodes c (top_of u))
              (sym (reparented-root t₁ u (parent_of c)))
              (around_other t₁.root t₁ u (parent_of c) c (top_of u) d₁ v);
        holds = Holds-reparented t₁ u old (parent_of c) m₁ (λ a. omega (arith, v a));
        other = λ a i.
            reparented-other t₁ u (parent_of c) a (omega (arith, i))
            ∙ pointed-other t c (top_of u) a (omega (arith, i));
      }
