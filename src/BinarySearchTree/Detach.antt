-- ===== src/BinarySearchTree/Detach.antt =====
-- The branch of remove in which the replacement is not a child of the target.
use my_learning.Base.{ℕ, ◌+◌, ◌≡◌, ◌≢◌, ◌≤◌, ◌<◌, sym, ◌∙◌, subst, arith, ok}
use my_learning.BinarySearchTree.{Tree, write, set_right, detach}
use my_learning.BinarySearchTree.Shape.{
  Shape, leaf, node, Context, right_of, top_of, parent_of, count, times, times_around, one, Holds,
  HoldsAround, IsAt, node_at-IsAt, frame, frame_around, update_same, update_other, times_apart,
}
use my_learning.BinarySearchTree.Leftmost.{
  Chain, hang, under, times-hang, times-under, hung, unhung,
}
use my_learning.BinarySearchTree.Transplant.{
  reparented, reparented-other, reparented-root, Holds-reparented, set_parent-reparented,
  transplanted, transplant_lem,
}

-- how often `a` stands in what is around the target, in it, on its left and in the rest
abbrev pub sum : ℕ → Context → ℕ → Shape → Shape → ℕ
sum a c p l rest = times_around a c + one a p + times a l + times a rest

pub one_self : (a : ℕ) → one a a ≡ 1
one_self a = ground arith

pub one_apart : (a m : ℕ) → one a m ≡ 0 → a ≢ m
one_apart a m h e = omega (arith, subst (λ z. one z m ≡ 0) e h, one_self m)

-- the node at `p` is not one of the others
pub record IsAlone (p : ℕ) (c : Context) (l rest : Shape) : Type 0 where
  pub around : times_around p c ≡ 0
  pub left_child : times p l ≡ 0
  pub others : times p rest ≡ 0

pub alone : (p : ℕ) (c : Context) (l rest : Shape) → sum p c p l rest ≤ 1 → IsAlone p c l rest
alone p c l rest u =
    let s = one_self p in
    record {
      around = omega (arith, u, s);
      left_child = omega (arith, u, s);
      others = omega (arith, u, s);
    }

-- `m` in another place
pub IsAlone-below :
    (p : ℕ) (c : Context) (l : Shape) (m mk : ℕ) (rest : Shape)
    → sum m c p l (node leaf m mk rest) ≤ 1
    → IsAlone m c l rest × (p ≢ m)
IsAlone-below p c l m mk rest u =
    let s = one_self m in
    (
      record {
        around = omega (arith, u, s);
        left_child = omega (arith, u, s);
        others = omega (arith, u, s);
      },
      λ e. let s' : one m p ≡ 1 = subst (λ z. one m z ≡ 1) (sym e) s in omega (arith, u, s, s'),
    )

pub around_apart : (a m : ℕ) (c : Context) → times_around m c ≡ 0 → 0 < times_around a c → a ≢ m
around_apart a m c h i e = omega (arith, subst (λ z. 0 < times_around z c) e i, h)

-- The target is at `p` with the left child `l`; `m` is to take its place, with the right child `rest`.
pub record IsReady (t : Tree) (c : Context) (p key : ℕ) (l : Shape) (m mk : ℕ) (rest : Shape)
    : Type 0 where
  pub around : HoldsAround t.root t.nodes c p
  pub right_child : ℕ
  pub target : IsAt t.nodes p key (top_of l) right_child (parent_of c)
  pub left_child : Holds t.nodes p l
  pub parent : ℕ
  pub replacement : Holds t.nodes parent (node leaf m mk rest)

-- the same once `m`'s right child is written
module _ (t : Tree) (c : Context) (p key : ℕ) (l : Shape) (m mk up : ℕ) (rest : Shape)
    (old : ℕ) where
  -- what set_right and set_parent make of the store
  abbrev joined : Tree
  joined =
      reparented (write t m (record { data_ = mk; left = 0; right = top_of rest; parent = up }))
        rest m

  joined-other : (a : ℕ) → a ≢ m → times a rest ≡ 0 → joined.nodes a ≡ t.nodes a
  joined-other a ne h =
      reparented-other
        (write t m (record { data_ = mk; left = 0; right = top_of rest; parent = up })) rest m a h
      ∙ update_other t.nodes m a _ ne

  joined-IsReady :
      HoldsAround t.root t.nodes c p
      → IsAt t.nodes p key (top_of l) (top_of rest) (parent_of c)
      → Holds t.nodes p l
      → IsAt t.nodes m mk 0 old up
      → Holds t.nodes p rest
      → ((a : ℕ) → sum a c p l (node leaf m mk rest) ≤ 1)
      → IsReady joined c p key l m mk rest
  joined-IsReady d e h f g u =
      let t₂ = write t m (record { data_ = mk; left = 0; right = top_of rest; parent = up }) in
      let (w, ne) = IsAlone-below p c l m mk rest (u m) in
      let v = alone p c l (node leaf m mk rest) (u p) in
      let g₂ =
        frame t.nodes t₂.nodes p rest g
          λ a i. update_other t.nodes m a _ (times_apart m a rest w.others i) in
      record {
        around =
            subst (λ z. HoldsAround z joined.nodes c p) (sym (reparented-root t₂ rest m))
              (frame_around t.root t.nodes joined.nodes c p d
                λ a i. joined-other a (around_apart a m c w.around i) (omega (arith, u a, i)));
        right_child = top_of rest;
        target = record {
          not_null = e.not_null;
          holds = joined-other p ne (omega (arith, v.others)) ∙ e.holds;
        };
        left_child =
            frame t.nodes joined.nodes p l h
              λ a i. joined-other a (times_apart m a l w.left_child i) (omega (arith, u a, i));
        parent = up;
        replacement = (
          record {
            not_null = f.not_null;
            holds = reparented-other t₂ rest m m w.others ∙ update_same t.nodes m _;
          },
          tt,
          Holds-reparented t₂ rest p m g₂ (λ a. omega (arith, u a)),
        );
      }

-- what `detach` leaves
pub record IsDetached (t t' : Tree) (c : Context) (p key : ℕ) (l : Shape) (m mk : ℕ) (rest : Shape)
    : Type 0 where
  pub run : detach t p m ≡ ok t'
  pub ready : IsReady t' c p key l m mk rest
  pub other : (a : ℕ) → sum a c p l (node leaf m mk rest) ≡ 0 → t'.nodes a ≡ t.nodes a

module _ (t : Tree) (c : Context) (p key : ℕ) (l : Shape) (m mk : ℕ) (r : Shape) (ls : Chain) where
  pub detach_lem :
      HoldsAround t.root t.nodes (right_of l p key c) (top_of (hang ls (node leaf m mk r)))
      → Holds t.nodes p (hang ls (node leaf m mk r))
      → 0 < count (hang ls r)
      → ((a : ℕ) → sum a c p l (node leaf m mk (hang ls r)) ≤ 1)
      → (t' : Tree) × IsDetached t t' c p key l m mk (hang ls r)
  unfolding detach set_right
  detach_lem d h pos u =
      let outer = right_of l p key c in
      let inner = under outer ls in
      let rest = hang ls r in
      let (d₁, (at, _, hr)) = unhung t.root t.nodes outer ls (node leaf m mk r) d h in
      let total : (a : ℕ) → times_around a inner + (one a m + times a r) ≤ 1 = λ a.
        omega (arith, u a, times-under a outer ls (node leaf m mk r), times-hang a ls m mk r) in
      let self = one_self m in
      let out : times_around m inner ≡ 0 = omega (arith, total m, self) in
      let moved =
        transplant_lem t inner r m mk 0 (top_of r) m at d₁ out hr (λ a. omega (arith, total a)) in
      let t₁ = transplanted t inner r in
      let at₁ : IsAt t₁.nodes m mk 0 (top_of r) (parent_of inner) = record {
        not_null = at.not_null;
        holds = moved.other m (omega (arith, total m, self)) ∙ at.holds;
      } in
      let ((e, hl, d₂), h₂) = hung t₁.root t₁.nodes outer ls r moved.around moved.holds in
      let (w, ne) = IsAlone-below p c l m mk rest (u m) in
      let up = parent_of inner in
      let t₂ = write t₁ m (record { data_ = mk; left = 0; right = top_of rest; parent = up }) in
      let h₃ =
        frame t₁.nodes t₂.nodes p rest h₂
          λ a i. update_other t₁.nodes m a _ (times_apart m a rest w.others i) in
      let at₂ =
        node_at-IsAt t₂ m mk 0 (top_of rest) up
          (record { not_null = at.not_null; holds = update_same t₁.nodes m _ }) in
      (
        joined t₁ c p key l m mk up rest (top_of r),
        record {
          run =
              rw
                (
                  node_at-IsAt t m mk 0 (top_of r) up at,
                  moved.run,
                  node_at-IsAt t₁ p key (top_of l) (top_of rest) (parent_of c) e,
                  node_at-IsAt t₁ m mk 0 (top_of r) up at₁,
                  at₂,
                )
                (set_parent-reparented t₂ rest p m h₃ pos);
          ready = joined-IsReady t₁ c p key l m mk up rest (top_of r) d₂ e hl at₁ h₂ u;
          other = λ a i.
              let none_there = times-under a outer ls (node leaf m mk r) in
              let none_hung = times-hang a ls m mk r in
              joined-other t₁ c p key l m mk up rest (top_of r) a (one_apart a m (omega (arith, i)))
                (omega (arith, i))
              ∙ moved.other a (omega (arith, i, none_there, none_hung));
        },
      )
