-- ===== src/BinarySearchTree/Shape/Forms.antt =====
-- Trees with addresses and keys, trees with a hole, and how often an address stands in them.
use my_learning.Base.{
  ℕ, ◌+◌, ◌≡◌, ◌≢◌, ◌≤◌, ◌<◌, ap, sym, ◌∙◌, subst, arith, List, [], ◌∷◌, ◌++◌, ◌==◌, if◌then◌else◌,
  append-append, append_nil, ℕ_discrete,
}

-- left subtree, address, key, right subtree
pub data Shape : Type 0 where
  leaf : Shape
  node : Shape → ℕ → ℕ → Shape → Shape

-- a path from a hole up to the root: the hole is the left or the right child of the node at an address
pub data Context : Type 0 where
  top : Context
  left_of : Context → ℕ → ℕ → Shape → Context
  right_of : Shape → ℕ → ℕ → Context → Context

abbrev pub top_of : Shape → ℕ
top_of leaf = 0
top_of (node l p k r) = p

abbrev pub parent_of : Context → ℕ
parent_of top = 0
parent_of (left_of c p k r) = p
parent_of (right_of l p k c) = p

abbrev pub plug : Context → Shape → Shape
plug top s = s
plug (left_of c p k r) s = plug c (node s p k r)
plug (right_of l p k c) s = plug c (node l p k s)

abbrev pub inorder : Shape → List ℕ
inorder leaf = []
inorder (node l p k r) = inorder l ++ k ∷ inorder r

abbrev pub before : Context → List ℕ
before top = []
before (left_of c p k r) = before c
before (right_of l p k c) = before c ++ (inorder l ++ k ∷ [])

abbrev pub after : Context → List ℕ
after top = []
after (left_of c p k r) = k ∷ inorder r ++ after c
after (right_of l p k c) = after c

abbrev pub one : ℕ → ℕ → ℕ
one a p = if a == p then 1 else 0

-- how many nodes stand at `a`
abbrev pub times : ℕ → Shape → ℕ
times a leaf = 0
times a (node l p k r) = one a p + times a l + times a r

abbrev pub times_around : ℕ → Context → ℕ
times_around a top = 0
times_around a (left_of c p k r) = one a p + times a r + times_around a c
times_around a (right_of l p k c) = one a p + times a l + times_around a c

-- an upper bound of the depth
abbrev pub count : Shape → ℕ
count leaf = 0
count (node l p k r) = 1 + count l + count r

abbrev pub count_around : Context → ℕ
count_around top = 0
count_around (left_of c p k r) = 1 + count r + count_around c
count_around (right_of l p k c) = 1 + count l + count_around c

pub times-plug :
    (a : ℕ) (c : Context) (s : Shape) → times a (plug c s) ≡ times_around a c + times a s
times-plug a top s = omega arith
times-plug a (left_of c p k r) s = omega (arith, times-plug a c (node s p k r))
times-plug a (right_of l p k c) s = omega (arith, times-plug a c (node l p k s))

pub count-plug : (c : Context) (s : Shape) → count (plug c s) ≡ count_around c + count s
count-plug top s = omega arith
count-plug (left_of c p k r) s = omega (arith, count-plug c (node s p k r))
count-plug (right_of l p k c) s = omega (arith, count-plug c (node l p k s))

pub inorder-plug :
    (c : Context) (s : Shape) → inorder (plug c s) ≡ before c ++ (inorder s ++ after c)
inorder-plug top s = sym (append_nil (inorder s))
inorder-plug (left_of c p k r) s =
    inorder-plug c (node s p k r)
    ∙ ap (λ z. before c ++ z) (append-append (inorder s) (k ∷ inorder r) (after c))
inorder-plug (right_of l p k c) s =
    let rest = inorder s ++ after c in
    inorder-plug c (node l p k s)
    ∙ ap (λ z. before c ++ z) (append-append (inorder l) (k ∷ inorder s) (after c))
    ∙ sym (
        append-append (before c) (inorder l ++ k ∷ []) rest
        ∙ ap (λ z. before c ++ z) (append-append (inorder l) (k ∷ []) rest))

pub times_apart : (a b : ℕ) (s : Shape) → times a s ≡ 0 → 0 < times b s → b ≢ a
times_apart a b s e h f =
    absurd (subst (λ z. 0 < times z s → ⊥) (sym f) (λ k. omega (arith, e, k)) h)

pub once_plug :
    (p key a : ℕ) (c : Context)
    → times_around p c ≡ 0
    → times_around a c ≤ 1
    → times a (plug c (node leaf p key leaf)) ≤ 1
once_plug p key a c e h = elim (ℕ_discrete a p) [
  | yes same ↦
      subst (λ z. times z (plug c (node leaf p key leaf)) ≤ 1) (sym same)
        (ground (arith, times-plug p c (node leaf p key leaf), e))
  | no other ↦ ground (arith, times-plug a c (node leaf p key leaf), h, other)
]

pub only_plug :
    (p key a : ℕ) (c : Context)
    → times a (plug c (node leaf p key leaf)) ≡ 0
    → (times_around a c ≡ 0) × (a ≢ p)
only_plug p key a c h =
    let e = times-plug a c (node leaf p key leaf) in (omega (arith, e, h), ground (arith, e, h))

pub one_other : (a m : ℕ) → a ≢ m → one a m ≡ 0
one_other a m ne = ground (arith, ne)
