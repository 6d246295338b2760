-- ===== src/BinarySearchTree/Keys.antt =====
-- The specification of a search tree: an ascending list of ints.
use my_learning.Base.{
  ℕ, ◌≡◌, ◌≤◌, ◌<◌, refl, ap, sym, subst, ◌∙◌, arith, Bool, true, false, ◌||◌, List, [], ◌∷◌, ◌++◌,
  All, ltb, ◌==◌, if◌then◌else◌, Bool-cases, inl, inr, append-append,
}

abbrev pub IsAscending : List ℕ → Type 0
IsAscending [] = Unit
IsAscending (x ∷ xs) = All (λ y. x ≤ y) xs × IsAscending xs

-- behind those that are equal
abbrev pub put : ℕ → List ℕ → List ℕ
put k [] = k ∷ []
put k (x ∷ xs) = if ltb k x then k ∷ x ∷ xs else x ∷ put k xs

abbrev pub take_out : ℕ → List ℕ → List ℕ
take_out k [] = []
take_out k (x ∷ xs) = if x == k then xs else x ∷ take_out k xs

abbrev pub member : ℕ → List ℕ → Bool
member k [] = false
member k (x ∷ xs) = (x == k) || member k xs

-- the first is larger than `k`
abbrev pub StartsAbove : ℕ → List ℕ → Type 0
StartsAbove k [] = Unit
StartsAbove k (x ∷ xs) = k < x

pub put-append :
    (k : ℕ) (xs ys : List ℕ)
    → All (λ x. x ≤ k) xs
    → StartsAbove k ys
    → put k (xs ++ ys) ≡ xs ++ k ∷ ys
put-append k [] [] a h = refl
put-append k [] (y ∷ ys) a h = ground (arith, h)
put-append k (x ∷ xs) ys a h = ground (arith, a.0, put-append k xs ys a.1 h)

module _ (P : ℕ → Type 0) where
  All-append_right : (xs ys : List ℕ) → All P (xs ++ ys) → All P ys
  All-append_right [] ys a = a
  All-append_right (x ∷ xs) ys a = All-append_right xs ys a.1

  All-put : (k : ℕ) (xs : List ℕ) → P k → All P xs → All P (put k xs)
  All-put k [] p a = (p, tt)
  All-put k (x ∷ xs) p a = elim (Bool-cases (ltb k x)) [
    | inl e ↦ rw e (p, a)
    | inr e ↦ rw e (a.0, All-put k xs p a.1)
  ]

  All-take_out : (k : ℕ) (xs : List ℕ) → All P xs → All P (take_out k xs)
  All-take_out k [] a = tt
  All-take_out k (x ∷ xs) a = elim (Bool-cases (x == k)) [
    | inl e ↦ rw e a.1
    | inr e ↦ rw e (a.0, All-take_out k xs a.1)
  ]

  pub All-mono : {Q : ℕ → Type 0} (xs : List ℕ) → ((x : ℕ) → Q x → P x) → All Q xs → All P xs
  All-mono [] f a = tt
  All-mono (x ∷ xs) f a = (f x a.0, All-mono xs f a.1)

pub IsAscending-around :
    (k : ℕ) (xs ys : List ℕ)
    → IsAscending (xs ++ k ∷ ys)
    → All (λ x. x ≤ k) xs × All (λ y. k ≤ y) ys
IsAscending-around k [] ys a = (tt, a.0)
IsAscending-around k (x ∷ xs) ys a =
    let (l, r) = IsAscending-around k xs ys a.1 in
    (((All-append_right (λ y. x ≤ y) xs (k ∷ ys) a.0).0, l), r)

pub IsAscending-put : (k : ℕ) (xs : List ℕ) → IsAscending xs → IsAscending (put k xs)
IsAscending-put k [] a = (tt, tt)
IsAscending-put k (x ∷ xs) a = elim (Bool-cases (ltb k x)) [
  | inl e ↦ rw e (
    (ground (arith, e), All-mono (λ y. k ≤ y) {Q = λ y. x ≤ y} xs (λ y h. ground (arith, e)) a.0),
    a,
  )
  | inr e ↦ rw e (All-put (λ y. x ≤ y) k xs (ground (arith, e)) a.0, IsAscending-put k xs a.1)
]

pub IsAscending-take_out : (k : ℕ) (xs : List ℕ) → IsAscending xs → IsAscending (take_out k xs)
IsAscending-take_out k [] a = tt
IsAscending-take_out k (x ∷ xs) a = elim (Bool-cases (x == k)) [
  | inl e ↦ rw e a.1
  | inr e ↦ rw e (All-take_out (λ y. x ≤ y) k xs a.0, IsAscending-take_out k xs a.1)
]

-- equal ints are moved past each other
rotate : (k : ℕ) (xs ys : List ℕ) → All (λ x. x ≡ k) xs → xs ++ k ∷ ys ≡ k ∷ xs ++ ys
rotate k [] ys a = refl
rotate k (x ∷ xs) ys a = rw (a.0, rotate k xs ys a.1) refl

squeezed : (k : ℕ) (xs : List ℕ) → All (λ x. k ≤ x) xs → All (λ x. x ≤ k) xs → All (λ x. x ≡ k) xs
squeezed k [] a b = tt
squeezed k (x ∷ xs) a b = (omega (arith, a.0, b.0), squeezed k xs a.1 b.1)

All-append_left : (P : ℕ → Type 0) (xs ys : List ℕ) → All P (xs ++ ys) → All P xs
All-append_left P [] ys a = tt
All-append_left P (x ∷ xs) ys a = (a.0, All-append_left P xs ys a.1)

pub take_out-append :
    (k : ℕ) (xs ys : List ℕ) → IsAscending (xs ++ k ∷ ys) → take_out k (xs ++ k ∷ ys) ≡ xs ++ ys
take_out-append k [] ys a = ground arith
take_out-append k (x ∷ xs) ys a = elim (Bool-cases (x == k)) [
  | inl e ↦
      let same : x ≡ k = ground (arith, e) in
      let low = All-append_left (λ y. x ≤ y) xs (k ∷ ys) a.0 in
      let equal =
        squeezed k xs (subst (λ z. All (λ y. z ≤ y) xs) same low)
          (IsAscending-around k xs ys a.1).0 in
      rw (e, rotate k xs ys equal) (ap (λ z. z ∷ xs ++ ys) (sym same))
  | inr e ↦ rw (e, take_out-append k xs ys a.1) refl
]

pub member-append : (k : ℕ) (xs ys : List ℕ) → member k (xs ++ ys) ≡ (member k xs || member k ys)
member-append k [] ys = refl
member-append k (x ∷ xs) ys = ground (arith, member-append k xs ys)

pub member_above : (k : ℕ) (xs : List ℕ) → All (λ x. k < x) xs → member k xs ≡ false
member_above k [] a = refl
member_above k (x ∷ xs) a = ground (arith, a.0, member_above k xs a.1)

pub member_below : (k : ℕ) (xs : List ℕ) → All (λ x. x < k) xs → member k xs ≡ false
member_below k [] a = refl
member_below k (x ∷ xs) a = ground (arith, a.0, member_below k xs a.1)

-- a key on one side of a greater or a smaller one is not on the other
pub member_right :
    (key k : ℕ) (xs ys : List ℕ)
    → All (λ x. x ≤ k) xs
    → k < key
    → member key (xs ++ k ∷ ys) ≡ member key ys
member_right key k [] ys a h = ground (arith, h)
member_right key k (x ∷ xs) ys a h = ground (arith, a.0, member_right key k xs ys a.1 h)

pub member_left :
    (key k : ℕ) (xs ys : List ℕ)
    → All (λ y. k ≤ y) ys
    → key < k
    → member key (xs ++ k ∷ ys) ≡ member key xs
member_left key k [] ys a h =
    ground (arith, member_above key ys (All-mono (λ y. key < y) ys (λ y i. omega (arith, i)) a))
member_left key k (x ∷ xs) ys a h = ground (arith, member_left key k xs ys a h)

pub IsAscending-parts :
    (k : ℕ) (xs ys : List ℕ) → IsAscending (xs ++ k ∷ ys) → IsAscending xs × IsAscending ys
IsAscending-parts k [] ys a = (tt, a.1)
IsAscending-parts k (x ∷ xs) ys a =
    let (l, r) = IsAscending-parts k xs ys a.1 in
    ((All-append_left (λ y. x ≤ y) xs (k ∷ ys) a.0, l), r)

member_inside : (k : ℕ) (xs ys : List ℕ) → member k (xs ++ k ∷ ys) ≡ true
member_inside k [] ys = ground arith
member_inside k (x ∷ xs) ys = ground (arith, member_inside k xs ys)

member_left_part : (k : ℕ) (xs ys : List ℕ) → member k xs ≡ true → member k (xs ++ ys) ≡ true
member_left_part k xs ys h = rw (member-append k xs ys, h) refl

member_right_part : (k : ℕ) (xs ys : List ℕ) → member k ys ≡ true → member k (xs ++ ys) ≡ true
member_right_part k xs ys h = member-append k xs ys ∙ ground (arith, h)

pub member_middle : (k : ℕ) (xs ys zs ws : List ℕ) → member k (xs ++ (ys ++ k ∷ zs ++ ws)) ≡ true
member_middle k xs ys zs ws =
    member_right_part k xs (ys ++ k ∷ zs ++ ws)
      (member_left_part k (ys ++ k ∷ zs) ws (member_inside k ys zs))

pub All-append : (P : ℕ → Type 0) (xs ys : List ℕ) → All P xs → All P ys → All P (xs ++ ys)
All-append P [] ys a b = b
All-append P (x ∷ xs) ys a b = (a.0, All-append P xs ys a.1 b)

pub take_out_absent : (k : ℕ) (xs : List ℕ) → member k xs ≡ false → take_out k xs ≡ xs
take_out_absent k [] h = refl
take_out_absent k (x ∷ xs) h = ground (arith, h, take_out_absent k xs)

pub take_out_middle :
    (k : ℕ) (xs ys zs ws : List ℕ)
    → IsAscending (xs ++ ((ys ++ k ∷ zs) ++ ws))
    → take_out k (xs ++ ((ys ++ k ∷ zs) ++ ws)) ≡ xs ++ ((ys ++ zs) ++ ws)
take_out_middle k xs ys zs ws a =
    let split : xs ++ ((ys ++ k ∷ zs) ++ ws) ≡ (xs ++ ys) ++ (k ∷ (zs ++ ws)) =
      ap (λ v. xs ++ v) (append-append ys (k ∷ zs) ws)
      ∙ sym (append-append xs ys (k ∷ (zs ++ ws))) in
    ap (take_out k) split
    ∙ take_out-append k (xs ++ ys) (zs ++ ws) (subst IsAscending split a)
    ∙ append-append xs ys (zs ++ ws)
    ∙ ap (λ v. xs ++ v) (sym (append-append ys zs ws))
