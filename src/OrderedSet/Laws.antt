-- ===== src/OrderedSet/Laws.antt =====
-- The laws of the ordered sets.
use my_learning.Base.{
  ℕ, suc, ◌≡◌, ◌≢◌, refl, Bool, true, false, ◌&&◌, ◌||◌, not, List, [], ◌∷◌, ◌++◌, length, arith,
  All, inl, inr, Bool-cases, ◌≤◌, ◌<◌,
}
use my_learning.OrderedSet.{
  Pair, lt_pair, eq_pair, member, insert, erase, before, from, IsBelow, IsSorted,
}

pub eq_pair_eq : (x y : Pair) → eq_pair x y ≡ true → x ≡ y
eq_pair_eq (a, b) (c, d) h = ground arith

pub eq_pair_refl : (x : Pair) → eq_pair x x ≡ true
eq_pair_refl (a, b) = ground arith

lt_pair_trans : (x y z : Pair) → lt_pair x y ≡ true → lt_pair y z ≡ true → lt_pair x z ≡ true
lt_pair_trans (a, b) (c, d) (e, f) h k = ground arith

lt_pair_total : (x y : Pair) → lt_pair x y ≡ false → eq_pair x y ≡ false → lt_pair y x ≡ true
lt_pair_total (a, b) (c, d) h k = ground arith

lt_pair-ne : (x y : Pair) → lt_pair x y ≡ true → eq_pair x y ≡ false
lt_pair-ne (a, b) (c, d) h = ground arith

IsBelow-trans : (x y : Pair) (xs : List Pair) → lt_pair x y ≡ true → IsBelow y xs → IsBelow x xs
IsBelow-trans x y [] h b = tt
IsBelow-trans x y (z ∷ xs) h (b, bs) = (lt_pair_trans x y z h b, IsBelow-trans x y xs h bs)

member-IsBelow : (x : Pair) (xs : List Pair) → IsBelow x xs → member x xs ≡ false
unfolding member
member-IsBelow x [] b = refl
member-IsBelow x (y ∷ xs) (b, bs) = rw (lt_pair-ne x y b) (member-IsBelow x xs bs)

pub member-insert :
    (x y : Pair) (xs : List Pair) → member y (insert x xs) ≡ (eq_pair y x || member y xs)
unfolding member insert
member-insert x y [] = refl
member-insert (a, b) (c, d) ((e, f) ∷ xs) = ground (arith, member-insert (a, b) (c, d) xs)

insert-IsBelow :
    (w x : Pair) (xs : List Pair) → lt_pair w x ≡ true → IsBelow w xs → IsBelow w (insert x xs)
unfolding insert
insert-IsBelow w x [] h b = (h, tt)
insert-IsBelow w x (y ∷ xs) h (b, bs) = ground (arith, insert-IsBelow w x xs h bs)

pub insert-IsSorted : (x : Pair) (xs : List Pair) → IsSorted xs → IsSorted (insert x xs)
unfolding insert
insert-IsSorted x [] s = (tt, tt)
insert-IsSorted x (y ∷ xs) (b, s) = elim (Bool-cases (lt_pair x y)) [
  | inl e ↦ rw e ((e, IsBelow-trans x y xs e b), (b, s))
  | inr e ↦ elim (Bool-cases (eq_pair x y)) [
    | inl k ↦ rw (e, k) (b, s)
    | inr k ↦ rw (e, k) (insert-IsBelow y x xs (lt_pair_total x y e k) b, insert-IsSorted x xs s)
  ]
]

pub length-insert :
    (x : Pair) (xs : List Pair) → member x xs ≡ false → length (insert x xs) ≡ suc (length xs)
unfolding insert member
length-insert x [] h = refl
length-insert x (y ∷ xs) h = ground (arith, length-insert x xs)

pub length-erase :
    (x : Pair) (xs : List Pair) → member x xs ≡ true → suc (length (erase x xs)) ≡ length xs
unfolding erase member
length-erase x [] h = cc
length-erase x (y ∷ xs) h = ground (arith, length-erase x xs)

erase-IsBelow : (w x : Pair) (xs : List Pair) → IsBelow w xs → IsBelow w (erase x xs)
unfolding erase
erase-IsBelow w x [] b = tt
erase-IsBelow w x (y ∷ xs) (b, bs) = ground (arith, erase-IsBelow w x xs bs)

pub erase-IsSorted : (x : Pair) (xs : List Pair) → IsSorted xs → IsSorted (erase x xs)
unfolding erase
erase-IsSorted x [] s = tt
erase-IsSorted x (y ∷ xs) (b, s) = elim (Bool-cases (eq_pair x y)) [
  | inl e ↦ rw e s
  | inr e ↦ rw e (erase-IsBelow y x xs b, erase-IsSorted x xs s)
]

pub member-erase :
    (x y : Pair) (xs : List Pair)
    → IsSorted xs
    → member y (erase x xs) ≡ (not (eq_pair x y) && member y xs)
unfolding member erase
member-erase x y [] s = ground arith
member-erase (a, b) (c, d) ((e, f) ∷ xs) (k, s) =
    ground (arith, member-erase (a, b) (c, d) xs s, member-IsBelow (e, f) xs k)

-- The two parts at a lower bound make up the set.
pub before-append-from : (x : Pair) (xs : List Pair) → before x xs ++ from x xs ≡ xs
unfolding before from
before-append-from x [] = refl
before-append-from x (y ∷ xs) = ground (arith, before-append-from x xs)

pub from-IsSorted : (x : Pair) (xs : List Pair) → IsSorted xs → IsSorted (from x xs)
unfolding from
from-IsSorted x [] s = tt
from-IsSorted x (y ∷ xs) (b, s) = elim (Bool-cases (lt_pair y x)) [
  | inl e ↦ rw e (from-IsSorted x xs s)
  | inr e ↦ rw e (b, s)
]

pub All-of_member {κ} :
    {P : Pair → Type κ} (xs : List Pair) → ((x : Pair) → member x xs ≡ true → P x) → All P xs
unfolding member
All-of_member [] h = tt
All-of_member (x ∷ xs) h =
    (h x (rw (eq_pair_refl x) refl), All-of_member xs λ y e. h y (or_right (eq_pair y x) e))
  where
    or_right : (a : Bool) {b : Bool} → b ≡ true → (a || b) ≡ true
    or_right a e = ground arith

-- What lies before the lower bound of `(now, top)` is not later than `now`.
pub before_due : (now top : ℕ) (xs : List Pair) → All (λ x. x.0 ≤ now) (before (now, top) xs)
unfolding before
before_due now top [] = tt
before_due now top ((w, p) ∷ xs) = ground (arith, before_due now top xs)

later_IsBelow :
    (now w p : ℕ) (xs : List Pair) → now < w → IsBelow (w, p) xs → All (λ x. now < x.0) xs
later_IsBelow now w p [] h b = tt
later_IsBelow now w p ((w', p') ∷ xs) h (b, bs) = (ground arith, later_IsBelow now w p xs h bs)

-- What lies from there on is later, if `top` is above every second number.
pub from_later :
    (now top : ℕ) (xs : List Pair)
    → IsSorted xs
    → All (λ x. x.1 < top) xs
    → All (λ x. now < x.0) (from (now, top) xs)
unfolding from
from_later now top [] s a = tt
from_later now top ((w, p) ∷ xs) (b, s) (h, a) = elim (Bool-cases (lt_pair (w, p) (now, top))) [
  | inl e ↦ rw e (from_later now top xs s a)
  | inr e ↦ rw e (ground arith, later_IsBelow now w p xs (ground arith) b)
]

-- No other item has the second number `p`, if all that have it share the first number.
pub distinct_below :
    (w p : ℕ) (xs : List Pair)
    → IsBelow (w, p) xs
    → ((w' : ℕ) → member (w', p) xs ≡ true → w' ≡ w)
    → All (λ y. y.1 ≢ p) xs
unfolding member
distinct_below w p [] b h = tt
distinct_below w p ((w', p') ∷ xs) (b, bs) h =
    (λ e. ground (arith, h w'), distinct_below w p xs bs (λ w₁ m. h w₁ (ground arith)))

pub member-cons_self : (x : Pair) (xs : List Pair) → member x (x ∷ xs) ≡ true
unfolding member
member-cons_self x xs = rw (eq_pair_refl x) refl

pub member-cons_of_member :
    (x y : Pair) (xs : List Pair) → member x xs ≡ true → member x (y ∷ xs) ≡ true
unfolding member
member-cons_of_member x y xs e = ground arith

pub member-append_left :
    (x : Pair) (xs ys : List Pair) → member x xs ≡ true → member x (xs ++ ys) ≡ true
unfolding member
member-append_left x [] ys e = cc
member-append_left x (y ∷ xs) ys e = ground (arith, member-append_left x xs ys)

pub IsBelow-append_left : (x : Pair) (xs ys : List Pair) → IsBelow x (xs ++ ys) → IsBelow x xs
IsBelow-append_left x [] ys b = tt
IsBelow-append_left x (y ∷ xs) ys (b, bs) = (b, IsBelow-append_left x xs ys bs)
