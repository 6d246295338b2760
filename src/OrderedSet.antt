-- ===== src/OrderedSet.antt =====
-- std::set of pairs, such as `std::set<std::pair<Timestamp, Timer*>>`: a list in ascending
-- lexicographic order. `insert` and `erase` are the new sets; the flag that `insert` returns is
-- `not (member x s)`, and the number that `erase` returns is 1 if `member x s`, and 0 otherwise.
pub mod Laws
use my_learning.Base.{
  ℕ, Bool, true, false, ◌&&◌, ◌||◌, List, [], ◌∷◌, ltb, ◌==◌, if◌then◌else◌, ◌≡◌, All,
}

abbrev pub Pair : Type 0
Pair = ℕ × ℕ

abbrev pub lt_pair : Pair → Pair → Bool
lt_pair (a, b) (c, d) = ltb a c || (a == c && ltb b d)

abbrev pub eq_pair : Pair → Pair → Bool
eq_pair (a, b) (c, d) = a == c && b == d

unfoldable pub member : Pair → List Pair → Bool
member x [] = false
member x (y ∷ ys) = eq_pair x y || member x ys

unfoldable pub insert : Pair → List Pair → List Pair
insert x [] = x ∷ []
insert x (y ∷ ys) =
    if lt_pair x y then x ∷ y ∷ ys else if eq_pair x y then y ∷ ys else y ∷ insert x ys

unfoldable pub erase : Pair → List Pair → List Pair
erase x [] = []
erase x (y ∷ ys) = if eq_pair x y then ys else y ∷ erase x ys

-- the part before `lower_bound(x)`, and the part from there on
unfoldable pub before : Pair → List Pair → List Pair
before x [] = []
before x (y ∷ ys) = if lt_pair y x then y ∷ before x ys else []

unfoldable pub from : Pair → List Pair → List Pair
from x [] = []
from x (y ∷ ys) = if lt_pair y x then from x ys else y ∷ ys

-- `x` is smaller than every item
abbrev pub IsBelow : Pair → List Pair → Type 0
IsBelow x = All (λ y. lt_pair x y ≡ true)

-- ascending, with no item twice
abbrev pub IsSorted : List Pair → Type 0
IsSorted [] = Unit
IsSorted (x ∷ xs) = IsBelow x xs × IsSorted xs
