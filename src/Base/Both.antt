-- ===== src/Base/Both.antt =====
-- Two calls that end alike.
use mathlib.Core.Bool.{Bool, true, false}
use mathlib.Core.Path.{◌≡◌}
use my_learning.Base.Outcome.{Run, ok, abort, ◌>>=◌, ◌>>◌, assert}

-- Both calls abort, or both return, with results that `R` relates.
abbrev pub Both {ℓ κ} : {A : Type ℓ} {B : Type κ} → (A → B → Type 0) → Run A → Run B → Type 0
Both R (ok a) (ok b) = R a b
Both R abort abort = Unit
Both R (ok a) abort = ⊥
Both R abort (ok b) = ⊥

-- what a call returns, if it returns, has the property
abbrev pub Ends : {A : Type 0} → (A → Type 0) → Run A → Type 0
Ends I (ok a) = I a
Ends I abort = Unit

pub >>=-Both :
    {A B C D : Type 0} (R : A → B → Type 0) (S : C → D → Type 0) (m : Run A) (n : Run B)
    (f : A → Run C) (g : B → Run D)
    → Both R m n
    → ((a : A) (b : B) → R a b → Both S (f a) (g b))
    → Both S (m >>= f) (n >>= g)
>>=-Both R S (ok a) (ok b) f g h next = next a b h
>>=-Both R S abort abort f g h next = tt
>>=-Both R S (ok a) abort f g h next = absurd h
>>=-Both R S abort (ok b) f g h next = absurd h

pub Both-map :
    {A B : Type 0} (R S : A → B → Type 0) (m : Run A) (n : Run B)
    → Both R m n
    → ((a : A) (b : B) → R a b → S a b)
    → Both S m n
Both-map R S (ok a) (ok b) h f = f a b h
Both-map R S abort abort h f = tt
Both-map R S (ok a) abort h f = absurd h
Both-map R S abort (ok b) h f = absurd h

pub assert-Both :
    {C D : Type 0} (S : C → D → Type 0) (t u : Bool) (m : Run C) (n : Run D)
    → t ≡ u
    → Both S m n
    → Both S (assert t >> m) (assert u >> n)
assert-Both S true true m n e h = h
assert-Both S false false m n e h = tt
assert-Both S true false m n e h = cc
assert-Both S false true m n e h = cc
