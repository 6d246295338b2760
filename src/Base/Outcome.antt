-- ===== src/Base/Outcome.antt =====
-- How a call ends: with a value, or by `abort` (a failed assert, LOG_FATAL or LOG_SYSFATAL).
use mathlib.Core.Bool.{Bool, true, false}
use mathlib.Core.Path.{◌≡◌, ap}

pub data Run {ℓ} (A : Type ℓ) : Type ℓ where
  ok : A → Run A
  abort : Run A

infixl 5 ◌>>=◌ ◌>>◌
abbrev pub ◌>>=◌ {ℓ κ} : {A : Type ℓ} {B : Type κ} → Run A → (A → Run B) → Run B
ok a >>= f = f a
abort >>= f = abort

abbrev pub ◌>>◌ {ℓ} : {B : Type ℓ} → Run (Unit {0}) → Run B → Run B
m >> k = m >>= λ _. k

-- `assert(test)` of a build with assertions
abbrev pub assert : Bool → Run (Unit {0})
assert true = ok tt
assert false = abort

pub ok-injective {ℓ} : {A : Type ℓ} (x y : A) → ok x ≡ ok y → x ≡ y
ok-injective x y e = ap (λ r. elim r [ ok a ↦ a | abort ↦ x ]) e
