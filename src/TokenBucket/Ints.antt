-- ===== src/TokenBucket/Ints.antt =====
-- The operations on a bucket whose ints are not negative and do not overflow.
use my_learning.Base.{
  ℕ, ◌+◌, ◌-◌, ◌≡◌, ◌≤◌, ◌<◌, ◌^◌, ◌%◌, refl, ap, true, false, Bool, Option, none, some, ok, arith,
  ltb, if◌then◌else◌, Bool-cases, inl, inr,
}
use my_learning.TokenBucket.{
  Bucket, int_mod, is_negative, less, add_int, sub_int, capped, refill, fetch, give, min,
}

less-eq : (a b : ℕ) → a < 2 ^ 31 → b < 2 ^ 31 → less a b ≡ ltb a b
unfolding less
less-eq a b h k = ground arith

add_int-ok : (a b : ℕ) → a + b < 2 ^ 31 → add_int a b ≡ ok (a + b)
unfolding add_int
add_int-ok a b h =
    let sum : (a + b) % int_mod ≡ a + b = omega (arith, h) in
    let first : is_negative a ≡ false = ground (arith, h) in
    let second : is_negative b ≡ false = ground (arith, h) in
    let third : is_negative (a + b) ≡ false = ground (arith, h) in
    rw (sum, first, second, third) refl

sub_int-ok : (a b : ℕ) → a < 2 ^ 31 → b ≤ a → sub_int a b ≡ ok (a - b)
unfolding sub_int
sub_int-ok a b h k =
    let difference : (a + (int_mod - b)) % int_mod ≡ a - b = omega (arith, h, k) in
    let first : is_negative a ≡ false = ground (arith, h) in
    let second : is_negative b ≡ false = ground (arith, h, k) in rw (difference, first, second) refl

-- the tokens `n` more, at most up to the burst
abbrev pub filled : ℕ → Bucket → Bucket
filled n b = record b { token = if ltb b.brust (b.token + n) then b.brust else b.token + n }

capped-eq :
    (b : Bucket) (token : ℕ)
    → b.brust < 2 ^ 31
    → token < 2 ^ 31
    → capped (record b { token = token })
      ≡ record b { token = if ltb b.brust token then b.brust else token }
unfolding capped
capped-eq b token h k =
    rw (less-eq b.brust token h k)
      (elim (Bool-cases (ltb b.brust token)) [ inl e ↦ rw e refl | inr e ↦ rw e refl ])

pub refill-ok :
    (b : Bucket) → b.token ≤ b.brust → b.brust + b.cps < 2 ^ 31 → refill b ≡ ok (filled b.cps b)
unfolding refill
refill-ok b k h =
    rw (add_int-ok b.token b.cps (omega (arith, k, h)))
      (ap (λ c. ok c) (capped-eq b (b.token + b.cps) (omega (arith, h)) (omega (arith, k, h))))

pub give-ok :
    (size : ℕ) (b : Bucket)
    → b.token ≤ b.brust
    → b.brust + size < 2 ^ 31
    → give size b ≡ ok (filled size b)
unfolding give
give-ok size b k h =
    rw (add_int-ok b.token size (omega (arith, k, h)))
      (ap (λ c. ok c) (capped-eq b (b.token + size) (omega (arith, h)) (omega (arith, k, h))))

if-ok : {A : Type 0} (t : Bool) (x y : A) → (if t then ok x else ok y) ≡ ok (if t then x else y)
if-ok true x y = refl
if-ok false x y = refl

-- what a fetch takes, unless it waits
abbrev pub fetched : ℕ → Bucket → Option (ℕ × Bucket)
fetched size b =
    let n = if ltb size b.token then size else b.token in
    if ltb 0 b.token then some (n, record b { token = b.token - n }) else none

pub fetch-ok :
    (size : ℕ) (b : Bucket) → b.token < 2 ^ 31 → size < 2 ^ 31 → fetch size b ≡ ok (fetched size b)
unfolding fetch min
fetch-ok size b h k = rw (less-eq 0 b.token (omega arith) h) (
    rw (less-eq size b.token k h) (elim (Bool-cases (ltb size b.token)) [
      | inl e ↦
          rw e (rw (sub_int-ok b.token size h (ground (arith, e))) (if-ok (ltb 0 b.token) _ none))
      | inr e ↦
          rw e (rw (sub_int-ok b.token b.token h (omega arith)) (if-ok (ltb 0 b.token) _ none))
    ]))
