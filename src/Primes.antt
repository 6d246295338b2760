-- ===== src/Primes.antt =====
-- The loops of C++20/include/thread.hpp that count primes, and isprime of C++20/include/tools.hpp.
-- All numbers are 64 bits wide in the first; a loop's numbers stay below its bound, so that only the
-- counter can wrap around.
pub mod Division
pub mod Count
mod Tests
use my_learning.Base.{
  ℕ, zero, suc, ◌≡◌, Bool, true, false, Option, none, some, ◌+◌, ◌-◌, ◌*◌, ◌%◌, ◌^◌, ◌<◌, ◌==◌, leb,
  ltb, if◌then◌else◌,
}

-- `i < std::sqrt(n)` on doubles: the root is rounded correctly, which keeps the comparison exact for
-- all n below 2^52.
pub record SquareRoot : Type 0 where
  pub below : ℕ → ℕ → Bool
  pub exact : (i n : ℕ) → n < 2 ^ 52 → below i n ≡ ltb (i * i) n

infixl 20 ◌>>=◌
abbrev ◌>>=◌ : {A B : Type 0} → Option A → (A → Option B) → Option B
none >>= f = none
some a >>= f = f a

module _ (root : SquareRoot) where
  -- the loop from `i` on; none when the fuel is not enough
  unfoldable pub is_prime_from : ℕ → ℕ → ℕ → Option Bool
  is_prime_from zero n i = none
  is_prime_from (suc fuel) n i =
      let rest = is_prime_from fuel n (i + 1) in
      if root.below i n then if n % i == 0 then some false else rest else some true

  unfoldable pub is_prime : ℕ → Option Bool
  unfolding is_prime_from
  is_prime n = is_prime_from n n 2

  -- the loop over `k` numbers from `i` on
  unfoldable pub count_from : ℕ → ℕ → ℕ → Option ℕ
  unfolding is_prime
  count_from zero i count = some count
  count_from (suc k) i count = do
    prime ← is_prime i
    count_from k (i + 1) (if prime then (count + 1) % 2 ^ 64 else count)

  -- The counter starts as it happens to be: no constructor sets it.
  unfoldable pub count_prime : ℕ → ℕ → Option ℕ
  unfolding count_from
  count_prime max count = count_from (max - 1) 2 count

-- isprime of tools.hpp for a number that is not negative: the loop over `k` numbers from `i` on
unfoldable pub isprime_from : ℕ → ℕ → ℕ → Option ℕ
isprime_from zero i num = some num
isprime_from (suc k) i num =
    let rest = isprime_from k (i + 1) num in if num % i == 0 then none else rest

unfoldable pub isprime : ℕ → Option ℕ
unfolding isprime_from
isprime num = isprime_from (num - 1) 2 num
