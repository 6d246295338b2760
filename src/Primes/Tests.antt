-- ===== src/Primes/Tests.antt =====
-- Small numbers, with an exact root.
use my_learning.Base.{◌≡◌, refl, ◌*◌, ◌+◌, ◌%◌, ◌^◌, ℕ, true, false, none, some, ltb, arith}
use my_learning.Primes.{SquareRoot, is_prime, count_prime, isprime}
use my_learning.Primes.Division.{PrimeOrSquare}
use my_learning.Primes.Count.{Counts, count_prime_lem}

abbrev exact_root : SquareRoot
exact_root = record { below = λ i n. ltb (i * i) n; exact = λ i n small. refl }

seven : is_prime exact_root 7 ≡ some true
unfolding is_prime
seven = refl

eight : is_prime exact_root 8 ≡ some false
unfolding is_prime
eight = refl

-- 9 is taken for a prime.
nine : is_prime exact_root 9 ≡ some true
unfolding is_prime
nine = refl

-- 2, 3, 4, 5, 7 and 9
up_to_ten : count_prime exact_root 10 0 ≡ some 6
unfolding count_prime
up_to_ten = refl

from_junk : count_prime exact_root 3 41 ≡ some 43
unfolding count_prime
from_junk = refl

five : isprime 5 ≡ none
unfolding isprime
five = refl

count_prime_lem_example :
    (c : ℕ) × Counts PrimeOrSquare 10 c × (count_prime exact_root 10 41 ≡ some ((41 + c) % 2 ^ 64))
count_prime_lem_example = count_prime_lem exact_root 10 41 (omega arith) (omega arith) (omega arith)
