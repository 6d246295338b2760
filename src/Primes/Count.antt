-- ===== src/Primes/Count.antt =====
-- What count_prime counts.
use my_learning.Base.{
  ℕ, zero, suc, ◌≡◌, ◌≢◌, refl, sym, ap, subst, ◌+◌, ◌-◌, ◌*◌, ◌%◌, ◌^◌, ◌≤◌, ◌<◌, Bool, true,
  false, Option, none, some, inl, inr, arith, ◌==◌, lt→ltb, ℕ_discrete, dec_lt, ◌∙◌,
}
use Prim.Native.Nat.{◌∣◌}
use native.Mathlib.Nat.{dvd_of_mod-eq-zero, mod-eq-zero_of_dvd, mod_self, mul-le-mul_right}
use my_learning.Primes.{
  SquareRoot, is_prime_from, is_prime, count_from, count_prime, isprime_from, isprime,
}
use my_learning.Primes.Division.{
  NoneBelow, PrimeOrSquare, root-IsPrimeSquare, beyond-IsPrime, divided,
}

-- what a test answers, and whether it holds
abbrev pub answer : {P : Type 0} → Dec P → Bool
answer (yes h) = true
answer (no h) = false

-- `c` of the numbers from 2 to `max` have the property.
pub data Counts (P : ℕ → Type 0) : ℕ → ℕ → Type 0 where
  nothing : Counts P 1 0
  counted : {max c : ℕ} → P (max + 1) → Counts P max c → Counts P (max + 1) (c + 1)
  skipped : {max c : ℕ} → ¬ (P (max + 1)) → Counts P max c → Counts P (max + 1) c

module _ (root : SquareRoot) where
  abbrev Answers : ℕ → Option Bool → Type 0
  Answers n o = (d : Dec (PrimeOrSquare n)) × (o ≡ some (answer d))

  more-NoneBelow : (i n : ℕ) → NoneBelow i n → ¬ (i ∣ n) → NoneBelow (i + 1) n
  more-NoneBelow i n free undivided d least less = elim (ℕ_discrete d i) [
    | yes e ↦ subst (λ x. ¬ (x ∣ n)) (sym e) undivided
    | no ne ↦ free d least (omega arith)
  ]

  -- The loop decides, with enough fuel left.
  is_prime_from-Answers :
      (fuel n i : ℕ)
      → 2 ≤ n
      → n < 2 ^ 52
      → 2 ≤ i
      → NoneBelow i n
      → n < i + fuel
      → 0 < fuel
      → Answers n (is_prime_from root fuel n i)
  unfolding is_prime_from
  is_prime_from-Answers zero n i big small two free enough some_fuel = absurd (omega arith)
  is_prime_from-Answers (suc fuel) n i big small two free enough some_fuel =
      elim (dec_lt (i * i) n) [
        | yes below ↦
            let on : root.below i n ≡ true = root.exact i n small ∙ lt→ltb (i * i) n below in
            let first : i < i * i = omega (arith, mul-le-mul_right i two) in
            elim (ℕ_discrete (n % i) 0) [
              | yes e ↦ (no (divided i n two below (dvd_of_mod-eq-zero i e)), rw (on, e) refl)
              | no ne ↦
                  let (d, ran) =
                    is_prime_from-Answers fuel n (i + 1) big small (omega arith)
                      (more-NoneBelow i n free (λ h. ne (mod-eq-zero_of_dvd i h))) (omega arith)
                      (omega arith) in
                  let left : (n % i == 0) ≡ false = ground arith in (d, rw (on, left) ran)
            ]
        | no above ↦
            let off : root.below i n ≡ false = root.exact i n small ∙ ground arith in
            elim (ℕ_discrete (i * i) n) [
              | yes e ↦ (yes (inr (root-IsPrimeSquare i n two free e)), rw off refl)
              | no ne ↦ (yes (inl (beyond-IsPrime i n big two free (omega arith))), rw off refl)
            ]
      ]

  pub is_prime-Answers : (n : ℕ) → 2 ≤ n → n < 2 ^ 52 → Answers n (is_prime root n)
  unfolding is_prime
  is_prime-Answers n big small =
      is_prime_from-Answers n n 2 big small (omega arith) (λ d least less. absurd (omega arith))
        (omega arith) (omega arith)

  abbrev pub Total : ℕ → ℕ → Option ℕ → Type 0
  Total max count o = (c : ℕ) × Counts PrimeOrSquare max c × (o ≡ some ((count + c) % 2 ^ 64))

  count_from-Total :
      (k last start count total : ℕ)
      → 1 ≤ last
      → last + k < 2 ^ 52
      → Counts PrimeOrSquare last total
      → count ≡ (start + total) % 2 ^ 64
      → Total (last + k) start (count_from root k (last + 1) count)
  unfolding count_from
  count_from-Total zero last start count total some_number small counts so_far = (
    total,
    subst (λ m. Counts PrimeOrSquare m total) (omega arith) counts,
    ap (λ x. some x) so_far,
  )
  count_from-Total (suc k) last start count total some_number small counts so_far =
      let (d, ran) = is_prime-Answers (last + 1) (omega arith) (omega arith) in
      elim d
          as (λ x.
            is_prime root (last + 1) ≡ some (answer x)
            → Total (last + suc k) start (count_from root (suc k) (last + 1) count)) [
              | yes h ↦ λ ran'.
                  let (c, all, end) =
                    count_from-Total k (last + 1) start ((count + 1) % 2 ^ 64) (total + 1)
                      (omega arith) (omega arith) (counted h counts) (omega (arith, so_far)) in
                  (c, subst (λ m. Counts PrimeOrSquare m c) (omega arith) all, rw ran' end)
              | no h ↦ λ ran'.
                  let (c, all, end) =
                    count_from-Total k (last + 1) start count total (omega arith) (omega arith)
                      (skipped h counts) so_far in
                  (c, subst (λ m. Counts PrimeOrSquare m c) (omega arith) all, rw ran' end)
            ]
        ran

  -- For a bound from 1 to below 2^52 and a counter of 64 bits that starts at `count`, count_prime ends,
  -- and adds to the counter, modulo 2^64, how many of the numbers from 2 to the bound are primes or
  -- squares of primes.
  pub count_prime_lem :
      (max count : ℕ)
      → 1 ≤ max
      → max < 2 ^ 52
      → count < 2 ^ 64
      → (c : ℕ) × Counts PrimeOrSquare max c
        × (count_prime root max count ≡ some ((count + c) % 2 ^ 64))
  unfolding count_prime
  count_prime_lem max count some_number small narrow =
      subst (λ m. Total m count (count_from root (max - 1) 2 count)) (omega arith)
        (count_from-Total (max - 1) 1 count count 0 (omega arith) (omega arith) nothing
          (omega arith))

isprime_from-none : (k i num : ℕ) → 2 ≤ i → i ≤ num → num < i + k → isprime_from k i num ≡ none
unfolding isprime_from
isprime_from-none zero i num two within reached = absurd (omega arith)
isprime_from-none (suc k) i num two within reached = elim (ℕ_discrete (num % i) 0) [
  | yes e ↦ rw e refl
  | no ne ↦
      let left : (num % i == 0) ≡ false = ground arith in
      let other : i ≢ num = λ e. ne (subst (λ x. num % x ≡ 0) (sym e) (mod_self num)) in
      rw left (isprime_from-none k (i + 1) num (omega arith) (omega arith) (omega arith))
]

-- isprime calls no number prime: its loop goes up to the number, which divides itself.
isprime-none : (num : ℕ) → 2 ≤ num → isprime num ≡ none
unfolding isprime
isprime-none num two = isprime_from-none (num - 1) 2 num (omega arith) two (omega arith)
