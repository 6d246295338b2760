-- ===== src/Primes/Division.antt =====
-- Primes and their squares, as what the loop of isPrime does not rule out.
use my_learning.Base.{
  ℕ, zero, suc, ◌≡◌, ◌≢◌, sym, ap, subst, ◌+◌, ◌-◌, ◌*◌, ◌/◌, ◌%◌, ◌≤◌, ◌<◌, inl, inr, arith,
  ℕ_discrete, dec_lt, dec_le, ◌⊎◌,
}
use Prim.Native.Nat.{◌∣◌}
use native.Mathlib.Nat.{
  le_of_dvd, dvd-mul_left, dvd-mul_right, dvd-sub, dvd-mul_left_of_dvd, dvd-mul_right_of_dvd,
  mul-le-mul, mul-le-mul_right, mul-div_cancel', div-add-mod, mod-lt, dvd_of_mod-eq-zero,
  eq_of_mul-eq-mul_left,
}

abbrev pub IsPrime : ℕ → Type 0
IsPrime n = (2 ≤ n) × ((d : ℕ) → 2 ≤ d → d ∣ n → d ≡ n)

abbrev pub IsPrimeSquare : ℕ → Type 0
IsPrimeSquare n = (p : ℕ) × IsPrime p × (p * p ≡ n)

-- what the loop takes for a prime
abbrev pub PrimeOrSquare : ℕ → Type 0
PrimeOrSquare n = IsPrime n ⊎ IsPrimeSquare n

-- no number from 2 to `i` divides `n`
abbrev pub NoneBelow : ℕ → ℕ → Type 0
NoneBelow i n = (d : ℕ) → 2 ≤ d → d < i → ¬ (d ∣ n)

-- Where `i` is the root of `n`, and the first divisor, `n` is the square of a prime.
pub root-IsPrimeSquare : (i n : ℕ) → 2 ≤ i → NoneBelow i n → i * i ≡ n → IsPrimeSquare n
root-IsPrimeSquare i n two free e = (
  i,
  (
    two,
    λ d least divides. elim (dec_lt d i) [
      | yes l ↦ absurd (free d least l (subst (λ x. d ∣ x) e (dvd-mul_left_of_dvd d divides i)))
      | no l ↦ omega (arith, le_of_dvd (omega arith) divides)
    ],
  ),
  e,
)

cofactor_least : (d k n : ℕ) → d * k ≡ n → d ≢ n → 2 ≤ n → 2 ≤ k
cofactor_least d zero n e ne big = omega (arith, e, big)
cofactor_least d (suc zero) n e ne big = absurd (ne (omega (arith, e)))
cofactor_least d (suc (suc k)) n e ne big = omega arith

-- Where `i` is beyond the root of `n`, and no smaller number divides, `n` is prime.
pub beyond-IsPrime : (i n : ℕ) → 2 ≤ n → 2 ≤ i → NoneBelow i n → n < i * i → IsPrime n
beyond-IsPrime i n big two free l = (
  big,
  λ d least divides. elim (ℕ_discrete d n) [
    | yes e ↦ e
    | no ne ↦
        let k = n / d in
        let whole : d * k ≡ n = mul-div_cancel' d divides in
        let codivides : k ∣ n = subst (λ x. k ∣ x) whole (dvd-mul_left k d) in
        elim (dec_lt d i) [
          | yes less ↦ absurd (free d least less divides)
          | no more ↦ elim (dec_lt k i) [
            | yes less ↦ elim (dec_le 2 k) [
              | yes least_k ↦ absurd (free k least_k less codivides)
              | no few ↦ absurd (few (cofactor_least d k n whole ne big))
            ]
            | no much ↦
                let first : i ≤ d = omega (arith, more) in
                let second : i ≤ k = omega (arith, much) in
                omega (arith, l, whole, mul-le-mul first second)
          ]
        ]
  ],
)

-- A prime that divides a product divides the second factor, when the first is smaller than it.
prime_divides : (fuel i p k : ℕ) → i < fuel → IsPrime p → 0 < i → i < p → p ∣ i * k → p ∣ k
prime_divides zero i p k l prime some_i less divides = absurd (omega (arith, l))
prime_divides (suc fuel) i p k l prime some_i less divides =
    let whole : i * (p / i) + p % i ≡ p = div-add-mod p i in
    let rest : p * k - i * k * (p / i) ≡ p % i * k = omega (arith, ap (λ (t : ℕ). t * k) whole) in
    let rests : p ∣ p % i * k =
      subst (λ x. p ∣ x) rest
        (dvd-sub p (dvd-mul_right p k) (dvd-mul_right_of_dvd p divides (p / i))) in
    elim (ℕ_discrete (p % i) 0) [
      | yes e ↦ elim (dec_le 2 i) [
        | yes least ↦ absurd (omega (arith, prime.1 i least (dvd_of_mod-eq-zero i e), less))
        | no few ↦
            let one : i ≡ 1 = omega (arith, few, some_i) in
            subst (λ x. p ∣ x) (omega (arith, ap (λ (t : ℕ). t * k) one)) divides
      ]
      | no ne ↦
          let lesser : p % i < i = mod-lt p some_i in
          prime_divides fuel (p % i) p k (omega arith) prime (omega arith) (omega arith) rests
    ]

-- A number below a prime, but 1, does not divide the prime's square.
square_undivided : (i p : ℕ) → IsPrime p → 2 ≤ i → i < p → ¬ (i ∣ p * p)
square_undivided i p prime two less divides =
    let k = p * p / i in
    let whole : i * k ≡ p * p = mul-div_cancel' i divides in
    let shared : p ∣ k =
      prime_divides (suc i) i p k (omega arith) prime (omega arith) less
        (subst (λ x. p ∣ x) (sym whole) (dvd-mul_left p p)) in
    let j = k / p in
    let part : p * j ≡ k = mul-div_cancel' p shared in
    let product : p * (i * j) ≡ p * p = omega (arith, whole, ap (λ (t : ℕ). i * t) part) in
    let equal : i * j ≡ p = eq_of_mul-eq-mul_left p (omega arith) (i * j) p product in
    omega (arith, less, prime.1 i two (subst (λ x. i ∣ x) equal (dvd-mul_right i j)))

-- A number with a divisor below its root is neither a prime nor the square of one.
pub divided : (i n : ℕ) → 2 ≤ i → i * i < n → i ∣ n → ¬ PrimeOrSquare n
divided i n two l divides (inl prime) =
    let same : i ≡ n = prime.1 i two divides in
    let grows : 2 * i ≤ i * i = mul-le-mul_right i two in omega (arith, same, grows, l, two)
divided i n two l divides (inr (p, prime, e)) = elim (dec_lt i p) [
  | yes less ↦ square_undivided i p prime two less (subst (λ x. i ∣ x) (sym e) divides)
  | no more ↦ let above : p ≤ i = omega (arith, more) in omega (arith, l, e, mul-le-mul above above)
]
