-- ===== src/LogStream/Units.antt =====
-- formatSI shows three digits.
use my_learning.Base.{
  ℕ, ◌+◌, ◌*◌, ◌^◌, ◌≡◌, ◌≤◌, ◌<◌, Bool, true, false, refl, arith, ltb, if◌then◌else◌,
}
use my_learning.LogStream.{Format, format, format_si}

-- `r` units in the last place are nearest to `s`, as printf rounds
abbrev pub IsShown : Format → ℕ → ℕ → Type 0
IsShown f s r =
    (2 * (r * f.divisor) ≤ 2 * (s * 10 ^ f.decimals) + f.divisor)
    × (2 * (s * 10 ^ f.decimals) ≤ 2 * (r * f.divisor) + f.divisor)

abbrev ShowsThree : ℕ → Format → Type 0
ShowsThree s f = (r : ℕ) → IsShown f s r → (100 ≤ r) × (r ≤ 999)

pub test_cases :
    (test : Bool) (f g : Format) (P : Format → Type 0)
    → (test ≡ true → P f)
    → (test ≡ false → P g)
    → P (if test then f else g)
test_cases true f g P when_true when_false = when_true refl
test_cases false f g P when_true when_false = when_false refl

if-ShowsThree :
    (s bound : ℕ) (f g : Format)
    → (s < bound → ShowsThree s f)
    → (bound ≤ s → ShowsThree s g)
    → ShowsThree s (if ltb s bound then f else g)
if-ShowsThree s bound f g small large =
    test_cases (ltb s bound) f g (ShowsThree s) (λ e. small (ground (arith, e)))
      (λ e. large (ground (arith, e)))

kilo-ShowsThree :
    (s : ℕ) (rest : Format)
    → 1000 ≤ s
    → (999500 ≤ s → ShowsThree s rest)
    → ShowsThree s (
        if ltb s 9995
        then format 2 1000 107
        else if ltb s 99950
        then format 1 1000 107
        else if ltb s 999500
        then format 0 1000 107
        else rest)
kilo-ShowsThree s rest low next =
    if-ShowsThree s 9995 (format 2 1000 107) _
      (λ h r (up, down). (omega (arith, low, h, up, down), omega (arith, low, h, up, down)))
      (λ k.
        if-ShowsThree s 99950 (format 1 1000 107) _
          (λ h r (up, down). (omega (arith, k, h, up, down), omega (arith, k, h, up, down)))
          (λ l.
            if-ShowsThree s 999500 (format 0 1000 107) rest
              (λ h r (up, down). (omega (arith, l, h, up, down), omega (arith, l, h, up, down)))
              next))

mega-ShowsThree :
    (s : ℕ) (rest : Format)
    → 999500 ≤ s
    → (999500000 ≤ s → ShowsThree s rest)
    → ShowsThree s (
        if ltb s 9995000
        then format 2 1000000 77
        else if ltb s 99950000
        then format 1 1000000 77
        else if ltb s 999500000
        then format 0 1000000 77
        else rest)
mega-ShowsThree s rest low next =
    if-ShowsThree s 9995000 (format 2 1000000 77) _
      (λ h r (up, down). (omega (arith, low, h, up, down), omega (arith, low, h, up, down)))
      (λ k.
        if-ShowsThree s 99950000 (format 1 1000000 77) _
          (λ h r (up, down). (omega (arith, k, h, up, down), omega (arith, k, h, up, down)))
          (λ l.
            if-ShowsThree s 999500000 (format 0 1000000 77) rest
              (λ h r (up, down). (omega (arith, l, h, up, down), omega (arith, l, h, up, down)))
              next))

giga-ShowsThree :
    (s : ℕ) (rest : Format)
    → 999500000 ≤ s
    → (999500000000 ≤ s → ShowsThree s rest)
    → ShowsThree s (
        if ltb s 9995000000
        then format 2 1000000000 71
        else if ltb s 99950000000
        then format 1 1000000000 71
        else if ltb s 999500000000
        then format 0 1000000000 71
        else rest)
giga-ShowsThree s rest low next =
    if-ShowsThree s 9995000000 (format 2 1000000000 71) _
      (λ h r (up, down). (omega (arith, low, h, up, down), omega (arith, low, h, up, down)))
      (λ k.
        if-ShowsThree s 99950000000 (format 1 1000000000 71) _
          (λ h r (up, down). (omega (arith, k, h, up, down), omega (arith, k, h, up, down)))
          (λ l.
            if-ShowsThree s 999500000000 (format 0 1000000000 71) rest
              (λ h r (up, down). (omega (arith, l, h, up, down), omega (arith, l, h, up, down)))
              next))

tera-ShowsThree :
    (s : ℕ) (rest : Format)
    → 999500000000 ≤ s
    → (999500000000000 ≤ s → ShowsThree s rest)
    → ShowsThree s (
        if ltb s 9995000000000
        then format 2 1000000000000 84
        else if ltb s 99950000000000
        then format 1 1000000000000 84
        else if ltb s 999500000000000
        then format 0 1000000000000 84
        else rest)
tera-ShowsThree s rest low next =
    if-ShowsThree s 9995000000000 (format 2 1000000000000 84) _
      (λ h r (up, down). (omega (arith, low, h, up, down), omega (arith, low, h, up, down)))
      (λ k.
        if-ShowsThree s 99950000000000 (format 1 1000000000000 84) _
          (λ h r (up, down). (omega (arith, k, h, up, down), omega (arith, k, h, up, down)))
          (λ l.
            if-ShowsThree s 999500000000000 (format 0 1000000000000 84) rest
              (λ h r (up, down). (omega (arith, l, h, up, down), omega (arith, l, h, up, down)))
              next))

peta-ShowsThree :
    (s : ℕ) (rest : Format)
    → 999500000000000 ≤ s
    → (999500000000000000 ≤ s → ShowsThree s rest)
    → ShowsThree s (
        if ltb s 9995000000000000
        then format 2 1000000000000000 80
        else if ltb s 99950000000000000
        then format 1 1000000000000000 80
        else if ltb s 999500000000000000
        then format 0 1000000000000000 80
        else rest)
peta-ShowsThree s rest low next =
    if-ShowsThree s 9995000000000000 (format 2 1000000000000000 80) _
      (λ h r (up, down). (omega (arith, low, h, up, down), omega (arith, low, h, up, down)))
      (λ k.
        if-ShowsThree s 99950000000000000 (format 1 1000000000000000 80) _
          (λ h r (up, down). (omega (arith, k, h, up, down), omega (arith, k, h, up, down)))
          (λ l.
            if-ShowsThree s 999500000000000000 (format 0 1000000000000000 80) rest
              (λ h r (up, down). (omega (arith, l, h, up, down), omega (arith, l, h, up, down)))
              next))

-- From 1000 up to 999.5P, formatSI shows every integer with three digits and the unit, rounding
-- included: the units in its last shown place are between 100 and 999.
pub format_si_lem :
    (s r : ℕ)
    → 1000 ≤ s
    → s < 999500000000000000
    → IsShown (format_si s) s r
    → (100 ≤ r) × (r ≤ 999)
unfolding format_si
format_si_lem s r low high =
    if-ShowsThree s 1000 (format 0 1 0) _ (λ h. absurd (omega (arith, low, h)))
      (λ _. kilo-ShowsThree s _ low λ a. mega-ShowsThree s _ (omega (arith, a)) λ b.
        giga-ShowsThree s _ (omega (arith, b)) λ c.
          tera-ShowsThree s _ (omega (arith, c))
            λ d. peta-ShowsThree s _ (omega (arith, d)) λ e. absurd (omega (arith, e, high)))
      r
