-- ===== src/LogStream/Binary.antt =====
-- formatIEC of myMuduo/lib/LogStream.cpp, with its comparisons of doubles taken as exact; a letter
-- stands for itself and an `i`.
use my_learning.Base.{ℕ, ◌*◌, ◌^◌, ◌≤◌, ◌<◌, arith, ltb, if◌then◌else◌}
use my_learning.LogStream.{Format, format}
use my_learning.LogStream.Units.{IsShown, test_cases}

unfoldable pub format_iec : ℕ → Format
format_iec s =
    if ltb s 1024
    then format 0 1 0
    else if ltb (s * 1000) 10234880
    then format 2 1024 75
    else if ltb (s * 1000) 102348800
    then format 1 1024 75
    else if ltb (s * 1000) 1048064000
    then format 0 1024 75
    else if ltb (s * 1000) 10480517120
    then format 2 1048576 77
    else if ltb (s * 1000) 104805171200
    then format 1 1048576 77
    else if ltb (s * 1000) 1073217536000
    then format 0 1048576 77
    else if ltb (s * 1000) 10732049530880
    then format 2 1073741824 71
    else if ltb (s * 1000) 107320495308800
    then format 1 1073741824 71
    else if ltb (s * 1000) 1098974756864000
    then format 0 1073741824 71
    else if ltb (s * 1000) 10989618719621120
    then format 2 1099511627776 84
    else if ltb (s * 1000) 109896187196211200
    then format 1 1099511627776 84
    else if ltb (s * 1000) 1125350151028736000
    then format 0 1099511627776 84
    else if ltb (s * 1000) 11253369568892026880
    then format 2 1125899906842624 80
    else if ltb (s * 1000) 112533695688920268800
    then format 1 1125899906842624 80
    else if ltb (s * 1000) 1152358554653425664000
    then format 0 1125899906842624 80
    else if ltb (s * 1000) 11523450438545435525120
    then format 2 1152921504606846976 69
    else format 1 1152921504606846976 69

abbrev ShowsFew : ℕ → Format → Type 0
ShowsFew s f = (r : ℕ) → IsShown f s r → (100 ≤ r) × (r ≤ 1023)

if-ShowsFew :
    (s n bound : ℕ) (f g : Format)
    → (n < bound → ShowsFew s f)
    → (bound ≤ n → ShowsFew s g)
    → ShowsFew s (if ltb n bound then f else g)
if-ShowsFew s n bound f g small large =
    test_cases (ltb n bound) f g (ShowsFew s) (λ e. small (ground (arith, e)))
      (λ e. large (ground (arith, e)))

kibi-ShowsFew :
    (s : ℕ) (rest : Format)
    → 1024 ≤ s
    → (1048064000 ≤ s * 1000 → ShowsFew s rest)
    → ShowsFew s (
        if ltb (s * 1000) 10234880
        then format 2 1024 75
        else if ltb (s * 1000) 102348800
        then format 1 1024 75
        else if ltb (s * 1000) 1048064000
        then format 0 1024 75
        else rest)
kibi-ShowsFew s rest low next =
    if-ShowsFew s (s * 1000) 10234880 (format 2 1024 75) _
      (λ h r (up, below). (omega (arith, low, h, up, below), omega (arith, low, h, up, below)))
      (λ k.
        if-ShowsFew s (s * 1000) 102348800 (format 1 1024 75) _
          (λ h r (up, below). (omega (arith, k, h, up, below), omega (arith, k, h, up, below)))
          (λ m.
            if-ShowsFew s (s * 1000) 1048064000 (format 0 1024 75) rest
              (λ h r (up, below). (omega (arith, m, h, up, below), omega (arith, m, h, up, below)))
              next))

mebi-ShowsFew :
    (s : ℕ) (rest : Format)
    → 1048064000 ≤ s * 1000
    → (1073217536000 ≤ s * 1000 → ShowsFew s rest)
    → ShowsFew s (
        if ltb (s * 1000) 10480517120
        then format 2 1048576 77
        else if ltb (s * 1000) 104805171200
        then format 1 1048576 77
        else if ltb (s * 1000) 1073217536000
        then format 0 1048576 77
        else rest)
mebi-ShowsFew s rest low next =
    if-ShowsFew s (s * 1000) 10480517120 (format 2 1048576 77) _
      (λ h r (up, below). (omega (arith, low, h, up, below), omega (arith, low, h, up, below)))
      (λ k.
        if-ShowsFew s (s * 1000) 104805171200 (format 1 1048576 77) _
          (λ h r (up, below). (omega (arith, k, h, up, below), omega (arith, k, h, up, below)))
          (λ m.
            if-ShowsFew s (s * 1000) 1073217536000 (format 0 1048576 77) rest
              (λ h r (up, below). (omega (arith, m, h, up, below), omega (arith, m, h, up, below)))
              next))

gibi-ShowsFew :
    (s : ℕ) (rest : Format)
    → 1073217536000 ≤ s * 1000
    → (1098974756864000 ≤ s * 1000 → ShowsFew s rest)
    → ShowsFew s (
        if ltb (s * 1000) 10732049530880
        then format 2 1073741824 71
        else if ltb (s * 1000) 107320495308800
        then format 1 1073741824 71
        else if ltb (s * 1000) 1098974756864000
        then format 0 1073741824 71
        else rest)
gibi-ShowsFew s rest low next =
    if-ShowsFew s (s * 1000) 10732049530880 (format 2 1073741824 71) _
      (λ h r (up, below). (omega (arith, low, h, up, below), omega (arith, low, h, up, below)))
      (λ k.
        if-ShowsFew s (s * 1000) 107320495308800 (format 1 1073741824 71) _
          (λ h r (up, below). (omega (arith, k, h, up, below), omega (arith, k, h, up, below)))
          (λ m.
            if-ShowsFew s (s * 1000) 1098974756864000 (format 0 1073741824 71) rest
              (λ h r (up, below). (omega (arith, m, h, up, below), omega (arith, m, h, up, below)))
              next))

tebi-ShowsFew :
    (s : ℕ) (rest : Format)
    → 1098974756864000 ≤ s * 1000
    → (1125350151028736000 ≤ s * 1000 → ShowsFew s rest)
    → ShowsFew s (
        if ltb (s * 1000) 10989618719621120
        then format 2 1099511627776 84
        else if ltb (s * 1000) 109896187196211200
        then format 1 1099511627776 84
        else if ltb (s * 1000) 1125350151028736000
        then format 0 1099511627776 84
        else rest)
tebi-ShowsFew s rest low next =
    if-ShowsFew s (s * 1000) 10989618719621120 (format 2 1099511627776 84) _
      (λ h r (up, below). (omega (arith, low, h, up, below), omega (arith, low, h, up, below)))
      (λ k.
        if-ShowsFew s (s * 1000) 109896187196211200 (format 1 1099511627776 84) _
          (λ h r (up, below). (omega (arith, k, h, up, below), omega (arith, k, h, up, below)))
          (λ m.
            if-ShowsFew s (s * 1000) 1125350151028736000 (format 0 1099511627776 84) rest
              (λ h r (up, below). (omega (arith, m, h, up, below), omega (arith, m, h, up, below)))
              next))

pebi-ShowsFew :
    (s : ℕ) (rest : Format)
    → 1125350151028736000 ≤ s * 1000
    → (1152358554653425664000 ≤ s * 1000 → ShowsFew s rest)
    → ShowsFew s (
        if ltb (s * 1000) 11253369568892026880
        then format 2 1125899906842624 80
        else if ltb (s * 1000) 112533695688920268800
        then format 1 1125899906842624 80
        else if ltb (s * 1000) 1152358554653425664000
        then format 0 1125899906842624 80
        else rest)
pebi-ShowsFew s rest low next =
    if-ShowsFew s (s * 1000) 11253369568892026880 (format 2 1125899906842624 80) _
      (λ h r (up, below). (omega (arith, low, h, up, below), omega (arith, low, h, up, below)))
      (λ k.
        if-ShowsFew s (s * 1000) 112533695688920268800 (format 1 1125899906842624 80) _
          (λ h r (up, below). (omega (arith, k, h, up, below), omega (arith, k, h, up, below)))
          (λ m.
            if-ShowsFew s (s * 1000) 1152358554653425664000 (format 0 1125899906842624 80) rest
              (λ h r (up, below). (omega (arith, m, h, up, below), omega (arith, m, h, up, below)))
              next))

-- From 1024 on, formatIEC shows every int64_t with at most four digits: the units in its last shown
-- place are between 100 and 1023.
pub format_iec_lem :
    (s r : ℕ) → 1024 ≤ s → s < 2 ^ 63 → IsShown (format_iec s) s r → (100 ≤ r) × (r ≤ 1023)
unfolding format_iec
format_iec_lem s r low high =
    if-ShowsFew s s 1024 (format 0 1 0) _ (λ h. absurd (omega (arith, low, h)))
      (λ _. kibi-ShowsFew s _ low λ a. mebi-ShowsFew s _ a λ b. gibi-ShowsFew s _ b λ c.
        tebi-ShowsFew s _ c λ d. pebi-ShowsFew s _ d λ e.
          if-ShowsFew s (s * 1000) 11523450438545435525120 (format 2 1152921504606846976 69) _
            (λ h r (up, below). (omega (arith, e, h, up, below), omega (arith, e, h, up, below)))
            (λ h. absurd (omega (arith, h, high))))
      r
