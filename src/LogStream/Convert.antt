-- ===== src/LogStream/Convert.antt =====
-- The text of an integer.
use my_learning.Base.{
  subst, append_nil, ℕ, zero, suc, ◌+◌, ◌-◌, ◌*◌, ◌/◌, ◌%◌, ◌^◌, ◌≡◌, ◌≤◌, ◌<◌, refl, ap, sym, ◌∙◌,
  true, false, List, [], ◌∷◌, ◌++◌, length, length-append, arith, if◌then◌else◌, All, ◌==◌, Bool,
}
use my_learning.Base.Int.{ℤ, pos, negsuc, quot, rem, pos_part, neg_part, ◌+ℤ◌, ◌-ℤ◌, ltb_ℤ, eqb_ℤ}
use my_learning.LogStream.{digits, digit, char_at, reverse, convert_loop, convert}

-- an independent reading of decimal text
unfoldable pub read_digits : ℕ → List ℕ → ℕ
read_digits acc [] = acc
read_digits acc (c ∷ cs) = read_digits (acc * 10 + (c - 48)) cs

-- with a '-' in front of a negative number
unfoldable pub read : List ℕ → ℤ
unfolding read_digits
read [] = pos 0
read (c ∷ cs) = if c == 45 then pos 0 -ℤ pos (read_digits 0 cs) else pos (read_digits 0 (c ∷ cs))

pow10 : ℕ → ℕ
pow10 zero = 1
pow10 (suc n) = 10 * pow10 n

abbrev pub size_of : ℤ → ℕ
size_of i = pos_part i + neg_part i

digit_up : (k : ℕ) → k < 10 → char_at digits (9 + k) ≡ 48 + k
digit_up k h = ground (arith, h)

digit_down : (k : ℕ) → k < 10 → char_at digits (9 - k) ≡ 48 + k
digit_down k h = ground (arith, h)

digit-rem : (i : ℤ) → digit (rem i 10) ≡ 48 + size_of i % 10
unfolding digit ◌+ℤ◌
digit-rem (pos n) = ground (arith, digit_up (n % 10))
digit-rem (negsuc n) = ground (arith, digit_down (suc n % 10))

size_of-quot : (i : ℤ) → size_of (quot i 10) ≡ size_of i / 10
size_of-quot (pos n) = ground arith
size_of-quot (negsuc n) = ground arith

last_quot : (i : ℤ) → eqb_ℤ (quot i 10) (pos 0) ≡ (size_of i / 10 == 0)
last_quot (pos n) = ground arith
last_quot (negsuc n) = ground arith

read_digits-append :
    (xs : List ℕ) (acc c : ℕ) → read_digits acc (xs ++ c ∷ []) ≡ read_digits acc xs * 10 + (c - 48)
unfolding read_digits
read_digits-append [] acc c = refl
read_digits-append (x ∷ xs) acc c = read_digits-append xs (acc * 10 + (x - 48)) c

reverse-append : (xs : List ℕ) (c : ℕ) → reverse (xs ++ c ∷ []) ≡ c ∷ reverse xs
unfolding reverse
reverse-append [] c = refl
reverse-append (x ∷ xs) c = ap (λ r. r ++ x ∷ []) (reverse-append xs c)

pub length-reverse : (xs : List ℕ) → length (reverse xs) ≡ length xs
unfolding reverse
length-reverse [] = refl
length-reverse (x ∷ xs) = omega (arith, length-reverse xs, length-append (reverse xs) (x ∷ []))

-- no '-' among the characters
abbrev AreDigits : List ℕ → Type 0
AreDigits = All (λ c. 48 ≤ c)

AreDigits-append : (xs : List ℕ) (c : ℕ) → AreDigits xs → 48 ≤ c → AreDigits (xs ++ c ∷ [])
AreDigits-append [] c d h = (h, tt)
AreDigits-append (x ∷ xs) c (k, d) h = (k, AreDigits-append xs c d h)

record Written (f : ℕ) (i : ℤ) (chars : List ℕ) : Type 0 where
  value : read_digits 0 (reverse chars) ≡ size_of i
  short : length chars ≤ f
  plain : AreDigits (reverse chars)

Written-cons :
    (f : ℕ) (i : ℤ) (rest : List ℕ)
    → read_digits 0 (reverse rest) ≡ size_of i / 10
    → length rest ≤ f
    → AreDigits (reverse rest)
    → Written (suc f) i (digit (rem i 10) ∷ rest)
unfolding reverse
Written-cons f i rest e h d =
    let c = digit (rem i 10) in
    let is : c ≡ 48 + size_of i % 10 = digit-rem i in
    record {
      value = read_digits-append (reverse rest) 0 c ∙ omega (arith, e, is);
      short = omega (arith, h);
      plain = AreDigits-append (reverse rest) c d (omega (arith, is));
    }

Written-if :
    (last : Bool) (f : ℕ) (i : ℤ) (rest : List ℕ)
    → (last ≡ true → size_of i / 10 ≡ 0)
    → read_digits 0 (reverse rest) ≡ size_of i / 10
    → length rest ≤ f
    → AreDigits (reverse rest)
    → Written (suc f) i (digit (rem i 10) ∷ (if last then [] else rest))
unfolding reverse read_digits
Written-if true f i rest z e h d = Written-cons f i [] (sym (z refl)) (omega arith) tt
Written-if false f i rest z e h d = Written-cons f i rest e h d

convert_loop-Written : (f : ℕ) (i : ℤ) → size_of i < pow10 f → Written f i (convert_loop f i)
unfolding convert_loop reverse read_digits pow10
convert_loop-Written zero i h = record { value = omega (arith, h); short = omega arith; plain = tt }
convert_loop-Written (suc f) i h =
    let next = convert_loop-Written f (quot i 10) (omega (arith, h, size_of-quot i)) in
    Written-if (eqb_ℤ (quot i 10) (pos 0)) f i (convert_loop f (quot i 10))
      (λ e. ground (arith, last_quot i, e)) (next.value ∙ size_of-quot i) next.short next.plain

read_plain : (chars : List ℕ) → AreDigits chars → read chars ≡ pos (read_digits 0 chars)
unfolding read read_digits
read_plain [] d = refl
read_plain (c ∷ cs) (h, d) = ground (arith, h)

read_minus : (chars : List ℕ) → read (45 ∷ chars) ≡ pos 0 -ℤ pos (read_digits 0 chars)
unfolding read
read_minus chars = refl

plus_nothing : (n : ℕ) → size_of (pos n) ≡ n
plus_nothing n = omega arith

zero_minus : (n : ℕ) → pos 0 -ℤ pos (size_of (negsuc n)) ≡ negsuc n
unfolding ◌-ℤ◌
zero_minus n = ground arith

in_range : (m : ℕ) → m < 10 ^ 20 → m < pow10 20
unfolding pow10
in_range m h = h

abbrev Reads : ℤ → List ℕ → Type 0
Reads v text = (read text ≡ v) × (length text ≤ 21)

-- The text of an integer of up to 64 bits reads back as that integer, the least one included, and has
-- at most 21 characters.
pub convert_lem : (v : ℤ) → size_of v < 10 ^ 20 → (read (convert v) ≡ v) × (length (convert v) ≤ 21)
unfolding convert
convert_lem (pos n) h =
    let chars = convert_loop 20 (pos n) in
    let w = convert_loop-Written 20 (pos n) (in_range (size_of (pos n)) h) in
    let sign : ltb_ℤ (pos n) (pos 0) ≡ false = ground arith in
    let plain : Reads (pos n) (reverse chars) = (
      read_plain (reverse chars) w.plain ∙ (ap pos w.value ∙ ap pos (plus_nothing n)),
      omega (arith, w.short, length-reverse chars),
    ) in
    subst (λ t. Reads (pos n) (reverse (chars ++ (if t then 45 ∷ [] else [])))) (sym sign)
      (subst (λ t. Reads (pos n) (reverse t)) (sym (append_nil chars)) plain)
convert_lem (negsuc n) h =
    let chars = convert_loop 20 (negsuc n) in
    let w = convert_loop-Written 20 (negsuc n) (in_range (size_of (negsuc n)) h) in
    let sign : ltb_ℤ (negsuc n) (pos 0) ≡ true = ground arith in
    let minus : Reads (negsuc n) (45 ∷ reverse chars) = (
      read_minus (reverse chars) ∙ (ap (λ m. pos 0 -ℤ pos m) w.value ∙ zero_minus n),
      omega (arith, w.short, length-reverse chars),
    ) in
    subst (λ t. Reads (negsuc n) (reverse (chars ++ (if t then 45 ∷ [] else [])))) (sym sign)
      (subst (Reads (negsuc n)) (sym (reverse-append chars 45)) minus)
