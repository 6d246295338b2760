-- ===== src/LogStream.antt =====
-- myMuduo/lib/LogStream.hpp and LogStream.cpp.
-- A char is a number; `data_` is a list of SIZE of them and `cur_` an index. The text that snprintf
-- makes of a double is an argument. LogStream.hpp declares the constant kMaxNumberSize, which
-- LogStream.cpp calls kMaxNumericSize.
pub mod Convert
pub mod Bounds
pub mod Units
pub mod Binary
mod Tests
use my_learning.Base.{
  ℕ, zero, suc, ◌+◌, ◌-◌, ◌*◌, ◌/◌, ◌%◌, ◌^◌, Bool, true, false, Option, none, some, List, [], ◌∷◌,
  ◌++◌, length, get_elem?, ltb, leb, ◌==◌, if◌then◌else◌, overwrite, take, replicate,
}
use my_learning.Base.Int.{ℤ, pos, negsuc, quot, rem, pos_part, neg_part, ◌+ℤ◌, ltb_ℤ, eqb_ℤ}

abbrev pub small_buffer : ℕ
small_buffer = 4000

abbrev pub max_number_size : ℕ
max_number_size = 48

pub record FixedBuffer : Type 0 where
  pub data_chars : List ℕ
  pub cur : ℕ

unfoldable pub new_buffer : ℕ → FixedBuffer
new_buffer size = record { data_chars = replicate size 0; cur = 0 }

abbrev pub avail : FixedBuffer → ℕ
avail b = length b.data_chars - b.cur

-- memcpy to `cur_`
abbrev pub write : FixedBuffer → List ℕ → FixedBuffer
write b chars = record b { data_chars = overwrite b.data_chars b.cur chars }

abbrev pub add : FixedBuffer → ℕ → FixedBuffer
add b len = record b { cur = b.cur + len }

unfoldable pub append : FixedBuffer → List ℕ → FixedBuffer
append b chars = if ltb (length chars) (avail b) then add (write b chars) (length chars) else b

abbrev pub to_string : FixedBuffer → List ℕ
to_string b = take b.cur b.data_chars

abbrev pub reset : FixedBuffer → FixedBuffer
reset b = record b { cur = 0 }

-- "9876543210123456789"
abbrev pub digits : List ℕ
digits =
    57 ∷ 56 ∷ 55 ∷ 54 ∷ 53 ∷ 52 ∷ 51 ∷ 50 ∷ 49 ∷ 48 ∷ 49 ∷ 50 ∷ 51 ∷ 52 ∷ 53 ∷ 54 ∷ 55 ∷ 56 ∷ 57
    ∷ []

-- "0123456789ABCDEF"
abbrev pub digits_hex : List ℕ
digits_hex = 48 ∷ 49 ∷ 50 ∷ 51 ∷ 52 ∷ 53 ∷ 54 ∷ 55 ∷ 56 ∷ 57 ∷ 65 ∷ 66 ∷ 67 ∷ 68 ∷ 69 ∷ 70 ∷ []

abbrev pub char_at : List ℕ → ℕ → ℕ
char_at chars i = elim (get_elem? chars i) [ none ↦ 0 | some c ↦ c ]

-- `zero[lsd]`, where `zero` is `digits + 9`
unfoldable pub digit : ℤ → ℕ
digit lsd = char_at digits (pos_part (pos 9 +ℤ lsd))

unfoldable pub reverse : List ℕ → List ℕ
reverse [] = []
reverse (x ∷ xs) = reverse xs ++ x ∷ []

-- The loop of convert, on fuel: what it writes, the last digit first.
unfoldable pub convert_loop : ℕ → ℤ → List ℕ
convert_loop zero i = []
convert_loop (suc fuel) i =
    let rest = convert_loop fuel (quot i 10) in
    digit (rem i 10) ∷ (if eqb_ℤ (quot i 10) (pos 0) then [] else rest)

-- 20 digits are enough for 64 bits
unfoldable pub convert : ℤ → List ℕ
convert value = reverse (convert_loop 20 value ++ (if ltb_ℤ value (pos 0) then 45 ∷ [] else []))

unfoldable pub convert_hex_loop : ℕ → ℕ → List ℕ
convert_hex_loop zero i = []
convert_hex_loop (suc fuel) i =
    let rest = convert_hex_loop fuel (i / 16) in
    char_at digits_hex (i % 16) ∷ (if i / 16 == 0 then [] else rest)

unfoldable pub convert_hex : ℕ → List ℕ
convert_hex value = reverse (convert_hex_loop 16 value)

-- convert also writes a '\0' behind the digits
unfoldable pub format_integer : FixedBuffer → ℤ → FixedBuffer
format_integer b v =
    if leb max_number_size (avail b)
    then add (write b (convert v ++ 0 ∷ [])) (length (convert v))
    else b

-- what the operators `<<` take
pub data Item : Type 0 where
  bool : Bool → Item
  char : ℕ → Item
  -- short to unsigned long long
  integer : ℤ → Item
  -- const void*
  pointer : ℕ → Item
  -- const char*, which may be null
  c_string : Option (List ℕ) → Item
  -- std::string, std::string_view and another buffer
  string : List ℕ → Item
  -- a double, as snprintf with "%.12g" writes it into at most kMaxNumericSize chars
  double : List ℕ → Item

-- "(null)"
abbrev pub null_text : List ℕ
null_text = 40 ∷ 110 ∷ 117 ∷ 108 ∷ 108 ∷ 41 ∷ []

unfoldable pub put : FixedBuffer → Item → FixedBuffer
put b (bool v) = append b (if v then 49 ∷ [] else 48 ∷ [])
put b (char v) = append b (v ∷ [])
put b (integer v) = format_integer b v
put b (pointer p) =
    if leb max_number_size (avail b)
    then add (write b (48 ∷ 120 ∷ convert_hex p ++ 0 ∷ [])) (length (convert_hex p) + 2)
    else b
put b (c_string none) = append b null_text
put b (c_string (some chars)) = append b chars
put b (string chars) = append b chars
put b (double text) =
    if leb max_number_size (avail b) then add (write b (text ++ 0 ∷ [])) (length text) else b

unfoldable pub put_all : FixedBuffer → List Item → FixedBuffer
put_all b [] = b
put_all b (item ∷ items) = put_all (put b item) items

-- A format of formatSI or formatIEC: "%.<decimals>f" of `n / divisor`, and the unit's letter.
pub record Format : Type 0 where
  pub decimals : ℕ
  pub divisor : ℕ
  pub letter : ℕ

-- the integer itself, "%.2f", "%.1f" and "%.0f"
abbrev pub format : ℕ → ℕ → ℕ → Format
format decimals divisor letter = record { decimals = decimals; divisor = divisor; letter = letter }

unfoldable pub format_si : ℕ → Format
format_si s =
    if ltb s 1000
    then format 0 1 0
    else if ltb s 9995
    then format 2 1000 107
    else if ltb s 99950
    then format 1 1000 107
    else if ltb s 999500
    then format 0 1000 107
    else if ltb s 9995000
    then format 2 1000000 77
    else if ltb s 99950000
    then format 1 1000000 77
    else if ltb s 999500000
    then format 0 1000000 77
    else if ltb s 9995000000
    then format 2 1000000000 71
    else if ltb s 99950000000
    then format 1 1000000000 71
    else if ltb s 999500000000
    then format 0 1000000000 71
    else if ltb s 9995000000000
    then format 2 1000000000000 84
    else if ltb s 99950000000000
    then format 1 1000000000000 84
    else if ltb s 999500000000000
    then format 0 1000000000000 84
    else if ltb s 9995000000000000
    then format 2 1000000000000000 80
    else if ltb s 99950000000000000
    then format 1 1000000000000000 80
    else if ltb s 999500000000000000
    then format 0 1000000000000000 80
    else format 2 1000000000000000000 69
