-- ===== src/LogStream/Bounds.antt =====
-- Nothing is written outside the buffer, and what is written is kept.
use my_learning.Base.{
  subst, ℕ, zero, suc, ◌+◌, ◌/◌, ◌^◌, ◌≡◌, ◌≤◌, ◌<◌, refl, ap, true, false, none, some, List, [],
  ◌∷◌, ◌++◌, length, arith, if◌then◌else◌, inl, inr, ◌⊎◌, Bool, take, overwrite, length-overwrite,
  leb, ltb, append_nil,
}
use my_learning.LogStream.{
  FixedBuffer, Item, bool, char, integer, pointer, c_string, string, double, avail, write, add,
  append, to_string, convert, convert_hex, convert_hex_loop, format_integer, put, null_text,
  max_number_size,
}
use my_learning.LogStream.Convert.{size_of, convert_lem, length-reverse}

abbrev pub IsWithin : FixedBuffer → Type 0
IsWithin b = b.cur < length b.data_chars

-- what an item looks like
unfoldable pub text_of : Item → List ℕ
text_of (bool v) = if v then 49 ∷ [] else 48 ∷ []
text_of (char v) = v ∷ []
text_of (integer v) = convert v
text_of (pointer p) = 48 ∷ 120 ∷ convert_hex p
text_of (c_string none) = null_text
text_of (c_string (some chars)) = chars
text_of (string chars) = chars
text_of (double text) = text

-- 64 bits, and what snprintf can write
abbrev pub IsSized : Item → Type 0
IsSized (bool v) = Unit
IsSized (char v) = Unit
IsSized (integer v) = size_of v < 10 ^ 20
IsSized (pointer p) = Unit
IsSized (c_string s) = Unit
IsSized (string s) = Unit
IsSized (double text) = length text < max_number_size

take-overwrite :
    (xs : List ℕ) (i n : ℕ) (ys zs : List ℕ)
    → n ≡ i + length ys
    → n ≤ length xs
    → take n (overwrite xs i (ys ++ zs)) ≡ take i xs ++ ys
take-overwrite [] zero zero [] zs e h = refl
take-overwrite [] zero zero (y ∷ ys) zs e h = absurd (omega (arith, e))
take-overwrite [] (suc i) zero ys zs e h = absurd (omega (arith, e))
take-overwrite [] i (suc n) ys zs e h = absurd (omega (arith, h))
take-overwrite (x ∷ xs) (suc i) (suc n) ys zs e h =
    ap (λ r. x ∷ r) (take-overwrite xs i n ys zs (omega (arith, e)) (omega (arith, h)))
take-overwrite (x ∷ xs) (suc i) zero ys zs e h = absurd (omega (arith, e))
take-overwrite (x ∷ xs) zero zero [] zs e h = refl
take-overwrite (x ∷ xs) zero zero (y ∷ ys) zs e h = absurd (omega (arith, e))
take-overwrite (x ∷ xs) zero (suc n) [] zs e h = absurd (omega (arith, e))
take-overwrite (x ∷ xs) zero (suc n) (y ∷ ys) zs e h =
    ap (λ r. y ∷ r) (take-overwrite xs zero n ys zs (omega (arith, e)) (omega (arith, h)))

length-convert_hex_loop : (f i : ℕ) → length (convert_hex_loop f i) ≤ f
unfolding convert_hex_loop
length-convert_hex_loop zero i = omega arith
length-convert_hex_loop (suc f) i = ground (arith, length-convert_hex_loop f (i / 16))

length-convert_hex : (p : ℕ) → length (convert_hex p) ≤ 16
unfolding convert_hex
length-convert_hex p =
    omega (arith, length-convert_hex_loop 16 p, length-reverse (convert_hex_loop 16 p))

-- Either all of the text is added, or nothing.
pub record Put (text : List ℕ) (b b' : FixedBuffer) : Type 0 where
  pub within : IsWithin b'
  pub size : length b'.data_chars ≡ length b.data_chars
  pub kept : (to_string b' ≡ to_string b ++ text) ⊎ (b' ≡ b)

written-Put :
    (b : FixedBuffer) (text more : List ℕ)
    → b.cur + length text < length b.data_chars
    → Put text b (add (write b (text ++ more)) (length text))
written-Put b text more h = record {
  within = omega (arith, h, length-overwrite b.data_chars b.cur (text ++ more));
  size = length-overwrite b.data_chars b.cur (text ++ more);
  kept =
      inl
        (take-overwrite b.data_chars b.cur (b.cur + length text) text more refl (omega (arith, h)));
}

same-Put : (b : FixedBuffer) (text : List ℕ) → IsWithin b → Put text b b
same-Put b text w = record { within = w; size = refl; kept = inr refl }

if-Put :
    (test : Bool) (text : List ℕ) (b x y : FixedBuffer)
    → (test ≡ true → Put text b x)
    → Put text b y
    → Put text b (if test then x else y)
if-Put true text b x y f g = f refl
if-Put false text b x y f g = g

append-Put : (b : FixedBuffer) (text : List ℕ) → IsWithin b → Put text b (append b text)
unfolding append
append-Put b text w =
    if-Put (ltb (length text) (avail b)) text b (add (write b text) (length text)) b
      (λ e.
        subst (λ t. Put text b (add (write b t) (length text))) (append_nil text)
          (written-Put b text [] (ground (arith, e))))
      (same-Put b text w)

-- the numbers, which write a '\0' behind their text
number-Put :
    (b : FixedBuffer) (text : List ℕ)
    → IsWithin b
    → length text < max_number_size
    → Put text b
        (if leb max_number_size (avail b) then add (write b (text ++ 0 ∷ [])) (length text) else b)
number-Put b text w h =
    if-Put (leb max_number_size (avail b)) text b (add (write b (text ++ 0 ∷ [])) (length text)) b
      (λ e. written-Put b text (0 ∷ []) (ground (arith, e, h))) (same-Put b text w)

-- Whatever is put into the stream, the write position stays inside the buffer, the '\0' of a number
-- included, and the buffer's text either grows by the whole text of the item or stays as it was.
pub put_lem :
    (b : FixedBuffer) (item : Item) → IsWithin b → IsSized item → Put (text_of item) b (put b item)
unfolding put text_of format_integer
put_lem b (bool v) w k = append-Put b (if v then 49 ∷ [] else 48 ∷ []) w
put_lem b (char v) w k = append-Put b (v ∷ []) w
put_lem b (integer v) w k =
    let (_, short) = convert_lem v k in number-Put b (convert v) w (omega (arith, short))
put_lem b (pointer p) w k =
    let hex = convert_hex p in
    let text = 48 ∷ 120 ∷ hex in
    let len : length text ≡ length hex + 2 = omega arith in
    subst
      (λ n.
        Put text b (if leb max_number_size (avail b) then add (write b (text ++ 0 ∷ [])) n else b))
      len (number-Put b text w (omega (arith, length-convert_hex p)))
put_lem b (c_string none) w k = append-Put b null_text w
put_lem b (c_string (some chars)) w k = append-Put b chars w
put_lem b (string chars) w k = append-Put b chars w
put_lem b (double text) w k = number-Put b text w k
