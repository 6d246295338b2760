-- ===== src/Sockets/Library.antt =====
-- What the C library documents of byte orders and of the text of addresses.
use my_learning.Base.{ℕ, ◌+◌, ◌*◌, ◌/◌, ◌%◌, ◌^◌, ◌≡◌, ◌≤◌, ◌<◌, List, [], ◌∷◌, length, arith}

-- htobe16, be16toh and htobe32
pub record ByteOrder : Type 0 where
  pub host_to_network16 : ℕ → ℕ
  pub network_to_host16 : ℕ → ℕ
  pub host_to_network32 : ℕ → ℕ
  pub back16 : (n : ℕ) → n < 2 ^ 16 → network_to_host16 (host_to_network16 n) ≡ n
  pub small16 : (n : ℕ) → network_to_host16 n < 2 ^ 16

-- the texts of inet_ntop, which fit into INET_ADDRSTRLEN and INET6_ADDRSTRLEN, and of "%u"
pub record Texts : Type 0 where
  pub ntop4 : ℕ → List ℕ
  pub ntop6 : ℕ → List ℕ
  pub decimal : ℕ → List ℕ
  pub length4 : (a : ℕ) → length (ntop4 a) < 16
  pub length6 : (a : ℕ) → length (ntop6 a) < 46
  pub length_decimal : (n : ℕ) → n < 2 ^ 16 → length (decimal n) ≤ 5

abbrev pub swap16 : ℕ → ℕ
swap16 n = n % 256 * 256 + n / 256 % 256

-- a host that stores the low byte first
abbrev pub little_endian : ByteOrder
little_endian = record {
  host_to_network16 = swap16;
  network_to_host16 = swap16;
  host_to_network32 =
      λ n. n % 256 * 16777216 + n / 256 % 256 * 65536 + n / 65536 % 256 * 256 + n / 16777216;
  back16 = λ n h. omega (arith, h);
  small16 = λ n. omega arith;
}

-- texts of one character
abbrev pub short_texts : Texts
short_texts = record {
  ntop4 = λ a. 48 ∷ [];
  ntop6 = λ a. 58 ∷ [];
  decimal = λ n. (48 + n % 10) ∷ [];
  length4 = λ a. omega arith;
  length6 = λ a. omega arith;
  length_decimal = λ n h. omega arith;
}
