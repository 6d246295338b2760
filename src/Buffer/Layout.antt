-- ===== src/Buffer/Layout.antt =====
-- The layout invariant of a buffer, and the bytes that are still to be read.
use my_learning.Base.{
  ℕ, ◌+◌, ◌-◌, ◌≤◌, ◌<◌, ◌≡◌, refl, List, [], ok, arith, length, slice, length-replicate,
}
use my_learning.Buffer.{
  Buffer, cheap_prepend, size_mod, size_add, initial, create, readable_bytes, writable_bytes,
}

-- The read position stands behind the prepended bytes and before the write position.
pub record IsValid (b : Buffer) : Type 0 where
  pub prepended : cheap_prepend ≤ b.read_index
  pub ordered : b.read_index ≤ b.write_index
  pub inside : b.write_index ≤ length b.bytes
  pub fits : length b.bytes < size_mod

-- what a reader has not taken yet
abbrev pub content : Buffer → List ℕ
content b = slice b.bytes b.read_index (b.write_index - b.read_index)

-- In a valid buffer the `size_t` differences do not wrap.
pub readable-eq : (b : Buffer) → IsValid b → readable_bytes b ≡ b.write_index - b.read_index
readable-eq b v = omega arith

pub writable-eq : (b : Buffer) → IsValid b → writable_bytes b ≡ length b.bytes - b.write_index
writable-eq b v = omega arith

-- The constructor makes an empty valid buffer with the room that was asked for.
pub create_lem :
    (n : ℕ)
    → n + cheap_prepend < size_mod
    → (b : Buffer) × (create n ≡ ok b) × IsValid b × (content b ≡ []) × (writable_bytes b ≡ n)
unfolding create
create_lem n h =
    let size = length-replicate {A = ℕ} (size_add cheap_prepend n) 0 in
    (initial n, ground (arith, size), omega (arith, size), refl, omega (arith, size))
