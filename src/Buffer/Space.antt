-- ===== src/Buffer/Space.antt =====
-- makeSpace and ensureWritableBytes.
use my_learning.Base.{
  ℕ, ◌+◌, ◌-◌, ◌≤◌, ◌<◌, ◌≡◌, refl, ap, ◌∙◌, inl, inr, List, ◌++◌, ok, arith, ltb, length, take,
  drop, replicate, overwrite, slice, Bool-cases, length-append, length-take, length-drop,
  length-replicate, length-overwrite,
}
use my_learning.Base.Lists.{take_all, take-append, drop-append, slice-overwrite_self}
use my_learning.Buffer.{
  Buffer, cheap_prepend, size_mod, size_add, readable_bytes, writable_bytes, resize, make_space,
  ensure_writable_bytes,
}
use my_learning.Buffer.Layout.{IsValid, content}

pub length-slice {ℓ} :
    {A : Type ℓ} (xs : List A) (i n : ℕ) → i + n ≤ length xs → length (slice xs i n) ≡ n
length-slice xs i n h = omega (arith, length-take n (drop i xs), length-drop i xs)

slice-append {ℓ} :
    {A : Type ℓ} (xs ys : List A) (i n : ℕ)
    → i + n ≤ length xs
    → slice (xs ++ ys) i n ≡ slice xs i n
slice-append xs ys i n h =
    ap (take n) (drop-append i xs ys (omega arith))
    ∙ take-append n (drop i xs) ys (omega (arith, length-drop i xs))

-- What a call that makes room leaves: a valid buffer, the same bytes to read, `len` bytes of room.
pub record Room (b : Buffer) (len : ℕ) (b' : Buffer) : Type 0 where
  pub valid : IsValid b'
  pub same : content b' ≡ content b
  pub room : len ≤ length b'.bytes - b'.write_index
  pub bounded : length b'.bytes ≤ length b.bytes + len

module _ (b : Buffer) (len : ℕ) (v : IsValid b) (h : b.write_index + len < size_mod) where
  abbrev grown : Buffer
  grown = record b { bytes = resize b.bytes (size_add b.write_index len) }

  abbrev added : List ℕ
  added = replicate (size_add b.write_index len - length b.bytes) 0

  grown-Room : length b.bytes < b.write_index + len → Room b len grown
  grown-Room more = record {
    valid = omega (arith, size);
    same =
        ap (λ xs. slice (xs ++ added) b.read_index (b.write_index - b.read_index))
          (take_all (size_add b.write_index len) b.bytes (omega arith))
        ∙ slice-append b.bytes added b.read_index (b.write_index - b.read_index) (omega arith);
    room = omega (arith, size);
    bounded = omega (arith, size);
  }
    where
      size : length grown.bytes ≡ b.write_index + len
      size = omega (
        arith,
        length-append (take (size_add b.write_index len) b.bytes)
            (replicate (size_add b.write_index len - length b.bytes) 0),
        length-take (size_add b.write_index len) b.bytes,
        length-replicate {A = ℕ} (size_add b.write_index len - length b.bytes) 0,
      )

  abbrev moved : Buffer
  moved = record b {
    bytes = overwrite b.bytes cheap_prepend (slice b.bytes b.read_index (readable_bytes b));
    read_index = cheap_prepend;
    write_index = size_add cheap_prepend (readable_bytes b);
  }

  moved-Room :
      b.write_index - b.read_index + cheap_prepend + len ≤ length b.bytes → Room b len moved
  moved-Room h' = record {
    valid = omega (arith, size);
    same =
        ap (λ n. slice moved.bytes cheap_prepend n) (omega arith)
        ∙ slice-overwrite_self b.bytes cheap_prepend (readable_bytes b) _
            (length-slice b.bytes b.read_index (readable_bytes b) (omega arith)) (omega arith)
        ∙ ap (slice b.bytes b.read_index) (omega arith);
    room = omega (arith, size);
    bounded = omega (arith, size);
  }
    where
      size : length moved.bytes ≡ length b.bytes
      size = length-overwrite b.bytes cheap_prepend _

  make_space-Room :
      writable_bytes b < len → (b' : Buffer) × (make_space b len ≡ ok b') × Room b len b'
  unfolding make_space
  make_space-Room short =
      elim (Bool-cases
        (ltb (size_add (writable_bytes b) b.read_index) (size_add len cheap_prepend))) [
          | inl e ↦ (grown, rw e refl, grown-Room (ground arith))
          | inr e ↦ (moved, ground arith, moved-Room (ground arith))
        ]

  -- ensureWritableBytes never fails in a valid buffer whose indices do not overflow, and leaves
  -- the bytes to read as they are.
  pub ensure_writable_bytes-Room :
      (b' : Buffer) × (ensure_writable_bytes b len ≡ ok b') × Room b len b'
  unfolding ensure_writable_bytes
  ensure_writable_bytes-Room = elim (Bool-cases (ltb (writable_bytes b) len)) [
    | inl e ↦
        let (b', made, r) = make_space-Room (ground arith) in
        (b', ground (arith, made, r.room, r.valid.inside, r.valid.fits), r)
    | inr e ↦ (
      b,
      ground arith,
      record { valid = v; same = refl; room = ground arith; bounded = omega arith },
    )
  ]
