-- ===== src/Buffer/Content.antt =====
-- What a reader sees of a buffer: retrieve, append, hasWriten and readFd.
use my_learning.Base.Lists.{take-append-drop}
use my_learning.Base.{
  true, append-append, ltb→lt, leb, drop, take_all, ℕ, ◌+◌, ◌-◌, ◌≤◌, ◌<◌, ◌≡◌, refl, sym, ap, ◌∙◌,
  inl, inr, List, ◌++◌, none, some, ok, abort, ◌>>=◌, arith, ltb, length, take, drop, slice,
  Bool-cases, length-take, length-drop, length-overwrite,
}
use my_learning.Base.Lists.{
  take-take, drop_all, drop-drop, drop-take, take-drop_split, slice-overwrite_before,
  slice-overwrite_self,
}
use my_learning.Buffer.{
  Buffer, ReadFd, delivered, size_mod, size_add, readable_bytes, writable_bytes, store, retrieve,
  retrieve_as_string, has_written, append, read_fd,
}
use my_learning.Buffer.Layout.{IsValid, content}
use my_learning.Buffer.Space.{ensure_writable_bytes-Room, length-slice}

slice-split {ℓ} :
    {A : Type ℓ} (xs : List A) (i m n : ℕ) → slice xs i m ++ slice xs (i + m) n ≡ slice xs i (m + n)
slice-split xs i m n =
    ap (λ ys. take m (drop i xs) ++ take n ys) (sym (drop-drop i m xs))
    ∙ take-drop_split m n (drop i xs)

pub length-content : (b : Buffer) → IsValid b → length (content b) ≡ b.write_index - b.read_index
length-content b v = length-slice b.bytes b.read_index _ (omega arith)

pub retrieve-IsValid : (b : Buffer) (n : ℕ) → IsValid b → IsValid (retrieve b n)
unfolding retrieve
retrieve-IsValid b n v = ground arith

-- retrieve forgets the first `n` bytes to read, or all of them if there are no more than `n`.
pub content-retrieve :
    (b : Buffer) (n : ℕ) → IsValid b → content (retrieve b n) ≡ drop n (content b)
unfolding retrieve
content-retrieve b n v = elim (Bool-cases (ltb n (readable_bytes b))) [
  | inl e ↦ rw e (
      ap (λ i. slice b.bytes i (b.write_index - i)) (ground arith)
      ∙ ap (take (b.write_index - (b.read_index + n))) (sym (drop-drop b.read_index n b.bytes))
      ∙ ap (λ k. take k (drop n (drop b.read_index b.bytes))) (omega arith)
      ∙ sym (drop-take n (b.write_index - b.read_index) (drop b.read_index b.bytes)))
  | inr e ↦ rw e (sym (drop_all n (content b) (ground (arith, length-content b v))))
]

-- retrieveAsString returns the first `n` bytes to read and leaves the others; asked for more
-- bytes than there are it aborts.
pub retrieve_as_string_lem :
    (b : Buffer) (n : ℕ)
    → IsValid b
    → (n ≤ length (content b)
        → (retrieve_as_string b n ≡ ok (take n (content b), retrieve b n))
          × (content (retrieve b n) ≡ drop n (content b))
          × IsValid (retrieve b n))
      × (length (content b) < n → retrieve_as_string b n ≡ abort)
unfolding retrieve_as_string
retrieve_as_string_lem b n v = (
  λ h. (ground (arith, size, shorter h), content-retrieve b n v, retrieve-IsValid b n v),
  λ h. ground (arith, size),
)
  where
    size : length (content b) ≡ b.write_index - b.read_index
    size = length-content b v

    shorter : n ≤ length (content b) → slice b.bytes b.read_index n ≡ take n (content b)
    shorter h =
        let rest = drop b.read_index b.bytes in
        sym (
          take-take n (b.write_index - b.read_index) rest
          ∙ ap (λ k. take k rest) (omega (arith, size)))

store-content : (b : Buffer) (items : List ℕ) → IsValid b → content (store b items) ≡ content b
store-content b items v =
    slice-overwrite_before b.bytes b.read_index _ b.write_index items (omega arith)

store-IsValid : (b : Buffer) (items : List ℕ) → IsValid b → IsValid (store b items)
store-IsValid b items v = omega (arith, length-overwrite b.bytes b.write_index items)

-- the write position moved behind the stored bytes
pub stored-content :
    (b : Buffer) (items : List ℕ) (w : ℕ)
    → IsValid b
    → w ≡ b.write_index + length items
    → w ≤ length b.bytes
    → content (record (store b items) { write_index = w }) ≡ content b ++ items
stored-content b items w v e h =
    ap (slice (store b items).bytes b.read_index) (omega arith)
    ∙ sym (
        slice-split (store b items).bytes b.read_index (b.write_index - b.read_index)
          (length items))
    ∙ ap (λ i. content (store b items) ++ slice (store b items).bytes i (length items))
        (omega arith)
    ∙ ap (λ xs. xs ++ slice (store b items).bytes b.write_index (length items))
        (store-content b items v)
    ∙ ap (◌++◌ (content b))
        (slice-overwrite_self b.bytes b.write_index (length items) items refl (omega arith))

module _ (b : Buffer) (items : List ℕ) (v : IsValid b) where
  -- append makes room and copies the bytes behind the bytes to read, but leaves the write position
  -- where it was: the bytes to read are what they were before the call, and only a call of
  -- hasWriten with the number of copied bytes adds them.
  pub append_lem :
      b.write_index + length items < size_mod
      → (c : Buffer) × (append b items ≡ ok c)
        × IsValid c
        × (content c ≡ content b)
        × ((has_written c (length items) >>= λ d. ok (content d)) ≡ ok (content b ++ items))
  unfolding append has_written
  append_lem h =
      let (b', made, r) = ensure_writable_bytes-Room b (length items) v h in
      (
        store b' items,
        rw made refl,
        store-IsValid b' items r.valid,
        store-content b' items r.valid ∙ r.same,
        ground (
          arith,
          store-IsValid b' items r.valid,
          length-overwrite b'.bytes b'.write_index items,
          r.room,
          stored-content b' items (size_add b'.write_index (length items)) r.valid
              (omega (arith, r.room, r.valid.inside, r.valid.fits))
              (omega (arith, r.room, r.valid.inside, r.valid.fits)),
          r.same,
        ),
      )

has_written-nothing :
    (c : Buffer) (n : ℕ)
    → c.write_index < size_mod
    → n ≡ 0
    → (has_written c n >>= λ d. ok (content d)) ≡ ok (content c)
unfolding has_written
has_written-nothing c n small empty =
    let fits : leb n (writable_bytes c) ≡ true = ground arith in
    let same : size_add c.write_index n ≡ c.write_index = ground arith in
    rw fits (ap (λ k. ok (content (record c { write_index = k }))) same)

module _ (b : Buffer) (items : List ℕ) (v : IsValid b) where
  -- The result of a read that delivered `items`: all of them are counted, and the bytes to read grow
  -- by those of them that had room in the buffer before the call. The others lie behind them.
  pub record Received (r : ReadFd) : Type 0 where
    pub valid : IsValid r.buffer
    pub counted : r.count ≡ some (length items)
    pub no_errno : r.saved_errno ≡ none
    pub grown : content r.buffer ≡ content b ++ take (writable_bytes b) items
    pub behind :
        (has_written r.buffer (length (drop (writable_bytes b) items)) >>= λ d. ok (content d))
        ≡ ok (content b ++ items)

  filled : ℕ → Buffer
  filled w = record (store b (take (writable_bytes b) items)) { write_index = w }

  filled-IsValid : (w : ℕ) → b.read_index ≤ w → w ≤ length b.bytes → IsValid (filled w)
  unfolding filled
  filled-IsValid w h k =
      omega (arith, length-overwrite b.bytes b.write_index (take (writable_bytes b) items))

  filled-content :
      (w : ℕ)
      → w ≡ b.write_index + length (take (writable_bytes b) items)
      → content (filled w) ≡ content b ++ take (writable_bytes b) items
  unfolding filled
  filled-content w e =
      stored-content b (take (writable_bytes b) items) w v e
        (omega (arith, length-take (writable_bytes b) items))

  -- A successful readFd counts every delivered byte, but right after it only those bytes are readable
  -- that fitted into the buffer as it was. The others, which append copied behind these, become
  -- readable by a later hasWriten of their number, which the code does not call.
  pub read_fd_lem :
      length b.bytes + length items < size_mod
      → (r : ReadFd) × (read_fd b (delivered items) ≡ ok r) × Received r
  unfolding read_fd filled
  read_fd_lem h =
      let size = length-take (writable_bytes b) items in
      elim (Bool-cases (ltb (length items) (writable_bytes b))) [
        | inl e ↦
            let w = size_add b.write_index (length items) in
            (
              record { count = some (length items); saved_errno = none; buffer = filled w },
              rw e refl,
              record {
                valid = filled-IsValid w (ground arith) (ground arith);
                counted = refl;
                no_errno = refl;
                grown = filled-content w (ground (arith, size));
                behind =
                    has_written-nothing (filled w) (length (drop (writable_bytes b) items))
                      (ground arith)
                      (omega (
                        arith,
                        length-drop (writable_bytes b) items,
                        ltb→lt (length items) (writable_bytes b) e,
                      ))
                    ∙ ap (λ c. ok c)
                        (filled-content w (ground (arith, size))
                          ∙ ap (λ c. content b ++ c)
                              (take_all (writable_bytes b) items
                                (omega (arith, ltb→lt (length items) (writable_bytes b) e))));
              },
            )
        | inr e ↦
            let d = filled (length b.bytes) in
            let d-valid = filled-IsValid (length b.bytes) (ground arith) (ground arith) in
            let rest = drop (writable_bytes b) items in
            let (c, appended, valid, same, behind) =
              append_lem d rest d-valid (omega (arith, length-drop (writable_bytes b) items)) in
            (
              record { count = some (length items); saved_errno = none; buffer = c },
              rw (e, appended) refl,
              record {
                valid = valid;
                counted = refl;
                no_errno = refl;
                grown = same ∙ filled-content (length b.bytes) (ground (arith, size));
                behind =
                    behind
                    ∙ ap (λ c. ok (c ++ rest))
                        (filled-content (length b.bytes) (ground (arith, size)))
                    ∙ ap (λ c. ok c)
                        (append-append (content b) (take (writable_bytes b) items) rest
                          ∙ ap (λ c. content b ++ c) (take-append-drop (writable_bytes b) items));
              },
            )
      ]
