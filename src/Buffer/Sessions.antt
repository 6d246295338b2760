-- ===== src/Buffer/Sessions.antt =====
-- A buffer in use: what is written into it comes out in the order in which it went in.
use my_learning.Base.{
  ℕ, ◌+◌, ◌≡◌, ◌≤◌, ◌<◌, refl, ap, ◌∙◌, List, [], ◌∷◌, ◌++◌, length, take, drop, leb, Run, ok,
  ◌>>=◌, ◌>>◌, assert, arith, inl, inr, Bool-cases, length-overwrite,
}
use my_learning.Base.Both.{Both}
use my_learning.Buffer.{
  Buffer, size_mod, size_add, append, has_written, retrieve, retrieve_all, retrieve_as_string,
  store,
}
use my_learning.Buffer.Layout.{IsValid, content}
use my_learning.Buffer.Space.{ensure_writable_bytes-Room}
use my_learning.Buffer.Content.{
  retrieve-IsValid, content-retrieve, retrieve_as_string_lem, stored-content,
}

-- append with the hasWriten that makes its bytes readable, retrieve, retrieveAll, retrieveAsString
pub data Use : Type 0 where
  put : List ℕ → Use
  skip : ℕ → Use
  skip_all : Use
  read : ℕ → Use

unfoldable pub put_in : List ℕ → Buffer → Run Buffer
unfolding append has_written
put_in items b = append b items >>= λ c. has_written c (length items)

-- The uses in turn, with the strings that were returned so far.
unfoldable pub use_each : List Use → List (List ℕ) → Buffer → Run (List (List ℕ) × Buffer)
unfolding put_in retrieve retrieve_all retrieve_as_string
use_each [] out b = let result : List (List ℕ) × Buffer = (out, b) in ok result
use_each (put items ∷ uses) out b = put_in items b >>= use_each uses out
use_each (skip n ∷ uses) out b = use_each uses out (retrieve b n)
use_each (skip_all ∷ uses) out b = use_each uses out (retrieve_all b)
use_each (read n ∷ uses) out b = retrieve_as_string b n >>= λ r. use_each uses (out ++ r.0 ∷ []) r.1

-- the same on a queue of bytes
unfoldable pub queue_each : List Use → List (List ℕ) → List ℕ → Run (List (List ℕ) × List ℕ)
queue_each [] out q = let result : List (List ℕ) × List ℕ = (out, q) in ok result
queue_each (put items ∷ uses) out q = queue_each uses out (q ++ items)
queue_each (skip n ∷ uses) out q = queue_each uses out (drop n q)
queue_each (skip_all ∷ uses) out q = queue_each uses out []
queue_each (read n ∷ uses) out q =
    assert (leb n (length q)) >> queue_each uses (out ++ take n q ∷ []) (drop n q)

-- how many bytes are put in
unfoldable pub total : List Use → ℕ
total [] = 0
total (put items ∷ uses) = length items + total uses
total (skip n ∷ uses) = total uses
total (skip_all ∷ uses) = total uses
total (read n ∷ uses) = total uses

put_in_lem :
    (items : List ℕ) (b : Buffer)
    → IsValid b
    → length b.bytes + length items < size_mod
    → (d : Buffer) × (put_in items b ≡ ok d)
      × IsValid d
      × (content d ≡ content b ++ items)
      × (length d.bytes ≤ length b.bytes + length items)
unfolding put_in append has_written
put_in_lem items b v h =
    let (b', made, r) = ensure_writable_bytes-Room b (length items) v (omega arith) in
    let c = store b' items in
    let size = length-overwrite b'.bytes b'.write_index items in
    let w = size_add b'.write_index (length items) in
    let at : w ≡ b'.write_index + length items = omega (arith, r.room, r.bounded, r.valid) in
    (
      record c { write_index = w },
      rw made (ground (arith, size, r.room, r.bounded, r.valid)),
      omega (arith, size, at, r.room, r.bounded, r.valid),
      stored-content b' items w r.valid at (omega (arith, at, r.room, r.valid))
          ∙ ap (λ xs. xs ++ items) r.same,
      omega (arith, size, r.bounded),
    )

-- The same strings came out, and the bytes to read are those of the queue.
abbrev pub IsQueue : List (List ℕ) × Buffer → List (List ℕ) × List ℕ → Type 0
IsQueue x y = (x.0 ≡ y.0) × IsValid x.1 × (content x.1 ≡ y.1)

shrunk : (b : Buffer) (n : ℕ) → length (retrieve b n).bytes ≡ length b.bytes
unfolding retrieve
shrunk b n = ground arith

retrieve_all_lem :
    (b : Buffer) → IsValid b → IsValid (retrieve_all b) × (content (retrieve_all b) ≡ [])
unfolding retrieve_all
retrieve_all_lem b v = (omega arith, refl)

-- A buffer is a queue of bytes: however bytes are put in, skipped and read, a read returns the oldest
-- bytes that are left, in their order, and the buffer aborts exactly where more bytes are asked for
-- than there are. The bytes put in must not make a size_t overflow.
pub use_each_lem :
    (uses : List Use) (out : List (List ℕ)) (b : Buffer) (q : List ℕ)
    → IsValid b
    → content b ≡ q
    → length b.bytes + total uses < size_mod
    → Both IsQueue (use_each uses out b) (queue_each uses out q)
unfolding use_each queue_each total
use_each_lem [] out b q v e h = (refl, v, e)
use_each_lem (put items ∷ uses) out b q v e h =
    let (d, ran, w, same, size) = put_in_lem items b v (omega arith) in
    rw ran (
      use_each_lem uses out d (q ++ items) w (same ∙ ap (λ xs. xs ++ items) e)
        (omega (arith, size)))
use_each_lem (skip n ∷ uses) out b q v e h =
    use_each_lem uses out (retrieve b n) (drop n q) (retrieve-IsValid b n v)
      (content-retrieve b n v ∙ ap (drop n) e) (omega (arith, shrunk b n))
use_each_lem (skip_all ∷ uses) out b q v e h =
    let (w, empty) = retrieve_all_lem b v in use_each_lem uses out (retrieve_all b) [] w empty h
use_each_lem (read n ∷ uses) out b q v e h =
    let size : length (content b) ≡ length q = ap length e in
    elim (Bool-cases (leb n (length q))) [
      | inl fits ↦
          let (ran, left, w) = (retrieve_as_string_lem b n v).0 (ground arith) in
          let returned : retrieve_as_string b n ≡ ok (take n q, retrieve b n) =
            ran ∙ ap (λ xs. taken (take n xs)) e in
          rw (returned, fits)
            (use_each_lem uses (out ++ take n q ∷ []) (retrieve b n) (drop n q) w
              (left ∙ ap (drop n) e) (omega (arith, h, shrunk b n)))
      | inr long ↦ rw ((retrieve_as_string_lem b n v).1 (ground arith), long) tt
    ]
  where
    taken : List ℕ → Run (List ℕ × Buffer)
    taken xs = let r : List ℕ × Buffer = (xs, retrieve b n) in ok r
