-- ===== src/Buffer.antt =====
-- myMuduo/lib/Buffer.hpp and Buffer.cpp: the byte buffer of a connection.
-- `bytes` is the vector `buffer_`. A `size_t` is a number below 2 ^ 64, with its wrap-around
-- written out. A failed assert is `abort`. The allocator does not fail.
pub mod Layout
pub mod Content
pub mod Space
pub mod Search
pub mod Sessions
mod Tests
use my_learning.Base.{
  ℕ, suc, ◌+◌, ◌-◌, ◌%◌, ◌^◌, ◌<◌, Bool, true, ◌&&◌, Option, none, some, List, [], ◌∷◌, ◌++◌, ltb,
  leb, ◌==◌, if◌then◌else◌, length, replicate, take, drop, overwrite, slice, Run, ok, abort, ◌>>=◌,
  ◌>>◌, assert,
}

abbrev pub size_mod : ℕ
size_mod = 2 ^ 64

-- `a + b` and `a - b` of two `size_t`
abbrev pub size_add : ℕ → ℕ → ℕ
size_add a b = (a + b) % size_mod

abbrev pub size_sub : ℕ → ℕ → ℕ
size_sub a b = (a + size_mod - b) % size_mod

abbrev pub cheap_prepend : ℕ
cheap_prepend = 8

pub record Buffer : Type 0 where
  pub bytes : List ℕ
  pub read_index : ℕ
  pub write_index : ℕ

abbrev pub readable_bytes : Buffer → ℕ
readable_bytes b = size_sub b.write_index b.read_index

abbrev pub writable_bytes : Buffer → ℕ
writable_bytes b = size_sub (length b.bytes) b.write_index

abbrev pub prependable_bytes : Buffer → ℕ
prependable_bytes b = b.read_index

-- the fields that the constructor initialises
abbrev pub initial : ℕ → Buffer
initial initial_size = record {
  bytes = replicate (size_add cheap_prepend initial_size) 0;
  read_index = cheap_prepend;
  write_index = cheap_prepend;
}

unfoldable pub create : ℕ → Run Buffer
create initial_size = do
  let b = initial initial_size
  assert (writable_bytes b == initial_size)
  assert (readable_bytes b == 0)
  assert (prependable_bytes b == cheap_prepend)
  ok b

unfoldable pub swap : Buffer → Buffer → Buffer × Buffer
swap b rhs = (
  record b { bytes = rhs.bytes; write_index = rhs.write_index; read_index = rhs.read_index },
  record rhs { bytes = b.bytes; write_index = b.write_index; read_index = b.read_index },
)

unfoldable pub retrieve_all : Buffer → Buffer
retrieve_all b = record b { write_index = cheap_prepend; read_index = cheap_prepend }

unfoldable pub retrieve : Buffer → ℕ → Buffer
unfolding retrieve_all
retrieve b len =
    if ltb len (readable_bytes b)
    then record b { read_index = size_add b.read_index len }
    else retrieve_all b

-- `std::string(peek(), len)`, and what is left
unfoldable pub retrieve_as_string : Buffer → ℕ → Run (List ℕ × Buffer)
retrieve_as_string b len = do
  assert (leb len (readable_bytes b))
  ok (slice b.bytes b.read_index len, retrieve b len)

unfoldable pub retrieve_all_as_string : Buffer → Run (List ℕ × Buffer)
unfolding retrieve_as_string
retrieve_all_as_string b = retrieve_as_string b (readable_bytes b)

unfoldable pub has_written : Buffer → ℕ → Run Buffer
has_written b len = do
  assert (leb len (writable_bytes b))
  ok (record b { write_index = size_add b.write_index len })

-- `buffer_.resize(n)`
abbrev pub resize : List ℕ → ℕ → List ℕ
resize xs n = take n xs ++ replicate (n - length xs) 0

unfoldable pub make_space : Buffer → ℕ → Run Buffer
make_space b len =
    if ltb (size_add (writable_bytes b) (prependable_bytes b)) (size_add len cheap_prepend)
    then ok (record b { bytes = resize b.bytes (size_add b.write_index len) })
    else (do
      assert (ltb cheap_prepend b.read_index)
      let readable = readable_bytes b
      let moved = record b {
        bytes = overwrite b.bytes cheap_prepend (slice b.bytes b.read_index readable);
        read_index = cheap_prepend;
        write_index = size_add cheap_prepend readable;
      }
      assert (readable == readable_bytes moved)
      ok moved)

unfoldable pub ensure_writable_bytes : Buffer → ℕ → Run Buffer
ensure_writable_bytes b len = do
  b' ← if ltb (writable_bytes b) len then make_space b len else ok b
  assert (leb len (writable_bytes b'))
  ok b'

-- the copy of `append`: `write_index` stays
abbrev pub store : Buffer → List ℕ → Buffer
store b items = record b { bytes = overwrite b.bytes b.write_index items }

unfoldable pub append : Buffer → List ℕ → Run Buffer
append b items = do b' ← ensure_writable_bytes b (length items); ok (store b' items)

-- What `readv` did: it failed with an errno, or it delivered these bytes.
pub data Readv : Type 0 where
  failed : ℕ → Readv
  delivered : List ℕ → Readv

-- the result (`none` for a negative one), `*savedErr` where it was written, and the buffer
pub record ReadFd : Type 0 where
  pub count : Option ℕ
  pub saved_errno : Option ℕ
  pub buffer : Buffer

-- `readv` fills the writable part of the buffer first, and `extrabuf` with the rest.
unfoldable pub read_fd : Buffer → Readv → Run ReadFd
read_fd b (failed errno) = ok (record { count = none; saved_errno = some errno; buffer = b })
read_fd b (delivered items) =
    let writable = writable_bytes b in
    let filled = store b (take writable items) in
    let result =
      λ (c : Buffer). ok (record { count = some (length items); saved_errno = none; buffer = c }) in
    if ltb (length items) writable
    then result (record filled { write_index = size_add b.write_index (length items) })
    else (do
      c ← append (record filled { write_index = length b.bytes }) (drop writable items)
      result c)

-- `std::search` for the two bytes of kCRLF; the offset of the first place, or the end
unfoldable pub search_pair : ℕ → ℕ → List ℕ → ℕ
search_pair cr lf [] = 0
search_pair cr lf (x ∷ []) = 1
search_pair cr lf (x ∷ y ∷ xs) = if x == cr && y == lf then 0 else suc (search_pair cr lf (y ∷ xs))

-- an offset from `begin()`, or `none` for nullptr; the bytes of kCRLF are not in the repository
unfoldable pub find_crlf : ℕ → ℕ → Buffer → Option ℕ
unfolding search_pair
find_crlf cr lf b =
    let at = b.read_index + search_pair cr lf (slice b.bytes b.read_index (readable_bytes b)) in
    if at == b.write_index then none else some at

unfoldable pub find_crlf_from : ℕ → ℕ → Buffer → ℕ → Run (Option ℕ)
unfolding find_crlf
find_crlf_from cr lf b start = do
  assert (leb b.read_index start)
  assert (leb start b.write_index)
  ok (find_crlf cr lf b)
