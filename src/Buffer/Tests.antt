-- ===== src/Buffer/Tests.antt =====
-- Runs of the buffer on small inputs, and the theorems at concrete buffers.
use my_learning.Base.{
  ℕ, List, ◌+◌, ◌<◌, ◌≡◌, ◌⊎◌, refl, [], ◌∷◌, ◌++◌, none, some, ok, ◌>>=◌, arith, replicate,
}
use my_learning.Buffer.{
  Buffer, ReadFd, delivered, has_written, ensure_writable_bytes, append, read_fd, find_crlf,
  make_space,
}
use my_learning.Buffer.Layout.{IsValid, content}
use my_learning.Buffer.Content.{Received, append_lem, read_fd_lem}
use my_learning.Base.Both.{Both}
use my_learning.Buffer.Sessions.{
  Use, put, skip, read, use_each, queue_each, total, IsQueue, use_each_lem,
}
use my_learning.Buffer.Search.{IsPairAt, find_crlf_lem}

-- `ab`, a line end and `c`, with two bytes of room
abbrev sample : Buffer
sample = record {
  bytes = replicate 8 0 ++ 97 ∷ 98 ∷ 13 ∷ 10 ∷ 99 ∷ 0 ∷ 0 ∷ [];
  read_index = 8;
  write_index = 13;
}

sample-IsValid : IsValid sample
sample-IsValid = omega arith

-- Two of three bytes fit, and the third is lost.
lost_byte :
    (read_fd sample (delivered (1 ∷ 2 ∷ 3 ∷ [])) >>= λ r. ok (content r.buffer))
    ≡ ok (97 ∷ 98 ∷ 13 ∷ 10 ∷ 99 ∷ 1 ∷ 2 ∷ [])
unfolding read_fd append ensure_writable_bytes make_space
lost_byte = refl

found : find_crlf 13 10 sample ≡ some 10
unfolding find_crlf
found = refl

append_lem_example :
    (c : Buffer) × (append sample (1 ∷ 2 ∷ 3 ∷ []) ≡ ok c)
    × IsValid c
    × (content c ≡ content sample)
    × ((has_written c 3 >>= λ d. ok (content d)) ≡ ok (content sample ++ 1 ∷ 2 ∷ 3 ∷ []))
append_lem_example = append_lem sample (1 ∷ 2 ∷ 3 ∷ []) sample-IsValid (omega arith)

read_fd_lem_example :
    (r : ReadFd) × (read_fd sample (delivered (1 ∷ 2 ∷ 3 ∷ [])) ≡ ok r)
    × Received sample (1 ∷ 2 ∷ 3 ∷ []) sample-IsValid r
read_fd_lem_example = read_fd_lem sample (1 ∷ 2 ∷ 3 ∷ []) sample-IsValid (omega arith)

find_crlf_lem_example :
    ((find_crlf 13 10 sample ≡ none) × ((i : ℕ) → ¬ IsPairAt 13 10 (content sample) i))
    ⊎ ((i : ℕ) × (find_crlf 13 10 sample ≡ some (8 + i))
        × IsPairAt 13 10 (content sample) i
        × ((j : ℕ) → j < i → ¬ IsPairAt 13 10 (content sample) j))
find_crlf_lem_example = find_crlf_lem 13 10 sample sample-IsValid

-- What was put in is read in two parts.
abbrev uses : List Use
uses = read 3 ∷ put (7 ∷ 8 ∷ 9 ∷ []) ∷ skip 2 ∷ read 2 ∷ []

fifo : (use_each uses [] sample >>= λ r. ok r.0) ≡ ok ((97 ∷ 98 ∷ 13 ∷ []) ∷ (7 ∷ 8 ∷ []) ∷ [])
unfolding use_each ensure_writable_bytes make_space
fifo = refl

total_uses : total uses ≡ 3
unfolding total
total_uses = refl

use_each_lem_example :
    Both IsQueue (use_each uses [] sample) (queue_each uses [] (97 ∷ 98 ∷ 13 ∷ 10 ∷ 99 ∷ []))
use_each_lem_example =
    use_each_lem uses [] sample (97 ∷ 98 ∷ 13 ∷ 10 ∷ 99 ∷ []) sample-IsValid refl
      (omega (arith, total_uses))
