-- ===== src/Buffer/Search.antt =====
-- findCRLF.
use my_learning.Base.{
  ℕ, zero, suc, ◌+◌, ◌-◌, ◌≤◌, ◌<◌, ◌≡◌, ap, inl, inr, List, [], ◌∷◌, none, some, ok, abort, ◌&&◌,
  ◌==◌, ◌⊎◌, ltb, Bool-cases, arith, length, get_elem?, slice,
}
use my_learning.Base.Lists.{get_elem?_lt}
use my_learning.Buffer.{Buffer, search_pair, find_crlf, find_crlf_from}
use my_learning.Buffer.Layout.{IsValid, content, readable-eq}
use my_learning.Buffer.Content.{length-content}

-- the two bytes stand at offset `i`
abbrev pub IsPairAt : ℕ → ℕ → List ℕ → ℕ → Type 0
IsPairAt cr lf xs i = (get_elem? xs i ≡ some cr) × (get_elem? xs (suc i) ≡ some lf)

pub search_pair-le : (cr lf : ℕ) (xs : List ℕ) → search_pair cr lf xs ≤ length xs
unfolding search_pair
search_pair-le cr lf [] = omega arith
search_pair-le cr lf (x ∷ []) = omega arith
search_pair-le cr lf (x ∷ y ∷ xs) = ground (arith, search_pair-le cr lf (y ∷ xs))

-- below the result there is no pair
pub search_pair_first :
    (cr lf : ℕ) (xs : List ℕ) (i : ℕ) → i < search_pair cr lf xs → ¬ IsPairAt cr lf xs i
unfolding search_pair
search_pair_first cr lf [] i h p = absurd (omega arith)
search_pair_first cr lf (x ∷ []) zero h (p, q) = cc
search_pair_first cr lf (x ∷ []) (suc i) h (p, q) = absurd (omega arith)
search_pair_first cr lf (x ∷ y ∷ xs) zero h (p, q) = ground arith
search_pair_first cr lf (x ∷ y ∷ xs) (suc i) h (p, q) =
    search_pair_first cr lf (y ∷ xs) i (ground arith) (p, q)

-- and at the result there is one, unless it is the end
pub search_pair_found :
    (cr lf : ℕ) (xs : List ℕ)
    → search_pair cr lf xs < length xs
    → IsPairAt cr lf xs (search_pair cr lf xs)
unfolding search_pair
search_pair_found cr lf [] h = absurd (omega arith)
search_pair_found cr lf (x ∷ []) h = absurd (omega arith)
search_pair_found cr lf (x ∷ y ∷ xs) h = elim (Bool-cases (x == cr && y == lf)) [
  | inl e ↦ rw e (ground arith, ground arith)
  | inr e ↦ rw e (search_pair_found cr lf (y ∷ xs) (ground arith))
]

-- findCRLF returns the place of the first line end among the bytes to read, and nullptr exactly
-- when there is none.
pub find_crlf_lem :
    (cr lf : ℕ) (b : Buffer)
    → IsValid b
    → ((find_crlf cr lf b ≡ none) × ((i : ℕ) → ¬ IsPairAt cr lf (content b) i))
      ⊎ ((i : ℕ) × (find_crlf cr lf b ≡ some (b.read_index + i))
          × IsPairAt cr lf (content b) i
          × ((j : ℕ) → j < i → ¬ IsPairAt cr lf (content b) j))
unfolding find_crlf
find_crlf_lem cr lf b v =
    rw (ap (slice b.bytes b.read_index) (readable-eq b v)) (elim (Bool-cases (ltb at size)) [
      | inl e ↦ inr (
        at,
        ground (arith, shape),
        search_pair_found cr lf (content b) (ground arith),
        search_pair_first cr lf (content b),
      )
      | inr e ↦ inl (
        ground (arith, shape, search_pair-le cr lf (content b)),
        λ i p.
            search_pair_first cr lf (content b) i
              (ground (arith, get_elem?_lt (content b) (suc i) p.1)) p,
      )
    ])
  where
    at : ℕ
    at = search_pair cr lf (content b)

    size : ℕ
    size = length (content b)

    shape : length (content b) ≡ b.write_index - b.read_index
    shape = length-content b v

-- The overload that takes a start position checks it and then searches all the bytes to read, from
-- wherever the start is.
pub find_crlf_from_lem :
    (cr lf : ℕ) (b : Buffer) (start : ℕ)
    → (b.read_index ≤ start
        → start ≤ b.write_index
        → find_crlf_from cr lf b start ≡ ok (find_crlf cr lf b))
      × (start < b.read_index → find_crlf_from cr lf b start ≡ abort)
      × (b.write_index < start → find_crlf_from cr lf b start ≡ abort)
unfolding find_crlf_from
find_crlf_from_lem cr lf b start = (λ h k. ground arith, λ h. ground arith, λ h. ground arith)
