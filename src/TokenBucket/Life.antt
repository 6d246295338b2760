-- ===== src/TokenBucket/Life.antt =====
-- The table of buckets while the program runs, and module_unload at its end.
use my_learning.Base.{
  ℕ, zero, suc, ◌^◌, ◌+◌, ◌≡◌, ◌≤◌, ◌<◌, refl, none, some, ok, Run, ◌>>=◌, update, arith,
  ℕ_discrete, List, [], ◌∷◌, Option-cases, inl, inr,
}
use my_learning.TokenBucket.{
  Jobs, Bucket, mytbf_max, store, init, fetch_token, return_token, destroy, thr_alrm, free_from,
  module_unload,
}
use my_learning.TokenBucket.Ints.{filled, fetched, fetch-ok, give-ok}
use my_learning.TokenBucket.Table.{IsValid, store-IsValid, init_lem, destroy_lem}
use my_learning.TokenBucket.Refill.{thr_alrm_lem}

-- a call of a thread of the program, or a round of the alarm thread
pub data Call : Type 0 where
  create : (p cps brust : ℕ) → Call
  take : (p size : ℕ) → Call
  put_back : (p size : ℕ) → Call
  remove : ℕ → Call
  second : Call

-- A fetch that waits changes nothing.
unfoldable pub call : Call → Jobs → Run Jobs
unfolding init fetch_token return_token destroy thr_alrm
call (create p cps brust) s = ok (init p cps brust s).1
call (take p size) s = do r ← fetch_token p size s; elim r [ none ↦ ok s | some (_, s') ↦ ok s' ]
call (put_back p size) s = do (_, s') ← return_token p size s; ok s'
call (remove p) s = destroy p s
call second s = thr_alrm s

unfoldable pub call_each : List Call → Jobs → Run Jobs
unfolding call
call_each [] s = ok s
call_each (c ∷ calls) s = call c s >>= call_each calls

abbrev pub IsLive : Jobs → ℕ → Type 0
IsLive s p = (b : Bucket) × (s.heap p ≡ some b)

-- `new` returns free pointers, a bucket is used until it is destroyed, and no int is negative or with the
-- burst too large for an int
abbrev pub IsProper : Jobs → Call → Type 0
IsProper s (create p cps brust) = (s.heap p ≡ none) × (brust + cps < 2 ^ 31)
IsProper s (take p size) = IsLive s p × (size < 2 ^ 31)
IsProper s (put_back p size) = (b : Bucket) × (s.heap p ≡ some b) × (b.brust + size < 2 ^ 31)
IsProper s (remove p) = IsLive s p
IsProper s second = Unit

abbrev pub AreProper : Jobs → List Call → Type 0
AreProper s [] = Unit
AreProper s (c ∷ calls) = IsProper s c × ((s' : Jobs) → call c s ≡ ok s' → AreProper s' calls)

fetch-kept :
    (size : ℕ) (b b' : Bucket) (n : ℕ)
    → fetched size b ≡ some (n, b')
    → (b'.pos ≡ b.pos) × (b'.token ≤ b.token) × (b'.brust ≡ b.brust) × (b'.cps ≡ b.cps)
fetch-kept size b b' n h = ground arith

give-kept :
    (size : ℕ) (b : Bucket)
    → ((filled size b).pos ≡ b.pos) × ((filled size b).token ≤ (filled size b).brust)
give-kept size b = ground arith

call-IsValid :
    (c : Call) (s : Jobs) → IsValid s → IsProper s c → (s' : Jobs) × (call c s ≡ ok s') × IsValid s'
unfolding call fetch_token return_token
call-IsValid (create p cps brust) s v (free, fits) = elim (init_lem p cps brust s v free fits) [
  | inl (pos, s', made, _, _, _, valid) ↦ (s', ground (arith, made), valid)
  | inr (full, _) ↦ (s, ground (arith, full), v)
]
call-IsValid (take p size) s v ((b, live), short) =
    let (_, _, small, fits) = v.buckets p b live in
    let ran = fetch-ok size b (omega (arith, small, fits)) short in
    elim (Option-cases (fetched size b)) [
      | inl waits ↦ (s, ground (arith, live, ran, waits), v)
      | inr ((n, b'), taken) ↦ (
        store s p b',
        ground (arith, live, ran, taken),
        let (pos, less, brust, cps) = fetch-kept size b b' n taken in
            store-IsValid s p b b' v live pos
              (omega (arith, small, less, brust), omega (arith, fits, brust, cps)),
      )
    ]
call-IsValid (put_back p size) s v (b, live, short) =
    let (_, _, small, fits) = v.buckets p b live in
    (
      store s p (filled size b),
      ground (arith, live, give-ok size b small short),
      store-IsValid s p b (filled size b) v live (give-kept size b).0 ((give-kept size b).1, fits),
    )
call-IsValid (remove p) s v (b, live) =
    let (s', gone, valid, _, _, _) = destroy_lem p b s v live in (s', gone, valid)
call-IsValid second s v h = let (s', ran, valid, _, _) = thr_alrm_lem s v in (s', ran, valid)

-- what the loop of module_unload relies on for the slots that are left
abbrev AreKept : ℕ → ℕ → Jobs → Type 0
AreKept n i s =
    (j p : ℕ)
    → i ≤ j
    → j < i + n
    → s.job j ≡ some p
    → (b : Bucket) × (s.heap p ≡ some b) × (b.pos ≡ j)

-- It frees the buckets of those slots and no other.
record Freed (n i : ℕ) (s s' : Jobs) : Type 0 where
  still : (p : ℕ) → s.heap p ≡ none → s'.heap p ≡ none
  gone :
      (p : ℕ) (b : Bucket)
      → s.heap p ≡ some b
      → i ≤ b.pos
      → b.pos < i + n
      → s.job b.pos ≡ some p
      → s'.heap p ≡ none

free_from-Freed :
    (n i : ℕ) (s : Jobs) → AreKept n i s → (s' : Jobs) × (free_from n i s ≡ ok s') × Freed n i s s'
unfolding free_from
free_from-Freed zero i s k = (
  s,
  refl,
  record { still = λ p h. h; gone = λ p b h low high. absurd (omega (arith, low, high)) },
)
free_from-Freed (suc n) i s k = elim (Option-cases (s.job i)) [
  | inl e ↦
      let (s', ran, f) =
        free_from-Freed n (suc i) s
          (λ j p low high. k j p (omega (arith, low)) (omega (arith, high))) in
      (
        s',
        ground (arith, e, ran),
        record {
          still = f.still;
          gone = λ p b h low high at. elim (ℕ_discrete b.pos i) [
            | yes same ↦ ground (arith, same, at, e)
            | no other ↦ f.gone p b h (omega (arith, low, other)) (omega (arith, high)) at
          ];
        },
      )
  | inr (o, e) ↦
      let (c, live, at) = k i o (omega arith) (omega arith) e in
      let freed : Jobs = record s { heap = update s.heap o none } in
      let (s', ran, f) = free_from-Freed n (suc i) freed (λ j p low high h.
        let (b, there, pos) = k j p (omega (arith, low)) (omega (arith, high)) h in
        (b, ground (arith, there, live, at, pos, low), pos)) in
      (
        s',
        ground (arith, e, live, ran),
        record {
          still = λ p h. f.still p (ground (arith, h));
          gone = λ p b h low high mine. elim (ℕ_discrete p o) [
            | yes same ↦ f.still p (ground (arith, same))
            | no other ↦
                f.gone p b (ground (arith, h, other)) (ground (arith, low, mine, e, other))
                  (omega (arith, high)) mine
          ];
        },
      )
]

module_unload-all :
    (s : Jobs) → IsValid s → (s' : Jobs) × (module_unload s ≡ ok s') × ((p : ℕ) → s'.heap p ≡ none)
unfolding module_unload
module_unload-all s v =
    let (s', ran, f) = free_from-Freed mytbf_max 0 s (λ j p low high. v.slots j p) in
    (
      s',
      ran,
      λ p. elim (Option-cases (s.heap p)) [
        | inl e ↦ f.still p e
        | inr (b, e) ↦
            let (mine, low, _, _) = v.buckets p b e in
            f.gone p b e (omega arith) (omega (arith, low)) mine
      ],
    )

-- However its threads create, use and destroy buckets, while the alarm thread goes round, no freed
-- bucket is touched and the table stays valid: each bucket stands in the slot that it names and holds
-- no more than its burst. module_unload then frees every bucket that is left, each once. It is assumed
-- that `new` returns free pointers, that a bucket is used only until it is destroyed, that no rate, burst
-- or size is negative, and that an int holds the sum of a burst and a rate or a returned size.
pub call_each_lem :
    (calls : List Call) (s : Jobs)
    → IsValid s
    → AreProper s calls
    → (s' : Jobs) × (call_each calls s ≡ ok s')
      × IsValid s'
      × ((s'' : Jobs) × (module_unload s' ≡ ok s'') × ((p : ℕ) → s''.heap p ≡ none))
unfolding call_each
call_each_lem [] s v h = (s, refl, v, module_unload-all s v)
call_each_lem (c ∷ calls) s v (proper, later) =
    let (s₁, ran, v₁) = call-IsValid c s v proper in
    let (s', rest, v', freed) = call_each_lem calls s₁ v₁ (later s₁ ran) in
    (s', ground (arith, ran, rest), v', freed)
