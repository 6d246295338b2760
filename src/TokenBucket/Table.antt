-- ===== src/TokenBucket/Table.antt =====
-- The slots of the table, mytbf_init and mytbf_destory.
use my_learning.Base.{
  ℕ, zero, suc, ◌^◌, ◌+◌, ◌≡◌, ◌≢◌, ◌≤◌, ◌<◌, refl, true, false, none, some, ok, update, arith,
  Bool-cases, Option-cases, inl, inr, ◌⊎◌, ◌==◌,
}
use my_learning.TokenBucket.{
  Jobs, Bucket, mytbf_max, free_pos_from, get_free_pos, init, destroy, store,
}

-- Each bucket stands in the slot that it names, each slot holds a bucket that names it, and no bucket
-- holds more than its burst, which with its rate fits into an int.
pub record IsValid (s : Jobs) : Type 0 where
  pub slots : (i p : ℕ) → s.job i ≡ some p → (b : Bucket) × (s.heap p ≡ some b) × (b.pos ≡ i)
  pub buckets :
      (p : ℕ) (b : Bucket)
      → s.heap p ≡ some b
      → (s.job b.pos ≡ some p)
        × (b.pos < mytbf_max)
        × (b.token ≤ b.brust)
        × (b.brust + b.cps < 2 ^ 31)

-- the first free slot of `n` slots from slot `i` on
record First (s : Jobs) (i n pos : ℕ) : Type 0 where
  low : i ≤ pos
  high : pos < i + n
  free : s.job pos ≡ none
  taken : (j : ℕ) → i ≤ j → j < pos → s.job j ≢ none

free_pos_from-First :
    (n i : ℕ) (s : Jobs)
    → ((pos : ℕ) × (free_pos_from n i s ≡ some pos) × First s i n pos)
      ⊎ ((free_pos_from n i s ≡ none) × ((j : ℕ) → i ≤ j → j < i + n → s.job j ≢ none))
unfolding free_pos_from
free_pos_from-First zero i s = inr (refl, λ j low high _. omega (arith, low, high))
free_pos_from-First (suc n) i s = elim (Option-cases (s.job i)) [
  | inl e ↦ inl (
    i,
    ground (arith, e),
    record {
      low = omega arith;
      high = omega arith;
      free = e;
      taken = λ j l h _. omega (arith, l, h);
    },
  )
  | inr (p, e) ↦ elim (free_pos_from-First n (suc i) s) [
    | inl (pos, found, f) ↦ inl (
      pos,
      ground (arith, e, found),
      record {
        low = omega (arith, f.low);
        high = omega (arith, f.high);
        free = f.free;
        taken = λ j l h. elim (Bool-cases (j == i)) [
          | inl at ↦ ground (arith, at, e)
          | inr off ↦ f.taken j (ground (arith, l, off)) h
        ];
      },
    )
    | inr (nothing, full) ↦ inr (
      ground (arith, e, nothing),
      λ j l h. elim (Bool-cases (j == i)) [
        | inl at ↦ ground (arith, at, e)
        | inr off ↦ full j (ground (arith, l, off)) (omega (arith, h))
      ],
    )
  ]
]

-- A bucket may change as long as it stays in its slot and below its burst.
pub store-IsValid :
    (s : Jobs) (p : ℕ) (b b' : Bucket)
    → IsValid s
    → s.heap p ≡ some b
    → b'.pos ≡ b.pos
    → (b'.token ≤ b'.brust) × (b'.brust + b'.cps < 2 ^ 31)
    → IsValid (store s p b')
store-IsValid s p b b' v live same small = record {
  slots = λ i o h.
      let (c, at, pos) = v.slots i o h in
      elim (Bool-cases (o == p)) [
        | inl e ↦ (b', ground (arith, e), ground (arith, e, at, live, pos, same))
        | inr e ↦ (c, ground (arith, e, at), pos)
      ];
  buckets = λ o c h. elim (Bool-cases (o == p)) [
    | inl e ↦ ground (arith, e, h, v.buckets p b live, same, small)
    | inr e ↦ ground (arith, e, h, v.buckets o c)
  ];
}

added-IsValid :
    (p pos : ℕ) (b : Bucket) (s : Jobs)
    → IsValid s
    → s.heap p ≡ none
    → s.job pos ≡ none
    → (b.pos ≡ pos) × (b.pos < mytbf_max) × (b.token ≤ b.brust) × (b.brust + b.cps < 2 ^ 31)
    → IsValid (record { job = update s.job pos (some p); heap = update s.heap p (some b) })
added-IsValid p pos b s v free empty (at, low, small, fits) = record {
  slots = λ i o h. elim (Bool-cases (i == pos)) [
    | inl e ↦ (b, ground (arith, e, h), ground (arith, e))
    | inr e ↦
        let (c, live, same) = v.slots i o (ground (arith, e, h)) in
        (c, ground (arith, live, free), same)
  ];
  buckets = λ o c h. elim (Bool-cases (o == p)) [
    | inl e ↦ ground (arith, e, h)
    | inr e ↦
        let (there, under, few, fits) = v.buckets o c (ground (arith, e, h)) in
        (ground (arith, there, empty), under, few, fits)
  ];
}

-- mytbf_init takes the first free slot for an empty bucket, and returns the null pointer and changes
-- nothing exactly when no slot is free.
pub init_lem :
    (p cps brust : ℕ) (s : Jobs)
    → IsValid s
    → s.heap p ≡ none
    → brust + cps < 2 ^ 31
    → ((pos : ℕ) × (s' : Jobs) × (init p cps brust s ≡ (true, s'))
        × (s.job pos ≡ none)
        × ((j : ℕ) → j < pos → s.job j ≢ none)
        × (s'.heap p ≡ some (record { cps = cps; brust = brust; token = 0; pos = pos }))
        × IsValid s')
      ⊎ ((init p cps brust s ≡ (false, s)) × ((j : ℕ) → j < mytbf_max → s.job j ≢ none))
unfolding init get_free_pos
init_lem p cps brust s v free fits = elim (free_pos_from-First mytbf_max 0 s) [
  | inl (pos, found, f) ↦
      let b : Bucket = record { cps = cps; brust = brust; token = 0; pos = pos } in
      let s' : Jobs = record { job = update s.job pos (some p); heap = update s.heap p (some b) } in
      inl (
        pos,
        s',
        rw found refl,
        f.free,
        λ j h. f.taken j (omega arith) h,
        ground arith,
        added-IsValid p pos b s v free f.free (refl, omega (arith, f.high), omega arith, fits),
      )
  | inr (nothing, full) ↦ inr (rw nothing refl, λ j h. full j (omega arith) (omega (arith, h)))
]

-- mytbf_destory frees the bucket and its slot, and touches no other bucket.
pub destroy_lem :
    (p : ℕ) (b : Bucket) (s : Jobs)
    → IsValid s
    → s.heap p ≡ some b
    → (s' : Jobs) × (destroy p s ≡ ok s')
      × IsValid s'
      × (s'.job b.pos ≡ none)
      × (s'.heap p ≡ none)
      × ((o : ℕ) → o ≢ p → s'.heap o ≡ s.heap o)
unfolding destroy
destroy_lem p b s v live =
    let s' : Jobs = record { job = update s.job b.pos none; heap = update s.heap p none } in
    let (mine, low, small, _) = v.buckets p b live in
    (
      s',
      ground (arith, live),
      record {
        slots = λ i o h.
            let (c, at, same) = v.slots i o (ground (arith, h)) in
            (c, ground (arith, at, same, live, h, mine), same);
        buckets = λ o c h.
            let (at, under, few, fits) = v.buckets o c (ground (arith, h)) in
            (ground (arith, at, mine, h), under, few, fits);
      },
      ground arith,
      ground arith,
      λ o h. ground arith,
    )
