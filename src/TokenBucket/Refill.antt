-- ===== src/TokenBucket/Refill.antt =====
-- One round of the alarm thread.
use my_learning.Base.{
  ℕ, zero, suc, ◌^◌, ◌+◌, ◌≡◌, ◌≢◌, ◌≤◌, ◌<◌, min, refl, ap, sym, ◌∙◌, true, false, ◌&&◌, some, ok,
  arith, Option-cases, inl, inr, leb, ltb, subst, ℕ_discrete, if◌then◌else◌,
}
use my_learning.TokenBucket.{Jobs, Bucket, mytbf_max, refill_from, thr_alrm, store}
use my_learning.TokenBucket.Ints.{filled, refill-ok}
use my_learning.TokenBucket.Table.{IsValid, store-IsValid}

-- a bucket after a second
abbrev pub refilled : Bucket → Bucket
refilled b = filled b.cps b

-- a bucket after the round has passed the `n` slots from slot `i` on
abbrev passed : ℕ → ℕ → Bucket → Bucket
passed i n b = if leb i b.pos && ltb b.pos (i + n) then refilled b else b

pub refill_lem :
    (b : Bucket)
    → ((refilled b).pos ≡ b.pos)
      × ((refilled b).token ≤ b.brust)
      × ((refilled b).brust ≡ b.brust)
      × ((refilled b).cps ≡ b.cps)
      × (b.token ≤ b.brust → b.token ≤ (refilled b).token)
      × ((refilled b).token ≤ b.token + b.cps)
refill_lem b = ground arith

record Refilled (i n : ℕ) (s s' : Jobs) : Type 0 where
  valid : IsValid s'
  job : s'.job ≡ s.job
  all : (p : ℕ) (b : Bucket) → s.heap p ≡ some b → s'.heap p ≡ some (passed i n b)

passed_at : (i n : ℕ) (b : Bucket) → b.pos ≡ i → passed (suc i) n (refilled b) ≡ passed i (suc n) b
passed_at i n b at =
    let (same, _, _, _, _, _) = refill_lem b in
    let late : leb (suc i) (refilled b).pos ≡ false = ground (arith, same, at) in
    let now : (leb i b.pos && ltb b.pos (i + suc n)) ≡ true = ground (arith, at) in
    ground (arith, late, now)

passed_off : (i n : ℕ) (b : Bucket) → b.pos ≢ i → passed (suc i) n b ≡ passed i (suc n) b
passed_off i n b off = ground (arith, off)

some-injective : (a b : Bucket) → some a ≡ some b → a ≡ b
some-injective a b e = ground (arith, e)

refill_from-Refilled :
    (n i : ℕ) (s : Jobs) → IsValid s → (s' : Jobs) × (refill_from n i s ≡ ok s') × Refilled i n s s'
unfolding refill_from
refill_from-Refilled zero i s v =
    (s, refl, record { valid = v; job = refl; all = λ p b h. ground (arith, h) })
refill_from-Refilled (suc n) i s v = elim (Option-cases (s.job i)) [
  | inl e ↦
      let (s', ran, d) = refill_from-Refilled n (suc i) s v in
      (
        s',
        ground (arith, e, ran),
        record {
          valid = d.valid;
          job = d.job;
          all = λ p b h.
              let (mine, _, _, _) = v.buckets p b h in
              d.all p b h ∙ ap some (passed_off i n b (λ g. ground (arith, g, mine, e)));
        },
      )
  | inr (p, e) ↦
      let (b, live, at) = v.slots i p e in
      let (same, small, brust, cps, _, _) = refill_lem b in
      let (_, _, few, fits) = v.buckets p b live in
      let s₁ = store s p (refilled b) in
      let v₁ =
        store-IsValid s p b (refilled b) v live same
          (omega (arith, small, brust), omega (arith, fits, brust, cps)) in
      let (s', ran, d) = refill_from-Refilled n (suc i) s₁ v₁ in
      (
        s',
        ground (arith, e, live, refill-ok b few fits, ran),
        record {
          valid = d.valid;
          job = d.job;
          all = λ o c h. elim (ℕ_discrete o p) [
            | yes f ↦
                let equal : b ≡ c =
                  some-injective b c (sym live ∙ (subst (λ x. s.heap x ≡ some c) f h)) in
                let stored : s₁.heap p ≡ some (refilled b) = ground arith in
                subst (λ x. s'.heap x ≡ some (passed i (suc n) c)) (sym f)
                  (d.all p (refilled b) stored
                    ∙ (ap some (passed_at i n b at) ∙ ap (λ x. some (passed i (suc n) x)) equal))
            | no f ↦
                let kept : s₁.heap o ≡ some c = ground (arith, h, f) in
                let (mine, _, _, _) = v.buckets o c h in
                d.all o c kept ∙ ap some (passed_off i n c (λ g. f (ground (arith, g, mine, e))))
          ];
        },
      )
]

passed_all :
    (s : Jobs) (p : ℕ) (b : Bucket)
    → (s.job b.pos ≡ some p)
      × (b.pos < mytbf_max)
      × (b.token ≤ b.brust)
      × (b.brust + b.cps < 2 ^ 31)
    → passed 0 mytbf_max b ≡ record b { token = min (b.token + b.cps) b.brust }
passed_all s p b (mine, low, few, fits) = ground (arith, low)

-- One round of the alarm thread gives every bucket its rate, at most up to its burst, and reads no
-- freed bucket; the table stays as it is.
pub thr_alrm_lem :
    (s : Jobs)
    → IsValid s
    → (s' : Jobs) × (thr_alrm s ≡ ok s')
      × IsValid s'
      × (s'.job ≡ s.job)
      × ((p : ℕ) (b : Bucket)
          → s.heap p ≡ some b
          → s'.heap p ≡ some (record b { token = min (b.token + b.cps) b.brust }))
unfolding thr_alrm
thr_alrm_lem s v =
    let (s', ran, d) = refill_from-Refilled mytbf_max 0 s v in
    (s', ran, d.valid, d.job, λ p b h. d.all p b h ∙ ap some (passed_all s p b (v.buckets p b h)))
