-- ===== src/TokenBucket/Rate.antt =====
-- How much can be fetched from a bucket.
use my_learning.Base.{
  Run, ok, ◌>>=◌, ◌^◌, if◌then◌else◌, ℕ, ◌+◌, ◌-◌, ◌≡◌, ◌≤◌, ◌<◌, refl, ◌∙◌, none, some, List, [],
  ◌∷◌, arith, Bool-cases, inl, inr, ◌⊎◌, ltb,
}
use my_learning.TokenBucket.{Bucket, refill, fetch, give}
use my_learning.TokenBucket.Refill.{refilled, refill_lem}
use my_learning.TokenBucket.Ints.{filled, fetched, refill-ok, fetch-ok, give-ok}

-- what happens to one bucket: a second passes, or a thread fetches or returns tokens
pub data Use : Type 0 where
  second : Use
  fetches : ℕ → Use
  returns : ℕ → Use

-- the tokens fetched so far, and the bucket; a fetch that waits changes nothing
unfoldable pub use_bucket : List Use → ℕ → Bucket → Run (ℕ × Bucket)
use_bucket [] taken b = let result : ℕ × Bucket = (taken, b) in ok result
use_bucket (second ∷ uses) taken b = refill b >>= use_bucket uses taken
use_bucket (fetches size ∷ uses) taken b = do
  fetched ← fetch size b
  elim fetched [ none ↦ use_bucket uses taken b | some (n, b') ↦ use_bucket uses (taken + n) b' ]
use_bucket (returns size ∷ uses) taken b = give size b >>= use_bucket uses taken

-- The sizes are not negative, and an int holds the burst with a returned size.
abbrev pub AreSmall : ℕ → List Use → Type 0
AreSmall brust [] = Unit
AreSmall brust (second ∷ uses) = AreSmall brust uses
AreSmall brust (fetches size ∷ uses) = (size < 2 ^ 31) × AreSmall brust uses
AreSmall brust (returns size ∷ uses) = (brust + size < 2 ^ 31) × AreSmall brust uses

-- the seconds that pass, each at the rate, and the tokens that are returned
unfoldable pub allowance : ℕ → List Use → ℕ
allowance cps [] = 0
allowance cps (second ∷ uses) = cps + allowance cps uses
allowance cps (fetches size ∷ uses) = allowance cps uses
allowance cps (returns size ∷ uses) = size + allowance cps uses

pub give_lem :
    (size : ℕ) (b : Bucket)
    → ((filled size b).token ≤ b.token + size)
      × ((filled size b).token ≤ b.brust)
      × ((filled size b).cps ≡ b.cps)
      × ((filled size b).brust ≡ b.brust)
give_lem size b = ground arith

-- A fetch takes no more than it asks for and no more than there are, and takes something unless it
-- waits or asks for nothing; it waits exactly while the bucket is empty.
pub fetch_lem :
    (size : ℕ) (b : Bucket)
    → ((fetched size b ≡ none) × (b.token ≡ 0))
      ⊎ ((n : ℕ) × (b' : Bucket) × (fetched size b ≡ some (n, b'))
          × (n + b'.token ≡ b.token)
          × (n ≤ size)
          × (0 < size → 0 < n)
          × (b'.cps ≡ b.cps)
          × (b'.brust ≡ b.brust))
fetch_lem size b =
    let n = if ltb size b.token then size else b.token in
    elim (Bool-cases (ltb 0 b.token)) [
      | inl e ↦ inr (
        n,
        record b { token = b.token - n },
        ground (arith, e),
        ground arith,
        ground arith,
        λ more. ground (arith, e, more),
        refl,
        refl,
      )
      | inr e ↦ inl (ground (arith, e), ground (arith, e))
    ]

record Used (cps brust taken : ℕ) (uses : List Use) (b : Bucket) (run : Run (ℕ × Bucket))
    : Type 0 where
  taken' : ℕ
  bucket : Bucket
  ran : run ≡ ok (taken', bucket)
  total : taken' + bucket.token ≤ taken + b.token + allowance cps uses
  burst : bucket.token ≤ brust

use_bucket-Used :
    (uses : List Use) (cps brust taken : ℕ) (b : Bucket)
    → b.cps ≡ cps
    → b.brust ≡ brust
    → b.token ≤ brust
    → brust + cps < 2 ^ 31
    → AreSmall brust uses
    → Used cps brust taken uses b (use_bucket uses taken b)
unfolding use_bucket allowance
use_bucket-Used [] cps brust taken b c h few fits small = record {
  taken' = taken;
  bucket = b;
  ran = refl;
  total = omega arith;
  burst = few;
}
use_bucket-Used (second ∷ uses) cps brust taken b c h few fits small =
    let (_, low, same_brust, same_cps, _, more) = refill_lem b in
    let u =
      use_bucket-Used uses cps brust taken (refilled b) (same_cps ∙ c) (same_brust ∙ h)
        (omega (arith, low, h)) fits small in
    record {
      taken' = u.taken';
      bucket = u.bucket;
      ran = ground (arith, refill-ok b (omega (arith, few, h)) (omega (arith, fits, c, h)), u.ran);
      total = omega (arith, u.total, more, c);
      burst = u.burst;
    }
use_bucket-Used (fetches size ∷ uses) cps brust taken b c h few fits (short, small) =
    let ok_fetch = fetch-ok size b (omega (arith, few, fits)) short in
    elim (fetch_lem size b) [
      | inl (waits, _) ↦
          let u = use_bucket-Used uses cps brust taken b c h few fits small in
          record {
            taken' = u.taken';
            bucket = u.bucket;
            ran = ground (arith, ok_fetch, waits, u.ran);
            total = u.total;
            burst = u.burst;
          }
      | inr (n, b', takes, sum, _, _, same_cps, same_brust) ↦
          let u =
            use_bucket-Used uses cps brust (taken + n) b' (same_cps ∙ c) (same_brust ∙ h)
              (omega (arith, sum, few)) fits small in
          record {
            taken' = u.taken';
            bucket = u.bucket;
            ran = ground (arith, ok_fetch, takes, u.ran);
            total = omega (arith, u.total, sum);
            burst = u.burst;
          }
    ]
use_bucket-Used (returns size ∷ uses) cps brust taken b c h few fits (short, small) =
    let (more, low, same_cps, same_brust) = give_lem size b in
    let u =
      use_bucket-Used uses cps brust taken (filled size b) (same_cps ∙ c) (same_brust ∙ h)
        (omega (arith, low, h)) fits small in
    record {
      taken' = u.taken';
      bucket = u.bucket;
      ran = ground (arith, give-ok size b (omega (arith, few, h)) (omega (arith, short, h)), u.ran);
      total = omega (arith, u.total, more);
      burst = u.burst;
    }

-- A bucket keeps its rate: in whatever order its threads use it, no int overflows, they fetch no more in
-- all than the tokens that it held, its rate for each second that passed and what was returned, and it
-- never holds more than its burst. It is assumed that no rate, burst or size is negative, and that an int
-- holds the sum of the burst and the rate or a returned size.
pub use_bucket_lem :
    (uses : List Use) (b : Bucket)
    → b.token ≤ b.brust
    → b.brust + b.cps < 2 ^ 31
    → AreSmall b.brust uses
    → (taken : ℕ) × (b' : Bucket) × (use_bucket uses 0 b ≡ ok (taken, b'))
      × (taken + b'.token ≤ b.token + allowance b.cps uses)
      × (b'.token ≤ b.brust)
use_bucket_lem uses b few fits small =
    let u = use_bucket-Used uses b.cps b.brust 0 b refl refl few fits small in
    (u.taken', u.bucket, u.ran, omega (arith, u.total), u.burst)
