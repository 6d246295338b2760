-- ===== src/TokenBucket/Tests.antt =====
-- A table with one bucket.
use my_learning.Base.{◌-◌, ◌^◌, ℕ, ◌+◌, ◌≡◌, ◌≤◌, refl, none, some, [], ◌∷◌, ok, update, arith}
use my_learning.TokenBucket
use my_learning.TokenBucket.{
  store, Jobs, Bucket, mytbf_max, init, destroy, thr_alrm, fetch, refill, give, fetch_token,
  module_unload,
}
use my_learning.TokenBucket.Table.{IsValid}
use my_learning.TokenBucket.Life.{Call, take, call_each, call_each_lem}
use my_learning.TokenBucket.Rate.{second, fetches, returns, use_bucket, allowance, use_bucket_lem}

abbrev bucket : Bucket
bucket = record { cps = 10; brust = 25; token = 18; pos = 0 }

abbrev one_bucket : Jobs
one_bucket = record {
  job = update (λ i. none) 0 (some 5);
  heap = update (λ p. none) 5 (some bucket);
}

one_bucket-IsValid : IsValid one_bucket
one_bucket-IsValid = record {
  slots = λ i p h. (bucket, ground (arith, h), ground (arith, h));
  buckets = λ p b h. ground (arith, h);
}

-- 18 tokens, of which 4 are taken; then 25 at most, of which 20 are taken
used :
    use_bucket (fetches 4 ∷ second ∷ second ∷ fetches 20 ∷ []) 0 bucket
    ≡ ok (24, record bucket { token = 5 })
unfolding use_bucket fetch refill my_learning.TokenBucket.min TokenBucket.less TokenBucket.add_int
    TokenBucket.sub_int TokenBucket.capped
used = refl

-- The number of tokens taken is lost: the result is 0.
fetch_token_result :
    fetch_token 5 7 one_bucket ≡ ok (some (0, store one_bucket 5 (record bucket { token = 11 })))
unfolding fetch_token fetch my_learning.TokenBucket.min TokenBucket.less TokenBucket.sub_int
fetch_token_result = refl

use_bucket_lem_example :
    (taken : ℕ) × (b' : Bucket) × (use_bucket (fetches 4 ∷ second ∷ returns 1 ∷ []) 0 bucket
      ≡ ok (taken, b'))
    × (taken + b'.token ≤ 18 + allowance 10 (fetches 4 ∷ second ∷ returns 1 ∷ []))
    × (b'.token ≤ 25)
use_bucket_lem_example =
    use_bucket_lem (fetches 4 ∷ second ∷ returns 1 ∷ []) bucket (omega arith) (omega arith)
      (omega arith, (omega arith, tt))

-- A negative size, here -2, raises the tokens above the burst.
negative_fetch :
    fetch (2 ^ 32 - 2) (record bucket { token = 25 })
    ≡ ok (some (2 ^ 32 - 2, record bucket { token = 27 }))
unfolding fetch my_learning.TokenBucket.min TokenBucket.less TokenBucket.sub_int
negative_fetch = refl

call_each_lem_example :
    (s' : Jobs) × (call_each (take 5 7 ∷ Call.second ∷ []) one_bucket ≡ ok s')
    × IsValid s'
    × ((s'' : Jobs) × (module_unload s' ≡ ok s'') × ((p : ℕ) → s''.heap p ≡ none))
call_each_lem_example =
    call_each_lem (take 5 7 ∷ Call.second ∷ []) one_bucket one_bucket-IsValid
      (((bucket, refl), omega arith), λ s' h. (tt, λ s'' k. tt))
