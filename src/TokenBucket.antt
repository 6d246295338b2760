-- ===== src/TokenBucket.antt =====
-- BroadCast/lib/mytbf.cpp and mytbf.hpp.
-- A `mytbf_st*` is a number and `heap` the store of the buckets; `job` is the table of slots, of which
-- only the first `mytbf_max` are used. An int is a number below 2^32, negative from 2^31 on, and a sum or
-- difference that overflows, which is undefined, is `abort`. Each locked region is one step; a fetch that
-- waits is `none`.
pub mod Ints
pub mod Table
pub mod Refill
pub mod Rate
pub mod Life
mod Tests
use my_learning.Base.{
  ℕ, zero, suc, ◌+◌, ◌-◌, ◌%◌, ◌^◌, Bool, true, false, ◌||◌, not, leb, ◌==◌, ◌>>◌, assert, Option,
  none, some, List, [], ◌∷◌, ltb, if◌then◌else◌, update, Run, ok, abort, ◌>>=◌,
}

abbrev pub mytbf_max : ℕ
mytbf_max = 1024

abbrev pub int_mod : ℕ
int_mod = 2 ^ 32

abbrev pub is_negative : ℕ → Bool
is_negative a = leb (2 ^ 31) a

abbrev pub same_sign : ℕ → ℕ → Bool
same_sign a b = if is_negative a then is_negative b else not (is_negative b)

-- `a < b` on ints
unfoldable pub less : ℕ → ℕ → Bool
less a b = if same_sign a b then ltb a b else is_negative a

-- `a + b` and `a - b` on ints
unfoldable pub add_int : ℕ → ℕ → Run ℕ
add_int a b = do
  let sum = (a + b) % int_mod
  assert (not (same_sign a b) || same_sign sum a)
  ok sum

unfoldable pub sub_int : ℕ → ℕ → Run ℕ
sub_int a b = do
  let difference = (a + (int_mod - b)) % int_mod
  assert (same_sign a b || same_sign difference a)
  ok difference

pub record Bucket : Type 0 where
  pub cps : ℕ
  pub brust : ℕ
  pub token : ℕ
  pub pos : ℕ

pub record Jobs : Type 0 where
  pub job : ℕ → Option ℕ
  pub heap : ℕ → Option Bucket

abbrev pub deref : Jobs → ℕ → Run Bucket
deref s p = elim (s.heap p) [ none ↦ abort | some b ↦ ok b ]

abbrev pub store : Jobs → ℕ → Bucket → Jobs
store s p b = record s { heap = update s.heap p (some b) }

-- `a > b ? b : a`
unfoldable pub min : ℕ → ℕ → ℕ
unfolding less
min a b = if less b a then b else a

-- `token > brust` cuts the tokens
unfoldable pub capped : Bucket → Bucket
unfolding less
capped b = if less b.brust b.token then record b { token = b.brust } else b

-- one second of the alarm thread for one bucket
unfoldable pub refill : Bucket → Run Bucket
unfolding add_int capped
refill b = do token ← add_int b.token b.cps; ok (capped (record b { token = token }))

-- and for the `n` slots from slot `i` on
unfoldable pub refill_from : ℕ → ℕ → Jobs → Run Jobs
unfolding refill
refill_from zero i s = ok s
refill_from (suc n) i s = elim (s.job i) [
  | none ↦ refill_from n (suc i) s
  | some p ↦ deref s p >>= λ b. refill b >>= λ b'. refill_from n (suc i) (store s p b')
]

unfoldable pub thr_alrm : Jobs → Run Jobs
unfolding refill_from
thr_alrm s = refill_from mytbf_max 0 s

-- the loop of get_free_pos_unlocked over the `n` slots from slot `i` on
unfoldable pub free_pos_from : ℕ → ℕ → Jobs → Option ℕ
free_pos_from zero i s = none
free_pos_from (suc n) i s =
    let rest = free_pos_from n (suc i) s in elim (s.job i) [ none ↦ some i | some p ↦ rest ]

unfoldable pub get_free_pos : Jobs → Option ℕ
unfolding free_pos_from
get_free_pos s = free_pos_from mytbf_max 0 s

-- `new` returns `p`; the result is whether it is the handle, or the null pointer
unfoldable pub init : ℕ → ℕ → ℕ → Jobs → Bool × Jobs
unfolding get_free_pos
init p cps brust s = elim (get_free_pos s) [
  | none ↦ (false, s)
  | some pos ↦ (
    true,
    record {
      job = update s.job pos (some p);
      heap = update s.heap p (some (record { cps = cps; brust = brust; token = 0; pos = pos }));
    },
  )
]

-- the tokens taken, and the bucket; `none` while there are none
unfoldable pub fetch : ℕ → Bucket → Run (Option (ℕ × Bucket))
unfolding min sub_int
fetch size b =
    if less 0 b.token
    then (do
      let n = min b.token size
      token ← sub_int b.token n
      let taken : Option (ℕ × Bucket) = some (n, record b { token = token })
      ok taken)
    else ok none

-- mytbf_fetchtocken: its result is 0 whatever it takes
unfoldable pub fetch_token : ℕ → ℕ → Jobs → Run (Option (ℕ × Jobs))
unfolding fetch
fetch_token p size s = do
  b ← deref s p
  fetched ← fetch size b
  let result : Option (ℕ × Jobs) = elim fetched [
    | none ↦ none
    | some (n, b') ↦ some (0, store s p b')
  ]
  ok result

unfoldable pub give : ℕ → Bucket → Run Bucket
unfolding add_int capped
give size b = do token ← add_int b.token size; ok (capped (record b { token = token }))

unfoldable pub return_token : ℕ → ℕ → Jobs → Run (ℕ × Jobs)
unfolding give
return_token p size s = do
  b ← deref s p
  b' ← give size b
  let result : ℕ × Jobs = (0, store s p b')
  ok result

unfoldable pub destroy : ℕ → Jobs → Run Jobs
destroy p s = do
  b ← deref s p
  ok (record { job = update s.job b.pos none; heap = update s.heap p none })

-- the loop of module_unload over the `n` slots from slot `i` on; free of a null pointer does nothing,
-- and a second free of a bucket is `abort`
unfoldable pub free_from : ℕ → ℕ → Jobs → Run Jobs
free_from zero i s = ok s
free_from (suc n) i s = elim (s.job i) [
  | none ↦ free_from n (suc i) s
  | some p ↦ deref s p >>= λ b. free_from n (suc i) (record s { heap = update s.heap p none })
]

-- once the alarm thread has been cancelled and joined
unfoldable pub module_unload : Jobs → Run Jobs
unfolding free_from
module_unload s = free_from mytbf_max 0 s
