-- ===== src/Connector/Backoff.antt =====
-- The delays between attempts.
use my_learning.Base.{
  ℕ, zero, suc, ◌*◌, ◌^◌, min, ◌≡◌, ◌≤◌, ap, ◌∙◌, List, [], ◌∷◌, ok, Run, arith, ◌>>=◌, true,
  length,
}
use my_learning.Connector.{
  Connector, econnrefused, timer, step, init_retry_delay_ms, max_retry_delay_ms,
}
use my_learning.Connector.Steps.{idle, longer}

-- attempts that the peer refuses, each made when the timer of the one before fires
unfoldable pub refused : List ℕ → Connector → Run Connector
refused [] c = ok c
refused (fd ∷ fds) c = step (record { sockfd = fd; errno = econnrefused }) timer c >>= refused fds

doubled : ℕ → ℕ → ℕ
doubled zero delay = delay
doubled (suc n) delay = doubled n (delay * 2)

doubled_pow : (n delay : ℕ) → doubled n delay ≡ delay * 2 ^ n
unfolding doubled
doubled_pow zero delay = ground arith
doubled_pow (suc n) delay = doubled_pow n (delay * 2) ∙ grind arith

doubled_capped :
    (n x y : ℕ)
    → min x max_retry_delay_ms ≡ min y max_retry_delay_ms
    → min (doubled n x) max_retry_delay_ms ≡ min (doubled n y) max_retry_delay_ms
unfolding doubled
doubled_capped zero x y e = e
doubled_capped (suc n) x y e = doubled_capped n (x * 2) (y * 2) (omega (arith, e))

refused_once :
    (fd delay : ℕ) (cs : List ℕ)
    → step (record { sockfd = fd; errno = econnrefused }) timer (idle true delay 1 cs)
      ≡ ok (idle true (longer delay) 1 cs)
unfolding step
refused_once fd delay cs = ground arith

refused-doubled :
    (fds : List ℕ) (delay : ℕ) (cs : List ℕ)
    → delay ≤ max_retry_delay_ms
    → refused fds (idle true delay 1 cs)
      ≡ ok (idle true (min (doubled (length fds) delay) max_retry_delay_ms) 1 cs)
unfolding refused doubled
refused-doubled [] delay cs k = ap (λ d. ok (idle true d 1 cs)) (omega (arith, k))
refused-doubled (fd ∷ fds) delay cs k =
    let next = refused-doubled fds (longer delay) cs (omega arith) in
    let same = doubled_capped (length fds) (longer delay) (delay * 2) (omega arith) in
    rw (refused_once fd delay cs) (next ∙ ap (λ d. ok (idle true d 1 cs)) same)

-- Each refusal doubles the delay up to the largest one: after `n` of them it is the first delay times
-- 2 ^ n, or the largest. No descriptor is left open, and one timer is set for the next attempt.
pub refused_lem :
    (fds : List ℕ) (cs : List ℕ)
    → refused fds (idle true init_retry_delay_ms 1 cs)
      ≡ ok (idle true (min (init_retry_delay_ms * 2 ^ length fds) max_retry_delay_ms) 1 cs)
refused_lem fds cs =
    refused-doubled fds init_retry_delay_ms cs (omega arith)
    ∙ ap (λ d. ok (idle true (min d max_retry_delay_ms) 1 cs))
        (doubled_pow (length fds) init_retry_delay_ms)
