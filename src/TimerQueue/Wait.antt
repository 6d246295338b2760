-- ===== src/TimerQueue/Wait.antt =====
-- howMuchTimeFromNow.
use my_learning.Base.{ℕ, ◌+◌, ◌*◌, ◌≡◌, ◌≤◌, ◌<◌, Bool-cases, inl, inr, arith, ltb}
use my_learning.TimerQueue.{how_much_time_from_now}

-- The wait is a proper timespec of exactly the time that is left until `when`, but of 100 µs where
-- less is left; so it is never zero, which would disarm the timerfd.
pub how_much_time_from_now_lem :
    (when now : ℕ)
    → let (seconds, nanoseconds) = how_much_time_from_now when now in
      (nanoseconds < 1000000000)
      × (100000 ≤ seconds * 1000000000 + nanoseconds)
      × (now + 100 ≤ when → now * 1000 + (seconds * 1000000000 + nanoseconds) ≡ when * 1000)
      × (when < now + 100 → seconds * 1000000000 + nanoseconds ≡ 100000)
unfolding how_much_time_from_now
how_much_time_from_now_lem when now = elim (Bool-cases (ltb when (now + 100))) [
  | inl e ↦ ground (arith, e)
  | inr e ↦ ground (arith, e)
]
