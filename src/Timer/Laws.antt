-- ===== src/Timer/Laws.antt =====
-- What the time stamps and the timers do.
use my_learning.Base.{ℕ, ◌+◌, ◌*◌, ◌≤◌, ◌<◌, ◌≡◌, refl, true, false, arith}
use my_learning.Timer.{
  Timer, microseconds_per_second, seconds_since_epoch, from_unix_time, to_string_fields,
  formatted_microseconds, now_of, invalid, restart,
}

-- The two numbers of toString make up the time stamp, and a stamp taken from a timeval shows its two
-- fields.
pub to_string_fields_lem :
    (t s us : ℕ)
    → us < microseconds_per_second
    → ((to_string_fields t).0 * microseconds_per_second + (to_string_fields t).1 ≡ t)
      × (to_string_fields (now_of s us) ≡ (s, us))
unfolding to_string_fields now_of
to_string_fields_lem t s us h = (omega arith, ground arith)

-- fromUnixTime adds seconds to microseconds: the stamp of a second `t` after the epoch, other than
-- the epoch itself, lies in an earlier second.
pub from_unix_time_early : (t : ℕ) → 0 < t → seconds_since_epoch (from_unix_time t 0) < t
unfolding from_unix_time seconds_since_epoch
from_unix_time_early t h = omega arith

-- toFormattedString prints the seconds since the epoch in the place of the microseconds.
pub formatted_microseconds-eq : (t : ℕ) → formatted_microseconds t ≡ (to_string_fields t).0
unfolding formatted_microseconds to_string_fields
formatted_microseconds-eq t = refl

-- A repeating timer is due again after the whole seconds of its interval: at once, if the interval is
-- shorter than a second, and less than a second early in any case. One that does not repeat becomes
-- invalid.
pub restart_lem :
    (t : Timer) (now : ℕ)
    → (t.repeat ≡ true
        → ((restart t now).expiration ≤ now + t.interval)
          × (now + t.interval < (restart t now).expiration + microseconds_per_second)
          × (t.interval < microseconds_per_second → (restart t now).expiration ≡ now))
      × (t.repeat ≡ false → (restart t now).expiration ≡ invalid)
unfolding restart
restart_lem t now = (λ r. (ground arith, ground arith, λ h. ground arith), λ r. ground arith)
