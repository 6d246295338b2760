-- ===== src/Timer.antt =====
-- myMuduo/lib/Timestamp.hpp, Timestamp.cpp, Timer.hpp and Timer.cpp.
-- A Timestamp is a number of microseconds since the epoch, not negative. A `double` number of seconds
-- is given by its microseconds: every such value of the program is a multiple of one, and none is
-- negative. An interval that a timer has was converted to int when it was added. A callback is a number.
pub mod Laws
mod Tests
use my_learning.Base.{
  ℕ, suc, ◌+◌, ◌-◌, ◌*◌, ◌/◌, ◌%◌, Bool, true, false, ltb, if◌then◌else◌, ◌^◌, Run, ok, ◌>>◌,
  assert,
}

abbrev pub microseconds_per_second : ℕ
microseconds_per_second = 1000 * 1000

abbrev pub invalid : ℕ
invalid = 0

abbrev pub valid : ℕ → Bool
valid t = ltb 0 t

unfoldable pub seconds_since_epoch : ℕ → ℕ
seconds_since_epoch t = t / microseconds_per_second

unfoldable pub from_unix_time : ℕ → ℕ → ℕ
from_unix_time t microseconds = t + microseconds

-- the two numbers that toString prints: seconds and the microseconds behind the point
unfoldable pub to_string_fields : ℕ → ℕ × ℕ
to_string_fields t = (t / microseconds_per_second, t % microseconds_per_second)

-- the last number that toFormattedString(true) prints, the one for the microseconds
unfoldable pub formatted_microseconds : ℕ → ℕ
formatted_microseconds t = t / microseconds_per_second

-- Timestamp::now, from the timeval that gettimeofday fills
unfoldable pub now_of : ℕ → ℕ → ℕ
now_of seconds microseconds = seconds * microseconds_per_second + microseconds

-- the conversion of a `double` number of seconds to int, where an int holds them
abbrev pub to_int : ℕ → ℕ
to_int interval = interval / microseconds_per_second

-- the same for any number, which is undefined where an int does not hold it
unfoldable pub int_of : ℕ → Run ℕ
int_of interval = assert (ltb (to_int interval) (2 ^ 31)) >> ok (to_int interval)

unfoldable pub add_time : ℕ → ℕ → ℕ
add_time t seconds = seconds * microseconds_per_second + t

pub record Timer : Type 0 where
  pub callback : ℕ
  pub expiration : ℕ
  pub interval : ℕ
  pub repeat : Bool
  pub sequence : ℕ

-- the constructor, and `s_numCreate_` before it
unfoldable pub new_timer : ℕ → ℕ → ℕ → ℕ → Timer
new_timer callback when interval num_created = record {
  callback = callback;
  expiration = when;
  interval = interval;
  repeat = ltb 0 interval;
  sequence = num_created;
}

unfoldable pub restart : Timer → ℕ → Timer
unfolding add_time
restart t now = record t {
  expiration = if t.repeat then add_time now (to_int t.interval) else invalid;
}
