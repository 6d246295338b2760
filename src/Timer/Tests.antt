-- ===== src/Timer/Tests.antt =====
-- The laws of timers at concrete values.
use my_learning.Base.{◌≡◌, refl, true}
use my_learning.Timer.{Timer, restart}

-- half a second
abbrev half : Timer
half = record { callback = 1; expiration = 7; interval = 500_000; repeat = true; sequence = 3 }

restart-half : (restart half 9_000_000).expiration ≡ 9_000_000
unfolding restart
restart-half = refl
