-- ===== src/TimerQueue.antt =====
-- myMuduo/lib/TimerQueue.hpp, TimerQueue.cpp and TimerId.hpp.
-- A `Timer*` is a number and `heap` the store of the timers; a freed one is `none`, and a read through
-- its pointer is `abort`. Everything here runs in the loop's thread, so that its checks pass.
-- `armed` is the time at which the timerfd fires as it was last set, and `clock` the time that
-- Timestamp::now() reads when it is set. What the callbacks do to the queue is a list of requests for
-- each.
pub mod Wait
pub mod Valid
pub mod Insert
pub mod Cancel
pub mod Expire
pub mod Rounds
pub mod Reset
pub mod Requests
pub mod Waiting
pub mod Fire
pub mod Life
pub mod Shared
mod Tests
use my_learning.Base.{
  ℕ, suc, ◌+◌, ◌-◌, ◌*◌, ◌/◌, ◌%◌, ◌^◌, Bool, true, false, ◌&&◌, not, Option, none, some, List, [],
  ◌∷◌, ltb, ◌==◌, if◌then◌else◌, length, update, Run, ok, abort, ◌>>=◌, ◌>>◌, assert,
}
use my_learning.OrderedSet.{Pair, member, insert, erase, before, from}
use my_learning.Timer.{microseconds_per_second, Timer, invalid, valid, new_timer, restart}

abbrev pub uintptr_max : ℕ
uintptr_max = 2 ^ 64 - 1

pub record TimerQueue : Type 0 where
  -- pairs of an expiration and a pointer
  pub timers : List Pair
  -- pairs of a pointer and a sequence number, as in a TimerId
  pub active_timers : List Pair
  pub calling_expired_timer : Bool
  pub canceling_timers : List Pair
  pub heap : ℕ → Option Timer
  pub num_created : ℕ
  pub armed : Option ℕ
  pub clock : ℕ

abbrev pub new_timer_queue : TimerQueue
new_timer_queue = record {
  timers = [];
  active_timers = [];
  calling_expired_timer = false;
  canceling_timers = [];
  heap = λ p. none;
  num_created = 0;
  armed = none;
  clock = 0;
}

-- the loop of the destructor, in which a second `delete` of a timer is `abort`
unfoldable pub delete_each : List Pair → (ℕ → Option Timer) → Run (ℕ → Option Timer)
delete_each [] heap = ok heap
delete_each ((_, p) ∷ timers) heap = elim (heap p) [
  | none ↦ abort
  | some _ ↦ delete_each timers (update heap p none)
]

abbrev pub deref : TimerQueue → ℕ → Run Timer
deref q p = elim (q.heap p) [ none ↦ abort | some t ↦ ok t ]

abbrev pub same_size : TimerQueue → Bool
same_size q = length q.timers == length q.active_timers

-- `it == timers_.end() || when < it->first`
abbrev pub is_earliest : ℕ → List Pair → Bool
is_earliest when [] = true
is_earliest when ((first, _) ∷ _) = ltb when first

unfoldable pub insert_timer : TimerQueue → ℕ → Run (TimerQueue × Bool)
insert_timer q p = do
  assert (same_size q)
  t ← deref q p
  let when = t.expiration
  let q' = record q {
    timers = insert (when, p) q.timers;
    active_timers = insert (p, t.sequence) q.active_timers;
  }
  assert (not (member (when, p) q.timers))
  assert (not (member (p, t.sequence) q.active_timers))
  assert (same_size q')
  let result : TimerQueue × Bool = (q', is_earliest when q.timers)
  ok result

-- the microseconds of howMuchTimeFromNow, at the time `now`: never less than 100
abbrev pub time_left : ℕ → ℕ → ℕ
time_left when now = if ltb when (now + 100) then 100 else when - now

-- the seconds and nanoseconds of howMuchTimeFromNow
unfoldable pub how_much_time_from_now : ℕ → ℕ → ℕ × ℕ
how_much_time_from_now when now =
    let microseconds = time_left when now in
    (microseconds / microseconds_per_second, microseconds % microseconds_per_second * 1000)

-- resetTimerfd, which sets the timerfd for `howMuchTimeFromNow(expired)` from now
abbrev pub reset_timerfd : TimerQueue → ℕ → TimerQueue
reset_timerfd q expired = record q { armed = some (q.clock + time_left expired q.clock) }

unfoldable pub add_timer_in_loop : TimerQueue → ℕ → Run TimerQueue
unfolding insert_timer
add_timer_in_loop q p = do
  (q', earliest_changed) ← insert_timer q p
  t ← deref q' p
  ok (if earliest_changed then reset_timerfd q' t.expiration else q')

-- `new Timer` returns `p`; the TimerId is `p` with the sequence number.
unfoldable pub add_timer : TimerQueue → ℕ → ℕ → ℕ → ℕ → Run TimerQueue
unfolding add_timer_in_loop new_timer
add_timer q p callback when interval =
    let t = new_timer callback when interval q.num_created in
    add_timer_in_loop
      (record q { heap = update q.heap p (some t); num_created = suc q.num_created }) p

unfoldable pub cancel_in_loop : TimerQueue → Pair → Run TimerQueue
cancel_in_loop q (p, sequence) = do
  assert (same_size q)
  q' ←
      if member (p, sequence) q.active_timers
      then (do
        t ← deref q p
        assert (member (t.expiration, p) q.timers)
        ok (record q {
          timers = erase (t.expiration, p) q.timers;
          active_timers = erase (p, sequence) q.active_timers;
          heap = update q.heap p none;
        }))
      else (if q.calling_expired_timer
          then ok (record q { canceling_timers = insert (p, sequence) q.canceling_timers })
          else ok q)
  assert (same_size q')
  ok q'

-- the loop of getExpired over the expired timers
unfoldable pub erase_active : List Pair → TimerQueue → Run TimerQueue
erase_active [] q = ok q
erase_active ((when, p) ∷ expired) q = do
  t ← deref q p
  assert (member (p, t.sequence) q.active_timers)
  erase_active expired (record q { active_timers = erase (p, t.sequence) q.active_timers })

-- `end == timers_.end() || now < end->first`
abbrev pub all_later : ℕ → List Pair → Bool
all_later now [] = true
all_later now ((first, _) ∷ _) = ltb now first

unfoldable pub get_expired : TimerQueue → ℕ → Run (List Pair × TimerQueue)
unfolding erase_active
get_expired q now = do
  assert (same_size q)
  let sentry : Pair = (now, uintptr_max)
  assert (all_later now (from sentry q.timers))
  let expired = before sentry q.timers
  q' ← erase_active expired (record q { timers = from sentry q.timers })
  assert (same_size q')
  let result : List Pair × TimerQueue = (expired, q')
  ok result

-- the test of reset for the timer `t` at `p`
abbrev pub is_kept : TimerQueue → ℕ → Timer → Bool
is_kept q p t = t.repeat && not (member (p, t.sequence) q.canceling_timers)

-- the body of reset's loop
unfoldable pub reset_one : ℕ → ℕ → TimerQueue → Run TimerQueue
unfolding insert_timer
reset_one p now q = do
  t ← deref q p
  if is_kept q p t
      then (do
        (inserted, _) ← insert_timer (record q { heap = update q.heap p (some (restart t now)) }) p
        ok inserted)
      else ok (record q { heap = update q.heap p none })

-- and the loop
unfoldable pub reset_each : List Pair → ℕ → TimerQueue → Run TimerQueue
unfolding reset_one
reset_each [] now q = ok q
reset_each ((when, p) ∷ expired) now q = reset_one p now q >>= reset_each expired now

-- the expiration of the first timer, or the invalid time stamp
abbrev pub next_expire : TimerQueue → List Pair → Run ℕ
next_expire q [] = ok invalid
next_expire q ((_, p) ∷ _) = deref q p >>= λ t. ok t.expiration

unfoldable pub reset : List Pair → ℕ → TimerQueue → Run TimerQueue
unfolding reset_each
reset expired now q = do
  q' ← reset_each expired now q
  next ← next_expire q' q'.timers
  ok (if valid next then reset_timerfd q' next else q')

-- what a callback asks of its queue: a new timer (at the pointer that `new` returns), or to cancel
pub data Request : Type 0 where
  add : (p callback when interval : ℕ) → Request
  cancel : Pair → Request

unfoldable pub perform : Request → TimerQueue → Run TimerQueue
unfolding add_timer cancel_in_loop
perform (add p callback when interval) q = add_timer q p callback when interval
perform (cancel id) q = cancel_in_loop q id

unfoldable pub perform_all : List Request → TimerQueue → Run TimerQueue
unfolding perform
perform_all [] q = ok q
perform_all (r ∷ rs) q = perform r q >>= perform_all rs

-- the loop of handleRead: each expired timer runs its callback
unfoldable pub run_each : (ℕ → List Request) → List Pair → TimerQueue → Run TimerQueue
unfolding perform_all
run_each requests [] q = ok q
run_each requests ((when, p) ∷ expired) q = do
  t ← deref q p
  q' ← perform_all (requests t.callback) q
  run_each requests expired q'

unfoldable pub handle_read : (ℕ → List Request) → ℕ → TimerQueue → Run TimerQueue
unfolding get_expired run_each reset
handle_read requests now q = do
  (expired, q₁) ← get_expired (record q { armed = none }) now
  q₂ ← run_each requests expired (record q₁ { calling_expired_timer = true; canceling_timers = [] })
  reset expired now (record q₂ { calling_expired_timer = false })
