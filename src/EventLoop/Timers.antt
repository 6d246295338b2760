-- ===== src/EventLoop/Timers.antt =====
-- runAt, runAfter and runEvery of myMuduo/lib/EventLoop.cpp in the loop's thread. `new` returns `p`,
-- `now` is the time that Timestamp::now reads, and a delay is a number of microseconds.
use my_learning.Base.{
  max, ℕ, ◌+◌, ◌≡◌, ◌≤◌, ◌<◌, refl, true, Option, none, some, List, [], ◌∷◌, Run, ok, arith, inl,
  inr, Bool-cases, ◌*◌, ◌^◌, ltb, lt→ltb, ◌>>=◌,
}
use my_learning.OrderedSet.{Pair, member, eq_pair, IsSorted, IsBelow}
use my_learning.OrderedSet.Laws.{member-insert}
use my_learning.Timer.{microseconds_per_second, add_time, to_int, int_of}
use my_learning.TimerQueue.{TimerQueue, add_timer}
use my_learning.TimerQueue.Valid.{IsArmedFor}
use my_learning.TimerQueue.Insert.{add_timer_lem}
use my_learning.TimerQueue.Life.{IsReady}

unfoldable pub run_at : ℕ → ℕ → ℕ → TimerQueue → Run TimerQueue
run_at p callback time q = add_timer q p callback time 0

unfoldable pub run_after : ℕ → ℕ → ℕ → ℕ → TimerQueue → Run TimerQueue
unfolding run_at int_of
run_after p callback now delay q = do
  seconds ← int_of delay
  run_at p callback (add_time now seconds) q

unfoldable pub run_every : ℕ → ℕ → ℕ → ℕ → TimerQueue → Run TimerQueue
unfolding int_of
run_every p callback now interval q = do
  seconds ← int_of interval
  add_timer q p callback (add_time now seconds) interval

below_all :
    (at limit w p : ℕ) (x : Pair) (xs : List Pair)
    → IsBelow x xs
    → at ≤ max x.0 limit
    → member (w, p) xs ≡ true
    → at ≤ max w limit
unfolding member
below_all at limit w p x [] b h m = absurd (ground (arith, m))
below_all at limit w p (v, o) ((v', o') ∷ xs) (b, bs) h m =
    elim (Bool-cases (eq_pair (w, p) (v', o'))) [
      | inl e ↦
          let same : w ≡ v' = ground (arith, e) in
          let up : v ≤ v' = ground (arith, b) in omega (arith, same, up, h)
      | inr e ↦ below_all at limit w p (v, o) xs bs h (ground (arith, e, m))
    ]

-- an armed timerfd fires no later than any timer of the queue, or 100 µs from now
armed_in_time :
    (clock : ℕ) (armed : Option ℕ) (w p : ℕ) (timers : List Pair)
    → IsSorted timers
    → IsArmedFor clock armed timers
    → member (w, p) timers ≡ true
    → (at : ℕ) × (armed ≡ some at) × (at ≤ max w (clock + 100))
unfolding member
armed_in_time clock armed w p [] s a m = absurd (ground (arith, m))
armed_in_time clock none w p (x ∷ xs) s a m = absurd a
armed_in_time clock (some at) w p (x ∷ xs) (b, s) a m = (
  at,
  refl,
  elim (Bool-cases (eq_pair (w, p) x)) [
    | inl e ↦ let same : w ≡ x.0 = ground (arith, e) in omega (arith, same, a)
    | inr e ↦ below_all at (clock + 100) w p x xs b a (ground (arith, e))
  ],
)

-- A timer for the time `w` at `p` is in the queue, and the timerfd fires no later, or 100 µs from now.
pub record Scheduled (w p : ℕ) (q : TimerQueue) : Type 0 where
  pub ready : IsReady q
  pub listed : member (w, p) q.timers ≡ true
  pub in_time : (at : ℕ) × (q.armed ≡ some at) × (at ≤ max w (q.clock + 100))

-- the time that runAfter and runEvery make of a delay
abbrev pub due_after : ℕ → ℕ → ℕ
due_after now delay = add_time now (to_int delay)

schedule :
    (q : TimerQueue) (p callback when interval : ℕ)
    → IsReady q
    → q.heap p ≡ none
    → 0 < when
    → (q' : TimerQueue) × (add_timer q p callback when interval ≡ ok q') × Scheduled when p q'
schedule q p callback when interval r free later =
    let (q', ran, a) = add_timer_lem q p callback when interval r.valid free in
    let listed : member (when, p) q'.timers ≡ true =
      rw (a.listed) (ground (arith, member-insert (when, p) (when, p) q.timers)) in
    let armed = a.armed r.armed in
    (
      q',
      ran,
      record {
        ready = record { valid = a.valid; timed = a.timed later r.timed; armed = armed };
        listed = listed;
        in_time =
            armed_in_time q'.clock q'.armed when p q'.timers a.valid.timers_sorted armed listed;
      },
    )

-- runAt, runAfter and runEvery put a timer into a ready queue, which stays ready, and the timerfd
-- fires no later than it is due, or 100 µs from now where that is past or nearer. What runAfter and
-- runEvery add to the time are the whole seconds of the delay: up to a second less than asked for, and
-- nothing for less than a second. It is assumed that an int holds the seconds of the delay.
pub run_lem :
    (q : TimerQueue) (p callback now delay : ℕ)
    → IsReady q
    → q.heap p ≡ none
    → 0 < now
    → delay < 2 ^ 31 * microseconds_per_second
    → ((q' : TimerQueue) × (run_at p callback now q ≡ ok q') × Scheduled now p q')
      × ((q' : TimerQueue) × (run_after p callback now delay q ≡ ok q')
          × Scheduled (due_after now delay) p q')
      × ((q' : TimerQueue) × (run_every p callback now delay q ≡ ok q')
          × Scheduled (due_after now delay) p q')
      × (due_after now delay ≤ now + delay)
      × (now + delay < due_after now delay + microseconds_per_second)
      × (delay < microseconds_per_second → due_after now delay ≡ now)
unfolding run_at run_after run_every add_time int_of
run_lem q p callback now delay r free later short =
    let after = due_after now delay in
    let fits : ltb (to_int delay) (2 ^ 31) ≡ true =
      lt→ltb (to_int delay) (2 ^ 31) (omega (arith, short)) in
    (
      schedule q p callback now 0 r free later,
      rw fits (schedule q p callback after 0 r free (omega (arith, later))),
      rw fits (schedule q p callback after delay r free (omega (arith, later))),
      omega arith,
      omega arith,
      λ h. omega (arith, h),
    )
