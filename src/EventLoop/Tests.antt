-- ===== src/EventLoop/Tests.antt =====
-- A loop with a pending functor, another thread and a wakeup.
use my_learning.Base.{◌≡◌, false, ◌≤◌, ◌<◌, ◌+◌, refl, List, [], ◌∷◌, ok, arith, ◌>>=◌}
use my_learning.EventLoop.{
  EventLoop, finish, meanwhile_queue, meanwhile_stop, visit, run, queue, stop, woken, event, Round,
  new_event_loop, loop, iterate,
}
use my_learning.EventLoop.Iterate.{Iterated, iterate_lem}
use my_learning.OrderedSet.{insert, member}
use my_learning.Timer.{microseconds_per_second, add_time}
use my_learning.TimerQueue.{TimerQueue, new_timer_queue, add_timer}
use my_learning.TimerQueue.Life.{new_timer_queue-IsReady}
use my_learning.EventLoop.Timers.{run_at, run_after, run_every, Scheduled, due_after, run_lem}
use my_learning.EventLoop.Wakeup.{Looped, quit_called, loop_lem}
use my_learning.EventLoop.Others.{IsWaiting}

-- Thread 8 queues a functor that runs one functor, queues another and quits.
abbrev rounds : List Round
rounds =
    record {
      others =
          (8, queue (visit 1 (run (visit 2 finish) (queue (visit 3 (stop finish)) finish))) finish)
          ∷ [];
      active = woken 4 ∷ [];
    }
    ∷ record { others = []; active = woken 4 ∷ event 5 (visit 9 finish) ∷ [] }
    ∷ []

new-IsWaiting : IsWaiting (new_event_loop 7)
new-IsWaiting = record {
  awake = λ h. h;
  between = record { not_handling = refl; not_calling = refl; no_channel = refl };
}

loop_visits : (loop 7 rounds (new_event_loop 7) >>= λ l. ok l.visits) ≡ ok (1 ∷ 2 ∷ 9 ∷ 3 ∷ [])
unfolding loop
loop_visits = refl

loop_lem_example :
    (l' : EventLoop) × (loop 7 rounds (new_event_loop 7) ≡ ok l')
    × Looped (quit_called rounds []) l'
loop_lem_example =
    loop_lem 7 rounds (new_event_loop 7) refl refl new-IsWaiting ((ground arith, tt), (tt, tt))

-- another thread queues a functor while the first callback runs, and quits while the functor runs
abbrev busy_rounds : List Round
busy_rounds =
    record {
      others = [];
      active = event 5 (visit 1 (meanwhile_queue (visit 2 (meanwhile_stop finish)) finish)) ∷ [];
    }
    ∷ record { others = []; active = event 5 (visit 9 finish) ∷ [] }
    ∷ []

busy_rounds_visits : (loop 7 busy_rounds (new_event_loop 7) >>= λ l. ok l.visits) ≡ ok (1 ∷ 2 ∷ [])
unfolding loop
busy_rounds_visits = refl

busy_rounds_looping : (loop 7 busy_rounds (new_event_loop 7) >>= λ l. ok l.looping) ≡ ok false
unfolding loop
busy_rounds_looping = refl

-- two functors pending, of which the first queues a third
abbrev busy : EventLoop
busy = record (new_event_loop 7) {
  pending_functors = visit 1 (queue (visit 3 finish) finish) ∷ visit 2 finish ∷ [];
  wakeups = 2;
}

iterate_lem_example :
    Iterated
      (woken 4 ∷ event 5 (visit 9 finish) ∷ [])
      busy
      (iterate (woken 4 ∷ event 5 (visit 9 finish) ∷ []) busy)
iterate_lem_example = iterate_lem (woken 4 ∷ event 5 (visit 9 finish) ∷ []) busy

-- half a second is no delay
run_after-half :
    (run_after 5 1 9_000_000 500_000 new_timer_queue >>= λ q. ok q.timers)
    ≡ ok ((9_000_000, 5) ∷ [])
unfolding run_after add_timer add_time insert member
run_after-half = refl

run_lem_example :
    ((q' : TimerQueue) × (run_at 5 1 9_000_000 new_timer_queue ≡ ok q') × Scheduled 9_000_000 5 q')
    × ((q' : TimerQueue) × (run_after 5 1 9_000_000 1_500_000 new_timer_queue ≡ ok q')
        × Scheduled (due_after 9_000_000 1_500_000) 5 q')
    × ((q' : TimerQueue) × (run_every 5 1 9_000_000 1_500_000 new_timer_queue ≡ ok q')
        × Scheduled (due_after 9_000_000 1_500_000) 5 q')
    × (due_after 9_000_000 1_500_000 ≤ 9_000_000 + 1_500_000)
    × (9_000_000 + 1_500_000 < due_after 9_000_000 1_500_000 + microseconds_per_second)
    × (1_500_000 < microseconds_per_second → due_after 9_000_000 1_500_000 ≡ 9_000_000)
run_lem_example =
    run_lem new_timer_queue 5 1 9_000_000 1_500_000 new_timer_queue-IsReady refl (omega arith)
      (omega arith)
