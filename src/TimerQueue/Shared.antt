-- ===== src/TimerQueue/Shared.antt =====
-- addTimer and cancel of myMuduo/lib/TimerQueue.cpp from any thread, over runInLoop, queueInLoop and
-- doPendingFunctors of EventLoop.cpp. Another thread creates its timer at once and queues the insertion,
-- which the loop's thread runs later, one functor at a time.
pub mod Order
use my_learning.Base.{
  ℕ, suc, Option, none, some, List, [], ◌∷◌, ◌++◌, update, Run, ok, abort, ◌>>=◌,
}
use my_learning.OrderedSet.{Pair}
use my_learning.Timer.{new_timer}
use my_learning.TimerQueue.{
  TimerQueue, Request, add, cancel, add_timer_in_loop, cancel_in_loop, handle_read,
}
use my_learning.TimerQueue.Life.{Event, happen}

-- a queued functor: addTimerInLoop for a timer, given by its expiration and its pointer, or
-- cancelInLoop
pub data Functor : Type 0 where
  insertion : Pair → Functor
  cancellation : Pair → Functor

pub record Shared : Type 0 where
  pub queue : TimerQueue
  pub pending_functors : List Functor
  -- the functors that doPendingFunctors has taken and not yet run
  pub functors : List Functor

-- a request of another thread
unfoldable pub request_from : Request → Shared → Shared
unfolding new_timer
request_from (add p callback when interval) s =
    let t = new_timer callback when interval s.queue.num_created in
    record s {
      queue = record s.queue {
        heap = update s.queue.heap p (some t);
        num_created = suc s.queue.num_created;
      };
      pending_functors = s.pending_functors ++ insertion (when, p) ∷ [];
    }
request_from (cancel id) s = record s {
  pending_functors = s.pending_functors ++ cancellation id ∷ [];
}

unfoldable pub run_functor : Functor → TimerQueue → Run TimerQueue
unfolding add_timer_in_loop cancel_in_loop
run_functor (insertion (when, p)) q = add_timer_in_loop q p
run_functor (cancellation id) q = cancel_in_loop q id

-- doPendingFunctors takes the pending functors once it has run those that it took before
unfoldable pub take_functors : List Functor → Shared → Shared
take_functors [] s = record s { functors = s.pending_functors; pending_functors = [] }
take_functors (f ∷ functors) s = s

unfoldable pub run_first : List Functor → Shared → Run Shared
unfolding run_functor
run_first [] s = ok s
run_first (f ∷ functors) s = do
  q ← run_functor f s.queue
  ok (record s { queue = q; functors = functors })

-- one step of the loop's thread or of another
pub data Step : Type 0 where
  in_loop : Event → Step
  elsewhere : Request → Step
  take : Step
  run : Step

unfoldable pub step : Step → Shared → Run Shared
unfolding request_from take_functors run_first happen
step (in_loop e) s = do q ← happen e s.queue; ok (record s { queue = q })
step (elsewhere r) s = ok (request_from r s)
step take s = ok (take_functors s.functors s)
step run s = run_first s.functors s

unfoldable pub steps : List Step → Shared → Run Shared
unfolding step
steps [] s = ok s
steps (st ∷ sts) s = step st s >>= steps sts
