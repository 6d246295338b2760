-- ===== src/EventLoop.antt =====
-- myMuduo/lib/EventLoop.hpp and EventLoop.cpp.
-- A functor or a callback is a script of what it does to its loop; `visit` stands for all else. A
-- thread is its id, `wakeups` is the counter of the eventfd behind `wakeupFd_`, and `visits` a record
-- of the visits in their order. What poll returns, and what other threads do before it does, is the
-- input of the loop, a list of rounds. What other threads do while the loop runs a callback or a functor
-- stands in its script, at the point that it has reached then. The mutex makes each operation of another
-- thread one step.
pub mod Functors
pub mod Iterate
pub mod Others
pub mod Wakeup
pub mod Timers
mod Tests
use my_learning.Base.{
  ℕ, suc, ◌+◌, Bool, true, false, ◌&&◌, ◌||◌, not, Option, none, some, List, [], ◌∷◌, ◌++◌, ◌==◌,
  if◌then◌else◌, length, Run, ok, abort, ◌>>=◌, ◌>>◌, assert, map,
}

pub data Script : Type 0 where
  finish : Script
  visit : ℕ → Script → Script
  run : Script → Script → Script
  queue : Script → Script → Script
  stop : Script → Script
  -- another thread queues a functor, or calls quit
  meanwhile_queue : Script → Script → Script
  meanwhile_stop : Script → Script

pub record EventLoop : Type 0 where
  pub looping : Bool
  pub quit_flag : Bool
  pub event_handling : Bool
  pub calling_pending_functors : Bool
  pub iteration : ℕ
  pub thread_id : ℕ
  pub wakeups : ℕ
  pub active_channel : List ℕ
  pub current_active_channel : Option ℕ
  pub pending_functors : List Script
  pub visits : List ℕ

abbrev pub new_event_loop : ℕ → EventLoop
new_event_loop tid = record {
  looping = false;
  quit_flag = false;
  event_handling = false;
  calling_pending_functors = false;
  iteration = 0;
  thread_id = tid;
  wakeups = 0;
  active_channel = [];
  current_active_channel = none;
  pending_functors = [];
  visits = [];
}

abbrev pub is_in_loop_thread : ℕ → EventLoop → Bool
is_in_loop_thread tid l = l.thread_id == tid

abbrev pub wakeup : EventLoop → EventLoop
wakeup l = record l { wakeups = suc l.wakeups }

-- handleRead takes the whole counter
abbrev pub handle_read : EventLoop → EventLoop
handle_read l = record l { wakeups = 0 }

-- a thread that is not the loop's
abbrev pub elsewhere : EventLoop → ℕ
elsewhere l = suc l.thread_id

unfoldable pub quit : ℕ → EventLoop → EventLoop
quit tid l =
    let l' = record l { quit_flag = true } in if is_in_loop_thread tid l then wakeup l' else l'

unfoldable pub queue_in_loop : ℕ → Script → EventLoop → EventLoop
queue_in_loop tid cb l =
    let l' = record l { pending_functors = l.pending_functors ++ cb ∷ [] } in
    if not (is_in_loop_thread tid l) || l.calling_pending_functors then wakeup l' else l'

abbrev pub queue_size : EventLoop → ℕ
queue_size l = length l.pending_functors

-- A call in the thread `tid`; `run` is runInLoop.
unfoldable pub call : ℕ → Script → EventLoop → EventLoop
unfolding queue_in_loop quit
call tid finish l = l
call tid (visit n k) l = call tid k (record l { visits = l.visits ++ n ∷ [] })
call tid (run cb k) l =
    call tid k (if is_in_loop_thread tid l then call tid cb l else queue_in_loop tid cb l)
call tid (queue cb k) l = call tid k (queue_in_loop tid cb l)
call tid (stop k) l = call tid k (quit tid l)
call tid (meanwhile_queue cb k) l = call tid k (queue_in_loop (elsewhere l) cb l)
call tid (meanwhile_stop k) l = call tid k (quit (elsewhere l) l)

unfoldable pub call_each : ℕ → List Script → EventLoop → EventLoop
unfolding call
call_each tid [] l = l
call_each tid (cb ∷ cbs) l = call_each tid cbs (call tid cb l)

unfoldable pub do_pending_functors : EventLoop → EventLoop
unfolding call_each
do_pending_functors l =
    record (call_each l.thread_id l.pending_functors
      (record l { calling_pending_functors = true; pending_functors = [] })) {
        calling_pending_functors = false;
      }

-- An active channel: the one of the eventfd, or another with what its handleEvent does.
pub data Active : Type 0 where
  woken : ℕ → Active
  event : ℕ → Script → Active

abbrev pub channel_of : Active → ℕ
channel_of (woken c) = c
channel_of (event c _) = c

unfoldable pub handle_event : Active → EventLoop → EventLoop
unfolding call
handle_event (woken c) l = handle_read (record l { current_active_channel = some c })
handle_event (event c cb) l = call l.thread_id cb (record l { current_active_channel = some c })

unfoldable pub handle_events : List Active → EventLoop → EventLoop
unfolding handle_event
handle_events [] l = l
handle_events (a ∷ active) l = handle_events active (handle_event a l)

-- the body of the loop, once poll has returned
unfoldable pub iterate : List Active → EventLoop → EventLoop
unfolding handle_events do_pending_functors
iterate active l =
    let l₁ = record l {
      active_channel = map channel_of active;
      iteration = suc l.iteration;
      event_handling = true;
    } in
    let l₂ = handle_events active l₁ in
    do_pending_functors (record l₂ { current_active_channel = none; event_handling = false })

-- what other threads call while the loop waits in poll, and what poll returns then
pub record Round : Type 0 where
  pub others : List (ℕ × Script)
  pub active : List Active

unfoldable pub call_others : List (ℕ × Script) → EventLoop → EventLoop
unfolding call
call_others [] l = l
call_others ((tid, cb) ∷ others) l = call_others others (call tid cb l)

-- The loop, until it quits or waits in a poll that has not returned yet.
unfoldable pub loop_rounds : List Round → EventLoop → EventLoop
unfolding call_others iterate
loop_rounds [] l = if l.quit_flag then record l { looping = false } else l
loop_rounds (r ∷ rounds) l =
    let rest = loop_rounds rounds (iterate r.active (call_others r.others l)) in
    if l.quit_flag then record l { looping = false } else rest

unfoldable pub loop : ℕ → List Round → EventLoop → Run EventLoop
unfolding loop_rounds
loop tid rounds l = do
  assert (not l.looping)
  assert (is_in_loop_thread tid l)
  ok (loop_rounds rounds (record l { looping = true; quit_flag = false }))
