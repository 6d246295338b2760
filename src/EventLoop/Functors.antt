-- ===== src/EventLoop/Functors.antt =====
-- What a functor does in the loop's thread: its visits, and the functors it leaves for later.
use my_learning.Base.{
  append-append, append_nil, ℕ, ◌+◌, ◌≡◌, ◌≤◌, refl, ap, sym, ◌∙◌, true, false, Bool, ◌||◌,
  Bool-cases, List, [], ◌∷◌, ◌++◌, length, arith, ◌==◌, length-append,
}
use my_learning.EventLoop.{
  EventLoop, Script, finish, visit, run, queue, stop, meanwhile_queue, meanwhile_stop, elsewhere,
  call, call_each, quit, queue_in_loop, do_pending_functors,
}

-- in the order in which they happen: runInLoop calls its functor at once
unfoldable pub visits_of : Script → List ℕ
visits_of finish = []
visits_of (visit n k) = n ∷ visits_of k
visits_of (run cb k) = visits_of cb ++ visits_of k
visits_of (queue cb k) = visits_of k
visits_of (stop k) = visits_of k
visits_of (meanwhile_queue cb k) = visits_of k
visits_of (meanwhile_stop k) = visits_of k

unfoldable pub queued_by : Script → List Script
queued_by finish = []
queued_by (visit n k) = queued_by k
queued_by (run cb k) = queued_by cb ++ queued_by k
queued_by (queue cb k) = cb ∷ queued_by k
queued_by (stop k) = queued_by k
queued_by (meanwhile_queue cb k) = cb ∷ queued_by k
queued_by (meanwhile_stop k) = queued_by k

-- whether quit is called
unfoldable pub stops : Script → Bool
stops finish = false
stops (visit n k) = stops k
stops (run cb k) = stops cb || stops k
stops (queue cb k) = stops k
stops (stop k) = true
stops (meanwhile_queue cb k) = stops k
stops (meanwhile_stop k) = true

unfoldable pub stops_each : List Script → Bool
stops_each [] = false
stops_each (cb ∷ cbs) = stops cb || stops_each cbs

unfoldable pub visits_of_each : List Script → List ℕ
visits_of_each [] = []
visits_of_each (cb ∷ cbs) = visits_of cb ++ visits_of_each cbs

unfoldable pub queued_by_each : List Script → List Script
queued_by_each [] = []
queued_by_each (cb ∷ cbs) = queued_by cb ++ queued_by_each cbs

-- What calls with the visits `vs` that queue `qs` have done; while pending functors are called, each
-- functor they queue has woken the loop up.
pub record Called (vs : List ℕ) (qs : List Script) (stopped : Bool) (l l' : EventLoop)
    : Type 0 where
  pub visits : l'.visits ≡ l.visits ++ vs
  pub pending : l'.pending_functors ≡ l.pending_functors ++ qs
  pub calling : l'.calling_pending_functors ≡ l.calling_pending_functors
  pub thread : l'.thread_id ≡ l.thread_id
  pub handling : l'.event_handling ≡ l.event_handling
  pub channel : l'.current_active_channel ≡ l.current_active_channel
  pub looping : l'.looping ≡ l.looping
  pub wakeups : l.wakeups ≤ l'.wakeups
  pub quits : l'.quit_flag ≡ (l.quit_flag || stopped)
  pub woken : l.calling_pending_functors ≡ true → l.wakeups + length qs ≤ l'.wakeups

pub or_false : (b : Bool) → b ≡ (b || false)
or_false true = refl
or_false false = refl

pub or_true : (b : Bool) → true ≡ (b || true)
or_true true = refl
or_true false = refl

pub or_or : (a b c : Bool) → ((a || b) || c) ≡ (a || (b || c))
or_or true b c = refl
or_or false b c = refl

pub Called-none : (l : EventLoop) → Called [] [] false l l
Called-none l = record {
  visits = sym (append_nil l.visits);
  pending = sym (append_nil l.pending_functors);
  calling = refl;
  thread = refl;
  handling = refl;
  channel = refl;
  looping = refl;
  wakeups = omega arith;
  quits = or_false l.quit_flag;
  woken = λ _. omega arith;
}

pub Called-trans :
    (vs ws : List ℕ) (qs rs : List Script) (a b : Bool) (l l₁ l₂ : EventLoop)
    → Called vs qs a l l₁
    → Called ws rs b l₁ l₂
    → Called (vs ++ ws) (qs ++ rs) (a || b) l l₂
Called-trans vs ws qs rs a b l l₁ l₂ c d = record {
  visits = d.visits ∙ (ap (λ x. x ++ ws) c.visits ∙ append-append l.visits vs ws);
  pending = d.pending ∙ (ap (λ x. x ++ rs) c.pending ∙ append-append l.pending_functors qs rs);
  calling = d.calling ∙ c.calling;
  thread = d.thread ∙ c.thread;
  handling = d.handling ∙ c.handling;
  channel = d.channel ∙ c.channel;
  looping = d.looping ∙ c.looping;
  wakeups = omega (arith, c.wakeups, d.wakeups);
  quits = d.quits ∙ (ap (λ x. x || b) c.quits ∙ or_or l.quit_flag a b);
  woken = λ h. omega (arith, c.woken h, d.woken (c.calling ∙ h), length-append qs rs);
}

queue_in_loop-Called :
    (tid : ℕ) (cb : Script) (l : EventLoop) → Called [] (cb ∷ []) false l (queue_in_loop tid cb l)
unfolding queue_in_loop
queue_in_loop-Called tid cb l =
    let e = Bool-cases (l.thread_id == tid) in
    record {
      visits = ground (arith, e, append_nil l.visits);
      pending = ground (arith, e);
      calling = ground (arith, e);
      thread = ground (arith, e);
      handling = ground (arith, e);
      channel = ground (arith, e);
      looping = ground (arith, e);
      wakeups = ground (arith, e);
      quits = ground (arith, e, or_true l.quit_flag, or_false l.quit_flag);
      woken = λ h. ground (arith, e, h);
    }

quit-Called : (tid : ℕ) (l : EventLoop) → Called [] [] true l (quit tid l)
unfolding quit
quit-Called tid l =
    let e = Bool-cases (l.thread_id == tid) in
    record {
      visits = ground (arith, e, append_nil l.visits);
      pending = ground (arith, e, append_nil l.pending_functors);
      calling = ground (arith, e);
      thread = ground (arith, e);
      handling = ground (arith, e);
      channel = ground (arith, e);
      looping = ground (arith, e);
      wakeups = ground (arith, e);
      quits = ground (arith, e, or_true l.quit_flag, or_false l.quit_flag);
      woken = λ h. ground (arith, e, h);
    }

pub call-Called :
    (tid : ℕ) (cb : Script) (l : EventLoop)
    → l.thread_id ≡ tid
    → Called (visits_of cb) (queued_by cb) (stops cb) l (call tid cb l)
unfolding call visits_of queued_by stops
call-Called tid finish l e = Called-none l
call-Called tid (visit n k) l e =
    let l₁ = record l { visits = l.visits ++ n ∷ [] } in
    let c : Called (n ∷ []) [] false l l₁ = record {
      visits = refl;
      pending = sym (append_nil l.pending_functors);
      calling = refl;
      thread = refl;
      handling = refl;
      channel = refl;
      looping = refl;
      wakeups = omega arith;
      quits = or_false l.quit_flag;
      woken = λ _. omega arith;
    } in
    Called-trans (n ∷ []) (visits_of k) [] (queued_by k) false (stops k) l l₁ (call tid k l₁) c
      (call-Called tid k l₁ e)
call-Called tid (run cb k) l e =
    let l₁ = call tid cb l in
    let c = call-Called tid cb l e in
    let here : (l.thread_id == tid) ≡ true = ground (arith, e) in
    rw here (
      Called-trans (visits_of cb) (visits_of k) (queued_by cb) (queued_by k) (stops cb) (stops k) l
        l₁ (call tid k l₁) c (call-Called tid k l₁ (c.thread ∙ e)))
call-Called tid (queue cb k) l e =
    let l₁ = queue_in_loop tid cb l in
    let c = queue_in_loop-Called tid cb l in
    Called-trans [] (visits_of k) (cb ∷ []) (queued_by k) false (stops k) l l₁ (call tid k l₁) c
      (call-Called tid k l₁ (c.thread ∙ e))
call-Called tid (stop k) l e =
    let l₁ = quit tid l in
    let c = quit-Called tid l in
    Called-trans [] (visits_of k) [] (queued_by k) true (stops k) l l₁ (call tid k l₁) c
      (call-Called tid k l₁ (c.thread ∙ e))
call-Called tid (meanwhile_queue cb k) l e =
    let l₁ = queue_in_loop (elsewhere l) cb l in
    let c = queue_in_loop-Called (elsewhere l) cb l in
    Called-trans [] (visits_of k) (cb ∷ []) (queued_by k) false (stops k) l l₁ (call tid k l₁) c
      (call-Called tid k l₁ (c.thread ∙ e))
call-Called tid (meanwhile_stop k) l e =
    let l₁ = quit (elsewhere l) l in
    let c = quit-Called (elsewhere l) l in
    Called-trans [] (visits_of k) [] (queued_by k) true (stops k) l l₁ (call tid k l₁) c
      (call-Called tid k l₁ (c.thread ∙ e))

pub call_each-Called :
    (tid : ℕ) (cbs : List Script) (l : EventLoop)
    → l.thread_id ≡ tid
    → Called (visits_of_each cbs) (queued_by_each cbs) (stops_each cbs) l (call_each tid cbs l)
unfolding call_each visits_of_each queued_by_each stops_each
call_each-Called tid [] l e = Called-none l
call_each-Called tid (cb ∷ cbs) l e =
    let l₁ = call tid cb l in
    let c = call-Called tid cb l e in
    Called-trans (visits_of cb) (visits_of_each cbs) (queued_by cb) (queued_by_each cbs) (stops cb)
      (stops_each cbs) l l₁ (call_each tid cbs l₁) c (call_each-Called tid cbs l₁ (c.thread ∙ e))

-- The result of doPendingFunctors.
pub record Done (l l' : EventLoop) : Type 0 where
  pub visits : l'.visits ≡ l.visits ++ visits_of_each l.pending_functors
  pub pending : l'.pending_functors ≡ queued_by_each l.pending_functors
  pub idle : l'.calling_pending_functors ≡ false
  pub thread : l'.thread_id ≡ l.thread_id
  pub handling : l'.event_handling ≡ l.event_handling
  pub channel : l'.current_active_channel ≡ l.current_active_channel
  pub looping : l'.looping ≡ l.looping
  pub quits : l'.quit_flag ≡ (l.quit_flag || stops_each l.pending_functors)
  pub woken : l.wakeups + length l'.pending_functors ≤ l'.wakeups

-- doPendingFunctors calls every functor that is pending, once and in the order in which they were
-- queued. Those that they queue are left for the next iteration, each with a wakeup.
pub do_pending_functors_lem : (l : EventLoop) → Done l (do_pending_functors l)
unfolding do_pending_functors
do_pending_functors_lem l =
    let l₁ = record l { calling_pending_functors = true; pending_functors = [] } in
    let c = call_each-Called l.thread_id l.pending_functors l₁ refl in
    record {
      visits = c.visits;
      pending = c.pending;
      idle = refl;
      thread = c.thread;
      handling = c.handling;
      channel = c.channel;
      looping = c.looping;
      quits = c.quits;
      woken = rw c.pending (c.woken refl);
    }
