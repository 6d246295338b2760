-- ===== src/EventLoop/Others.antt =====
-- What other threads call while the loop waits in poll.
use my_learning.Base.{
  ℕ, ap, append-append, append_nil, ◌||◌, ◌≡◌, ◌≢◌, subst, if-false, refl, sym, ◌∙◌, Bool, true,
  false, List, [], ◌∷◌, ◌++◌, arith, ◌==◌, All,
}
use my_learning.EventLoop.{
  EventLoop, Script, meanwhile_queue, meanwhile_stop, elsewhere, call, call_others, quit,
  queue_in_loop, finish, visit, run, queue, stop,
}
use my_learning.EventLoop.Functors.{or_false, or_true, or_or}
use my_learning.EventLoop.Iterate.{IsAwake, IsBetween}

-- What the loop keeps from poll to poll.
pub record IsWaiting (l : EventLoop) : Type 0 where
  pub awake : IsAwake l
  pub between : IsBetween l

-- what a script queues and stops when another thread than the loop's runs it: runInLoop queues then
unfoldable queued_elsewhere : Script → List Script
queued_elsewhere finish = []
queued_elsewhere (visit n k) = queued_elsewhere k
queued_elsewhere (run cb k) = cb ∷ queued_elsewhere k
queued_elsewhere (queue cb k) = cb ∷ queued_elsewhere k
queued_elsewhere (stop k) = queued_elsewhere k
queued_elsewhere (meanwhile_queue cb k) = cb ∷ queued_elsewhere k
queued_elsewhere (meanwhile_stop k) = queued_elsewhere k

unfoldable stops_elsewhere : Script → Bool
stops_elsewhere finish = false
stops_elsewhere (visit n k) = stops_elsewhere k
stops_elsewhere (run cb k) = stops_elsewhere k
stops_elsewhere (queue cb k) = stops_elsewhere k
stops_elsewhere (stop k) = true
stops_elsewhere (meanwhile_queue cb k) = stops_elsewhere k
stops_elsewhere (meanwhile_stop k) = true

unfoldable pub queued_by_others : List (ℕ × Script) → List Script
unfolding queued_elsewhere
queued_by_others [] = []
queued_by_others ((tid, cb) ∷ others) = queued_elsewhere cb ++ queued_by_others others

unfoldable pub stops_of_others : List (ℕ × Script) → Bool
unfolding stops_elsewhere
stops_of_others [] = false
stops_of_others ((tid, cb) ∷ others) = stops_elsewhere cb || stops_of_others others

pub record Foreign (qs : List Script) (stopped : Bool) (l l' : EventLoop) : Type 0 where
  pub waiting : IsWaiting l'
  pub thread : l'.thread_id ≡ l.thread_id
  pub looping : l'.looping ≡ l.looping
  pub pending : l'.pending_functors ≡ l.pending_functors ++ qs
  pub quits : l'.quit_flag ≡ (l.quit_flag || stopped)

Foreign-none : (l : EventLoop) → IsWaiting l → Foreign [] false l l
Foreign-none l w = record {
  waiting = w;
  thread = refl;
  looping = refl;
  pending = sym (append_nil l.pending_functors);
  quits = or_false l.quit_flag;
}

Foreign-trans :
    (qs rs : List Script) (a b : Bool) (l l₁ l₂ : EventLoop)
    → Foreign qs a l l₁
    → Foreign rs b l₁ l₂
    → Foreign (qs ++ rs) (a || b) l l₂
Foreign-trans qs rs a b l l₁ l₂ c d = record {
  waiting = d.waiting;
  thread = d.thread ∙ c.thread;
  looping = d.looping ∙ c.looping;
  pending = d.pending ∙ (ap (λ x. x ++ rs) c.pending ∙ append-append l.pending_functors qs rs);
  quits = d.quits ∙ (ap (λ x. x || b) c.quits ∙ or_or l.quit_flag a b);
}

Foreign-queue :
    (tid : ℕ) (cb : Script) (l : EventLoop)
    → tid ≢ l.thread_id
    → IsWaiting l
    → Foreign (cb ∷ []) false l (queue_in_loop tid cb l)
unfolding queue_in_loop
Foreign-queue tid cb l n w =
    let b = w.between in
    record {
      waiting = record {
        awake = λ more. ground (arith, n);
        between = record {
          not_handling = ground (arith, n, b.not_handling);
          not_calling = ground (arith, n, b.not_calling);
          no_channel = ground (arith, n, b.no_channel);
        };
      };
      thread = ground (arith, n);
      looping = ground (arith, n);
      pending = ground (arith, n);
      quits = ground (arith, n, or_false l.quit_flag);
    }

Foreign-quit :
    (tid : ℕ) (l : EventLoop) → tid ≢ l.thread_id → IsWaiting l → Foreign [] true l (quit tid l)
unfolding quit
Foreign-quit tid l n w =
    let b = w.between in
    record {
      waiting = record {
        awake = λ more. ground (arith, n, w.awake);
        between = record {
          not_handling = ground (arith, n, b.not_handling);
          not_calling = ground (arith, n, b.not_calling);
          no_channel = ground (arith, n, b.no_channel);
        };
      };
      thread = ground (arith, n);
      looping = ground (arith, n);
      pending = ground (arith, n, append_nil l.pending_functors);
      quits = ground (arith, n, or_true l.quit_flag);
    }

-- a queue or a quit of another thread, and then the rest of the script
Foreign-then :
    (tid : ℕ) (qs : List Script) (stopped : Bool) (k : Script) (l l₁ : EventLoop)
    → tid ≢ l.thread_id
    → Foreign qs stopped l l₁
    → (tid ≢ l₁.thread_id
        → IsWaiting l₁
        → Foreign (queued_elsewhere k) (stops_elsewhere k) l₁ (call tid k l₁))
    → Foreign (qs ++ queued_elsewhere k) (stopped || stops_elsewhere k) l (call tid k l₁)
Foreign-then tid qs stopped k l l₁ n d f =
    Foreign-trans qs (queued_elsewhere k) stopped (stops_elsewhere k) l l₁ (call tid k l₁) d
      (f (λ e. n (e ∙ d.thread)) d.waiting)

elsewhere_lem : (l : EventLoop) → elsewhere l ≢ l.thread_id
elsewhere_lem l e = omega (arith, e)

Foreign-call :
    (tid : ℕ) (cb : Script) (l : EventLoop)
    → tid ≢ l.thread_id
    → IsWaiting l
    → Foreign (queued_elsewhere cb) (stops_elsewhere cb) l (call tid cb l)
unfolding call queued_elsewhere stops_elsewhere
Foreign-call tid finish l n w = Foreign-none l w
Foreign-call tid (visit x k) l n w =
    let l₁ = record l { visits = l.visits ++ x ∷ [] } in
    let b = w.between in
    let f = Foreign-call tid k l₁ n (record {
      awake = w.awake;
      between = record {
        not_handling = b.not_handling;
        not_calling = b.not_calling;
        no_channel = b.no_channel;
      };
    }) in
    record {
      waiting = f.waiting;
      thread = f.thread;
      looping = f.looping;
      pending = f.pending;
      quits = f.quits;
    }
Foreign-call tid (run cb k) l n w =
    let away : (l.thread_id == tid) ≡ false = ground (arith, n) in
    let l₁ = queue_in_loop tid cb l in
    subst (λ l₂. Foreign (cb ∷ queued_elsewhere k) (stops_elsewhere k) l (call tid k l₂))
      (sym (if-false (l.thread_id == tid) (call tid cb l) l₁ away))
      (Foreign-then tid (cb ∷ []) false k l l₁ n (Foreign-queue tid cb l n w)
        (Foreign-call tid k l₁))
Foreign-call tid (queue cb k) l n w =
    let l₁ = queue_in_loop tid cb l in
    Foreign-then tid (cb ∷ []) false k l l₁ n (Foreign-queue tid cb l n w) (Foreign-call tid k l₁)
Foreign-call tid (stop k) l n w =
    let l₁ = quit tid l in
    Foreign-then tid [] true k l l₁ n (Foreign-quit tid l n w) (Foreign-call tid k l₁)
Foreign-call tid (meanwhile_queue cb k) l n w =
    let l₁ = queue_in_loop (elsewhere l) cb l in
    Foreign-then tid (cb ∷ []) false k l l₁ n (Foreign-queue (elsewhere l) cb l (elsewhere_lem l) w)
      (Foreign-call tid k l₁)
Foreign-call tid (meanwhile_stop k) l n w =
    let l₁ = quit (elsewhere l) l in
    Foreign-then tid [] true k l l₁ n (Foreign-quit (elsewhere l) l (elsewhere_lem l) w)
      (Foreign-call tid k l₁)

pub Foreign-calls :
    (others : List (ℕ × Script)) (l : EventLoop)
    → All (λ o. o.0 ≢ l.thread_id) others
    → IsWaiting l
    → Foreign (queued_by_others others) (stops_of_others others) l (call_others others l)
unfolding call_others queued_by_others stops_of_others
Foreign-calls [] l n w = Foreign-none l w
Foreign-calls ((tid, cb) ∷ others) l (n, ns) w =
    let l₁ = call tid cb l in
    let d = Foreign-call tid cb l n w in
    Foreign-trans (queued_elsewhere cb) (queued_by_others others) (stops_elsewhere cb)
      (stops_of_others others) l l₁ (call_others others l₁) d
      (Foreign-calls others l₁ (subst (λ t. All (λ o. o.0 ≢ t) others) (sym d.thread) ns) d.waiting)
