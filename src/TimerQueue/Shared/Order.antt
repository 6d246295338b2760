-- ===== src/TimerQueue/Shared/Order.antt =====
-- Whatever the order of the threads' steps, the queue stays ready.
use mathlib.Core.List.{append_assoc, append-nil}
use my_learning.Base.{
  ℕ, suc, ◌≡◌, ◌≢◌, ◌<◌, refl, sym, ap, ◌∙◌, subst, Option, none, some, List, [], ◌∷◌, ◌++◌, All,
  update, ok, arith, Bool-cases, inl, inr,
}
use my_learning.OrderedSet.{Pair, insert}
use my_learning.OrderedSet.Laws.{member-insert}
use my_learning.Timer.{Timer, new_timer}
use my_learning.TimerQueue.{
  TimerQueue, Request, add, cancel, add_timer_in_loop, is_earliest, reset_timerfd, delete_each,
}
use my_learning.TimerQueue.Valid.{IsValid, Pending}
use my_learning.TimerQueue.Insert.{
  inserted, inserted-IsValid, insert_armed, add_timer_in_loop-eq, create-IsValid, free-IsIdle,
}
use my_learning.TimerQueue.Cancel.{cancel_in_loop_lem}
use my_learning.TimerQueue.Requests.{IsFree, IsLater, Cancelled-Pending}
use my_learning.TimerQueue.Life.{IsReady, IsFair, happen-IsReady, Deleted, destroy-Deleted}
use my_learning.TimerQueue.Shared.{
  Functor, insertion, cancellation, Shared, Step, in_loop, elsewhere, take, run, request_from,
  run_functor, take_functors, run_first, step, steps,
}

-- the timers that wait for their insertion
unfoldable pub waiting : List Functor → List Pair
waiting [] = []
waiting (insertion x ∷ fs) = x ∷ waiting fs
waiting (cancellation id ∷ fs) = waiting fs

waiting-append : (fs gs : List Functor) → waiting (fs ++ gs) ≡ waiting fs ++ waiting gs
unfolding waiting
waiting-append [] gs = refl
waiting-append (insertion x ∷ fs) gs = ap (λ xs. x ∷ xs) (waiting-append fs gs)
waiting-append (cancellation id ∷ fs) gs = waiting-append fs gs

-- The queue is ready, and the timers that are not inserted yet are live, apart and out of it.
pub record IsSound (s : Shared) : Type 0 where
  pub ready : IsReady s.queue
  pub pending : Pending s.queue (waiting (s.functors ++ s.pending_functors))

-- a new timer joins those that wait
Pending-create :
    (q : TimerQueue) (p n : ℕ) (t : Timer) (xs : List Pair)
    → IsValid q
    → q.heap p ≡ none
    → Pending q xs
    → Pending
        (record q { heap = update q.heap p (some t); num_created = n })
        (xs ++ (t.expiration, p) ∷ [])
Pending-create q p n t [] v free g = ((t, ground arith, refl), free-IsIdle q p v free, tt, tt)
Pending-create q p n t ((w, o) ∷ xs) v free ((u, live, at), idle, distinct, g) = (
  (u, ground (arith, live, free), at),
  idle,
  All-snoc o p xs distinct (λ e. ground (arith, e, live, free)),
  Pending-create q p n t xs v free g,
)
  where
    All-snoc :
        (o p : ℕ) (xs : List Pair)
        → All (λ e. e.1 ≢ o) xs
        → p ≢ o
        → All (λ e. e.1 ≢ o) (xs ++ (t.expiration, p) ∷ [])
    All-snoc o p [] d h = (h, tt)
    All-snoc o p (x ∷ xs) (e, d) h = (e, All-snoc o p xs d h)

create-IsReady :
    (q : TimerQueue) (p n : ℕ) (t : Timer)
    → IsReady q
    → q.heap p ≡ none
    → 0 < t.expiration
    → IsReady (record q { heap = update q.heap p (some t); num_created = n })
create-IsReady q p n t r free later = record {
  valid = create-IsValid q p n t r.valid free;
  timed = λ o u live. ground (arith, r.timed o u);
  armed = r.armed;
}

inserted-Pending :
    (q q' : TimerQueue) (p s : ℕ) (xs : List Pair)
    → q'.heap ≡ q.heap
    → q'.active_timers ≡ insert (p, s) q.active_timers
    → All (λ e. e.1 ≢ p) xs
    → Pending q xs
    → Pending q' xs
inserted-Pending q q' p s [] h a d g = tt
inserted-Pending q q' p s ((w, o) ∷ xs) h a (apart, d) ((t, live, at), idle, distinct, g) = (
  (t, ground (arith, live, h), at),
  λ r. rw a (ground (arith, idle r, apart, member-insert (p, s) (o, r) q.active_timers)),
  distinct,
  inserted-Pending q q' p s xs h a d g,
)

-- addTimerInLoop for a timer that waits
insertion-IsReady :
    (q : TimerQueue) (w p : ℕ) (xs : List Pair)
    → IsReady q
    → Pending q ((w, p) ∷ xs)
    → (q' : TimerQueue) × (add_timer_in_loop q p ≡ ok q') × IsReady q' × Pending q' xs
insertion-IsReady q w p xs r ((t, live, at), idle, distinct, g) =
    let q₁ = inserted q p t r.valid live idle in
    let v₁ = inserted-IsValid q p t r.valid live idle in
    let early = is_earliest t.expiration q.timers in
    let set_early = insert_armed q.clock q.armed t.expiration p q.timers r.armed in
    let ran = add_timer_in_loop-eq q p t r.valid live idle in
    elim (Bool-cases early) [
      | inl e ↦ (
        reset_timerfd q₁ t.expiration,
        ran ∙ rw e refl,
        record {
          valid = record {
            timers_sorted = v₁.timers_sorted;
            active_sorted = v₁.active_sorted;
            sizes = v₁.sizes;
            timed = v₁.timed;
            activated = v₁.activated;
          };
          timed = r.timed;
          armed = rw e at set_early;
        },
        inserted-Pending q (reset_timerfd q₁ t.expiration) p t.sequence xs refl refl distinct g,
      )
      | inr e ↦ (
        q₁,
        ran ∙ rw e refl,
        record { valid = v₁; timed = r.timed; armed = rw e at set_early },
        inserted-Pending q q₁ p t.sequence xs refl refl distinct g,
      )
    ]

-- the requests of other threads and of the loop keep to free pointers and valid times
abbrev pub IsFairStep : Shared → Step → Type 0
IsFairStep s (in_loop e) = IsFair s.queue e
IsFairStep s (elsewhere r) = IsFree s.queue r × IsLater r
IsFairStep s take = Unit
IsFairStep s run = Unit

abbrev pub AreFairSteps : Shared → List Step → Type 0
AreFairSteps s [] = Unit
AreFairSteps s (st ∷ sts) =
    IsFairStep s st × ((s' : Shared) → step st s ≡ ok s' → AreFairSteps s' sts)

request_from-IsSound :
    (r : Request) (s : Shared)
    → IsSound s
    → IsFree s.queue r × IsLater r
    → IsSound (request_from r s)
unfolding request_from new_timer waiting
request_from-IsSound (add p callback when interval) s i (free, later) =
    let t = new_timer callback when interval s.queue.num_created in
    let all = s.functors ++ s.pending_functors in
    let joined : waiting (s.functors ++ (s.pending_functors ++ insertion (when, p) ∷ []))
        ≡ waiting all ++ (when, p) ∷ [] =
      ap waiting (sym (append_assoc s.functors s.pending_functors (insertion (when, p) ∷ [])))
      ∙ waiting-append all (insertion (when, p) ∷ []) in
    record {
      ready = create-IsReady s.queue p (suc s.queue.num_created) t i.ready free later;
      pending = rw joined (
          Pending-create s.queue p (suc s.queue.num_created) t (waiting all) i.ready.valid free
            i.pending);
    }
request_from-IsSound (cancel id) s i free =
    let all = s.functors ++ s.pending_functors in
    let joined : waiting (s.functors ++ (s.pending_functors ++ cancellation id ∷ []))
        ≡ waiting all =
      ap waiting (sym (append_assoc s.functors s.pending_functors (cancellation id ∷ [])))
      ∙ waiting-append all (cancellation id ∷ [])
      ∙ append-nil (waiting all) in
    record { ready = i.ready; pending = rw joined i.pending }

take_functors-IsSound :
    (fs : List Functor) (s : Shared) → s.functors ≡ fs → IsSound s → IsSound (take_functors fs s)
unfolding take_functors
take_functors-IsSound [] s e i = record {
  ready = i.ready;
  pending =
      rw append-nil
        (subst (λ fs. Pending s.queue (waiting (fs ++ s.pending_functors))) e i.pending);
}
take_functors-IsSound (f ∷ fs) s e i = i

run_first-IsSound :
    (fs : List Functor) (s : Shared)
    → s.functors ≡ fs
    → IsSound s
    → (s' : Shared) × (run_first fs s ≡ ok s') × IsSound s'
unfolding run_first run_functor waiting
run_first-IsSound [] s e i = (s, refl, i)
run_first-IsSound (insertion (w, p) ∷ fs) s e i =
    let waits : Pending s.queue ((w, p) ∷ waiting (fs ++ s.pending_functors)) =
      subst (λ gs. Pending s.queue (waiting (gs ++ s.pending_functors))) e i.pending in
    let (q', ran, r, g) =
      insertion-IsReady s.queue w p (waiting (fs ++ s.pending_functors)) i.ready waits in
    (record s { queue = q'; functors = fs }, rw ran refl, record { ready = r; pending = g })
run_first-IsSound (cancellation (p, n) ∷ fs) s e i =
    let waits : Pending s.queue (waiting (fs ++ s.pending_functors)) =
      subst (λ gs. Pending s.queue (waiting (gs ++ s.pending_functors))) e i.pending in
    let (q', ran, c) = cancel_in_loop_lem s.queue p n i.ready.valid in
    (
      record s { queue = q'; functors = fs },
      rw ran refl,
      record {
        ready = record {
          valid = c.valid;
          timed = c.timed i.ready.timed;
          armed = c.armed i.ready.armed;
        };
        pending = (Cancelled-Pending s.queue q' p n (waiting (fs ++ s.pending_functors)) c waits).0;
      },
    )

step-IsSound :
    (st : Step) (s : Shared)
    → IsSound s
    → IsFairStep s st
    → (s' : Shared) × (step st s ≡ ok s') × IsSound s'
unfolding step
step-IsSound (in_loop e) s i fair =
    let (q', ran, r, waits) = happen-IsReady e s.queue i.ready fair in
    (
      record s { queue = q' },
      rw ran refl,
      record { ready = r; pending = waits (waiting (s.functors ++ s.pending_functors)) i.pending },
    )
step-IsSound (elsewhere r) s i fair = (request_from r s, refl, request_from-IsSound r s i fair)
step-IsSound take s i fair =
    (take_functors s.functors s, refl, take_functors-IsSound s.functors s refl i)
step-IsSound run s i fair = run_first-IsSound s.functors s refl i

-- In whatever order other threads add and cancel timers, the loop's thread adds, cancels and fires
-- them, and doPendingFunctors takes and runs what was queued, no step aborts, and the queue stays
-- ready: both sets agree with the timers, and the timerfd fires no later than the first of them is
-- due, or 100 µs from now where that is past or nearer. The clock stands still while a step runs. A timer of another thread is live and in neither set until its insertion runs. The destructor
-- then deletes each timer of the queue, once, and no other: one whose insertion is still queued stays
-- for ever. It is assumed that `new` returns free pointers and none at the largest address, and that
-- times are valid.
pub steps_lem :
    (sts : List Step) (s : Shared)
    → IsSound s
    → AreFairSteps s sts
    → (s' : Shared) × (steps sts s ≡ ok s')
      × IsSound s'
      × ((heap : ℕ → Option Timer) × (delete_each s'.queue.timers s'.queue.heap ≡ ok heap)
          × Deleted s'.queue heap)
unfolding steps
steps_lem [] s i fair = (s, refl, i, destroy-Deleted s.queue i.ready.valid)
steps_lem (st ∷ sts) s i (fair, later) =
    let (s₁, ran, i₁) = step-IsSound st s i fair in
    let (s', rest, i', deleted) = steps_lem sts s₁ i₁ (later s₁ ran) in
    (s', ground (arith, ran, rest), i', deleted)
