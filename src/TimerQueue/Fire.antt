-- ===== src/TimerQueue/Fire.antt =====
-- handleRead: the callbacks of the expired timers change the queue while it runs them.
use my_learning.Base.{
  ◌+◌, ◌&&◌, not, ok-injective, subst, ℕ, ◌≡◌, refl, sym, ap, ◌∙◌, Bool, true, false, Option, none,
  some, List, [], ◌∷◌, ok, arith, All, Bool-cases, inl, inr, ◌⊎◌, ◌≤◌, ◌<◌, ◌++◌,
}
use my_learning.OrderedSet.{Pair, member}
use my_learning.Timer.{Timer, restart}
use my_learning.TimerQueue.{
  TimerQueue, Request, run_each, handle_read, get_expired, is_kept, time_left,
}
use my_learning.TimerQueue.Valid.{IsValid, Pending, IsAddressed, AreTimed, same-Pending}
use my_learning.TimerQueue.Waiting.{
  waiting-AreApart, Pending-join, Pending-left, Pending-right, fewer-Pending,
}
use my_learning.TimerQueue.Expire.{get_expired_lem}
use my_learning.TimerQueue.Rounds.{Settled}
use my_learning.TimerQueue.Reset.{reset_lem}
use my_learning.TimerQueue.Requests.{
  EachFree, IsLater, Kept, All-of_heap, All-compose, perform_all-Kept,
}

-- Every expired timer is live.
abbrev AreLive : TimerQueue → List Pair → Type 0
AreLive q = All (λ e. (t : Timer) × (q.heap e.1 ≡ some t))

Pending-AreLive : (q : TimerQueue) (expired : List Pair) → Pending q expired → AreLive q expired
Pending-AreLive q [] g = tt
Pending-AreLive q (e ∷ expired) ((t, live, _), _, _, g) = ((t, live), Pending-AreLive q expired g)

run_each-Kept :
    (requests : ℕ → List Request) (rest expired : List Pair) (q : TimerQueue)
    → ((q : TimerQueue) → Pending q expired → AreLive q rest)
    → IsValid q
    → Pending q expired
    → EachFree requests rest q
    → (q' : TimerQueue) × (run_each requests rest q ≡ ok q')
      × Kept q expired q' ((c : ℕ) → All IsLater (requests c))
unfolding run_each
run_each-Kept requests [] expired q part v g free = (
  q,
  refl,
  record {
    timed = λ _ a. a;
    valid = v;
    pending = g;
    stored = All-of_heap q.heap q.heap expired refl;
  },
)
run_each-Kept requests ((w, p) ∷ rest) expired q part v g free =
    let ((t, live), _) = part q g in
    let (now_free, later) = free t live in
    let (q₁, ran, k) = perform_all-Kept (requests t.callback) q expired v g now_free in
    let (q', others, l) =
      run_each-Kept requests rest expired q₁ (λ r h. (part r h).1) k.valid k.pending
        (later q₁ ran) in
    (
      q',
      ground (arith, live, ran, others),
      record {
        valid = l.valid;
        pending = l.pending;
        timed = λ h a. l.timed h (k.timed (h t.callback) a);
        stored = All-compose q.heap q₁.heap q'.heap expired k.stored l.stored;
      },
    )

-- A timer that expired and does not repeat, or that a callback has cancelled in the queue `called`
-- that the callbacks left, is freed; any other is in both sets with its next expiration.
abbrev pub Fate : ℕ → ℕ → Timer → TimerQueue → TimerQueue → Type 0
Fate now p t called q =
    (((t.repeat ≡ false) ⊎ (member (p, t.sequence) called.canceling_timers ≡ true))
      × (q.heap p ≡ none))
    ⊎ ((t.repeat ≡ true)
        × (member (p, t.sequence) called.canceling_timers ≡ false)
        × (q.heap p ≡ some (restart t now))
        × (member (p, t.sequence) q.active_timers ≡ true)
        × (member ((restart t now).expiration, p) q.timers ≡ true))

dropped :
    (repeat cancelled : Bool)
    → repeat && not cancelled ≡ false
    → (repeat ≡ false) ⊎ (cancelled ≡ true)
dropped false cancelled e = inl refl
dropped true true e = inr refl
dropped true false e = cc

Settled-Fate :
    (q q' : TimerQueue) (now p : ℕ) (t : Timer) → Settled q now p t q' → Fate now p t q q'
Settled-Fate q q' now p t s = elim (Bool-cases (is_kept q p t)) [
  | inl e ↦ let (h, a, w) = s.again e in inr (ground (arith, e), ground (arith, e), h, a, w)
  | inr e ↦ inl (dropped t.repeat (member (p, t.sequence) q.canceling_timers) e, s.freed e)
]

all-Fate :
    (q q₂ q' : TimerQueue) (now : ℕ) (expired : List Pair)
    → All (λ e. q₂.heap e.1 ≡ q.heap e.1) expired
    → All (λ e. (t : Timer) → q₂.heap e.1 ≡ some t → Settled q₂ now e.1 t q') expired
    → All (λ e. (t : Timer) → q.heap e.1 ≡ some t → Fate now e.1 t q₂ q') expired
all-Fate q q₂ q' now [] same s = tt
all-Fate q q₂ q' now ((w, p) ∷ expired) (same, r) (s, ss) =
    (λ t live. Settled-Fate q₂ q' now p t (s t (same ∙ live)), all-Fate q q₂ q' now expired r ss)

pub record Fired (requests : ℕ → List Request) (q : TimerQueue) (now : ℕ) (q' : TimerQueue)
    : Type 0 where
  pub valid : IsValid q'
  pub expired : List Pair
  pub later : List Pair
  pub split : expired ++ later ≡ q.timers
  pub due : All (λ e. e.0 ≤ now) expired
  pub not_due : All (λ e. now < e.0) later
  -- the queue without the due timers, as getExpired leaves it
  pub left : TimerQueue
  pub taken : get_expired (record q { armed = none }) now ≡ ok (expired, left)
  pub left_timers : left.timers ≡ later
  -- the queue that their callbacks leave
  pub called : TimerQueue
  pub ran :
      run_each requests expired
        (record left { calling_expired_timer = true; canceling_timers = [] })
      ≡ ok called
  pub timed : 0 < now → ((c : ℕ) → All IsLater (requests c)) → AreTimed q → AreTimed q'
  pub waiting : (rest : List Pair) → Pending q rest → Pending q' rest
  pub armed :
      (first : Pair) (rest : List Pair)
      → q'.timers ≡ first ∷ rest
      → 0 < first.0
      → q'.armed ≡ some (q'.clock + time_left first.0 q'.clock)
  pub fates : All (λ e. (t : Timer) → q.heap e.1 ≡ some t → Fate now e.1 t called q') expired

same-IsValid :
    (q : TimerQueue) (calling : Bool) (canceling : List Pair) (armed : Option ℕ)
    → IsValid q
    → IsValid
        (record q { calling_expired_timer = calling; canceling_timers = canceling; armed = armed })
same-IsValid q calling canceling armed v = record {
  timers_sorted = v.timers_sorted;
  active_sorted = v.active_sorted;
  sizes = v.sizes;
  timed = v.timed;
  activated = v.activated;
}

-- handleRead returns whatever the callbacks ask for, also when they cancel timers that have expired
-- with theirs: no assert fails, no freed timer is read, and the queue stays valid. getExpired takes out
-- exactly the timers that are due and leaves the others, and the callbacks of those run; afterwards
-- each of them is freed if it does not repeat or a callback has cancelled it, and otherwise starts
-- again. It is assumed that `new` returns free pointers and none at the largest address.
pub handle_read_lem :
    (requests : ℕ → List Request) (now : ℕ) (q : TimerQueue)
    → IsValid q
    → IsAddressed q
    → ((expired : List Pair) (q₁ : TimerQueue)
        → get_expired (record q { armed = none }) now ≡ ok (expired, q₁)
        → EachFree requests expired
            (record q₁ { calling_expired_timer = true; canceling_timers = [] }))
    → (q' : TimerQueue) × (handle_read requests now q ≡ ok q') × Fired requests q now q'
unfolding handle_read
handle_read_lem requests now q v addressed free =
    let unarmed = record q { armed = none } in
    let (expired, q₁, found, x) =
      get_expired_lem unarmed now (same-IsValid q q.calling_expired_timer q.canceling_timers none v)
        addressed in
    let calling = record q₁ { calling_expired_timer = true; canceling_timers = [] } in
    let (q₂, ran, k) =
      run_each-Kept requests expired expired calling (λ r. Pending-AreLive r expired)
        (same-IsValid q₁ true [] q₁.armed x.valid)
        (same-Pending q₁ calling expired refl refl x.pending) (free expired q₁ found) in
    let called = record q₂ { calling_expired_timer = false } in
    let (q', done, d) =
      reset_lem expired now called (same-IsValid q₂ false q₂.canceling_timers q₂.armed k.valid)
        (same-Pending q₂ called expired refl refl k.pending) in
    (
      q',
      ground (arith, found, ran, done),
      record {
        valid = d.valid_queue;
        expired = expired;
        later = q₁.timers;
        left = q₁;
        taken = found;
        left_timers = refl;
        called = q₂;
        ran = ran;
        split = x.split;
        due = x.due;
        not_due = x.later;
        waiting = λ rest g.
            let apart = waiting-AreApart q expired q₁.timers rest v x.split g in
            let waits : Pending calling rest = fewer-Pending q calling rest x.heap x.fewer g in
            let (q₃, ran₃, k₃) =
              run_each-Kept requests expired (expired ++ rest) calling
                (λ r h. Pending-AreLive r expired (Pending-left r expired rest h))
                (same-IsValid q₁ true [] q₁.armed x.valid)
                (Pending-join calling expired rest apart
                  (same-Pending q₁ calling expired refl refl x.pending) waits)
                (free expired q₁ found) in
            let same : q₃ ≡ q₂ = ok-injective q₃ q₂ (sym ran₃ ∙ ran) in
            let kept : Pending q₂ rest =
              subst (λ r. Pending r rest) same (Pending-right q₃ expired rest k₃.pending) in
            d.waiting rest apart (same-Pending q₂ called rest refl refl kept);
        armed = λ first rest e h. d.armed first rest e (ground arith);
        timed = λ h later a.
            d.timed h (k.timed later (λ p t live. a p t (ap (λ f. f p) (sym x.heap) ∙ live)));
        fates =
            all-Fate q called q' now expired
              (All-compose q.heap q₁.heap q₂.heap expired
                (All-of_heap q.heap q₁.heap expired x.heap) k.stored)
              d.settled;
      },
    )
