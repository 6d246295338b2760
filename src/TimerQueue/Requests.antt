-- ===== src/TimerQueue/Requests.antt =====
-- What the callbacks of expired timers ask of their queue, and what it leaves of those timers.
use my_learning.Base.{
  ℕ, ◌<◌, ◌≡◌, ◌≢◌, refl, ap, ◌∙◌, false, Option, none, some, List, [], ◌∷◌, ok, arith, All,
  ℕ_discrete, subst,
}
use my_learning.OrderedSet.{Pair, member}
use my_learning.OrderedSet.Laws.{member-insert}
use my_learning.Timer.{Timer}
use my_learning.TimerQueue.{TimerQueue, Request, add, cancel, perform, perform_all}
use my_learning.TimerQueue.Valid.{IsValid, Pending, AreTimed}
use my_learning.TimerQueue.Insert.{Added, add_timer_lem}
use my_learning.TimerQueue.Cancel.{Cancelled, cancel_in_loop_lem}

-- `new` returns a free pointer for each timer that is asked for.
abbrev pub IsFree : TimerQueue → Request → Type 0
IsFree q (add p _ _ _) = q.heap p ≡ none
IsFree q (cancel _) = Unit

abbrev pub AreFree : TimerQueue → List Request → Type 0
AreFree q [] = Unit
AreFree q (r ∷ rs) = IsFree q r × ((q' : TimerQueue) → perform r q ≡ ok q' → AreFree q' rs)

-- the same for the callbacks of all expired timers
abbrev pub EachFree : (ℕ → List Request) → List Pair → TimerQueue → Type 0
EachFree requests [] q = Unit
EachFree requests ((_, p) ∷ expired) q =
    (t : Timer)
    → q.heap p ≡ some t
    → AreFree q (requests t.callback)
      × ((q' : TimerQueue)
          → perform_all (requests t.callback) q ≡ ok q'
          → EachFree requests expired q')

-- A timer is asked for at a valid time.
abbrev pub IsLater : Request → Type 0
IsLater (add _ _ when _) = 0 < when
IsLater (cancel _) = Unit

-- What the callbacks leave of the timers that wait for their reset.
pub record Kept (q : TimerQueue) (expired : List Pair) (q' : TimerQueue) (Later : Type 0)
    : Type 0 where
  pub timed : Later → AreTimed q → AreTimed q'
  pub valid : IsValid q'
  pub pending : Pending q' expired
  pub stored : All (λ e. q'.heap e.1 ≡ q.heap e.1) expired

pub Added-Pending :
    (q q' : TimerQueue) (p when : ℕ) (expired : List Pair)
    → q.heap p ≡ none
    → Added q p when q'
    → Pending q expired
    → Pending q' expired × All (λ e. q'.heap e.1 ≡ q.heap e.1) expired
Added-Pending q q' p when [] free a g = (tt, tt)
Added-Pending q q' p when ((w, o) ∷ expired) free a ((t, live, at), idle, distinct, g) =
    let (rest, same) = Added-Pending q q' p when expired free a g in
    let apart : o ≢ p = ground (arith, live, free) in
    (
      (
        (t, a.others o apart ∙ live, at),
        λ s. rw a.named (
            ground (arith, idle s, apart, member-insert (p, q.num_created) (o, s) q.active_timers)),
        distinct,
        rest,
      ),
      (a.others o apart, same),
    )

pub Cancelled-Pending :
    (q q' : TimerQueue) (p s : ℕ) (expired : List Pair)
    → Cancelled q p s q'
    → Pending q expired
    → Pending q' expired × All (λ e. q'.heap e.1 ≡ q.heap e.1) expired
Cancelled-Pending q q' p s [] c g = (tt, tt)
Cancelled-Pending q q' p s ((w, o) ∷ expired) c ((t, live, at), idle, distinct, g) =
    let (rest, kept) = Cancelled-Pending q q' p s expired c g in
    let same : q'.heap o ≡ q.heap o = elim (ℕ_discrete o p) [
      | yes e ↦
          ap (λ h. h o) (c.unmoved (subst (λ x. member (x, s) q.active_timers ≡ false) e (idle s)))
      | no n ↦ c.others o n
    ] in
    (((t, same ∙ live, at), λ r. c.fewer (o, r) (idle r), distinct, rest), (same, kept))

perform-Kept :
    (q : TimerQueue) (r : Request) (expired : List Pair)
    → IsValid q
    → Pending q expired
    → IsFree q r
    → (q' : TimerQueue) × (perform r q ≡ ok q') × Kept q expired q' (IsLater r)
unfolding perform
perform-Kept q (add p callback when interval) expired v g free =
    let (q', ran, a) = add_timer_lem q p callback when interval v free in
    let (pending, stored) = Added-Pending q q' p when expired free a g in
    (q', ran, record { timed = a.timed; valid = a.valid; pending = pending; stored = stored })
perform-Kept q (cancel (p, s)) expired v g free =
    let (q', ran, c) = cancel_in_loop_lem q p s v in
    let (pending, stored) = Cancelled-Pending q q' p s expired c g in
    (q', ran, record { timed = λ _. c.timed; valid = c.valid; pending = pending; stored = stored })

pub All-compose :
    (f g h : ℕ → Option Timer) (expired : List Pair)
    → All (λ e. g e.1 ≡ f e.1) expired
    → All (λ e. h e.1 ≡ g e.1) expired
    → All (λ e. h e.1 ≡ f e.1) expired
All-compose f g h [] a b = tt
All-compose f g h (e ∷ expired) (x, a) (y, b) = (y ∙ x, All-compose f g h expired a b)

pub All-of_heap :
    (f g : ℕ → Option Timer) (expired : List Pair) → g ≡ f → All (λ e. g e.1 ≡ f e.1) expired
All-of_heap f g [] h = tt
All-of_heap f g (e ∷ expired) h = (ap (λ k. k e.1) h, All-of_heap f g expired h)

pub perform_all-Kept :
    (rs : List Request) (q : TimerQueue) (expired : List Pair)
    → IsValid q
    → Pending q expired
    → AreFree q rs
    → (q' : TimerQueue) × (perform_all rs q ≡ ok q') × Kept q expired q' (All IsLater rs)
unfolding perform_all
perform_all-Kept [] q expired v g free = (
  q,
  refl,
  record {
    timed = λ _ a. a;
    valid = v;
    pending = g;
    stored = All-of_heap q.heap q.heap expired refl;
  },
)
perform_all-Kept (r ∷ rs) q expired v g (free, later) =
    let (q₁, ran, k) = perform-Kept q r expired v g free in
    let (q', rest, l) = perform_all-Kept rs q₁ expired k.valid k.pending (later q₁ ran) in
    (
      q',
      ground (arith, ran, rest),
      record {
        valid = l.valid;
        pending = l.pending;
        timed = λ (h, hs) a. l.timed hs (k.timed h a);
        stored = All-compose q.heap q₁.heap q'.heap expired k.stored l.stored;
      },
    )
