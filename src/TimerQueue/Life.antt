-- ===== src/TimerQueue/Life.antt =====
-- A timer queue from its constructor to its destructor.
use my_learning.Base.{
  ℕ, ◌+◌, ◌≡◌, ◌≢◌, ◌<◌, refl, sym, ◌∙◌, subst, Option, none, some, List, [], ◌∷◌, All, Run, ok,
  arith, update, append_nil, true,
}
use my_learning.OrderedSet.{Pair, member}
use my_learning.OrderedSet.Laws.{member-cons_self}
use my_learning.Timer.{Timer}
use my_learning.TimerQueue.{
  TimerQueue, Request, perform, handle_read, get_expired, delete_each, new_timer_queue, time_left,
}
use my_learning.TimerQueue.Valid.{IsValid, IsAddressed, IsArmedFor, AreTimed, Pending, same-Pending}
use my_learning.TimerQueue.Insert.{add_timer_lem, time_left-bound}
use my_learning.TimerQueue.Cancel.{cancel_in_loop_lem}
use my_learning.TimerQueue.Requests.{Added-Pending, Cancelled-Pending, IsFree, IsLater, EachFree}
use my_learning.TimerQueue.Fire.{handle_read_lem}
use my_learning.TimerQueue.Expire.{erase_active-Erased, joined}

-- What happens to a queue in its loop's thread: a call of addTimer or cancel, or handleRead at some
-- time, with what the callbacks ask then. Between these the clock goes on.
pub data Event : Type 0 where
  request : Request → Event
  fire : ℕ → (ℕ → List Request) → Event
  pass : ℕ → Event

unfoldable pub happen : Event → TimerQueue → Run TimerQueue
unfolding perform handle_read
happen (request r) q = perform r q
happen (fire now requests) q = handle_read requests now q
happen (pass n) q = ok (record q { clock = q.clock + n })

-- No timer is overlooked: the timerfd fires no later than the first of them is due, or 100 µs from now.
pub record IsReady (q : TimerQueue) : Type 0 where
  pub valid : IsValid q
  pub timed : AreTimed q
  pub armed : IsArmedFor q.clock q.armed q.timers

-- what `new` and the callers keep to: free pointers, and valid times
abbrev pub IsFair : TimerQueue → Event → Type 0
IsFair q (request r) = IsFree q r × IsLater r
IsFair q (pass n) = Unit
IsFair q (fire now requests) =
    (0 < now)
    × IsAddressed q
    × ((callback : ℕ) → All IsLater (requests callback))
    × ((expired : List Pair) (q₁ : TimerQueue)
        → get_expired (record q { armed = none }) now ≡ ok (expired, q₁)
        → EachFree requests expired
            (record q₁ { calling_expired_timer = true; canceling_timers = [] }))

armed_first :
    (clock : ℕ) (armed : Option ℕ) (timers : List Pair)
    → ((first : Pair) (rest : List Pair)
        → timers ≡ first ∷ rest
        → armed ≡ some (clock + time_left first.0 clock))
    → IsArmedFor clock armed timers
armed_first clock armed [] h = tt
armed_first clock armed (first ∷ rest) h = rw (h first rest refl) (time_left-bound first.0 clock)

later_armed :
    (clock n : ℕ) (armed : Option ℕ) (timers : List Pair)
    → IsArmedFor clock armed timers
    → IsArmedFor (clock + n) armed timers
later_armed clock n armed [] a = tt
later_armed clock n none (x ∷ timers) a = absurd a
later_armed clock n (some at) (x ∷ timers) a = omega (arith, a)

-- Timers that wait for their insertion go on waiting.
pub happen-IsReady :
    (e : Event) (q : TimerQueue)
    → IsReady q
    → IsFair q e
    → (q' : TimerQueue) × (happen e q ≡ ok q')
      × IsReady q'
      × ((rest : List Pair) → Pending q rest → Pending q' rest)
unfolding happen perform
happen-IsReady (request (Request.add p callback when interval)) q r (free, later) =
    let (q', ran, a) = add_timer_lem q p callback when interval r.valid free in
    (
      q',
      ran,
      record { valid = a.valid; timed = a.timed later r.timed; armed = a.armed r.armed },
      λ rest g. (Added-Pending q q' p when rest free a g).0,
    )
happen-IsReady (pass n) q r fair = (
  record q { clock = q.clock + n },
  refl,
  record {
    valid = record {
      timers_sorted = r.valid.timers_sorted;
      active_sorted = r.valid.active_sorted;
      sizes = r.valid.sizes;
      timed = r.valid.timed;
      activated = r.valid.activated;
    };
    timed = r.timed;
    armed = later_armed q.clock n q.armed q.timers r.armed;
  },
  λ rest g. same-Pending q (record q { clock = q.clock + n }) rest refl refl g,
)
happen-IsReady (request (Request.cancel (p, s))) q r (free, later) =
    let (q', ran, c) = cancel_in_loop_lem q p s r.valid in
    (
      q',
      ran,
      record { valid = c.valid; timed = c.timed r.timed; armed = c.armed r.armed },
      λ rest g. (Cancelled-Pending q q' p s rest c g).0,
    )
happen-IsReady (fire now requests) q r (later, addressed, at, free) =
    let (q', ran, f) = handle_read_lem requests now q r.valid addressed free in
    let timed = f.timed later at r.timed in
    (
      q',
      ran,
      record {
        valid = f.valid;
        timed = timed;
        armed = armed_first q'.clock q'.armed q'.timers (λ first rest e.
            let (t, live, when, _) =
              f.valid.timed first.0 first.1 (rw e (member-cons_self first rest)) in
            f.armed first rest e (ground (arith, timed first.1 t live, when)));
      },
      f.waiting,
    )

-- What the destructor leaves: no timer of the queue, and every other pointer as it was.
pub record Deleted (q : TimerQueue) (heap : ℕ → Option Timer) : Type 0 where
  pub gone : All (λ e. heap e.1 ≡ none) q.timers
  pub others : (p : ℕ) → All (λ e. e.1 ≢ p) q.timers → heap p ≡ q.heap p

-- The timers of a list are live, and no two are at one pointer.
abbrev AreOwn : (ℕ → Option Timer) → List Pair → Type 0
AreOwn heap [] = Unit
AreOwn heap ((_, p) ∷ timers) =
    ((t : Timer) × (heap p ≡ some t)) × All (λ e. e.1 ≢ p) timers × AreOwn heap timers

AreOwn-update :
    (p : ℕ) (heap : ℕ → Option Timer) (timers : List Pair)
    → All (λ e. e.1 ≢ p) timers
    → AreOwn heap timers
    → AreOwn (update heap p none) timers
AreOwn-update p heap [] d own = tt
AreOwn-update p heap ((w, o) ∷ timers) (h, d) ((t, live), distinct, own) =
    ((t, ground arith), distinct, AreOwn-update p heap timers d own)

AreOwn-of_Pending : (q : TimerQueue) (timers : List Pair) → Pending q timers → AreOwn q.heap timers
AreOwn-of_Pending q [] g = tt
AreOwn-of_Pending q (e ∷ timers) ((t, live, _), _, distinct, g) =
    ((t, live), distinct, AreOwn-of_Pending q timers g)

delete_each-AreOwn :
    (timers : List Pair) (heap : ℕ → Option Timer)
    → AreOwn heap timers
    → (heap' : ℕ → Option Timer) × (delete_each timers heap ≡ ok heap')
      × All (λ e. heap' e.1 ≡ none) timers
      × ((p : ℕ) → All (λ e. e.1 ≢ p) timers → heap' p ≡ heap p)
unfolding delete_each
delete_each-AreOwn [] heap own = (heap, refl, tt, λ p d. refl)
delete_each-AreOwn ((w, p) ∷ timers) heap ((t, live), distinct, own) =
    let (heap', ran, gone, others) =
      delete_each-AreOwn timers (update heap p none) (AreOwn-update p heap timers distinct own) in
    (
      heap',
      ground (arith, live, ran),
      (others p distinct ∙ ground arith, gone),
      λ o (h, d). others o d ∙ ground arith,
    )

pub destroy-Deleted :
    (q : TimerQueue)
    → IsValid q
    → (heap : ℕ → Option Timer) × (delete_each q.timers q.heap ≡ ok heap) × Deleted q heap
destroy-Deleted q v =
    let tail = record q { timers = [] } in
    let whole : IsValid (joined q.timers tail) =
      subst (λ ts. IsValid (record q { timers = ts })) (sym (append_nil q.timers)) v in
    let (active, d) = erase_active-Erased q.timers tail whole in
    let (heap, ran, gone, others) =
      delete_each-AreOwn q.timers q.heap
        (AreOwn-of_Pending (record tail { active_timers = active }) q.timers d.pending) in
    (heap, ran, record { gone = gone; others = others })

pub new_timer_queue-IsReady : IsReady new_timer_queue
unfolding member
new_timer_queue-IsReady = record {
  valid = record {
    timers_sorted = tt;
    active_sorted = tt;
    sizes = refl;
    timed = λ w p h. ground (arith, h);
    activated = λ p s h. ground (arith, h);
  };
  timed = λ p t h. ground (arith, h);
  armed = tt;
}
