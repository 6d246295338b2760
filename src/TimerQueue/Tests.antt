-- ===== src/TimerQueue/Tests.antt =====
-- A timer queue with one repeating timer and one that runs once.
use my_learning.Base.{
  Option, ok-injective, ◌==◌, ℕ, ◌>>=◌, if◌then◌else◌, subst, ◌≡◌, refl, none, some, true, false,
  List, [], ◌∷◌, ok, arith, update, Bool-cases, inl, inr,
}
use my_learning.OrderedSet.{from, before, erase, insert, Pair, member, eq_pair}
use my_learning.Timer.{Timer}
use my_learning.TimerQueue.{
  delete_each, Request, add, cancel, handle_read, perform_all, TimerQueue, get_expired,
}
use my_learning.TimerQueue.Valid.{IsValid, Pending}
use my_learning.TimerQueue.Requests.{EachFree, AreFree}
use my_learning.TimerQueue.Life.{fire, IsReady, Deleted}
use my_learning.TimerQueue.Shared.{Shared, elsewhere, in_loop, take, run, steps}
use my_learning.TimerQueue.Shared.Order.{IsSound, waiting, steps_lem}
use my_learning.TimerQueue.Fire.{Fired, handle_read_lem}

-- every two seconds, first at three seconds
abbrev repeating : Timer
repeating = record {
  callback = 1;
  expiration = 3_000_000;
  interval = 2_000_000;
  repeat = true;
  sequence = 0;
}

abbrev once : Timer
once = record { callback = 2; expiration = 5_000_000; interval = 0; repeat = false; sequence = 1 }

abbrev two_timers : TimerQueue
two_timers = record {
  timers = (3_000_000, 7) ∷ (5_000_000, 8) ∷ [];
  active_timers = (7, 0) ∷ (8, 1) ∷ [];
  calling_expired_timer = false;
  canceling_timers = [];
  heap = update (update (λ p. none) 7 (some repeating)) 8 (some once);
  num_created = 2;
  armed = some 3_000_000;
  clock = 1_000_000;
}

two_timers-IsValid : IsValid two_timers
unfolding member
two_timers-IsValid = record {
  timers_sorted = ((refl, tt), (tt, tt));
  active_sorted = ((refl, tt), (tt, tt));
  sizes = refl;
  timed = λ w p h. elim (Bool-cases (eq_pair (w, p) (3_000_000, 7))) [
    | inl e ↦ (repeating, ground (arith, e), ground (arith, e), ground (arith, e))
    | inr e ↦ (once, ground (arith, e, h), ground (arith, e, h), ground (arith, e, h))
  ];
  activated = λ p s h. elim (Bool-cases (eq_pair (p, s) (7, 0))) [
    | inl e ↦ (repeating, ground (arith, e), ground (arith, e), ground (arith, e))
    | inr e ↦ (once, ground (arith, e, h), ground (arith, e, h), ground (arith, e, h))
  ];
}

-- both timers, out of the sets
abbrev fired : TimerQueue
fired = record two_timers { timers = []; active_timers = [] }

fired-IsValid : IsValid fired
unfolding member
fired-IsValid = record {
  timers_sorted = tt;
  active_sorted = tt;
  sizes = refl;
  timed = λ w p h. let no : ⊥ = ground (arith, h) in absurd no;
  activated = λ p s h. let no : ⊥ = ground (arith, h) in absurd no;
}

fired-Pending : Pending fired ((3_000_000, 7) ∷ (5_000_000, 8) ∷ [])
unfolding member
fired-Pending = (
  (repeating, refl, refl),
  λ s. refl,
  (ground arith, tt),
  ((once, refl, refl), λ s. refl, tt, tt),
)

-- The repeating timer's callback adds a timer and cancels its own.
abbrev requests : ℕ → List Request
requests callback = if callback == 1 then add 9 4 1_000_000 0 ∷ cancel (7, 0) ∷ [] else []

requests-EachFree :
    (expired : List Pair) (q₁ : TimerQueue)
    → get_expired (record two_timers { armed = none }) 4_000_000 ≡ ok (expired, q₁)
    → EachFree requests expired (record q₁ { calling_expired_timer = true; canceling_timers = [] })
unfolding get_expired from before member erase
requests-EachFree expired q₁ e =
    let out : Pair = (3_000_000, 7) in
    let left = record two_timers {
      timers = (5_000_000, 8) ∷ [];
      active_timers = (8, 1) ∷ [];
      armed = none;
    } in
    let result : List Pair × TimerQueue = (out ∷ [], left) in
    let same : result ≡ (expired, q₁) = ok-injective result (expired, q₁) e in
    let calls : TimerQueue → TimerQueue =
      λ q. record q { calling_expired_timer = true; canceling_timers = [] } in
    subst (λ r. EachFree requests (r.0) (calls (r.1))) same
      (λ t live.
        subst
          (λ (u : Timer).
            AreFree (calls left) (requests u.callback)
            × ((q' : TimerQueue)
                → perform_all (requests u.callback) (calls left) ≡ ok q'
                → EachFree requests [] q'))
          {x = repeating} {y = t} (ground (arith, live))
          ((refl, λ q' f. (tt, λ q'' g. tt)), λ q' f. tt))

handle_read_lem_example :
    (q' : TimerQueue) × (handle_read requests 4_000_000 two_timers ≡ ok q')
    × Fired requests two_timers 4_000_000 q'
handle_read_lem_example =
    handle_read_lem requests 4_000_000 two_timers two_timers-IsValid (λ p h. ground (arith, h))
      requests-EachFree

-- It is not started again.
handle_read-cancelled :
    (handle_read requests 4_000_000 two_timers >>= λ q.
    let r : List Pair × Option Timer = (q.timers, q.heap 7) in ok r)
    ≡ ok ((1_000_000, 9) ∷ (5_000_000, 8) ∷ [], none)
unfolding handle_read from before member erase insert
handle_read-cancelled = refl

two_timers-IsReady : IsReady two_timers
two_timers-IsReady = record {
  valid = two_timers-IsValid;
  timed = λ p t h. ground (arith, h);
  armed = omega arith;
}

EachFree-none : (expired : List Pair) (q : TimerQueue) → EachFree (λ c. []) expired q
EachFree-none [] q = tt
EachFree-none (e ∷ expired) q = λ t live. (tt, λ q' h. EachFree-none expired q')

-- Another thread adds a timer, which the loop's thread inserts before it fires its own.
abbrev shared : Shared
shared = record { queue = two_timers; pending_functors = []; functors = [] }

shared-IsSound : IsSound shared
unfolding waiting
shared-IsSound = record { ready = two_timers-IsReady; pending = tt }

inserted_later :
    (steps (elsewhere (add 9 4 1_000_000 0) ∷ take ∷ run ∷ []) shared >>= λ s. ok s.queue.timers)
    ≡ ok ((1_000_000, 9) ∷ (3_000_000, 7) ∷ (5_000_000, 8) ∷ [])
unfolding steps member insert
inserted_later = refl

steps_lem_example :
    (s' : Shared) × (steps
        (in_loop (fire 4_000_000 (λ c. [])) ∷ elsewhere (cancel (7, 0)) ∷ take ∷ run ∷ [])
        shared
      ≡ ok s')
    × IsSound s'
    × ((heap : ℕ → Option Timer) × (delete_each s'.queue.timers s'.queue.heap ≡ ok heap)
        × Deleted s'.queue heap)
steps_lem_example =
    steps_lem (in_loop (fire 4_000_000 (λ c. [])) ∷ elsewhere (cancel (7, 0)) ∷ take ∷ run ∷ [])
      shared shared-IsSound
      (
        (omega arith, λ p h. ground (arith, h), λ c. tt, λ expired q₁ h. EachFree-none expired _),
        λ s h. ((tt, tt), λ s' k. (tt, λ s'' l. (tt, λ s₃ m. tt))),
      )
