-- ===== src/TimerQueue/Reset.antt =====
-- reset: repeating timers start again, the others are freed, and the timerfd is set.
use my_learning.Base.{
  ◌+◌, ℕ, ◌<◌, ◌≡◌, ◌≢◌, refl, ap, sym, ◌∙◌, true, some, List, [], ◌∷◌, ok, arith, Bool-cases, inl,
  inr, All,
}
use my_learning.OrderedSet.{Pair, member}
use my_learning.OrderedSet.Laws.{member-cons_self}
use my_learning.Timer.{Timer, restart, valid}
use my_learning.TimerQueue.{time_left, TimerQueue, reset_each, next_expire, reset_timerfd, reset}
use my_learning.TimerQueue.Valid.{IsValid, Pending, AreTimed, AreApart, same-Pending}
use my_learning.TimerQueue.Rounds.{Settled, Round, round, Round-Pending}

-- What the loop over `expired` has done.
pub record Reset (expired : List Pair) (now : ℕ) (q q' : TimerQueue) : Type 0 where
  pub valid : IsValid q'
  pub heap : (o : ℕ) → All (λ e. e.1 ≢ o) expired → q'.heap o ≡ q.heap o
  pub active : (x : Pair) → member x q.active_timers ≡ true → member x q'.active_timers ≡ true
  pub timed : 0 < now → AreTimed q → AreTimed q'
  pub waiting : (rest : List Pair) → AreApart expired rest → Pending q rest → Pending q' rest
  pub timers : (x : Pair) → member x q.timers ≡ true → member x q'.timers ≡ true
  pub settled : All (λ e. (t : Timer) → q.heap e.1 ≡ some t → Settled q now e.1 t q') expired

Settled-before :
    (q₁ q q' : TimerQueue) (now p : ℕ) (expired : List Pair)
    → Round q now p q₁
    → All (λ e. e.1 ≢ p) expired
    → All (λ e. (t : Timer) → q₁.heap e.1 ≡ some t → Settled q₁ now e.1 t q') expired
    → All (λ e. (t : Timer) → q.heap e.1 ≡ some t → Settled q now e.1 t q') expired
Settled-before q₁ q q' now p [] r d s = tt
Settled-before q₁ q q' now p ((w, o) ∷ expired) r (h, d) (s, ss) = (
  λ t live.
      let settled = s t (r.heap o h ∙ live) in
      record {
        again = λ k. settled.again (rw r.canceling k);
        freed = λ k. settled.freed (rw r.canceling k);
      },
  Settled-before q₁ q q' now p expired r d ss,
)

Settled-after :
    (q q₁ q' : TimerQueue) (expired : List Pair) (now p : ℕ) (t u : Timer)
    → Settled q now p t q₁
    → Reset expired now q₁ q'
    → All (λ e. e.1 ≢ p) expired
    → q.heap p ≡ some t
    → q.heap p ≡ some u
    → Settled q now p u q'
Settled-after q q₁ q' expired now p t u s d distinct live at =
    let same : t ≡ u = ground (arith, live, at) in
    let same_heap = d.heap p distinct in
    rw (sym same) (record {
      again = λ k.
          let (h, a, w) = s.again k in
          (same_heap ∙ h, d.active (p, t.sequence) a, d.timers ((restart t now).expiration, p) w);
      freed = λ k. same_heap ∙ s.freed k;
    })

reset_each-Reset :
    (expired : List Pair) (now : ℕ) (q : TimerQueue)
    → IsValid q
    → Pending q expired
    → (q' : TimerQueue) × (reset_each expired now q ≡ ok q') × Reset expired now q q'
unfolding reset_each
reset_each-Reset [] now q v g = (
  q,
  refl,
  record {
    waiting = λ rest a g. g;
    valid = v;
    heap = λ o d. refl;
    active = λ x h. h;
    timed = λ h a. a;
    timers = λ x h. h;
    settled = tt;
  },
)
reset_each-Reset ((w, p) ∷ expired) now q v ((t, live, when), idle, distinct, g) =
    let (q₁, ran, r, s) = round q now p t v live idle in
    let (q', rest, d) =
      reset_each-Reset expired now q₁ r.valid (Round-Pending q q₁ now p expired r distinct g) in
    (
      q',
      ground (arith, ran, rest),
      record {
        valid = d.valid;
        heap = λ o (h, hs). d.heap o hs ∙ r.heap o (λ e. h (sym e));
        active = λ x h. d.active x (r.active x h);
        timers = λ x h. d.timers x (r.timers x h);
        timed = λ h a. d.timed h (r.timed h a);
        waiting = λ rest (a, apart) g. d.waiting rest apart (Round-Pending q q₁ now p rest r a g);
        settled = (
          λ u at. Settled-after q q₁ q' expired now p t u s d distinct live at,
          Settled-before q₁ q q' now p expired r distinct d.settled,
        );
      },
    )

-- What a reset of `expired` leaves: no timer stands between the first expiration and the timerfd.
pub record Restarted (expired : List Pair) (now : ℕ) (q q' : TimerQueue) : Type 0 where
  pub valid_queue : IsValid q'
  pub settled : All (λ e. (t : Timer) → q.heap e.1 ≡ some t → Settled q now e.1 t q') expired
  pub timed : 0 < now → AreTimed q → AreTimed q'
  pub waiting : (rest : List Pair) → AreApart expired rest → Pending q rest → Pending q' rest
  pub armed :
      (first : Pair) (rest : List Pair)
      → q'.timers ≡ first ∷ rest
      → valid first.0 ≡ true
      → q'.armed ≡ some (q'.clock + time_left first.0 q'.clock)

set_timerfd :
    (q : TimerQueue) (timers : List Pair)
    → IsValid q
    → q.timers ≡ timers
    → (next : ℕ) × (next_expire q timers ≡ ok next)
      × ((first : Pair) (rest : List Pair) → timers ≡ first ∷ rest → next ≡ first.0)
set_timerfd q [] v e = (0, refl, λ first rest h. ground (arith, h))
set_timerfd q ((when, p) ∷ timers) v e =
    let (t, live, at, there) = v.timed when p (rw e (member-cons_self (when, p) timers)) in
    (t.expiration, ground (arith, live), λ first rest h. ground (arith, h, at))

reset_timerfd-IsValid : (q : TimerQueue) (at : ℕ) → IsValid q → IsValid (reset_timerfd q at)
reset_timerfd-IsValid q at v = record {
  timers_sorted = v.timers_sorted;
  active_sorted = v.active_sorted;
  sizes = v.sizes;
  timed = v.timed;
  activated = v.activated;
}

reset_timerfd-Settled :
    (q q' : TimerQueue) (now at : ℕ) (expired : List Pair)
    → All (λ e. (t : Timer) → q.heap e.1 ≡ some t → Settled q now e.1 t q') expired
    → All
        (λ e. (t : Timer) → q.heap e.1 ≡ some t → Settled q now e.1 t (reset_timerfd q' at))
        expired
reset_timerfd-Settled q q' now at [] s = tt
reset_timerfd-Settled q q' now at (e ∷ expired) (s, ss) = (
  λ t live. record { again = (s t live).again; freed = (s t live).freed },
  reset_timerfd-Settled q q' now at expired ss,
)

-- reset returns without a failed assert: every expired timer that repeats and was not cancelled is
-- in both sets again with its next expiration, every other is freed, and the timerfd is set for
-- the first expiration, if that is a valid one.
pub reset_lem :
    (expired : List Pair) (now : ℕ) (q : TimerQueue)
    → IsValid q
    → Pending q expired
    → (q' : TimerQueue) × (reset expired now q ≡ ok q') × Restarted expired now q q'
unfolding reset
reset_lem expired now q v g =
    let (q₁, ran, d) = reset_each-Reset expired now q v g in
    let (next, found, is_first) = set_timerfd q₁ q₁.timers d.valid refl in
    elim (Bool-cases (valid next)) [
      | inl e ↦ (
        reset_timerfd q₁ next,
        ground (arith, ran, found, e),
        record {
          valid_queue = reset_timerfd-IsValid q₁ next d.valid;
          settled = reset_timerfd-Settled q q₁ now next expired d.settled;
          timed = d.timed;
          waiting = λ rest a g.
              same-Pending q₁ (reset_timerfd q₁ next) rest refl refl (d.waiting rest a g);
          armed = λ first rest h _.
              ap (λ n. some (q₁.clock + time_left n q₁.clock)) (is_first first rest h);
        },
      )
      | inr e ↦ (
        q₁,
        ground (arith, ran, found, e),
        record {
          valid_queue = d.valid;
          settled = d.settled;
          timed = d.timed;
          waiting = d.waiting;
          armed = λ first rest h k. ground (arith, is_first first rest h, e, k);
        },
      )
    ]
