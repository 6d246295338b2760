-- ===== src/TimerQueue/Insert.antt =====
-- insert, addTimerInLoop and addTimer.
use my_learning.Base.{
  max, ◌+◌, ◌≤◌, ltb, ltb-false, ℕ, ◌<◌, suc, ◌≡◌, ◌≢◌, refl, ◌∙◌, false, Option, none, some, List,
  [], ◌∷◌, ok, update, arith, if◌then◌else◌, Bool-cases, inl, inr,
}
use my_learning.OrderedSet.{Pair, eq_pair, member, insert}
use my_learning.OrderedSet.Laws.{member-insert, insert-IsSorted, length-insert}
use my_learning.Timer.{Timer, new_timer}
use my_learning.TimerQueue.{
  TimerQueue, is_earliest, insert_timer, reset_timerfd, time_left, add_timer_in_loop, add_timer,
}
use my_learning.TimerQueue.Valid.{IsValid, IsIdle, IsArmedFor, AreTimed}

module _ (q : TimerQueue) (p : ℕ) (t : Timer) (v : IsValid q) (live : q.heap p ≡ some t)
    (idle : IsIdle q p) where
  abbrev pub inserted : TimerQueue
  inserted = record q {
    timers = insert (t.expiration, p) q.timers;
    active_timers = insert (p, t.sequence) q.active_timers;
  }

  not_timed : (when : ℕ) → member (when, p) q.timers ≡ false
  not_timed when = elim (Bool-cases (member (when, p) q.timers)) [
    | inl e ↦ let (u, at, _, there) = v.timed when p e in ground (arith, idle u.sequence)
    | inr e ↦ e
  ]

  pub inserted-IsValid : IsValid inserted
  inserted-IsValid = record {
    timers_sorted = insert-IsSorted (t.expiration, p) q.timers v.timers_sorted;
    active_sorted = insert-IsSorted (p, t.sequence) q.active_timers v.active_sorted;
    sizes = omega (
      arith,
      v.sizes,
      length-insert (t.expiration, p) q.timers (not_timed t.expiration),
      length-insert (p, t.sequence) q.active_timers (idle t.sequence),
    );
    timed = λ w o h.
        let found = member-insert (t.expiration, p) (w, o) q.timers in
        elim (Bool-cases (eq_pair (w, o) (t.expiration, p))) [
          | inl e ↦ (
            t,
            ground (arith, live),
            ground arith,
            ground (arith, member-insert (p, t.sequence) (o, t.sequence) q.active_timers),
          )
          | inr e ↦
              let (u, at, when, there) = v.timed w o (ground (arith, found)) in
              (
                u,
                at,
                when,
                ground
                    (arith, there, member-insert (p, t.sequence) (o, u.sequence) q.active_timers),
              )
        ];
    activated = λ o s h.
        let found = member-insert (p, t.sequence) (o, s) q.active_timers in
        elim (Bool-cases (eq_pair (o, s) (p, t.sequence))) [
          | inl e ↦ (
            t,
            ground (arith, live),
            ground arith,
            ground (arith, member-insert (t.expiration, p) (t.expiration, o) q.timers),
          )
          | inr e ↦
              let (u, at, seq, there) = v.activated o s (ground (arith, found)) in
              (
                u,
                at,
                seq,
                ground (arith, there, member-insert (t.expiration, p) (u.expiration, o) q.timers),
              )
        ];
  }

  pub insert_timer-ok : insert_timer q p ≡ ok (inserted, is_earliest t.expiration q.timers)
  unfolding insert_timer
  insert_timer-ok =
      ground (arith, v.sizes, inserted-IsValid.sizes, not_timed t.expiration, idle t.sequence)

pub time_left-bound : (when now : ℕ) → now + time_left when now ≤ max when (now + 100)
time_left-bound when now = elim (Bool-cases (ltb when (now + 100))) [
  | inl e ↦ rw e (omega arith)
  | inr e ↦ rw e (omega (arith, ltb-false when (now + 100) e))
]

pub insert_armed :
    (clock : ℕ) (armed : Option ℕ) (when p : ℕ) (timers : List Pair)
    → IsArmedFor clock armed timers
    → IsArmedFor clock
        (if is_earliest when timers then some (clock + time_left when clock) else armed)
        (insert (when, p) timers)
unfolding insert
insert_armed clock armed when p [] a = time_left-bound when clock
insert_armed clock none when p ((first, o) ∷ timers) a = absurd a
insert_armed clock (some at) when p ((first, o) ∷ timers) a = elim (Bool-cases (ltb when first)) [
  | inl e ↦ ground (arith, e, time_left-bound when clock)
  | inr e ↦ ground (arith, e, a)
]

pub add_timer_in_loop-eq :
    (q : TimerQueue) (p : ℕ) (t : Timer) (v : IsValid q) (live : q.heap p ≡ some t)
    (idle : IsIdle q p)
    → let q' = inserted q p t v live idle in
      add_timer_in_loop q p
      ≡ ok (if is_earliest t.expiration q.timers then reset_timerfd q' t.expiration else q')
unfolding add_timer_in_loop
add_timer_in_loop-eq q p t v live idle =
    rw (insert_timer-ok q p t v live idle) (ground (arith, live))

-- The result of addTimer with the pointer `p`.
pub record Added (q : TimerQueue) (p when : ℕ) (q' : TimerQueue) : Type 0 where
  pub valid : IsValid q'
  pub listed : q'.timers ≡ insert (when, p) q.timers
  pub named : q'.active_timers ≡ insert (p, q.num_created) q.active_timers
  pub armed : IsArmedFor q.clock q.armed q.timers → IsArmedFor q'.clock q'.armed q'.timers
  pub others : (o : ℕ) → o ≢ p → q'.heap o ≡ q.heap o
  pub timed : 0 < when → AreTimed q → AreTimed q'
  pub flags :
      (q'.calling_expired_timer ≡ q.calling_expired_timer)
      × (q'.canceling_timers ≡ q.canceling_timers)

-- A timer may be stored at any free pointer.
pub create-IsValid :
    (q : TimerQueue) (p n : ℕ) (t : Timer)
    → IsValid q
    → q.heap p ≡ none
    → IsValid (record q { heap = update q.heap p (some t); num_created = n })
create-IsValid q p n t v free = record {
  timers_sorted = v.timers_sorted;
  active_sorted = v.active_sorted;
  sizes = v.sizes;
  timed = λ w o h.
      let (u, at, when, there) = v.timed w o h in (u, ground (arith, at, free), when, there);
  activated = λ o s h.
      let (u, at, seq, there) = v.activated o s h in (u, ground (arith, at, free), seq, there);
}

pub free-IsIdle : (q : TimerQueue) (p : ℕ) → IsValid q → q.heap p ≡ none → IsIdle q p
free-IsIdle q p v free s = elim (Bool-cases (member (p, s) q.active_timers)) [
  | inl e ↦ let (u, at, _, _) = v.activated p s e in ground (arith, at, free)
  | inr e ↦ e
]

-- addTimer enters a new timer into both sets under its expiration and a new sequence number; no
-- assert fails, and if the timerfd was set early enough for the timers before, it is now.
pub add_timer_lem :
    (q : TimerQueue) (p callback when interval : ℕ)
    → IsValid q
    → q.heap p ≡ none
    → (q' : TimerQueue) × (add_timer q p callback when interval ≡ ok q') × Added q p when q'
unfolding add_timer new_timer
add_timer_lem q p callback when interval v free =
    let t = new_timer callback when interval q.num_created in
    let q₁ = record q { heap = update q.heap p (some t); num_created = suc q.num_created } in
    let v₁ = create-IsValid q p (suc q.num_created) t v free in
    let live : q₁.heap p ≡ some t = ground arith in
    let idle = free-IsIdle q p v free in
    let q₂ = inserted q₁ p t v₁ live idle in
    let w = inserted-IsValid q₁ p t v₁ live idle in
    let set_early = insert_armed q.clock q.armed when p q.timers in
    let run = add_timer_in_loop-eq q₁ p t v₁ live idle in
    elim (Bool-cases (is_earliest when q.timers)) [
      | inl e ↦ (
        reset_timerfd q₂ when,
        run ∙ rw e refl,
        record {
          valid = record {
            timers_sorted = w.timers_sorted;
            active_sorted = w.active_sorted;
            sizes = w.sizes;
            timed = w.timed;
            activated = w.activated;
          };
          listed = refl;
          named = refl;
          armed = λ a. rw e at (set_early a);
          others = λ o h. ground arith;
          timed = λ h a o u at. ground (arith, a o u);
          flags = (refl, refl);
        },
      )
      | inr e ↦ (
        q₂,
        run ∙ rw e refl,
        record {
          valid = w;
          listed = refl;
          named = refl;
          armed = λ a. rw e at (set_early a);
          others = λ o h. ground arith;
          timed = λ h a o u at. ground (arith, a o u);
          flags = (refl, refl);
        },
      )
    ]
