-- ===== src/TimerQueue/Rounds.antt =====
-- One round of reset's loop.
use my_learning.Base.{
  ℕ, ◌<◌, ◌≡◌, ◌≢◌, refl, ◌∙◌, true, false, Option, none, some, List, [], ◌∷◌, ok, update, arith,
  Bool-cases, inl, inr, All,
}
use my_learning.OrderedSet.{Pair, member}
use my_learning.OrderedSet.Laws.{member-insert}
use my_learning.Timer.{Timer, restart, add_time}
use my_learning.TimerQueue.{TimerQueue, is_kept, reset_one}
use my_learning.TimerQueue.Valid.{IsValid, IsIdle, Pending, AreTimed}
use my_learning.TimerQueue.Insert.{inserted, inserted-IsValid, insert_timer-ok}

-- The store may change at the pointer of an idle timer.
pub idle-IsValid :
    (q : TimerQueue) (p : ℕ) (x : Option Timer)
    → IsValid q
    → IsIdle q p
    → IsValid (record q { heap = update q.heap p x })
idle-IsValid q p x v idle = record {
  timers_sorted = v.timers_sorted;
  active_sorted = v.active_sorted;
  sizes = v.sizes;
  timed = λ w o h.
      let (u, at, when, there) = v.timed w o h in
      (u, ground (arith, at, there, idle u.sequence), when, there);
  activated = λ o s h.
      let (u, at, seq, there) = v.activated o s h in (u, ground (arith, at, h, idle s), seq, there);
}

-- A timer that is to be kept is active again, with its next expiration; any other is freed.
pub record Settled (q : TimerQueue) (now p : ℕ) (t : Timer) (q' : TimerQueue) : Type 0 where
  pub again :
      is_kept q p t ≡ true
      → (q'.heap p ≡ some (restart t now))
        × (member (p, t.sequence) q'.active_timers ≡ true)
        × (member ((restart t now).expiration, p) q'.timers ≡ true)
  pub freed : is_kept q p t ≡ false → q'.heap p ≡ none

-- What a round of the loop for the timer at `p` leaves alone.
pub record Round (q : TimerQueue) (now p : ℕ) (q' : TimerQueue) : Type 0 where
  pub valid : IsValid q'
  pub canceling : q'.canceling_timers ≡ q.canceling_timers
  pub heap : (o : ℕ) → o ≢ p → q'.heap o ≡ q.heap o
  pub active : (x : Pair) → member x q.active_timers ≡ true → member x q'.active_timers ≡ true
  pub timers : (x : Pair) → member x q.timers ≡ true → member x q'.timers ≡ true
  pub timed : 0 < now → AreTimed q → AreTimed q'
  pub idle : (o : ℕ) → o ≢ p → IsIdle q o → IsIdle q' o

module _ (q : TimerQueue) (now p : ℕ) (t : Timer) (v : IsValid q) (live : q.heap p ≡ some t)
    (idle : IsIdle q p) where
  abbrev restarted : TimerQueue
  restarted = record q { heap = update q.heap p (some (restart t now)) }

  kept-Round :
      is_kept q p t ≡ true
      → (q' : TimerQueue) × (reset_one p now q ≡ ok q') × Round q now p q' × Settled q now p t q'
  unfolding reset_one restart add_time
  kept-Round e =
      let r = restart t now in
      let v₁ = idle-IsValid q p (some r) v idle in
      let live₁ : restarted.heap p ≡ some r = ground arith in
      let ran = insert_timer-ok restarted p r v₁ live₁ idle in
      (
        inserted restarted p r v₁ live₁ idle,
        ground (arith, live, e, ran),
        record {
          valid = inserted-IsValid restarted p r v₁ live₁ idle;
          canceling = refl;
          heap = λ o h. ground arith;
          timed = λ h a o u at. ground (arith, a o u, e);
          active = λ x h. ground (arith, h, member-insert (p, t.sequence) x q.active_timers);
          timers = λ x h. ground (arith, h, member-insert (r.expiration, p) x q.timers);
          idle =
              λ o h i s. ground (arith, i s, member-insert (p, t.sequence) (o, s) q.active_timers);
        },
        record {
          again = λ _. (
            live₁,
            ground (arith, member-insert (p, t.sequence) (p, t.sequence) q.active_timers),
            ground (arith, member-insert (r.expiration, p) (r.expiration, p) q.timers),
          );
          freed = λ f. ground (arith, e, f);
        },
      )

  freed-Round :
      is_kept q p t ≡ false
      → (q' : TimerQueue) × (reset_one p now q ≡ ok q') × Round q now p q' × Settled q now p t q'
  unfolding reset_one
  freed-Round e = (
    record q { heap = update q.heap p none },
    ground (arith, live, e),
    record {
      valid = idle-IsValid q p none v idle;
      canceling = refl;
      heap = λ o h. ground arith;
      timed = λ h a o u at. ground (arith, a o u);
      active = λ x h. h;
      timers = λ x h. h;
      idle = λ o h i. i;
    },
    record { again = λ f. ground (arith, e, f); freed = λ _. ground arith },
  )

  pub round :
      (q' : TimerQueue) × (reset_one p now q ≡ ok q') × Round q now p q' × Settled q now p t q'
  round = elim (Bool-cases (is_kept q p t)) [ inl e ↦ kept-Round e | inr e ↦ freed-Round e ]

pub Round-Pending :
    (q q' : TimerQueue) (now p : ℕ) (expired : List Pair)
    → Round q now p q'
    → All (λ e. e.1 ≢ p) expired
    → Pending q expired
    → Pending q' expired
Round-Pending q q' now p [] r d g = tt
Round-Pending q q' now p ((w, o) ∷ expired) r (h, d) ((t, live, when), idle, distinct, g) = (
  (t, r.heap o h ∙ live, when),
  r.idle o h idle,
  distinct,
  Round-Pending q q' now p expired r d g,
)
