-- ===== src/TimerQueue/Expire.antt =====
-- getExpired.
use my_learning.Base.{
  ℕ, ◌≡◌, ◌≢◌, refl, sym, subst, true, false, some, List, [], ◌∷◌, ◌++◌, ok, arith, Bool-cases, inl,
  inr, ◌≤◌, ◌<◌, ltb, All,
}
use my_learning.OrderedSet.{Pair, member, erase, before, from}
use my_learning.OrderedSet.Laws.{
  member-erase, distinct_below, All-of_member, before_due, from_later, before-append-from,
  member-cons_self, member-cons_of_member, member-append_left, IsBelow-append_left,
}
use my_learning.Timer.{Timer}
use my_learning.TimerQueue.{TimerQueue, uintptr_max, erase_active, all_later, get_expired}
use my_learning.TimerQueue.Valid.{IsValid, IsIdle, Pending, IsAddressed}
use my_learning.TimerQueue.Cancel.{without-IsValid, without-IsIdle}

-- the queue with other active timers
abbrev pub activating : TimerQueue → List Pair → TimerQueue
activating q active = record q { active_timers = active }

-- the queue before its first timers were taken out of `timers_`
abbrev pub joined : List Pair → TimerQueue → TimerQueue
joined expired q = record q { timers = expired ++ q.timers }

erase-head : (w' w p : ℕ) (xs : List Pair) → w' ≡ w → erase (w', p) ((w, p) ∷ xs) ≡ xs
unfolding erase
erase-head w' w p xs e = ground arith

-- What erasing the active entries of `expired` leaves.
pub record Erased (expired : List Pair) (q : TimerQueue) (active : List Pair) : Type 0 where
  pub ran : erase_active expired q ≡ ok (activating q active)
  pub valid : IsValid (activating q active)
  pub fewer : (x : Pair) → member x q.active_timers ≡ false → member x active ≡ false
  pub pending : Pending (activating q active) expired

-- The first expired timer is live and active; without its active entry the queue before its removal
-- is valid again, and no later expired timer is at its pointer.
record First (w p : ℕ) (expired : List Pair) (q : TimerQueue) (t : Timer) : Type 0 where
  live : q.heap p ≡ some t
  when : t.expiration ≡ w
  active : member (p, t.sequence) q.active_timers ≡ true
  valid : IsValid (joined expired (activating q (erase (p, t.sequence) q.active_timers)))
  idle : IsIdle (activating q (erase (p, t.sequence) q.active_timers)) p
  distinct : All (λ e. e.1 ≢ p) expired

oldest_out :
    (w p : ℕ) (expired : List Pair) (q : TimerQueue)
    → IsValid (joined ((w, p) ∷ expired) q)
    → (t : Timer) × First w p expired q t
oldest_out w p expired q v =
    let all = joined ((w, p) ∷ expired) q in
    let (t, live, when, there) = v.timed w p (member-cons_self (w, p) (expired ++ q.timers)) in
    let out = without-IsValid all p t v live there q.heap (λ o h. refl) in
    let head_out : erase (t.expiration, p) ((w, p) ∷ expired ++ q.timers) ≡ expired ++ q.timers =
      erase-head t.expiration w p (expired ++ q.timers) when in
    (
      t,
      record {
        live = live;
        when = when;
        active = there;
        valid = rw head_out at out;
        idle = without-IsIdle all p t v live there q.heap;
        distinct =
            distinct_below w p expired
              (IsBelow-append_left (w, p) expired q.timers v.timers_sorted.0)
              λ w' m.
                same_time w'
                  (v.timed w' p (
                    member-cons_of_member (w', p) (w, p) _
                      (member-append_left (w', p) expired q.timers m)))
                  t live when;
      },
    )
  where
    same_time :
        (w' : ℕ)
        → (u : Timer) × (q.heap p ≡ some u)
          × (u.expiration ≡ w')
          × (member (p, u.sequence) q.active_timers ≡ true)
        → (t : Timer) → q.heap p ≡ some t
        → t.expiration ≡ w
        → w' ≡ w
    same_time w' (u, at, e, _) t live when = ground (arith, at, live, e, when)

pub erase_active-Erased :
    (expired : List Pair) (q : TimerQueue)
    → IsValid (joined expired q)
    → (active : List Pair) × Erased expired q active
unfolding erase_active
erase_active-Erased [] q v =
    (q.active_timers, record { ran = refl; valid = v; fewer = λ x e. e; pending = tt })
erase_active-Erased ((w, p) ∷ expired) q v =
    let (t, f) = oldest_out w p expired q v in
    let rest = erase (p, t.sequence) q.active_timers in
    let (active, d) = erase_active-Erased expired (activating q rest) f.valid in
    (
      active,
      record {
        ran = ground (arith, f.live, f.active, d.ran);
        valid = d.valid;
        fewer = λ x e.
            d.fewer x
              (ground (arith, e, member-erase (p, t.sequence) x q.active_timers v.active_sorted));
        pending = ((t, f.live, f.when), λ s. d.fewer (p, s) (f.idle s), f.distinct, d.pending);
      },
    )

-- the two parts of `timers_`, and what the expired timers leave
pub record Expired (q : TimerQueue) (now : ℕ) (expired : List Pair) (q' : TimerQueue) : Type 0 where
  pub valid : IsValid q'
  pub split : expired ++ q'.timers ≡ q.timers
  pub due : All (λ e. e.0 ≤ now) expired
  pub later : All (λ e. now < e.0) q'.timers
  pub pending : Pending q' expired
  pub heap : q'.heap ≡ q.heap
  pub fewer : (x : Pair) → member x q.active_timers ≡ false → member x q'.active_timers ≡ false

all_later_of : (now : ℕ) (xs : List Pair) → All (λ e. now < e.0) xs → all_later now xs ≡ true
all_later_of now [] a = refl
all_later_of now ((w, p) ∷ xs) (h, a) = ground arith

-- getExpired splits the timers at `now`: it returns exactly those that are due, in the order of their
-- expirations, and takes them out of both sets; no assert fails.
pub get_expired_lem :
    (q : TimerQueue) (now : ℕ)
    → IsValid q
    → IsAddressed q
    → (expired : List Pair) × (q' : TimerQueue) × (get_expired q now ≡ ok (expired, q'))
      × Expired q now expired q'
unfolding get_expired
get_expired_lem q now v a =
    let sentry : Pair = (now, uintptr_max) in
    let split = before-append-from sentry q.timers in
    let tail = record q { timers = from sentry q.timers } in
    let whole : IsValid (joined (before sentry q.timers) tail) =
      subst (λ ts. IsValid (record q { timers = ts })) (sym split) v in
    let (active, d) = erase_active-Erased (before sentry q.timers) tail whole in
    let later =
      from_later now uintptr_max q.timers v.timers_sorted
        (All-of_member q.timers λ x m. below x (v.timed x.0 x.1 m)) in
    (
      before sentry q.timers,
      activating tail active,
      ground (arith, v.sizes, all_later_of now _ later, d.ran, d.valid.sizes),
      record {
        valid = d.valid;
        split = split;
        due = before_due now uintptr_max q.timers;
        later = later;
        pending = d.pending;
        heap = refl;
        fewer = d.fewer;
      },
    )
  where
    below :
        (x : Pair)
        → (t : Timer) × (q.heap x.1 ≡ some t)
          × (t.expiration ≡ x.0)
          × (member (x.1, t.sequence) q.active_timers ≡ true)
        → x.1 < uintptr_max
    below x (t, at, _, _) = elim (Bool-cases (ltb x.1 uintptr_max)) [
      | inl e ↦ ground arith
      | inr e ↦ ground (arith, a x.1, at)
    ]
