-- ===== src/TimerQueue/Valid.antt =====
-- When the two sets of a timer queue and the timers agree.
use my_learning.Base.{
  max, ap, ◌∙◌, ℕ, ◌≡◌, ◌≢◌, ◌+◌, true, false, Option, none, some, ◌≤◌, ◌<◌, length, All, List, [],
  ◌∷◌,
}
use my_learning.OrderedSet.{Pair, member, IsSorted}
use my_learning.Timer.{Timer}
use my_learning.TimerQueue.{TimerQueue, uintptr_max}

-- Each entry of either set stands for a live timer that the other set holds too.
pub record IsValid (q : TimerQueue) : Type 0 where
  pub timers_sorted : IsSorted q.timers
  pub active_sorted : IsSorted q.active_timers
  pub sizes : length q.timers ≡ length q.active_timers
  pub timed :
      (when p : ℕ)
      → member (when, p) q.timers ≡ true
      → (t : Timer) × (q.heap p ≡ some t)
        × (t.expiration ≡ when)
        × (member (p, t.sequence) q.active_timers ≡ true)
  pub activated :
      (p sequence : ℕ)
      → member (p, sequence) q.active_timers ≡ true
      → (t : Timer) × (q.heap p ≡ some t)
        × (t.sequence ≡ sequence)
        × (member (t.expiration, p) q.timers ≡ true)

-- No timer has the invalid time stamp.
abbrev pub AreTimed : TimerQueue → Type 0
AreTimed q = (p : ℕ) (t : Timer) → q.heap p ≡ some t → 0 < t.expiration

-- no entry of the queue is for the timer at `p`
abbrev pub IsIdle : TimerQueue → ℕ → Type 0
IsIdle q p = (sequence : ℕ) → member (p, sequence) q.active_timers ≡ false

-- The timerfd fires no later than the first expiration or, where that is past or near, 100 µs from now.
abbrev pub IsArmedFor : ℕ → Option ℕ → List Pair → Type 0
IsArmedFor clock armed [] = Unit
IsArmedFor clock none (_ ∷ _) = ⊥
IsArmedFor clock (some at) ((first, _) ∷ _) = at ≤ max first (clock + 100)

-- Expired timers that are out of both sets: each is live, and no two are at one pointer.
abbrev pub Pending : TimerQueue → List Pair → Type 0
Pending q [] = Unit
Pending q ((when, p) ∷ expired) =
    ((t : Timer) × (q.heap p ≡ some t) × (t.expiration ≡ when))
    × IsIdle q p
    × All (λ e. e.1 ≢ p) expired
    × Pending q expired

-- Two lists of timers at different pointers.
abbrev pub AreApart : List Pair → List Pair → Type 0
AreApart expired rest = All (λ e. All (λ x. x.1 ≢ e.1) rest) expired

pub same-Pending :
    (q q' : TimerQueue) (expired : List Pair)
    → q'.heap ≡ q.heap
    → q'.active_timers ≡ q.active_timers
    → Pending q expired
    → Pending q' expired
same-Pending q q' [] h a g = tt
same-Pending q q' ((w, p) ∷ expired) h a ((t, live, at), idle, distinct, g) =
    ((t, ap (λ f. f p) h ∙ live, at), λ s. rw a (idle s), distinct, same-Pending q q' expired h a g)

-- No timer is at the largest address.
abbrev pub IsAddressed : TimerQueue → Type 0
IsAddressed q = (p : ℕ) → uintptr_max ≤ p → q.heap p ≡ none
