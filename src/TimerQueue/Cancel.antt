-- ===== src/TimerQueue/Cancel.antt =====
-- cancelInLoop, and what it takes to remove a timer from both sets.
use my_learning.Base.{
  max, ◌+◌, ℕ, ◌≡◌, ◌≢◌, refl, ◌∙◌, true, false, Option, none, some, List, [], ◌∷◌, ok, update,
  arith, Bool-cases, inl, inr, ℕ_discrete, ◌≤◌,
}
use my_learning.OrderedSet.{Pair, eq_pair, member, insert, erase, IsSorted, IsBelow}
use my_learning.OrderedSet.Laws.{member-erase, erase-IsSorted, length-erase}
use my_learning.Timer.{Timer}
use my_learning.TimerQueue.{TimerQueue, cancel_in_loop}
use my_learning.TimerQueue.Valid.{IsValid, IsIdle, IsArmedFor, AreTimed}

module _ (q : TimerQueue) (p : ℕ) (t : Timer) (v : IsValid q) (live : q.heap p ≡ some t)
    (active : member (p, t.sequence) q.active_timers ≡ true) where
  pub timed_at : member (t.expiration, p) q.timers ≡ true
  timed_at =
      let (u, at, _, there) = v.activated p t.sequence active in ground (arith, at, live, there)

  -- the queue without the entries of the timer, over a store that may differ at its pointer
  abbrev pub without : (ℕ → Option Timer) → TimerQueue
  without heap = record q {
    timers = erase (t.expiration, p) q.timers;
    active_timers = erase (p, t.sequence) q.active_timers;
    heap = heap;
  }

  pub without-IsValid :
      (heap : ℕ → Option Timer) → ((o : ℕ) → o ≢ p → heap o ≡ q.heap o) → IsValid (without heap)
  without-IsValid heap same = record {
    timers_sorted = erase-IsSorted (t.expiration, p) q.timers v.timers_sorted;
    active_sorted = erase-IsSorted (p, t.sequence) q.active_timers v.active_sorted;
    sizes = omega (
      arith,
      v.sizes,
      length-erase (t.expiration, p) q.timers timed_at,
      length-erase (p, t.sequence) q.active_timers active,
    );
    timed = λ w o h.
        let left = member-erase (t.expiration, p) (w, o) q.timers v.timers_sorted in
        let (u, at, when, there) = v.timed w o (ground (arith, left)) in
        elim (ℕ_discrete o p) [
          | yes e ↦ absurd (ground (arith, at, live, when, left))
          | no e ↦
              let kept =
                member-erase (p, t.sequence) (o, u.sequence) q.active_timers v.active_sorted in
              (u, same o e ∙ at, when, ground (arith, there, kept))
        ];
    activated = λ o s h.
        let left = member-erase (p, t.sequence) (o, s) q.active_timers v.active_sorted in
        let (u, at, seq, there) = v.activated o s (ground (arith, left)) in
        elim (ℕ_discrete o p) [
          | yes e ↦ absurd (ground (arith, at, live, seq, left))
          | no e ↦
              let kept =
                member-erase (t.expiration, p) (u.expiration, o) q.timers v.timers_sorted in
              (u, same o e ∙ at, seq, ground (arith, there, kept))
        ];
  }

  pub without-IsIdle : (heap : ℕ → Option Timer) → IsIdle (without heap) p
  without-IsIdle heap s =
      let left = member-erase (p, t.sequence) (p, s) q.active_timers v.active_sorted in
      elim (Bool-cases (member (p, s) q.active_timers)) [
        | inl e ↦ let (u, at, seq, _) = v.activated p s e in ground (arith, at, live, seq, left)
        | inr e ↦ ground (arith, e, left)
      ]

head_le :
    (clock at : ℕ) (x : Pair) (xs : List Pair)
    → IsBelow x xs
    → at ≤ max x.0 (clock + 100)
    → IsArmedFor clock (some at) xs
head_le clock at x [] b h = tt
head_le clock at (first, p) ((second, o) ∷ xs) (b, bs) h =
    let up : first ≤ second = ground arith in omega (arith, up, h)

erase-armed :
    (clock : ℕ) (armed : Option ℕ) (x : Pair) (xs : List Pair)
    → IsSorted xs
    → IsArmedFor clock armed xs
    → IsArmedFor clock armed (erase x xs)
unfolding erase
erase-armed clock armed x [] s a = tt
erase-armed clock none x (y ∷ xs) s a = absurd a
erase-armed clock (some at) x (y ∷ xs) (b, s) a = elim (Bool-cases (eq_pair x y)) [
  | inl e ↦ rw e (head_le clock at y xs b a)
  | inr e ↦ rw e a
]

-- The result of a cancellation of the TimerId `(p, sequence)`.
pub record Cancelled (q : TimerQueue) (p sequence : ℕ) (q' : TimerQueue) : Type 0 where
  pub valid : IsValid q'
  pub gone : member (p, sequence) q'.active_timers ≡ false
  pub freed : member (p, sequence) q.active_timers ≡ true → q'.heap p ≡ none
  pub noted :
      member (p, sequence) q.active_timers ≡ false
      → q.calling_expired_timer ≡ true
      → q'.canceling_timers ≡ insert (p, sequence) q.canceling_timers
  pub armed : IsArmedFor q.clock q.armed q.timers → IsArmedFor q'.clock q'.armed q'.timers
  pub others : (o : ℕ) → o ≢ p → q'.heap o ≡ q.heap o
  pub fewer : (x : Pair) → member x q.active_timers ≡ false → member x q'.active_timers ≡ false
  pub timed : AreTimed q → AreTimed q'
  pub unmoved : member (p, sequence) q.active_timers ≡ false → q'.heap ≡ q.heap

-- cancelInLoop frees an active timer and takes it out of both sets; one that is not active it only
-- notes, and only while expired timers run. No assert fails, for any TimerId.
pub cancel_in_loop_lem :
    (q : TimerQueue) (p sequence : ℕ)
    → IsValid q
    → (q' : TimerQueue) × (cancel_in_loop q (p, sequence) ≡ ok q') × Cancelled q p sequence q'
unfolding cancel_in_loop
cancel_in_loop_lem q p sequence v = elim (Bool-cases (member (p, sequence) q.active_timers)) [
  | inl e ↦
      let (t, live, seq, there) = v.activated p sequence e in
      let active : member (p, t.sequence) q.active_timers ≡ true = ground (arith, seq, e) in
      let heap = update q.heap p none in
      let q' = without q p t v live active heap in
      let w = without-IsValid q p t v live active heap (λ o h. ground arith) in
      (
        q',
        ground (arith, v.sizes, live, seq, e, w.sizes, timed_at q p t v live active),
        record {
          valid = w;
          gone = without-IsIdle q p t v live active heap sequence;
          freed = λ _. ground arith;
          noted = λ h _. ground (arith, h, e);
          armed = λ a. erase-armed q.clock q.armed (t.expiration, p) q.timers v.timers_sorted a;
          others = λ o h. ground arith;
          timed = λ a o u at. ground (arith, a o u);
          fewer = λ x h.
              ground (arith, h, member-erase (p, t.sequence) x q.active_timers v.active_sorted);
          unmoved = λ h. ground (arith, h, e);
        },
      )
  | inr e ↦ elim (Bool-cases q.calling_expired_timer) [
    | inl c ↦ (
      record q { canceling_timers = insert (p, sequence) q.canceling_timers },
      ground (arith, v.sizes),
      record {
        valid = record {
          timers_sorted = v.timers_sorted;
          active_sorted = v.active_sorted;
          sizes = v.sizes;
          timed = v.timed;
          activated = v.activated;
        };
        gone = e;
        freed = λ h. ground (arith, h, e);
        noted = λ _ _. refl;
        armed = λ a. a;
        others = λ o h. refl;
        timed = λ a. a;
        fewer = λ x h. h;
        unmoved = λ _. refl;
      },
    )
    | inr c ↦ (
      q,
      ground (arith, v.sizes),
      record {
        valid = v;
        gone = e;
        freed = λ h. ground (arith, h, e);
        noted = λ _ h. ground (arith, h, c);
        armed = λ a. a;
        others = λ o h. refl;
        timed = λ a. a;
        fewer = λ x h. h;
        unmoved = λ _. refl;
      },
    )
  ]
]
