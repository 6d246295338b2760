-- ===== src/Thread/Aborts.antt =====
-- When a thread and its owner are aborted.
use my_learning.Base.{
  ℕ, ◌≡◌, ◌<◌, inl, inr, refl, subst, arith, true, false, none, some, ltb, lt→ltb, ◌==◌,
  if◌then◌else◌, Bool-cases,
}
use my_learning.Thread.{
  OwnerAt, before_start, in_wait, woken, after_start, in_join, after_join, ThreadAt, not_created,
  at_entry, before_count, before_func, after_func, returns, System, Setting, construct, thread_at,
  owner_at, thread_step, owner_step, by_thread, by_owner, Reach, begin, next,
}
use my_learning.Thread.Progress.{ThreadFits, OwnerFits, Leads}
use my_learning.Thread.Handover.{Reach-IsValid, handover_ends}

module _ (w : Setting) where
  Alive : System → Type 0
  Alive t = t.aborted ≡ false

  thread_at-Alive :
      (at : ThreadAt) (s : System)
      → w.ends ≡ returns
      → s.aborted ≡ false
      → Leads Alive (thread_at w at s)
  unfolding thread_at Alive
  thread_at-Alive not_created s e a = tt
  thread_at-Alive at_entry s e a = a
  thread_at-Alive before_count s e a = a
  thread_at-Alive before_func s e a = rw e a
  thread_at-Alive after_func s e a = tt

  -- once the latch is open, the id is stored
  id_of_latch :
      (t : ThreadAt) (tid latch : ℕ) → ThreadFits t w.gettid tid latch → latch ≡ 0 → tid ≡ w.gettid
  id_of_latch not_created tid latch f h = absurd (omega (arith, f, h))
  id_of_latch at_entry tid latch f h = absurd (omega (arith, f, h))
  id_of_latch before_count tid latch f h = f.0
  id_of_latch before_func tid latch f h = f.0
  id_of_latch after_func tid latch f h = f.0

  module _ (positive : 0 < w.gettid) (create : w.created ≡ true) (leaves : w.joins ≡ false) where
    owner_at-Alive :
        (at : OwnerAt) (s : System)
        → OwnerFits at s.thread s.latch
        → ThreadFits s.thread w.gettid s.tid s.latch
        → s.started ≡ false
        → s.aborted ≡ false
        → Leads Alive (owner_at w at s)
    unfolding owner_at Alive
    owner_at-Alive before_start s o t n a = rw (n, create) a
    owner_at-Alive in_wait s o t n a = elim (Bool-cases (s.latch == 0)) [
      | inl c ↦ rw c a
      | inr c ↦ rw c tt
    ]
    owner_at-Alive woken s o t n a =
        let known = id_of_latch s.thread s.tid s.latch t o.1 in
        let yes : ltb 0 s.tid ≡ true = lt→ltb 0 s.tid (omega (arith, positive, known)) in rw yes a
    owner_at-Alive after_start s o t n a = rw leaves tt
    owner_at-Alive in_join s o t n a = absurd o
    owner_at-Alive after_join s o t n a = absurd o

    -- Where pthread_create succeeds, ids are positive, the function returns and the owner does not call
    -- join, nothing is ever aborted: start's assertion on the id holds whichever way the two take turns.
    pub handover_safe : w.ends ≡ returns → {n : ℕ} {s : System} → Reach w n s → s.aborted ≡ false
    unfolding construct Alive
    handover_safe e begin = refl
    handover_safe e (next {s} {t} r step) =
        let (v, h) = Reach-IsValid w r in
        let a = handover_safe e r in
        elim step [
          | by_thread f ↦
              subst (Leads Alive)
                (subst (λ z. (if z then none else thread_at w s.thread s) ≡ some t) a f)
                (thread_at-Alive s.thread s e a)
          | by_owner f ↦
              subst (Leads Alive)
                (subst (λ z. (if z then none else owner_at w s.owner s) ≡ some t) a f)
                (owner_at-Alive s.owner s v.owner_fits v.thread_fits v.not_started a)
        ]

  -- join never succeeds: where the owner calls it, every run that neither side can go on with was
  -- aborted, since start does not note that the thread was started.
  pub join_aborts :
      w.joins ≡ true
      → {n : ℕ} {s : System} → Reach w n s
      → thread_step w s ≡ none
      → owner_step w s ≡ none
      → s.aborted ≡ true
  unfolding owner_at
  join_aborts j {s} r et eo = elim ((handover_ends w r).1 et eo) [
    | inl a ↦ a
    | inr (a, o, t, i) ↦
        let waits = subst (λ z. (if z then none else owner_at w s.owner s) ≡ none) a eo in
        let refuses = subst (λ z. owner_at w z s ≡ none) o waits in
        absurd (ground (arith, refuses, j))
  ]
