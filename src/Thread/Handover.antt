-- ===== src/Thread/Handover.antt =====
-- Every run of start and join, whichever way the two sides take turns.
use my_learning.Base.{
  ℕ, ◌+◌, ◌≡◌, ◌≤◌, ◌⊎◌, inl, inr, refl, subst, arith, true, false, none, some, if◌then◌else◌,
  Bool-cases,
}
use my_learning.Thread.{
  OwnerAt, before_start, in_wait, woken, after_start, in_join, after_join, ThreadAt, not_created,
  at_entry, before_count, before_func, after_func, System, Setting, construct, thread_at, owner_at,
  thread_step, owner_step, Step, by_thread, by_owner, Reach, begin, next,
}
use my_learning.Thread.Progress.{
  ThreadFits, OwnerFits, IsValid, steps_left, Leads, After, thread_at-After, owner_at-After,
}

module _ (w : Setting) where
  Step-After : (s t : System) → IsValid w s → Step w s t → After w s t
  Step-After s t v (by_thread e) = elim (Bool-cases s.aborted) [
    | inl a ↦
        absurd
          (ground (arith, subst (λ z. (if z then none else thread_at w s.thread s) ≡ some t) a e))
    | inr a ↦
        subst (Leads (After w s))
          (subst (λ z. (if z then none else thread_at w s.thread s) ≡ some t) a e)
          (thread_at-After w s.thread s refl a v)
  ]
  Step-After s t v (by_owner e) = elim (Bool-cases s.aborted) [
    | inl a ↦
        absurd
          (ground (arith, subst (λ z. (if z then none else owner_at w s.owner s) ≡ some t) a e))
    | inr a ↦
        subst (Leads (After w s))
          (subst (λ z. (if z then none else owner_at w s.owner s) ≡ some t) a e)
          (owner_at-After w s.owner s refl a v)
  ]

  construct-IsValid : IsValid w construct
  unfolding construct
  construct-IsValid = record { thread_fits = refl; owner_fits = refl; not_started = refl }

  pub Reach-IsValid : {n : ℕ} {s : System} → Reach w n s → IsValid w s × (n + steps_left s ≤ 10)
  unfolding construct
  Reach-IsValid begin = (construct-IsValid, omega arith)
  Reach-IsValid (next {s} {t} r step) =
      let (v, h) = Reach-IsValid r in
      let (v', h') = Step-After s t v step in (v', omega (arith, h, h'))

  -- where a run stands that neither side can go on with
  abbrev pub IsDone : System → Type 0
  IsDone s =
      (s.aborted ≡ false) × (s.owner ≡ after_start) × (s.thread ≡ after_func) × (s.tid ≡ w.gettid)

  stuck :
      (o : OwnerAt) (t : ThreadAt) (s : System)
      → OwnerFits o t s.latch
      → ThreadFits t w.gettid s.tid s.latch
      → thread_at w t s ≡ none
      → owner_at w o s ≡ none
      → (o ≡ after_start) × (t ≡ after_func) × (s.tid ≡ w.gettid)
  unfolding thread_at owner_at
  stuck o at_entry s fo ft ht ho = absurd (ground (arith, ht))
  stuck o before_count s fo ft ht ho = absurd (ground (arith, ht))
  stuck o before_func s fo ft ht ho = absurd (ground (arith, ht))
  stuck before_start t s fo ft ht ho = absurd (ground (arith, ho))
  stuck woken t s fo ft ht ho = absurd (ground (arith, ho))
  stuck in_join t s fo ft ht ho = absurd fo
  stuck after_join t s fo ft ht ho = absurd fo
  stuck in_wait not_created s fo ft ht ho = absurd (ground (arith, fo))
  stuck in_wait after_func s fo ft ht ho = absurd (ground (arith, ho, ft.1))
  stuck after_start not_created s fo ft ht ho = absurd (ground (arith, fo.0))
  stuck after_start after_func s fo ft ht ho = (refl, refl, ft.0)

  -- Every run of a thread and its owner has at most ten steps, whichever way they take turns. One that
  -- neither side can go on with was aborted, or start has returned, the thread has run its function to
  -- the end, and its owner knows its id.
  pub handover_ends :
      {n : ℕ} {s : System}
      → Reach w n s
      → (n ≤ 10) × (thread_step w s ≡ none → owner_step w s ≡ none → (s.aborted ≡ true) ⊎ IsDone s)
  handover_ends {s} r =
      let (v, h) = Reach-IsValid r in
      (
        omega (arith, h),
        λ et eo. elim (Bool-cases s.aborted) [
          | inl a ↦ inl a
          | inr a ↦
              let et' = subst (λ z. (if z then none else thread_at w s.thread s) ≡ none) a et in
              let eo' = subst (λ z. (if z then none else owner_at w s.owner s) ≡ none) a eo in
              let (o, t, i) = stuck s.owner s.thread s v.owner_fits v.thread_fits et' eo' in
              inr (a, o, t, i)
        ],
      )
