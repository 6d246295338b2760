-- ===== src/Thread/Progress.antt =====
-- What holds between the steps of a thread and its owner, and that each step brings them nearer to the end.
use my_learning.Base.{
  ℕ, ◌+◌, ◌-◌, ◌≡◌, ◌<◌, inl, inr, refl, ap, sym, subst, arith, Bool, true, false, ◌&&◌, not,
  Option, none, some, ltb, ◌==◌, if◌then◌else◌, Bool-cases, if-false,
}
use my_learning.Thread.{
  OwnerAt, before_start, in_wait, woken, after_start, in_join, after_join, ThreadAt, not_created,
  at_entry, before_count, before_func, after_func, returns, throws, System, Setting, aborts,
  thread_at, owner_at,
}

-- what the thread has done
abbrev pub ThreadFits : ThreadAt → ℕ → ℕ → ℕ → Type 0
ThreadFits not_created gettid tid latch = latch ≡ 1
ThreadFits at_entry gettid tid latch = latch ≡ 1
ThreadFits before_count gettid tid latch = (tid ≡ gettid) × (latch ≡ 1)
ThreadFits before_func gettid tid latch = (tid ≡ gettid) × (latch ≡ 0)
ThreadFits after_func gettid tid latch = (tid ≡ gettid) × (latch ≡ 0)

-- the thread was created
abbrev pub is_created : ThreadAt → Bool
is_created not_created = false
is_created _ = true

-- what the owner knows
abbrev pub OwnerFits : OwnerAt → ThreadAt → ℕ → Type 0
OwnerFits before_start t latch = t ≡ not_created
OwnerFits in_wait t latch = is_created t ≡ true
OwnerFits woken t latch = (is_created t ≡ true) × (latch ≡ 0)
OwnerFits after_start t latch = (is_created t ≡ true) × (latch ≡ 0)
OwnerFits in_join t latch = ⊥
OwnerFits after_join t latch = ⊥

pub record IsValid (w : Setting) (s : System) : Type 0 where
  pub thread_fits : ThreadFits s.thread w.gettid s.tid s.latch
  pub owner_fits : OwnerFits s.owner s.thread s.latch
  pub not_started : s.started ≡ false

-- the steps that are left
abbrev pub thread_left : ThreadAt → ℕ
thread_left not_created = 4
thread_left at_entry = 3
thread_left before_count = 2
thread_left before_func = 1
thread_left after_func = 0

abbrev pub owner_left : OwnerAt → ℕ
owner_left before_start = 5
owner_left in_wait = 4
owner_left woken = 3
owner_left after_start = 2
owner_left in_join = 1
owner_left after_join = 0

abbrev pub steps_left : System → ℕ
steps_left s = if s.aborted then 0 else 1 + thread_left s.thread + owner_left s.owner

-- a step that is made leads to a state with the property
abbrev pub Leads : (System → Type 0) → Option System → Type 0
Leads P none = Unit
Leads P (some t) = P t

-- what the owner knows stays true while the thread goes on
carry :
    (o : OwnerAt) (t t' : ThreadAt) (l l' : ℕ)
    → is_created t ≡ true
    → is_created t' ≡ true
    → (l ≡ 0 → l' ≡ 0)
    → OwnerFits o t l
    → OwnerFits o t' l'
carry before_start t t' l l' c c' h f =
    absurd (subst (λ z. is_created z ≡ true → ⊥) (sym f) (λ x. ground (arith, x)) c)
carry in_wait t t' l l' c c' h f = c'
carry woken t t' l l' c c' h f = (c', h f.1)
carry after_start t t' l l' c c' h f = (c', h f.1)
carry in_join t t' l l' c c' h f = f
carry after_join t t' l l' c c' h f = f

running :
    (s : System) → s.aborted ≡ false → steps_left s ≡ 1 + thread_left s.thread + owner_left s.owner
running s a = rw a refl

module _ (w : Setting) where
  -- valid, and nearer to the end
  abbrev pub After : System → System → Type 0
  After s t = IsValid w t × (steps_left t < steps_left s)

  pub aborts-After : (s : System) → s.aborted ≡ false → IsValid w s → After s (aborts s)
  aborts-After s a v = (
    record { thread_fits = v.thread_fits; owner_fits = v.owner_fits; not_started = v.not_started },
    omega (arith, running s a),
  )

  pub thread_at-After :
      (at : ThreadAt) (s : System)
      → s.thread ≡ at
      → s.aborted ≡ false
      → IsValid w s
      → Leads (After s) (thread_at w at s)
  unfolding thread_at
  thread_at-After not_created s e a v = tt
  thread_at-After at_entry s e a v = (
    record {
      thread_fits = (refl, subst (λ z. ThreadFits z w.gettid s.tid s.latch) e v.thread_fits);
      owner_fits =
          carry s.owner s.thread before_count s.latch s.latch (ap is_created e) refl (λ h. h)
            v.owner_fits;
      not_started = v.not_started;
    },
    rw (a, e) (omega arith),
  )
  thread_at-After before_count s e a v =
      let f = subst (λ z. ThreadFits z w.gettid s.tid s.latch) e v.thread_fits in
      (
        record {
          thread_fits = (f.0, omega (arith, f.1));
          owner_fits =
              carry s.owner s.thread before_func s.latch (s.latch - 1) (ap is_created e) refl
                (λ h. omega (arith, h)) v.owner_fits;
          not_started = v.not_started;
        },
        rw (a, e) (omega arith),
      )
  thread_at-After before_func s e a v =
      elim w.ends
        as (λ z.
          After s (elim z [ returns ↦ record s { thread = after_func } | throws ↦ aborts s ])) [
            | returns ↦ (
              record {
                thread_fits = subst (λ z. ThreadFits z w.gettid s.tid s.latch) e v.thread_fits;
                owner_fits =
                    carry s.owner s.thread after_func s.latch s.latch (ap is_created e) refl
                      (λ h. h) v.owner_fits;
                not_started = v.not_started;
              },
              rw (a, e) (omega arith),
            )
            | throws ↦ aborts-After s a v
          ]
  thread_at-After after_func s e a v = tt

  pub owner_at-After :
      (at : OwnerAt) (s : System)
      → s.owner ≡ at
      → s.aborted ≡ false
      → IsValid w s
      → Leads (After s) (owner_at w at s)
  unfolding owner_at
  owner_at-After before_start s e a v =
      let f = subst (λ z. OwnerFits z s.thread s.latch) e v.owner_fits in
      let g = subst (λ z. ThreadFits z w.gettid s.tid s.latch) f v.thread_fits in
      rw v.not_started (elim (Bool-cases w.created) [
        | inl c ↦ rw c (
          record { thread_fits = g; owner_fits = refl; not_started = refl },
          rw (a, e, f) (omega arith),
        )
        | inr c ↦ rw c (
          record { thread_fits = v.thread_fits; owner_fits = v.owner_fits; not_started = refl },
          omega (arith, running s a),
        )
      ])
  owner_at-After in_wait s e a v = elim (Bool-cases (s.latch == 0)) [
    | inl c ↦ rw c (
      record {
        thread_fits = v.thread_fits;
        owner_fits = (subst (λ z. OwnerFits z s.thread s.latch) e v.owner_fits, ground (arith, c));
        not_started = v.not_started;
      },
      rw (a, e) (omega arith),
    )
    | inr c ↦ rw c tt
  ]
  owner_at-After woken s e a v = elim (Bool-cases (ltb 0 s.tid)) [
    | inl c ↦ rw c (
      record {
        thread_fits = v.thread_fits;
        owner_fits = subst (λ z. OwnerFits z s.thread s.latch) e v.owner_fits;
        not_started = v.not_started;
      },
      rw (a, e) (omega arith),
    )
    | inr c ↦ rw c (aborts-After s a v)
  ]
  owner_at-After after_start s e a v = elim (Bool-cases w.joins) [
    | inl c ↦ simp c (
        subst (After s)
          (sym (
            if-false (s.started && not s.joined) _ (aborts s)
              (ap (λ z. z && not s.joined) v.not_started)))
          (aborts-After s a v))
    | inr c ↦ rw c tt
  ]
  owner_at-After in_join s e a v = absurd (subst (λ z. OwnerFits z s.thread s.latch) e v.owner_fits)
  owner_at-After after_join s e a v = tt
