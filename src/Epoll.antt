-- ===== src/Epoll.antt =====
-- The kernel's epoll instance, as epoll_ctl(2) and epoll_wait(2) document it. It is not code of the
-- repository: the poller takes it as an argument.
use my_learning.Base.{
  Bool, true, false, ℕ, ◌≡◌, refl, Option, none, some, ◌==◌, if◌then◌else◌, arith, update,
}

pub data CtlOp : Type 0 where
  ctl_add ctl_mod ctl_del : CtlOp

-- a `struct epoll_event`: the events asked for, and the pointer `data.ptr`
pub record EpollEvent : Type 0 where
  pub events : ℕ
  pub ptr : ℕ

pub record Epoll : Type 1 where
  pub Kernel : Type 0
  -- `none` is a negative result
  pub ctl : Kernel → CtlOp → ℕ → EpollEvent → Option Kernel
  -- what is registered for a descriptor
  pub interest : Kernel → ℕ → Option EpollEvent
  -- whether it takes a descriptor that is not registered: epoll_ctl(2) names one that is not open
  -- (EBADF) or cannot be watched (EPERM), the want of memory (ENOMEM) and the limit (ENOSPC)
  pub admits : Kernel → ℕ → Bool
  pub ctl-refused :
      (k : Kernel) (fd : ℕ) (e : EpollEvent) → admits k fd ≡ false → ctl k ctl_add fd e ≡ none
  pub ctl-add :
      (k : Kernel) (fd : ℕ) (e : EpollEvent)
      → interest k fd ≡ none
      → admits k fd ≡ true
      → (k' : Kernel) × (ctl k ctl_add fd e ≡ some k')
        × ((g : ℕ) → interest k' g ≡ (if fd == g then some e else interest k g))
  pub ctl-mod :
      (k : Kernel) (fd : ℕ) (e old : EpollEvent)
      → interest k fd ≡ some old
      → (k' : Kernel) × (ctl k ctl_mod fd e ≡ some k')
        × ((g : ℕ) → interest k' g ≡ (if fd == g then some e else interest k g))
  pub ctl-del :
      (k : Kernel) (fd : ℕ) (e old : EpollEvent)
      → interest k fd ≡ some old
      → (k' : Kernel) × (ctl k ctl_del fd e ≡ some k')
        × ((g : ℕ) → interest k' g ≡ (if fd == g then none else interest k g))

-- A table of registrations, which takes every descriptor, meets the documentation.
abbrev pub table_ctl :
    (ℕ → Option EpollEvent) → CtlOp → ℕ → EpollEvent → Option (ℕ → Option EpollEvent)
table_ctl t ctl_add fd e = elim (t fd) [ none ↦ some (update t fd (some e)) | some _ ↦ none ]
table_ctl t ctl_mod fd e = elim (t fd) [ none ↦ none | some _ ↦ some (update t fd (some e)) ]
table_ctl t ctl_del fd e = elim (t fd) [ none ↦ none | some _ ↦ some (update t fd none) ]

pub table-add :
    (t : ℕ → Option EpollEvent) (fd : ℕ) (e : EpollEvent)
    → t fd ≡ none
    → true ≡ true
    → (t' : ℕ → Option EpollEvent) × (table_ctl t ctl_add fd e ≡ some t')
      × ((g : ℕ) → t' g ≡ (if fd == g then some e else t g))
table-add t fd e h taken = (update t fd (some e), ground arith, λ g. refl)

pub table-refused :
    (t : ℕ → Option EpollEvent) (fd : ℕ) (e : EpollEvent)
    → true ≡ false
    → table_ctl t ctl_add fd e ≡ none
table-refused t fd e h = cc

pub table-mod :
    (t : ℕ → Option EpollEvent) (fd : ℕ) (e old : EpollEvent)
    → t fd ≡ some old
    → (t' : ℕ → Option EpollEvent) × (table_ctl t ctl_mod fd e ≡ some t')
      × ((g : ℕ) → t' g ≡ (if fd == g then some e else t g))
table-mod t fd e old h = (update t fd (some e), ground arith, λ g. refl)

pub table-del :
    (t : ℕ → Option EpollEvent) (fd : ℕ) (e old : EpollEvent)
    → t fd ≡ some old
    → (t' : ℕ → Option EpollEvent) × (table_ctl t ctl_del fd e ≡ some t')
      × ((g : ℕ) → t' g ≡ (if fd == g then none else t g))
table-del t fd e old h = (update t fd none, ground arith, λ g. refl)

abbrev pub table : Epoll
table = record {
  Kernel = ℕ → Option EpollEvent;
  ctl = table_ctl;
  interest = λ t fd. t fd;
  admits = λ t fd. true;
  ctl-refused = table-refused;
  ctl-add = table-add;
  ctl-mod = table-mod;
  ctl-del = table-del;
}
