-- ===== src/Poller/Remove.antt =====
-- removeChannel keeps the table, the channels and the kernel in agreement.
use my_learning.Base.{
  ℕ, ◌≡◌, ◌≢◌, refl, inl, inr, none, some, true, false, ◌==◌, if◌then◌else◌, update, ok, abort,
  arith, Option-cases,
}
use my_learning.Epoll.{Epoll}
use my_learning.Channel.{Index-cases, fresh}
use my_learning.Poller.{Poller, remove_channel, set_index}
use my_learning.Poller.Sync.{IsTable, IsSynced}

module _ (epoll : Epoll) where
  open epoll use {Kernel, interest, ctl-del}

  module _ (s : Poller epoll) (c : ℕ) (t : IsTable epoll s) (y : IsSynced epoll s) where
    -- The result of a removal.
    pub record Removed (s' : Poller epoll) : Type 0 where
      pub table : IsTable epoll s'
      pub synced : IsSynced epoll s'
      pub gone : s'.channels (s.chan c).fd ≡ none
      pub unmarked : (s'.chan c).index ≡ fresh
      pub others : (d : ℕ) → d ≢ c → s'.chan d ≡ s.chan d
      pub same_fd : (s'.chan c).fd ≡ (s.chan c).fd
      pub same_events : (s'.chan c).events ≡ (s.chan c).events
      pub size : s'.events_size ≡ s.events_size

    abbrev without_channel : Kernel → Poller epoll
    without_channel k =
        set_index epoll (record s { channels = update s.channels (s.chan c).fd none; kernel = k }) c
          fresh

    without_channel-Removed :
        (k : Kernel)
        → s.channels (s.chan c).fd ≡ some c
        → ((g : ℕ) → interest k g ≡ (if (s.chan c).fd == g then none else interest s.kernel g))
        → Removed (without_channel k)
    without_channel-Removed k in_table now = record {
      table = record {
        mapped = λ fd d h. ground (arith, t.mapped fd d);
        marked = λ d h. ground (arith, t.marked d);
      };
      synced = λ fd. elim (Option-cases (s.channels fd)) [
        | inl e ↦ ground (arith, now fd, y fd)
        | inr (d, e) ↦ ground (arith, now fd, y fd, t.mapped fd d)
      ];
      gone = ground arith;
      unmarked = ground arith;
      others = λ d h. ground arith;
      same_fd = ground arith;
      same_events = ground arith;
      size = refl;
    }

    -- A channel that is in the table and asks for nothing is removed: the table and the kernel forget
    -- its descriptor, its mark is kNew again, and nothing else changes. A channel that is not in the
    -- table, or still asks for events, makes the call abort, and so does another thread.
    pub remove_channel_lem :
        ((s.chan c).index ≢ fresh
          → (s.chan c).events ≡ 0
          → (s' : Poller epoll) × (remove_channel epoll true s c ≡ ok s') × Removed s')
        × ((s.chan c).index ≡ fresh → remove_channel epoll true s c ≡ abort)
        × ((s.chan c).events ≢ 0 → remove_channel epoll true s c ≡ abort)
        × (remove_channel epoll false s c ≡ abort)
    unfolding remove_channel
    remove_channel_lem = (
      λ h z. elim (Index-cases (s.chan c).index) [
        | inl e ↦ absurd (h e)
        | inr (inl e) ↦
            let (k, made, now) =
              ctl-del s.kernel (s.chan c).fd (record { events = (s.chan c).events; ptr = c })
                (record { events = (s.chan c).events; ptr = c })
                (ground (arith, y (s.chan c).fd, t.marked c)) in
            (
              without_channel k,
              ground (arith, made, t.marked c),
              without_channel-Removed k (t.marked c h) now,
            )
        | inr (inr e) ↦ (
          without_channel s.kernel,
          ground (arith, t.marked c),
          without_channel-Removed s.kernel (t.marked c h)
              (λ g. ground (arith, y (s.chan c).fd, t.marked c)),
        )
      ],
      λ e. ground (arith, t.mapped (s.chan c).fd c),
      λ z. ground arith,
      refl,
    )
