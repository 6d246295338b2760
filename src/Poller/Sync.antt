-- ===== src/Poller/Sync.antt =====
-- When the poller's table, the marks in the channels and the kernel agree.
use my_learning.Base.{ℕ, ◌≡◌, ◌≢◌, Option, none, some, if◌then◌else◌}
use my_learning.Epoll.{Epoll, EpollEvent}
use my_learning.Channel.{fresh, is_added}
use my_learning.Poller.{Poller, set_channel}

module _ (epoll : Epoll) where
  open epoll use {interest}

  -- A channel is in the table, under its own descriptor, exactly when its mark is not kNew.
  pub record IsTable (s : Poller epoll) : Type 0 where
    pub mapped :
        (fd c : ℕ) → s.channels fd ≡ some c → ((s.chan c).fd ≡ fd) × ((s.chan c).index ≢ fresh)
    pub marked : (c : ℕ) → (s.chan c).index ≢ fresh → s.channels (s.chan c).fd ≡ some c

  -- the registration that a channel of the table should have
  abbrev pub wanted_by : Poller epoll → Option ℕ → Option EpollEvent
  wanted_by s none = none
  wanted_by s (some c) =
      if is_added (s.chan c).index
      then some (record { events = (s.chan c).events; ptr = c })
      else none

  abbrev pub wanted : Poller epoll → ℕ → Option EpollEvent
  wanted s fd = wanted_by s (s.channels fd)

  -- The kernel watches exactly the channels marked kAdded, for the events that they ask for.
  abbrev pub IsSynced : Poller epoll → Type 0
  IsSynced s = (fd : ℕ) → interest s.kernel fd ≡ wanted s fd

  -- the state in which a channel calls update(): its `events_` is new, and nothing else is
  abbrev pub ask : Poller epoll → ℕ → ℕ → Poller epoll
  ask s c events = set_channel epoll s c (record (s.chan c) { events = events })
