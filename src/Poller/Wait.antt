-- ===== src/Poller/Wait.antt =====
-- poll and fillActiveChannels.
use mathlib.Core.List.{append_assoc, append-nil}
use my_learning.Base.{
  ℕ, ◌*◌, ◌≤◌, ◌<◌, ◌≡◌, refl, some, false, List, [], ◌∷◌, ◌++◌, ◌==◌, if◌then◌else◌, length, All,
  ok, map, inl, inr, Option-cases, arith,
}
use my_learning.Epoll.{Epoll, EpollEvent}
use my_learning.Poller.{Poller, Polled, reported, set_revents, fill_active_channels, poll}
use my_learning.Poller.Sync.{IsTable, IsSynced}

abbrev pub ptrs : List EpollEvent → List ℕ
ptrs = map (λ e. e.ptr)

module _ (epoll : Epoll) where
  open epoll use {interest}

  -- Only `revents_` of channels may differ.
  pub record IsSameBut (s s' : Poller epoll) : Type 0 where
    pub channels : s'.channels ≡ s.channels
    pub kernel : s'.kernel ≡ s.kernel
    pub size : s'.events_size ≡ s.events_size
    pub fd : (c : ℕ) → (s'.chan c).fd ≡ (s.chan c).fd
    pub events : (c : ℕ) → (s'.chan c).events ≡ (s.chan c).events
    pub index : (c : ℕ) → (s'.chan c).index ≡ (s.chan c).index

  -- the channel of an event is in the table
  abbrev pub IsKnown : Poller epoll → EpollEvent → Type 0
  IsKnown s e = s.channels (s.chan e.ptr).fd ≡ some e.ptr

  IsKnown-set_revents :
      (s : Poller epoll) (c r : ℕ) (es : List EpollEvent)
      → All (IsKnown s) es
      → All (IsKnown (set_revents epoll s c r)) es
  IsKnown-set_revents s c r [] h = tt
  IsKnown-set_revents s c r (e ∷ es) (h, hs) = (ground arith, IsKnown-set_revents s c r es hs)

  pub fill-IsSameBut :
      (es : List EpollEvent) (active : List ℕ) (s : Poller epoll)
      → All (IsKnown s) es
      → (s' : Poller epoll) × (fill_active_channels epoll es active s ≡ ok (active ++ ptrs es, s'))
        × IsSameBut s s'
  unfolding fill_active_channels
  fill-IsSameBut [] active s h = (
    s,
    rw append-nil refl,
    record {
      channels = refl;
      kernel = refl;
      size = refl;
      fd = λ c. refl;
      events = λ c. refl;
      index = λ c. refl;
    },
  )
  fill-IsSameBut (e ∷ es) active s (h, hs) =
      let s₁ = set_revents epoll s e.ptr e.events in
      let (s', run, k) =
        fill-IsSameBut es (active ++ e.ptr ∷ []) s₁ (IsKnown-set_revents s e.ptr e.events es hs) in
      (
        s',
        ground (arith, run, append_assoc active (e.ptr ∷ []) (ptrs es)),
        record {
          channels = k.channels;
          kernel = k.kernel;
          size = k.size;
          fd = λ c. ground (arith, k.fd c);
          events = λ c. ground (arith, k.events c);
          index = λ c. ground (arith, k.index c);
        },
      )

  -- an event that the kernel may report: one for a pointer that is registered
  abbrev pub IsRegistered : Poller epoll → EpollEvent → Type 0
  IsRegistered s e =
      (fd events : ℕ) × (interest s.kernel fd ≡ some (record { events = events; ptr = e.ptr }))

  known :
      (s : Poller epoll)
      → IsTable epoll s
      → IsSynced epoll s
      → (es : List EpollEvent) → All (IsRegistered s) es
      → All (IsKnown s) es
  known s t y [] h = tt
  known s t y (e ∷ es) ((fd, events, h), hs) = (
    elim (Option-cases (s.channels fd)) [
      | inl none_there ↦ ground (arith, y fd)
      | inr (d, there) ↦ ground (arith, y fd, t.mapped fd d)
    ],
    known s t y es hs,
  )

  -- The result of a wait in which the events `es` were reported.
  pub record Active (s : Poller epoll) (es : List EpollEvent) (r : Polled epoll) : Type 0 where
    pub active : r.active ≡ ptrs es
    pub quiet : r.logged ≡ false
    pub size :
        r.poller.events_size
        ≡ (if length es == s.events_size then s.events_size * 2 else s.events_size)
    pub channels : r.poller.channels ≡ s.channels
    pub kernel : r.poller.kernel ≡ s.kernel
    pub index : (c : ℕ) → (r.poller.chan c).index ≡ (s.chan c).index
    pub events : (c : ℕ) → (r.poller.chan c).events ≡ (s.chan c).events

  -- While the table, the marks and the kernel agree, none of poll's asserts fails on what epoll_wait
  -- reports: the active channels are those of the reported events, in order, the event list doubles
  -- exactly when it was full, and no registration changes.
  pub poll-Active :
      (s : Poller epoll) (es : List EpollEvent)
      → IsTable epoll s
      → IsSynced epoll s
      → 0 < s.events_size
      → length es ≤ s.events_size
      → All (IsRegistered s) es
      → (r : Polled epoll) × (poll epoll s [] (reported es) ≡ ok r) × Active s es r
  unfolding poll
  poll-Active s [] t y p h k = (
    record { active = []; logged = false; poller = s },
    refl,
    record {
      active = refl;
      quiet = refl;
      size = ground arith;
      channels = refl;
      kernel = refl;
      index = λ c. refl;
      events = λ c. refl;
    },
  )
  poll-Active s (e ∷ es) t y p h k =
      let (s', run, same) = fill-IsSameBut (e ∷ es) [] s (known s t y (e ∷ es) k) in
      let full = length (e ∷ es) == s'.events_size in
      let size = if full then s'.events_size * 2 else s'.events_size in
      (
        record {
          active = ptrs (e ∷ es);
          logged = false;
          poller = record s' { events_size = size };
        },
        ground (arith, run),
        record {
          active = refl;
          quiet = refl;
          size = rw (same.size) refl;
          channels = same.channels;
          kernel = same.kernel;
          index = same.index;
          events = same.events;
        },
      )
