-- ===== src/Reactor/Watch.antt =====
-- The epoll poller as a poller class, and its updates and removals against the board.
use my_learning.Base.{
  ◌∙◌, ℕ, ◌≡◌, ◌≢◌, refl, sym, ap, subst, inl, inr, true, false, not, none, List, [], ◌==◌, update,
  is_some_of, ok, ◌>>=◌, arith, Option-cases, ℕ_discrete,
}
use my_learning.Epoll.{Epoll}
use my_learning.Channel.{Channel, Index, fresh, deleted, is_fresh, Index-cases}
use my_learning.Channel
use my_learning.Poller.{
  Poller, Waited, reported, wait_failed, poll, set_channel, set_revents, fill_active_channels,
}
use my_learning.Poller
use my_learning.Poller.Sync.{IsTable, IsSynced}
use my_learning.Poller.Update.{Updated, update_channel_admitted}
use my_learning.Poller.Remove.{Removed, remove_channel_lem}
use my_learning.Reactor.{
  PollerClass, Change, enable_reading, disable_reading, enable_writing, disable_writing,
  disable_all, changed,
}
use my_learning.Reactor.Board.{Board, board}
use my_learning.Base.Both.{Both}

-- Channel::enableReading and the like, up to update()
unfoldable pub apply : Change → Channel → Channel
apply enable_reading = Channel.enable_reading
apply disable_reading = Channel.disable_reading
apply enable_writing = Channel.enable_writing
apply disable_writing = Channel.disable_writing
apply disable_all = Channel.disable_all

apply-changed :
    (k : Change) (ch : Channel) → apply k ch ≡ record ch { events = changed k ch.events }
unfolding apply changed Channel.enable_reading Channel.disable_reading Channel.enable_writing
    Channel.disable_writing Channel.disable_all
apply-changed enable_reading ch = refl
apply-changed disable_reading ch = refl
apply-changed enable_writing ch = refl
apply-changed disable_writing ch = refl
apply-changed disable_all ch = refl

module _ (epoll : Epoll) where
  open epoll use {Kernel, interest, admits}

  abbrev pub epoll_poller : PollerClass
  epoll_poller = record {
    Object = Poller epoll;
    set_events = λ k c s. set_channel epoll s c (apply k (s.chan c));
    update = λ c s. Poller.update_channel epoll true s c;
    remove = λ c s. Poller.remove_channel epoll true s c;
    has = λ c s. Poller.has_channel epoll true s c;
    wait = λ w s. do
      r ← poll epoll s [] w
      let result : List ℕ × Poller epoll = (r.active, r.poller)
      ok result;
  }

  -- The poller serves the board's channels, each with a descriptor of its own, and the kernel takes
  -- any descriptor.
  pub record Shows (s : Poller epoll) (b : Board) : Type 0 where
    pub table : IsTable epoll s
    pub synced : IsSynced epoll s
    pub distinct : (c d : ℕ) → (s.chan c).fd ≡ (s.chan d).fd → c ≡ d
    pub events : (c : ℕ) → (s.chan c).events ≡ b.events c
    pub listed : (c : ℕ) → not (is_fresh (s.chan c).index) ≡ b.listed c
    pub quiet : (c : ℕ) → (s.chan c).index ≡ deleted → (s.chan c).events ≡ 0
    pub capacity : s.events_size ≡ b.capacity
    pub takes : (k : Kernel) (fd : ℕ) → admits k fd ≡ true

  -- a fresh channel's descriptor is free
  pub fd-free :
      (s : Poller epoll) (b : Board) (c : ℕ)
      → Shows s b
      → (s.chan c).index ≡ fresh
      → s.channels (s.chan c).fd ≡ none
  fd-free s b c h e = elim (Option-cases (s.channels (s.chan c).fd)) [
    | inl free ↦ free
    | inr (d, taken) ↦
        let (same, old) = h.table.mapped (s.chan c).fd d taken in
        absurd (old (subst (λ x. (s.chan x).index ≡ fresh) (h.distinct c d (sym same)) e))
  ]

  pub found-listed :
      (s : Poller epoll) (b : Board) (c : ℕ)
      → Shows s b
      → is_some_of (s.channels (s.chan c).fd) c ≡ b.listed c
  found-listed s b c h = elim (Index-cases (s.chan c).index) [
    | inl e ↦ ground (arith, h.listed c, fd-free s b c h e)
    | inr e ↦ ground (arith, h.listed c, h.table.marked c)
  ]

  -- Two descriptors stay apart where all stay as they are.
  pub distinct_kept :
      (s s' : Poller epoll) (b : Board)
      → Shows s b
      → ((d : ℕ) → (s'.chan d).fd ≡ (s.chan d).fd)
      → (c d : ℕ) → (s'.chan c).fd ≡ (s'.chan d).fd
      → c ≡ d
  distinct_kept s s' b h same c d e = h.distinct c d (sym (same c) ∙ e ∙ same d)

  module _ (s : Poller epoll) (b : Board) (c : ℕ) (h : Shows s b) where
    update-Shows :
        (events : ℕ) (s' : Poller epoll)
        → Updated epoll s c events h.table h.synced s'
        → Shows s' (record b { events = update b.events c events; listed = update b.listed c true })
    update-Shows events s' u =
        let found = u.table.mapped (s.chan c).fd c u.enlisted in
        let same : (d : ℕ) → (s'.chan d).fd ≡ (s.chan d).fd = λ d. elim (ℕ_discrete d c) [
          | yes e ↦ subst (λ x. (s'.chan x).fd ≡ (s.chan x).fd) (sym e) found.0
          | no e ↦ ap (λ (ch : Channel). ch.fd) (u.others d e)
        ] in
        record {
          table = u.table;
          synced = u.synced;
          distinct = distinct_kept s s' b h same;
          events = λ d. elim (ℕ_discrete c d) [
            | yes e ↦ ground (arith, u.asked)
            | no e ↦ ground (arith, u.others d, h.events d)
          ];
          listed = λ d. elim (ℕ_discrete c d) [
            | yes e ↦ ground (arith, found.1, Index-cases (s'.chan c).index)
            | no e ↦ ground (arith, u.others d, h.listed d)
          ];
          quiet = λ d. elim (ℕ_discrete c d) [
            | yes e ↦ ground (arith, u.quiet, u.asked)
            | no e ↦ ground (arith, u.others d, h.quiet d)
          ];
          capacity = u.size ∙ h.capacity;
          takes = h.takes;
        }

    remove-Shows :
        (s' : Poller epoll)
        → Removed epoll s c h.table h.synced s'
        → Shows s' (record b { listed = update b.listed c false })
    remove-Shows s' r =
        let same : (d : ℕ) → (s'.chan d).fd ≡ (s.chan d).fd = λ d. elim (ℕ_discrete d c) [
          | yes e ↦ subst (λ x. (s'.chan x).fd ≡ (s.chan x).fd) (sym e) r.same_fd
          | no e ↦ ap (λ (ch : Channel). ch.fd) (r.others d e)
        ] in
        record {
          table = r.table;
          synced = r.synced;
          distinct = distinct_kept s s' b h same;
          events = λ d. elim (ℕ_discrete c d) [
            | yes e ↦ ground (arith, r.same_events, h.events d)
            | no e ↦ ground (arith, r.others d, h.events d)
          ];
          listed = λ d. elim (ℕ_discrete c d) [
            | yes e ↦ ground (arith, r.unmarked)
            | no e ↦ ground (arith, r.others d, h.listed d)
          ];
          quiet = λ d. elim (ℕ_discrete c d) [
            | yes e ↦ ground (arith, r.unmarked)
            | no e ↦ ground (arith, r.others d, h.quiet d)
          ];
          capacity = r.size ∙ h.capacity;
          takes = h.takes;
        }

    pub update-Both :
        (k : Change)
        → Both Shows
            (epoll_poller.update c (epoll_poller.set_events k c s))
            (board.update c (board.set_events k c b))
    update-Both k =
        let events = changed k (s.chan c).events in
        let (s', run, u) =
          update_channel_admitted epoll s c events h.table h.synced (fd-free s b c h)
            (h.takes s.kernel (s.chan c).fd) in
        rw (apply-changed k (s.chan c)) (rw run (rw (← h.events c) (update-Shows events s' u)))

    -- remove() of a channel that the table has
    remove_old-Both :
        (s.chan c).index ≢ fresh → Both Shows (epoll_poller.remove c s) (board.remove c b)
    remove_old-Both old =
        let (done, _, busy, _) = remove_channel_lem epoll s c h.table h.synced in
        let on : b.listed c ≡ true = ground (arith, h.listed c, Index-cases (s.chan c).index) in
        elim (ℕ_discrete (s.chan c).events 0) [
          | yes z ↦
              let (s', run, r) = done old z in
              let quiet : b.events c ≡ 0 = sym (h.events c) ∙ z in
              rw run (rw (on, quiet) (remove-Shows s' r))
          | no z ↦
              let loud : (b.events c == 0) ≡ false = ground (arith, h.events c) in
              rw (busy z) (rw (on, loud) tt)
        ]

    pub remove-Both : Both Shows (epoll_poller.remove c s) (board.remove c b)
    remove-Both = elim (Index-cases (s.chan c).index) [
      | inl e ↦
          let off : b.listed c ≡ false = ground (arith, h.listed c) in
          let (_, new, _, _) = remove_channel_lem epoll s c h.table h.synced in
          rw (new e) (rw off tt)
      | inr (inl e) ↦ remove_old-Both (λ f. cc)
      | inr (inr e) ↦ remove_old-Both (λ f. cc)
    ]
