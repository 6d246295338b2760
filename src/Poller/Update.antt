-- ===== src/Poller/Update.antt =====
-- updateChannel keeps the table, the channels and the kernel in agreement.
use my_learning.Base.{
  ℕ, ◌≡◌, ◌≢◌, refl, ap, inl, inr, none, some, true, ◌==◌, if◌then◌else◌, update, ok, arith,
  Option-cases, ℕ_discrete, sym, ◌∙◌, Bool-cases, ◌⊎◌, abort, false,
}
use my_learning.Epoll.{Epoll}
use my_learning.Channel.{Index-cases, Channel, Index, fresh, added, deleted, is_added}
use my_learning.Poller.{Poller, update_channel, set_index}
use my_learning.Poller.Sync.{IsTable, IsSynced, ask}

module _ (epoll : Epoll) where
  open epoll use {Kernel, ctl, interest, admits, ctl-refused, ctl-add, ctl-mod, ctl-del}

  module _ (s : Poller epoll) (c events : ℕ) (t : IsTable epoll s) (y : IsSynced epoll s) where
    -- The result of a call that kept everything in agreement.
    pub record Updated (s' : Poller epoll) : Type 0 where
      pub table : IsTable epoll s'
      pub synced : IsSynced epoll s'
      pub asked : (s'.chan c).events ≡ events
      pub others : (d : ℕ) → d ≢ c → s'.chan d ≡ s.chan d
      pub enlisted : s'.channels (s.chan c).fd ≡ some c
      pub quiet : (s'.chan c).index ≡ deleted → events ≡ 0
      pub size : s'.events_size ≡ s.events_size

    abbrev enlisted_state : Kernel → Poller epoll
    enlisted_state k =
        let enlisted = record (ask epoll s c events) {
          channels = update s.channels (s.chan c).fd (some c);
        } in
        record (set_index epoll enlisted c added) { kernel = k }

    enlisted_wanted :
        (k : Kernel)
        → ((g : ℕ)
            → interest k g ≡ (
                if (s.chan c).fd == g
                then some (record { events = events; ptr = c })
                else interest s.kernel g))
        → IsSynced epoll (enlisted_state k)
    enlisted_wanted k now fd = elim (Option-cases (s.channels fd)) [
      | inl e ↦ ground (arith, now fd, y fd)
      | inr (d, e) ↦ ground (arith, now fd, y fd, t.mapped fd d)
    ]

    add_fresh :
        (s.chan c).index ≡ fresh
        → s.channels (s.chan c).fd ≡ none
        → admits s.kernel (s.chan c).fd ≡ true
        → (s' : Poller epoll) × (update_channel epoll true (ask epoll s c events) c ≡ ok s')
          × Updated s'
    unfolding update_channel
    add_fresh e free taken =
        let (k, made, now) =
          ctl-add s.kernel (s.chan c).fd (record { events = events; ptr = c })
            (ground (arith, y (s.chan c).fd)) taken in
        (
          enlisted_state k,
          ground (arith, made),
          record {
            table = record {
              mapped = λ fd d h. ground (arith, t.mapped fd d);
              marked = λ d h. ground (arith, t.marked d, t.marked c);
            };
            synced = enlisted_wanted k now;
            asked = ground arith;
            others = λ d h. ground arith;
            enlisted = ground arith;
            quiet = λ h. ground arith;
            size = refl;
          },
        )

    watched :
        s.channels (s.chan c).fd ≡ some c
        → (s.chan c).index ≡ added
        → interest s.kernel (s.chan c).fd ≡ some (record { events = (s.chan c).events; ptr = c })
    watched in_table e = ground (arith, y (s.chan c).fd)

    -- the states of the other branches, which leave the table alone
    abbrev kept_state : (ℕ → Channel) → Kernel → Poller epoll
    kept_state chan k = record s { chan = chan; kernel = k }

    module _ (in_table : s.channels (s.chan c).fd ≡ some c) where
      kept_Updated :
          (i : Index) (chan : ℕ → Channel) (k : Kernel)
          → i ≢ fresh
          → (i ≡ deleted → events ≡ 0)
          → chan c ≡ record (s.chan c) { events = events; index = i }
          → ((d : ℕ) → d ≢ c → chan d ≡ s.chan d)
          → ((g : ℕ)
              → interest k g ≡ (
                  if (s.chan c).fd == g
                  then (if is_added i then some (record { events = events; ptr = c }) else none)
                  else interest s.kernel g))
          → Updated (kept_state chan k)
      kept_Updated i chan k kept quiet self others now = record {
        table = record {
          mapped = λ fd d h. ground (arith, t.mapped fd d, others d);
          marked = λ d h. ground (arith, t.marked d, others d);
        };
        synced = λ fd. elim (Option-cases (s.channels fd)) [
          | inl e ↦ ground (arith, now fd, y fd)
          | inr (d, e) ↦ ground (arith, now fd, y fd, t.mapped fd d, others d)
        ];
        asked = ap (λ (ch : Channel). ch.events) self;
        others = others;
        enlisted = in_table;
        quiet = λ h. quiet (sym (ap (λ (ch : Channel). ch.index) self) ∙ h);
        size = refl;
      }

      add_deleted :
          (s.chan c).index ≡ deleted
          → admits s.kernel (s.chan c).fd ≡ true
          → (s' : Poller epoll) × (update_channel epoll true (ask epoll s c events) c ≡ ok s')
            × Updated s'
      unfolding update_channel
      add_deleted e taken =
          let (k, made, now) =
            ctl-add s.kernel (s.chan c).fd (record { events = events; ptr = c })
              (ground (arith, y (s.chan c).fd)) taken in
          let chan = (set_index epoll (ask epoll s c events) c added).chan in
          (
            kept_state chan k,
            ground (arith, made),
            kept_Updated added chan k (λ h. cc) (λ h. cc) (ground arith) (λ d h. ground arith) now,
          )

      stop_added :
          (s.chan c).index ≡ added
          → events ≡ 0
          → (s' : Poller epoll) × (update_channel epoll true (ask epoll s c events) c ≡ ok s')
            × Updated s'
      unfolding update_channel
      stop_added e z =
          let (k, made, now) =
            ctl-del s.kernel (s.chan c).fd (record { events = events; ptr = c })
              (record { events = (s.chan c).events; ptr = c }) (watched in_table e) in
          let chan = (set_index epoll (ask epoll s c events) c deleted).chan in
          (
            kept_state chan k,
            ground (arith, made),
            kept_Updated deleted chan k (λ h. cc) (λ h. z) (ground arith) (λ d h. ground arith) now,
          )

      change_added :
          (s.chan c).index ≡ added
          → events ≢ 0
          → (s' : Poller epoll) × (update_channel epoll true (ask epoll s c events) c ≡ ok s')
            × Updated s'
      unfolding update_channel
      change_added e z =
          let (k, made, now) =
            ctl-mod s.kernel (s.chan c).fd (record { events = events; ptr = c })
              (record { events = (s.chan c).events; ptr = c }) (watched in_table e) in
          let chan = (ask epoll s c events).chan in
          (
            kept_state chan k,
            ground (arith, made),
            kept_Updated added chan k (λ h. cc) (λ h. cc) (ground arith) (λ d h. ground arith) now,
          )

    -- the result of a call for a descriptor that the kernel takes
    pub update_channel_admitted :
        ((s.chan c).index ≡ fresh → s.channels (s.chan c).fd ≡ none)
        → admits s.kernel (s.chan c).fd ≡ true
        → (s' : Poller epoll) × (update_channel epoll true (ask epoll s c events) c ≡ ok s')
          × Updated s'
    update_channel_admitted free taken = elim (Index-cases (s.chan c).index) [
      | inl e ↦ add_fresh e (free e) taken
      | inr (inl e) ↦ elim (ℕ_discrete events 0) [
        | yes z ↦ stop_added (t.marked c (ground arith)) e z
        | no z ↦ change_added (t.marked c (ground arith)) e z
      ]
      | inr (inr e) ↦ add_deleted (t.marked c (ground arith)) e taken
    ]

    -- the call that the kernel refuses, which LOG_SYSFATAL ends
    add_refused :
        is_added (s.chan c).index ≡ false
        → ((s.chan c).index ≡ fresh → s.channels (s.chan c).fd ≡ none)
        → admits s.kernel (s.chan c).fd ≡ false
        → update_channel epoll true (ask epoll s c events) c ≡ abort
    unfolding update_channel
    add_refused away free off =
        let no = ctl-refused s.kernel (s.chan c).fd (record { events = events; ptr = c }) off in
        elim (Index-cases (s.chan c).index) [
          | inl e ↦ ground (arith, no, free e)
          | inr (inl e) ↦ absurd (ground (arith, e, away))
          | inr (inr e) ↦ ground (arith, no, e, t.marked c (ground arith))
        ]

    -- A channel that changes the events it asks for and calls update() in the loop's thread is put
    -- into the table, and afterwards the kernel again watches exactly the channels marked kAdded, for
    -- the events that they ask for; no other channel changes. Only where the channel is not marked
    -- kAdded and the kernel refuses its descriptor, the process ends instead. A channel that is not in
    -- the table must have a descriptor that no channel of the table has.
    pub update_channel_synced :
        ((s.chan c).index ≡ fresh → s.channels (s.chan c).fd ≡ none)
        → ((s' : Poller epoll) × (update_channel epoll true (ask epoll s c events) c ≡ ok s')
            × Updated s')
          ⊎ ((is_added (s.chan c).index ≡ false)
              × (admits s.kernel (s.chan c).fd ≡ false)
              × (update_channel epoll true (ask epoll s c events) c ≡ abort))
    update_channel_synced free = elim (Bool-cases (admits s.kernel (s.chan c).fd)) [
      | inl on ↦ inl (update_channel_admitted free on)
      | inr off ↦ elim (Bool-cases (is_added (s.chan c).index)) [
        | inl e ↦ elim (ℕ_discrete events 0) [
          | yes z ↦ inl (stop_added (t.marked c (ground arith)) (ground arith) z)
          | no z ↦ inl (change_added (t.marked c (ground arith)) (ground arith) z)
        ]
        | inr away ↦ inr (away, off, add_refused away free off)
      ]
    ]
