-- ===== src/Poller.antt =====
-- myMuduo/lib/Poller.hpp, Poller.cpp, EpollPoller.hpp and EpollPoller.cpp.
-- A `Channel*` is a number, and `chan` is the store of the channels. Descriptors are not negative.
-- `in_loop` says whether the caller is the loop's thread. Logging leaves the state alone.
pub mod Sync
pub mod Update
pub mod Remove
pub mod Wait
mod Tests
use my_learning.Base.{
  ℕ, ◌*◌, ◌≡◌, Bool, true, false, ◌||◌, ◌&&◌, not, Option, none, some, List, [], ◌∷◌, ◌++◌, ◌==◌,
  leb, ltb, if◌then◌else◌, update, is_some, is_some_of, length, Run, ok, abort, ◌>>=◌, ◌>>◌, assert,
}
use my_learning.Epoll.{Epoll, EpollEvent, CtlOp, ctl_add, ctl_mod, ctl_del}
use my_learning.Channel.{
  Channel, Index, fresh, added, deleted, is_fresh, is_added, is_deleted, is_none_event,
}

abbrev pub init_event_list_size : ℕ
init_event_list_size = 16

abbrev is_ctl_del : CtlOp → Bool
is_ctl_del ctl_add = false
is_ctl_del ctl_mod = false
is_ctl_del ctl_del = true

-- EINTR
abbrev pub interrupted : ℕ
interrupted = 4

-- what epoll_wait returned: the events that it reported, or a negative number with an errno
pub data Waited : Type 0 where
  reported : List EpollEvent → Waited
  wait_failed : ℕ → Waited

module _ (epoll : Epoll) where
  open epoll use {Kernel, ctl}

  pub record Poller : Type 0 where
    pub chan : ℕ → Channel
    pub channels : ℕ → Option ℕ
    pub events_size : ℕ
    pub kernel : Kernel

  abbrev pub set_index : Poller → ℕ → Index → Poller
  set_index s c i = record s { chan = update s.chan c (record (s.chan c) { index = i }) }

  abbrev pub set_revents : Poller → ℕ → ℕ → Poller
  set_revents s c r = record s { chan = update s.chan c (record (s.chan c) { revents = r }) }

  -- Channel::update and the like begin by a change of the channel itself
  abbrev pub set_channel : Poller → ℕ → Channel → Poller
  set_channel s c ch = record s { chan = update s.chan c ch }

  -- EpollPoller::update
  unfoldable pub update_kernel : CtlOp → Poller → ℕ → Run Poller
  update_kernel operation s c =
      let event : EpollEvent = record { events = (s.chan c).events; ptr = c } in
      elim (ctl s.kernel operation (s.chan c).fd event) [
        | some k ↦ ok (record s { kernel = k })
        | none ↦ if is_ctl_del operation then ok s else abort
      ]

  unfoldable pub has_channel : Bool → Poller → ℕ → Run Bool
  has_channel in_loop s c = do assert in_loop; ok (is_some_of (s.channels (s.chan c).fd) c)

  -- the branch for kNew and kDeleted
  unfoldable pub add_channel : Poller → ℕ → Run Poller
  unfolding update_kernel
  add_channel s c = do
    let fd = (s.chan c).fd
    s' ←
        if is_fresh (s.chan c).index
        then (do
          assert (not (is_some (s.channels fd)))
          ok (record s { channels = update s.channels fd (some c) }))
        else (do assert (is_some (s.channels fd)); assert (is_some_of (s.channels fd) c); ok s)
    update_kernel ctl_add (set_index s' c added) c

  -- the branch for kAdded
  unfoldable pub change_channel : Poller → ℕ → Run Poller
  unfolding update_kernel
  change_channel s c = do
    let fd = (s.chan c).fd
    assert (is_some (s.channels fd))
    assert (is_some_of (s.channels fd) c)
    assert (is_added (s.chan c).index)
    if is_none_event (s.chan c)
        then (update_kernel ctl_del s c >>= λ s'. ok (set_index s' c deleted))
        else update_kernel ctl_mod s c

  unfoldable pub update_channel : Bool → Poller → ℕ → Run Poller
  unfolding add_channel change_channel
  update_channel in_loop s c = do
    assert in_loop
    if is_fresh (s.chan c).index || is_deleted (s.chan c).index
        then add_channel s c
        else change_channel s c

  unfoldable pub remove_channel : Bool → Poller → ℕ → Run Poller
  unfolding update_kernel
  remove_channel in_loop s c = do
    assert in_loop
    let fd = (s.chan c).fd
    let index = (s.chan c).index
    assert (is_some (s.channels fd))
    assert (is_some_of (s.channels fd) c)
    assert (is_none_event (s.chan c))
    assert (is_added index || is_deleted index)
    let erased = record s { channels = update s.channels fd none }
    s' ← if is_added index then update_kernel ctl_del erased c else ok erased
    ok (set_index s' c fresh)

  -- the loop of fillActiveChannels, with the list that it appends to
  unfoldable pub fill_active_channels : List EpollEvent → List ℕ → Poller → Run (List ℕ × Poller)
  fill_active_channels [] active s = ok (active, s)
  fill_active_channels (e ∷ es) active s =
      let rest = fill_active_channels es (active ++ e.ptr ∷ []) (set_revents s e.ptr e.events) in
      let fd = (s.chan e.ptr).fd in
      assert (is_some (s.channels fd)) >> (assert (is_some_of (s.channels fd) e.ptr) >> rest)

  -- the active channels and whether an error was logged
  pub record Polled : Type 0 where
    pub active : List ℕ
    pub logged : Bool
    pub poller : Poller

  unfoldable pub poll : Poller → List ℕ → Waited → Run Polled
  unfolding fill_active_channels
  poll s active (wait_failed errno) =
      ok (record { active = active; logged = not (errno == interrupted); poller = s })
  poll s active (reported es) =
      if ltb 0 (length es)
      then (do
        assert (leb (length es) s.events_size)
        (active', s') ← fill_active_channels es active s
        let size = if length es == s.events_size then s.events_size * 2 else s.events_size
        ok (record { active = active'; logged = false; poller = record s' { events_size = size } }))
      else ok (record { active = active; logged = false; poller = s })
