-- ===== src/PollPoller.antt =====
-- muduo/lib/poller.cpp and channel.cpp: the earlier network library's poller, on poll(2). An index of -1
-- and a descriptor of -1 are none. What poll(2) writes into `revents` is part of the state; a field that
-- is not initialised is an argument. An exception that is not caught aborts.
pub mod Fill
pub mod Update
mod Tests
use Prim.Native.Nat.{bit_and, bit_or}
use my_learning.Base.{
  ℕ, zero, suc, ◌+◌, ◌-◌, ◌%◌, Bool, true, false, not, ◌&&◌, ◌||◌, Option, none, some, is_some,
  List, [], ◌∷◌, ◌++◌, length, get_elem?, set, ltb, ◌==◌, update, is_some_of, if◌then◌else◌, Run,
  ok, abort, ◌>>=◌, ◌>>◌, assert,
}

pub record PollFd : Type 0 where
  pub fd : Option ℕ
  pub events : ℕ
  pub revents : ℕ

pub record PollChannel : Type 0 where
  pub fd : ℕ
  pub events : ℕ
  pub revents : ℕ
  pub index : Option ℕ

pub record PollPoller : Type 0 where
  pub pollfds : List PollFd
  -- the channel of a descriptor
  pub channels : ℕ → Option ℕ
  pub chan : ℕ → PollChannel

-- Poller::Poller
abbrev pub new_poller : (ℕ → PollChannel) → PollPoller
new_poller chan = record { pollfds = []; channels = λ fd. none; chan = chan }

abbrev pub set_index : PollPoller → ℕ → ℕ → PollPoller
set_index s c i = record s { chan = update s.chan c (record (s.chan c) { index = some i }) }

abbrev pub set_revents : (ℕ → PollChannel) → ℕ → ℕ → ℕ → PollChannel
set_revents chan c r = update chan c (record (chan c) { revents = r })

-- `channels_.at(fd) = channel`, which throws where there is no such key
unfoldable pub put_at : PollPoller → ℕ → ℕ → Run PollPoller
put_at s fd c =
    if is_some (s.channels fd)
    then ok (record s { channels = update s.channels fd (some c) })
    else abort

-- the branch of updateChannel for a new channel; line 47 compares `revents` and does not set it
unfoldable pub add_channel : ℕ → PollPoller → ℕ → Run PollPoller
add_channel stale s c =
    let ch = s.chan c in
    assert (not (is_some (s.channels ch.fd)))
    >> (let pfd : PollFd = record {
      fd = some ch.fd;
      events = ch.events % 0x10000;
      revents = stale;
    } in
        let pushed = record s { pollfds = s.pollfds ++ pfd ∷ [] } in
        put_at (set_index pushed c (length pushed.pollfds - 1)) ch.fd c)

-- `pfd.fd == channel->fd() || pfd.fd == -1`
abbrev pub is_own_or_none : Option ℕ → ℕ → Bool
is_own_or_none none fd = true
is_own_or_none (some f) fd = f == fd

-- its branch for a channel with an index
unfoldable pub change_channel : PollPoller → ℕ → ℕ → Run PollPoller
change_channel s c idx =
    let ch = s.chan c in
    assert (is_some (s.channels ch.fd))
    >> assert (not (is_some_of (s.channels ch.fd) c))
    >> elim (get_elem? s.pollfds idx) [
      | none ↦ abort
      | some pfd ↦
          assert (is_own_or_none pfd.fd ch.fd)
          >> (let changed : PollFd = record {
            fd = if ch.events == 0 then none else pfd.fd;
            events = ch.events % 0x10000;
            revents = 0;
          } in
              ok (record s { pollfds = set s.pollfds idx changed }))
    ]

unfoldable pub update_channel : Bool → ℕ → PollPoller → ℕ → Run PollPoller
update_channel in_loop_thread stale s c =
    assert in_loop_thread
    >> elim (s.chan c).index [ none ↦ add_channel stale s c | some idx ↦ change_channel s c idx ]

-- fillActiveChannels: the channels that it appends and the channels' new states
unfoldable pub fill_active_channels :
    (ℕ → Option ℕ) → ℕ → List PollFd → (ℕ → PollChannel) → Run (List ℕ × (ℕ → PollChannel))
fill_active_channels channels num_events [] chan =
    let none_left : List ℕ × (ℕ → PollChannel) = ([], chan) in ok none_left
fill_active_channels channels zero (pfd ∷ rest) chan =
    let all_found : List ℕ × (ℕ → PollChannel) = ([], chan) in ok all_found
fill_active_channels channels (suc n) (pfd ∷ rest) chan =
    if ltb 0 pfd.revents
    then elim pfd.fd [
      | none ↦ abort
      | some fd ↦ elim (channels fd) [
        | none ↦ abort
        | some c ↦ do
          assert ((chan c).fd == fd)
          (active, chan') ← fill_active_channels channels n rest (set_revents chan c pfd.revents)
          let found : List ℕ × (ℕ → PollChannel) = (c ∷ active, chan') in ok found
      ]
    ]
    else fill_active_channels channels (suc n) rest chan

-- what poll(2) returned: how many descriptors have events, or -1
unfoldable pub poll : Option ℕ → PollPoller → Run (List ℕ × PollPoller)
poll none s = let failed : List ℕ × PollPoller = ([], s) in ok failed
poll (some num_events) s = do
  (active, chan) ← fill_active_channels s.channels num_events s.pollfds s.chan
  let filled : List ℕ × PollPoller = (active, record s { chan = chan }) in ok filled

-- the callbacks that Channel::handleEvent runs, in order; POLLNVAL is 32, POLLERR 8, POLLPRI 2,
-- POLLRDHUP 8192 and POLLOUT 4
pub data Called : Type 0 where
  error_callback read_callback write_callback : Called

abbrev pub called_if : Bool → Bool → Called → List Called
called_if event set c = if event && set then c ∷ [] else []

abbrev pub has_event : ℕ → ℕ → Bool
has_event revents mask = not (bit_and revents mask == 0)

unfoldable pub handle_event : ℕ → Bool → Bool → Bool → List Called
handle_event revents on_error on_read on_write =
    called_if (has_event revents 40) on_error error_callback
    ++ (called_if (has_event revents 8194) on_read read_callback
        ++ called_if (has_event revents 4) on_write write_callback)
