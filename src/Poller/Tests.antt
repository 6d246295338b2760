-- ===== src/Poller/Tests.antt =====
-- The poller over a table of registrations.
use my_learning.Base.{
  ◌+◌, ◌≡◌, ◌≢◌, refl, none, some, true, false, [], ◌∷◌, Run, ok, abort, arith, update, ◌>>=◌,
}
use my_learning.Epoll.{table}
use my_learning.Channel.{is_added, fresh, added, deleted, enable_reading, enable_writing}
use my_learning.Poller.{Poller, Polled, reported, set_channel, update_channel, remove_channel, poll}
use my_learning.Poller.Sync.{IsTable, IsSynced, ask}
use my_learning.Base.{◌⊎◌}
use my_learning.Poller.Update.{Updated, update_channel_synced}
use my_learning.Poller.Remove.{Removed, remove_channel_lem}

-- channel 0 has descriptor 5 and waits to be read, any other channel is new
abbrev sample : Poller table
sample = record {
  chan =
      update (λ c. record { fd = c + 10; events = 0; revents = 0; index = fresh }) 0
        (record { fd = 5; events = 3; revents = 0; index = added });
  channels = update (λ fd. none) 5 (some 0);
  events_size = 16;
  kernel = update (λ fd. none) 5 (some (record { events = 3; ptr = 0 }));
}

sample-IsTable : IsTable table sample
sample-IsTable = record { mapped = λ fd c h. ground arith; marked = λ c h. ground arith }

sample-IsSynced : IsSynced table sample
sample-IsSynced fd = ground arith

-- Channel 0 asks for writing too, channel 1 is added, and both are reported.
abbrev session : Run (Polled table)
session = do
  s ← update_channel table true (set_channel table sample 0 (enable_writing (sample.chan 0))) 0
  s' ← update_channel table true (set_channel table s 1 (enable_reading (s.chan 1))) 1
  poll table s' [] (reported (record { events = 1; ptr = 1 } ∷ record { events = 4; ptr = 0 } ∷ []))

session_active : (session >>= λ r. ok r.active) ≡ ok (1 ∷ 0 ∷ [])
unfolding update_channel poll enable_writing enable_reading
session_active = refl

session_watches :
    (session >>= λ r. ok (r.poller.kernel 11)) ≡ ok (some (record { events = 3; ptr = 1 }))
unfolding update_channel poll enable_writing enable_reading
session_watches = refl

-- channel 0 after disableAll
abbrev stopped : Poller table
stopped = record sample {
  chan = update sample.chan 0 (record { fd = 5; events = 0; revents = 0; index = deleted });
  kernel = λ fd. none;
}

stopped-IsTable : IsTable table stopped
stopped-IsTable = record { mapped = λ fd c h. ground arith; marked = λ c h. ground arith }

stopped-IsSynced : IsSynced table stopped
stopped-IsSynced fd = ground arith

update_channel_synced_example :
    ((s' : Poller table) × (update_channel table true (ask table sample 0 7) 0 ≡ ok s')
      × Updated table sample 0 7 sample-IsTable sample-IsSynced s')
    ⊎ ((is_added (sample.chan 0).index ≡ false)
        × (true ≡ false)
        × (update_channel table true (ask table sample 0 7) 0 ≡ abort))
update_channel_synced_example =
    update_channel_synced table sample 0 7 sample-IsTable sample-IsSynced (λ e. cc)

remove_channel_lem_example :
    ((stopped.chan 0).index ≢ fresh
      → (stopped.chan 0).events ≡ 0
      → (s' : Poller table) × (remove_channel table true stopped 0 ≡ ok s')
        × Removed table stopped 0 stopped-IsTable stopped-IsSynced s')
    × ((stopped.chan 0).index ≡ fresh → remove_channel table true stopped 0 ≡ abort)
    × ((stopped.chan 0).events ≢ 0 → remove_channel table true stopped 0 ≡ abort)
    × (remove_channel table false stopped 0 ≡ abort)
remove_channel_lem_example = remove_channel_lem table stopped 0 stopped-IsTable stopped-IsSynced
