-- ===== src/PollPoller/Tests.antt =====
-- A poller with two descriptors, of which one has an event.
use my_learning.Base.{ℕ, ◌≡◌, refl, arith, true, none, some, [], ◌∷◌, update, abort}
use my_learning.PollPoller.{
  PollChannel, PollPoller, new_poller, update_channel, handle_event, error_callback, read_callback,
  write_callback,
}
use my_learning.PollPoller.Update.{update_channel_aborts}

abbrev channel : ℕ → PollChannel
channel c = record { fd = c; events = 3; revents = 0; index = none }

abbrev two : PollPoller
two = record {
  pollfds =
      record { fd = some 5; events = 3; revents = 0 }
      ∷ record { fd = some 6; events = 3; revents = 1 }
      ∷ [];
  channels = update (update (λ fd. none) 5 (some 5)) 6 (some 6);
  chan = channel;
}

-- POLLIN is 1: a channel that can be read runs no callback at all
read_ignored : handle_event 1 true true true ≡ []
unfolding handle_event
read_ignored = refl

all_three : handle_event 46 true true true ≡ error_callback ∷ read_callback ∷ write_callback ∷ []
unfolding handle_event
all_three = refl

update_channel_aborts_example : update_channel true 0 (new_poller channel) 7 ≡ abort
update_channel_aborts_example =
    update_channel_aborts true 0 (new_poller channel) 7 (λ c' h. absurd (ground (arith, h)))
