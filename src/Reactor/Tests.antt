-- ===== src/Reactor/Tests.antt =====
-- A loop over the table of registrations.
use my_learning.Base.{
  ℕ, ◌+◌, ◌≡◌, refl, true, false, Option, none, some, List, [], ◌∷◌, Run, ok, abort, ◌>>=◌, arith,
  ◌==◌, if◌then◌else◌,
}
use my_learning.Epoll.{EpollEvent, table}
use my_learning.Channel
use my_learning.Channel.{fresh}
use my_learning.Poller.{Poller, reported, poll, update_channel, remove_channel}
use my_learning.Reactor.{
  Reactor, Demand, Round, change, remove, enable_reading, enable_writing, disable_all, iterate_each,
}
use my_learning.Reactor.Board.{Board, board}
use my_learning.Base.Both.{Both}
use my_learning.Reactor.Simulation.{IsAlike}
use my_learning.Reactor.Watch.{epoll_poller, Shows, apply}
use my_learning.Reactor.Polled.{IsServed, iterate_each_lem}
use my_learning.Reactor.Lifetime.{
  Threads, construct, destroy, started, IsMortal, IsNew, lifetime_lem,
}

-- every channel is new
abbrev new_poller : Poller table
new_poller = record {
  chan = λ c. record { fd = c + 10; events = 0; revents = 0; index = fresh };
  channels = λ fd. none;
  events_size = 16;
  kernel = λ fd. none;
}

abbrev new_board : Board
new_board = record { events = λ c. 0; listed = λ c. false; capacity = 16 }

abbrev new_loop : Reactor (epoll_poller table)
new_loop = record {
  owned = λ c. true;
  event_handling = false;
  active_channel = [];
  current_active_channel = none;
  object = new_poller;
}

abbrev new_board_loop : Reactor board
new_board_loop = record {
  owned = λ c. true;
  event_handling = false;
  active_channel = [];
  current_active_channel = none;
  object = new_board;
}

new_poller-Shows : Shows table new_poller new_board
new_poller-Shows = record {
  table = record { mapped = λ fd c h. ground arith; marked = λ c h. absurd (h refl) };
  synced = λ fd. refl;
  distinct = λ c d h. omega arith;
  events = λ c. refl;
  listed = λ c. refl;
  quiet = λ c h. cc;
  capacity = refl;
  takes = λ k fd. refl;
}

new_loop-IsAlike : IsAlike (epoll_poller table) board (Shows table) new_loop new_board_loop
new_loop-IsAlike = record {
  owned = λ c. refl;
  event_handling = refl;
  active_channel = refl;
  current_active_channel = refl;
  object = new_poller-Shows;
}

-- A functor enlists the channels 0 and 1; both become active, and channel 0 removes itself.
abbrev setup : Round
setup = record {
  waited = reported [];
  callbacks = λ c. [];
  functors = change enable_reading 0 ∷ change enable_writing 1 ∷ [];
}

abbrev both_active : (ℕ → List Demand) → Round
both_active callbacks = record {
  waited = reported (record { events = 1; ptr = 0 } ∷ record { events = 4; ptr = 1 } ∷ []);
  callbacks = callbacks;
  functors = [];
}

abbrev leaving : ℕ → ℕ → List Demand
leaving c d = if d == 0 then change disable_all c ∷ remove c ∷ [] else []

abbrev after : Round → Run (Reactor (epoll_poller table))
after r = iterate_each (epoll_poller table) (setup ∷ r ∷ []) new_loop

removes_itself : (after (both_active (leaving 0)) >>= λ l. ok (l.object.kernel 10)) ≡ ok none
unfolding iterate_each poll update_channel remove_channel apply Channel.enable_reading
    Channel.enable_writing Channel.disable_all
removes_itself = refl

-- Another active channel must not be removed.
removes_other : after (both_active (leaving 1)) ≡ abort
unfolding iterate_each poll update_channel remove_channel apply Channel.enable_reading
    Channel.enable_writing Channel.disable_all
removes_other = refl

iterate_each_lem_example :
    Both
      (IsServed table)
      (iterate_each (epoll_poller table) (setup ∷ both_active (leaving 0) ∷ []) new_loop)
      (iterate_each board (setup ∷ both_active (leaving 0) ∷ []) new_board_loop)
iterate_each_lem_example =
    iterate_each_lem table (setup ∷ both_active (leaving 0) ∷ []) new_loop new_board_loop
      new_loop-IsAlike

abbrev no_loops : Threads
no_loops = λ tid. none

-- A loop of thread 7 has the id 1, the channel 3 of its timerfd and the wakeup channel 2.
abbrev born_loop : Run (Threads × Reactor (epoll_poller table))
born_loop = construct (epoll_poller table) 7 1 3 2 new_poller no_loops

abbrev dead_loop : ℕ → Run (Threads × Reactor (epoll_poller table))
dead_loop other = born_loop >>= λ r. destroy (epoll_poller table) other 7 3 2 r.1 r.0

-- whose loop thread 7 has, and what the kernel watches of the wakeup channel
abbrev seen : Threads × Reactor (epoll_poller table) → Option ℕ × Option EpollEvent
seen r = (r.0 7, r.1.object.kernel 12)

watched_once : (born_loop >>= λ r. ok (seen r)) ≡ ok (some 1, some (record { events = 3; ptr = 2 }))
unfolding construct update_channel apply Channel.enable_reading
watched_once = refl

ended : (dead_loop 7 >>= λ r. ok (seen r)) ≡ ok (none, none)
unfolding construct destroy update_channel remove_channel apply Channel.enable_reading
    Channel.disable_all
ended = refl

ended_elsewhere : dead_loop 8 ≡ abort
unfolding construct destroy update_channel remove_channel apply Channel.enable_reading
    Channel.disable_all
ended_elsewhere = refl

lifetime_lem_example :
    (threads' : Threads) × (l : Reactor (epoll_poller table)) × (construct
        (epoll_poller table)
        7
        1
        3
        2
        new_poller
        no_loops
      ≡ ok (threads', l))
    × IsNew table 7 1 3 2 threads' l
    × Both
        (λ l' m. IsMortal table 7 3 2 threads' l')
        (iterate_each (epoll_poller table) (setup ∷ both_active (leaving 0) ∷ []) l)
        (iterate_each board (setup ∷ both_active (leaving 0) ∷ []) (started table new_board 3 2))
lifetime_lem_example =
    lifetime_lem table 7 1 3 2 no_loops new_poller new_board (setup ∷ both_active (leaving 0) ∷ [])
      new_poller-Shows (omega arith) refl refl refl
