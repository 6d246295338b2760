-- ===== src/Reactor.antt =====
-- How myMuduo/lib/EventLoop.cpp hands its channels to its poller: updateChannel, removeChannel and
-- hasChannel, and the loop's body with what callbacks and functors ask of channels. The poller is any
-- class with the operations of myMuduo/lib/Poller.hpp. All of it runs in the loop's thread, except
-- where `in_loop` says whether it does.
pub mod Simulation
pub mod Board
pub mod Watch
pub mod Polled
pub mod Kept
pub mod Lifetime
mod Tests
use Prim.Native.Nat.{bit_and, bit_or}
use my_learning.Base.{
  ℕ, Bool, true, false, ◌&&◌, ◌||◌, not, Option, none, some, List, [], ◌∷◌, ◌==◌, if◌then◌else◌,
  Run, ok, abort, ◌>>=◌, ◌>>◌, assert,
}
use my_learning.Channel.{read_event, write_event, none_event, complement}
use my_learning.Poller.{Waited}

-- the changes of a channel's events, and the mask that each makes of the old one
pub data Change : Type 0 where
  enable_reading disable_reading enable_writing disable_writing disable_all : Change

unfoldable pub changed : Change → ℕ → ℕ
changed enable_reading events = bit_or events read_event
changed disable_reading events = bit_and events (complement read_event)
changed enable_writing events = bit_or events write_event
changed disable_writing events = bit_and events (complement write_event)
changed disable_all events = none_event

-- A class of pollers, with the channels' events in its objects.
pub record PollerClass : Type 1 where
  pub Object : Type 0
  pub set_events : Change → ℕ → Object → Object
  pub update : ℕ → Object → Run Object
  pub remove : ℕ → Object → Run Object
  pub has : ℕ → Object → Run Bool
  pub wait : Waited → Object → Run (List ℕ × Object)

-- std::find
unfoldable pub contains : List ℕ → ℕ → Bool
contains [] c = false
contains (d ∷ active) c = d == c || contains active c

abbrev pub is_current : Option ℕ → ℕ → Bool
is_current none c = false
is_current (some d) c = d == c

-- what a callback or a functor asks of a channel: a change with its update(), or remove()
pub data Demand : Type 0 where
  change : Change → ℕ → Demand
  remove : ℕ → Demand

-- what poll meets, what each active channel's callback asks, and what the pending functors ask
pub record Round : Type 0 where
  pub waited : Waited
  pub callbacks : ℕ → List Demand
  pub functors : List Demand

module _ (poller : PollerClass) where
  pub record Reactor : Type 0 where
    -- whether a channel's ownerLoop() is this loop
    pub owned : ℕ → Bool
    pub event_handling : Bool
    pub active_channel : List ℕ
    pub current_active_channel : Option ℕ
    pub object : poller.Object

  unfoldable pub update_channel : Bool → ℕ → Reactor → Run Reactor
  update_channel in_loop c l = do
    assert (l.owned c)
    assert in_loop
    object ← poller.update c l.object
    ok (record l { object = object })

  unfoldable pub remove_channel : Bool → ℕ → Reactor → Run Reactor
  unfolding contains
  remove_channel in_loop c l = do
    assert (l.owned c)
    assert in_loop
    assert (
        if l.event_handling
        then is_current l.current_active_channel c || not (contains l.active_channel c)
        else true)
    object ← poller.remove c l.object
    ok (record l { object = object })

  unfoldable pub has_channel : Bool → ℕ → Reactor → Run Bool
  has_channel in_loop c l = do assert (l.owned c); assert in_loop; poller.has c l.object

  unfoldable pub perform : Demand → Reactor → Run Reactor
  unfolding update_channel remove_channel
  perform (change k c) l =
      update_channel true c (record l { object = poller.set_events k c l.object })
  perform (remove c) l = remove_channel true c l

  unfoldable pub perform_each : List Demand → Reactor → Run Reactor
  unfolding perform
  perform_each [] l = ok l
  perform_each (d ∷ demands) l = perform d l >>= perform_each demands

  -- the loop over the active channels
  unfoldable pub handle_events : (ℕ → List Demand) → List ℕ → Reactor → Run Reactor
  unfolding perform_each
  handle_events callbacks [] l = ok l
  handle_events callbacks (c ∷ active) l =
      perform_each (callbacks c) (record l { current_active_channel = some c })
      >>= handle_events callbacks active

  -- one iteration
  unfoldable pub iterate : Round → Reactor → Run Reactor
  unfolding handle_events perform_each
  iterate r l = do
    (active, object) ← poller.wait r.waited l.object
    let polled = record l { active_channel = active; event_handling = true; object = object }
    handled ← handle_events r.callbacks active polled
    perform_each r.functors
        (record handled { current_active_channel = none; event_handling = false })

  unfoldable pub iterate_each : List Round → Reactor → Run Reactor
  unfolding iterate
  iterate_each [] l = ok l
  iterate_each (r ∷ rounds) l = iterate r l >>= iterate_each rounds
