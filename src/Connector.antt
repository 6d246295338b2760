-- ===== src/Connector.antt =====
-- myMuduo/lib/Connector.hpp and Connector.cpp.
-- `sockets` are the descriptors that the connector has opened and neither closed nor given to its
-- callback; to close another one is `abort`. `queued` is what it has queued in its loop, `timers` the
-- number of its timers that have not fired, and `connections` what the callback got. What the kernel
-- answers is an argument of each operation. All of it runs in the loop's thread.
pub mod Steps
pub mod Start
pub mod Backoff
mod Tests
use my_learning.Base.{
  ℕ, suc, ◌+◌, ◌-◌, ◌*◌, min, Bool, true, false, ◌&&◌, not, Option, none, some, List, [], ◌∷◌, ◌++◌,
  ◌==◌, if◌then◌else◌, Run, ok, abort, ◌>>=◌, ◌>>◌, assert, is_some,
}

pub data States : Type 0 where
  disconnected : States
  connecting : States
  connected : States

pub data Errno : Type 0 where
  success : Errno
  einprogress : Errno
  eintr : Errno
  eisconn : Errno
  eagain : Errno
  eaddrinuse : Errno
  eaddrnotavail : Errno
  econnrefused : Errno
  enetunreach : Errno
  -- any other one, of which all are only logged
  other : ℕ → Errno

pub data Task : Type 0 where
  start_in_loop_task : Task
  stop_in_loop_task : Task
  reset_channel_task : Task

pub record Connector : Type 0 where
  pub connect_flag : Bool
  pub state : States
  -- the descriptor of the channel
  pub channel : Option ℕ
  pub retry_delay_ms : ℕ
  pub queued : List Task
  pub timers : ℕ
  pub sockets : List ℕ
  pub connections : List ℕ

abbrev pub max_retry_delay_ms : ℕ
max_retry_delay_ms = 30 * 1000

abbrev pub init_retry_delay_ms : ℕ
init_retry_delay_ms = 500

abbrev pub new_connector : Connector
new_connector = record {
  connect_flag = false;
  state = disconnected;
  channel = none;
  retry_delay_ms = init_retry_delay_ms;
  queued = [];
  timers = 0;
  sockets = [];
  connections = [];
}

-- the answer of socket(2) and connect(2): the descriptor, and the errno
pub record Dialled : Type 0 where
  pub sockfd : ℕ
  pub errno : Errno

abbrev pub is_disconnected : States → Bool
is_disconnected disconnected = true
is_disconnected connecting = false
is_disconnected connected = false

abbrev pub is_connecting : States → Bool
is_connecting disconnected = false
is_connecting connecting = true
is_connecting connected = false

abbrev pub queue_in_loop : Task → Connector → Connector
queue_in_loop task c = record c { queued = c.queued ++ task ∷ [] }

-- to give a descriptor away, by close or by the callback
unfoldable pub release : ℕ → List ℕ → Run (List ℕ)
release fd [] = abort
release fd (s ∷ sockets) =
    let rest = release fd sockets in if s == fd then ok sockets else rest >>= λ left. ok (s ∷ left)

unfoldable pub close : ℕ → Connector → Run Connector
unfolding release
close fd c = release fd c.sockets >>= λ left. ok (record c { sockets = left })

unfoldable pub retry : ℕ → Connector → Run Connector
unfolding close
retry sockfd c = do
  c₁ ← close sockfd c
  let c₂ = record c₁ { state = disconnected }
  ok (
      if c₂.connect_flag
      then record c₂ {
        timers = suc c₂.timers;
        retry_delay_ms = min (c₂.retry_delay_ms * 2) max_retry_delay_ms;
      }
      else c₂)

unfoldable pub start_connecting : ℕ → Connector → Run Connector
start_connecting sockfd c = do
  let c₁ = record c { state = connecting }
  assert (not (is_some c₁.channel))
  ok (record c₁ { channel = some sockfd })

unfoldable pub connect : Dialled → Connector → Run Connector
unfolding start_connecting retry close
connect d c =
    let c₁ = record c { sockets = d.sockfd ∷ c.sockets } in
    elim d.errno [
      | success ↦ start_connecting d.sockfd c₁
      | einprogress ↦ start_connecting d.sockfd c₁
      | eintr ↦ start_connecting d.sockfd c₁
      | eisconn ↦ start_connecting d.sockfd c₁
      | eagain ↦ retry d.sockfd c₁
      | eaddrinuse ↦ retry d.sockfd c₁
      | eaddrnotavail ↦ retry d.sockfd c₁
      | econnrefused ↦ retry d.sockfd c₁
      | enetunreach ↦ retry d.sockfd c₁
      | other n ↦ close d.sockfd c₁
    ]

unfoldable pub start : Connector → Connector
start c = queue_in_loop start_in_loop_task (record c { connect_flag = false })

unfoldable pub start_in_loop : Dialled → Connector → Run Connector
unfolding connect
start_in_loop d c = do
  assert (is_disconnected c.state)
  if c.connect_flag then connect d c else ok c

unfoldable pub stop : Connector → Connector
stop c = queue_in_loop stop_in_loop_task (record c { connect_flag = false })

-- the channel leaves the poller at once and is freed by the queued task
unfoldable pub remove_and_reset_channel : Connector → Run (ℕ × Connector)
remove_and_reset_channel c = elim c.channel [
  | none ↦ abort
  | some sockfd ↦
      let result : ℕ × Connector = (sockfd, queue_in_loop reset_channel_task c) in ok result
]

unfoldable pub reset_channel : Connector → Connector
reset_channel c = record c { channel = none }

unfoldable pub stop_in_loop : Connector → Run Connector
unfolding remove_and_reset_channel retry
stop_in_loop c =
    if is_connecting c.state
    then (do
      (sockfd, c₁) ← remove_and_reset_channel (record c { state = disconnected })
      retry sockfd c₁)
    else ok c

unfoldable pub restart : Dialled → Connector → Run Connector
unfolding start_in_loop
restart d c =
    start_in_loop d
      (record c { state = disconnected; retry_delay_ms = init_retry_delay_ms; connect_flag = true })

-- `err` is getSocketError, `self` is isSelfConnect
unfoldable pub handle_write : Bool → Bool → Connector → Run Connector
unfolding remove_and_reset_channel retry close release
handle_write err self c =
    if is_connecting c.state
    then (do
      (sockfd, c₁) ← remove_and_reset_channel c
      if err
          then retry sockfd c₁
          else (if self then retry sockfd c₁ else (do
            let c₂ = record c₁ { state = connected }
            if c₂.connect_flag
                then (do
                  left ← release sockfd c₂.sockets
                  ok (record c₂ { sockets = left; connections = c₂.connections ++ sockfd ∷ [] }))
                else close sockfd c₂)))
    else (do assert (is_disconnected c.state); ok c)

unfoldable pub handle_error : Connector → Run Connector
unfolding remove_and_reset_channel retry
handle_error c =
    if is_connecting c.state
    then (do (sockfd, c₁) ← remove_and_reset_channel c; retry sockfd c₁)
    else ok c

unfoldable pub perform : Dialled → Task → Connector → Run Connector
unfolding start_in_loop stop_in_loop reset_channel
perform d start_in_loop_task c = start_in_loop d c
perform d stop_in_loop_task c = stop_in_loop c
perform d reset_channel_task c = ok (reset_channel c)

-- the loop calls the queued functors, and those that they queue in the next round
unfoldable pub perform_each : Dialled → List Task → Connector → Run Connector
unfolding perform
perform_each d [] c = ok c
perform_each d (task ∷ tasks) c = perform d task c >>= perform_each d tasks

unfoldable pub do_pending : Dialled → Connector → Run Connector
unfolding perform_each
do_pending d c = perform_each d c.queued (record c { queued = [] })

-- the destructor, once the channel is freed
unfoldable pub destroy : Connector → Run Connector
destroy c = do assert (not (is_some c.channel)); ok c

pub data Event : Type 0 where
  starts : Event
  stops : Event
  restarts : Event
  writable : (err self : Bool) → Event
  fails : Event
  -- EPOLLERR with EPOLLOUT: Channel::handleEvent calls both callbacks
  fails_writable : (err self : Bool) → Event
  timer : Event

unfoldable pub handle : Dialled → Event → Connector → Run Connector
unfolding start stop restart handle_write handle_error start_in_loop
handle d starts c = ok (start c)
handle d stops c = ok (stop c)
handle d restarts c = restart d c
handle d (writable err self) c = handle_write err self c
handle d fails c = handle_error c
handle d (fails_writable err self) c = handle_error c >>= handle_write err self
handle d timer c = start_in_loop d (record c { timers = c.timers - 1 })

-- an event, and two rounds of pending functors
unfoldable pub step : Dialled → Event → Connector → Run Connector
unfolding handle do_pending
step d e c = do c₁ ← handle d e c; c₂ ← do_pending d c₁; do_pending d c₂
