-- ===== src/Connector/Steps.antt =====
-- Each event takes a connector from one settled state to another.
use my_learning.Base.{
  ℕ, ◌⊎◌, inl, inr, ◌*◌, min, ◌≡◌, ◌≤◌, refl, sym, Bool, true, false, none, some, List, [], ◌∷◌,
  ◌++◌, ok, Run, arith, ◌>>=◌, subst,
}
use my_learning.Connector.{
  Connector, disconnected, connecting, connected, Errno, success, einprogress, eintr, eisconn,
  eagain, eaddrinuse, eaddrnotavail, econnrefused, enetunreach, other, Dialled, max_retry_delay_ms,
  init_retry_delay_ms, Event, starts, stops, restarts, writable, fails, fails_writable, timer,
  is_connecting, is_disconnected, connect, step, do_pending, retry, destroy, States,
}

-- no channel and no descriptor, and at most one timer to try again
abbrev pub idle : Bool → ℕ → ℕ → List ℕ → Connector
idle flag delay timers connections = record {
  connect_flag = flag;
  state = disconnected;
  channel = none;
  retry_delay_ms = delay;
  queued = [];
  timers = timers;
  sockets = [];
  connections = connections;
}

-- one descriptor, and the channel waits for it
abbrev pub dialling : Bool → ℕ → ℕ → List ℕ → Connector
dialling flag delay fd connections = record {
  connect_flag = flag;
  state = connecting;
  channel = some fd;
  retry_delay_ms = delay;
  queued = [];
  timers = 0;
  sockets = fd ∷ [];
  connections = connections;
}

-- the callback owns the descriptor, or it is closed
abbrev pub settled : Bool → ℕ → List ℕ → Connector
settled flag delay connections = record {
  connect_flag = flag;
  state = connected;
  channel = none;
  retry_delay_ms = delay;
  queued = [];
  timers = 0;
  sockets = [];
  connections = connections;
}

abbrev pub IsDelay : ℕ → Type 0
IsDelay delay = (init_retry_delay_ms ≤ delay) × (delay ≤ max_retry_delay_ms)

-- The descriptors that the connector holds are exactly that of its channel while it connects.
pub data IsValid : Connector → Type 0 where
  is_idle :
      (flag : Bool) (delay timers : ℕ) (connections : List ℕ)
      → IsDelay delay
      → timers ≤ 1
      → IsValid (idle flag delay timers connections)
  is_dialling :
      (flag : Bool) (delay fd : ℕ) (connections : List ℕ)
      → IsDelay delay
      → IsValid (dialling flag delay fd connections)
  is_settled :
      (flag : Bool) (delay : ℕ) (connections : List ℕ)
      → IsDelay delay
      → IsValid (settled flag delay connections)

-- start and restart are called when no connection is under way, and restart when no timer is left to
-- try again; a channel that the connector has given up has no events; a timer fires only once.
abbrev pub is_connected : States → Bool
is_connected disconnected = false
is_connected connecting = false
is_connected connected = true

abbrev pub IsAllowed : Event → Connector → Type 0
IsAllowed starts c = is_disconnected c.state ≡ true
IsAllowed stops c = Unit
IsAllowed restarts c = (is_connecting c.state ≡ false) × (c.timers ≡ 0)
IsAllowed (writable err self) c = is_connected c.state ≡ false
IsAllowed fails c = Unit
IsAllowed (fails_writable err self) c = is_connected c.state ≡ false
IsAllowed timer c = c.timers ≡ 1

abbrev Stepped : Run Connector → Type 0
Stepped run = (c' : Connector) × (run ≡ ok c') × IsValid c'

abbrev pub longer : ℕ → ℕ
longer delay = min (delay * 2) max_retry_delay_ms

longer-IsDelay : (delay : ℕ) → IsDelay delay → IsDelay (longer delay)
longer-IsDelay delay (low, high) = (omega (arith, low), omega arith)

abbrev pub drain : Dialled → Run Connector → Run Connector
drain d run = run >>= λ c₁. do_pending d c₁ >>= do_pending d

dial_later :
    (e : Dialled) (fd delay : ℕ) (cs : List ℕ)
    → IsDelay delay
    → Stepped (drain e (retry fd (record (idle true delay 0 cs) { sockets = fd ∷ [] })))
unfolding retry do_pending
dial_later e fd delay cs b = (
  idle true (longer delay) 1 cs,
  ground arith,
  is_idle true (longer delay) 1 cs (longer-IsDelay delay b) (omega arith),
)

dial-Stepped :
    (e : Dialled) (fd : ℕ) (errno : Errno) (delay : ℕ) (connections : List ℕ)
    → IsDelay delay
    → Stepped
        (drain e (connect (record { sockfd = fd; errno = errno }) (idle true delay 0 connections)))
unfolding connect do_pending
dial-Stepped e fd success delay cs b =
    (dialling true delay fd cs, refl, is_dialling true delay fd cs b)
dial-Stepped e fd einprogress delay cs b =
    (dialling true delay fd cs, refl, is_dialling true delay fd cs b)
dial-Stepped e fd eintr delay cs b =
    (dialling true delay fd cs, refl, is_dialling true delay fd cs b)
dial-Stepped e fd eisconn delay cs b =
    (dialling true delay fd cs, refl, is_dialling true delay fd cs b)
dial-Stepped e fd eagain delay cs b = dial_later e fd delay cs b
dial-Stepped e fd eaddrinuse delay cs b = dial_later e fd delay cs b
dial-Stepped e fd eaddrnotavail delay cs b = dial_later e fd delay cs b
dial-Stepped e fd econnrefused delay cs b = dial_later e fd delay cs b
dial-Stepped e fd enetunreach delay cs b = dial_later e fd delay cs b
dial-Stepped e fd (other n) delay cs b =
    (idle true delay 0 cs, ground arith, is_idle true delay 0 cs b (omega arith))

failed :
    (e : Dialled) (flag : Bool) (fd delay : ℕ) (cs : List ℕ)
    → IsDelay delay
    → Stepped (step e fails (dialling flag delay fd cs))
unfolding step
failed e true fd delay cs b = (
  idle true (longer delay) 1 cs,
  ground arith,
  is_idle true (longer delay) 1 cs (longer-IsDelay delay b) (omega arith),
)
failed e false fd delay cs b =
    (idle false delay 0 cs, ground arith, is_idle false delay 0 cs b (omega arith))

failed_written :
    (e : Dialled) (err self flag : Bool) (fd delay : ℕ) (cs : List ℕ)
    → IsDelay delay
    → Stepped (step e (fails_writable err self) (dialling flag delay fd cs))
unfolding step
failed_written e err self true fd delay cs b = (
  idle true (longer delay) 1 cs,
  ground arith,
  is_idle true (longer delay) 1 cs (longer-IsDelay delay b) (omega arith),
)
failed_written e err self false fd delay cs b =
    (idle false delay 0 cs, ground arith, is_idle false delay 0 cs b (omega arith))

written :
    (e : Dialled) (err self flag : Bool) (fd delay : ℕ) (cs : List ℕ)
    → IsDelay delay
    → Stepped (step e (writable err self) (dialling flag delay fd cs))
unfolding step
written e true self flag fd delay cs b = failed e flag fd delay cs b
written e false true flag fd delay cs b = failed e flag fd delay cs b
written e false false true fd delay cs b =
    (settled true delay (cs ++ fd ∷ []), ground arith, is_settled true delay (cs ++ fd ∷ []) b)
written e false false false fd delay cs b =
    (settled false delay cs, ground arith, is_settled false delay cs b)

step-Stepped :
    (d : Dialled) (e : Event) (c : Connector) → IsValid c → IsAllowed e c → Stepped (step d e c)
unfolding step
step-Stepped d starts c (is_idle flag delay t cs b k) a =
    (idle false delay t cs, refl, is_idle false delay t cs b k)
step-Stepped d starts c (is_dialling flag delay fd cs b) a =
    let no : ⊥ = ground (arith, a) in absurd no
step-Stepped d starts c (is_settled flag delay cs b) a = let no : ⊥ = ground (arith, a) in absurd no
step-Stepped d stops c (is_idle flag delay t cs b k) a =
    (idle false delay t cs, refl, is_idle false delay t cs b k)
step-Stepped d stops c (is_dialling flag delay fd cs b) a =
    (idle false delay 0 cs, ground arith, is_idle false delay 0 cs b (omega arith))
step-Stepped d stops c (is_settled flag delay cs b) a =
    (settled false delay cs, refl, is_settled false delay cs b)
step-Stepped d restarts c (is_idle flag delay t cs b k) (n, z) =
    subst (λ u. Stepped (step d restarts (idle flag delay u cs))) (sym z)
      (dial-Stepped d d.sockfd d.errno 500 cs (omega arith, omega arith))
step-Stepped d restarts c (is_dialling flag delay fd cs b) (n, z) =
    let no : ⊥ = ground (arith, n) in absurd no
step-Stepped d restarts c (is_settled flag delay cs b) (n, z) =
    dial-Stepped d d.sockfd d.errno 500 cs (omega arith, omega arith)
step-Stepped d (writable err self) c (is_idle flag delay t cs b k) a =
    (idle flag delay t cs, refl, is_idle flag delay t cs b k)
step-Stepped d (writable err self) c (is_dialling flag delay fd cs b) a =
    written d err self flag fd delay cs b
step-Stepped d (writable err self) c (is_settled flag delay cs b) a =
    let no : ⊥ = ground (arith, a) in absurd no
step-Stepped d fails c (is_idle flag delay t cs b k) a =
    (idle flag delay t cs, refl, is_idle flag delay t cs b k)
step-Stepped d fails c (is_dialling flag delay fd cs b) a = failed d flag fd delay cs b
step-Stepped d fails c (is_settled flag delay cs b) a =
    (settled flag delay cs, refl, is_settled flag delay cs b)
step-Stepped d (fails_writable err self) c (is_idle flag delay t cs b k) a =
    (idle flag delay t cs, refl, is_idle flag delay t cs b k)
step-Stepped d (fails_writable err self) c (is_dialling flag delay fd cs b) a =
    failed_written d err self flag fd delay cs b
step-Stepped d (fails_writable err self) c (is_settled flag delay cs b) a =
    let no : ⊥ = ground (arith, a) in absurd no
step-Stepped d timer c (is_idle true delay t cs b k) a =
    subst (λ u. Stepped (step d timer (idle true delay u cs))) (sym a)
      (dial-Stepped d d.sockfd d.errno delay cs b)
step-Stepped d timer c (is_idle false delay t cs b k) a =
    (idle false delay 0 cs, ground (arith, a), is_idle false delay 0 cs b (omega arith))
step-Stepped d timer c (is_dialling flag delay fd cs b) a =
    let no : ⊥ = omega (arith, a) in absurd no
step-Stepped d timer c (is_settled flag delay cs b) a = let no : ⊥ = omega (arith, a) in absurd no

-- the assert of the destructor
destroy-valid : (c : Connector) → IsValid c → (is_connecting c.state ≡ true) ⊎ (destroy c ≡ ok c)
unfolding destroy
destroy-valid c (is_idle flag delay t cs b k) = inr refl
destroy-valid c (is_dialling flag delay fd cs b) = inl refl
destroy-valid c (is_settled flag delay cs b) = inr refl

-- No assert of the connector fails, no descriptor is closed twice or lost, and the delay stays between
-- its first and its largest value, whatever the kernel answers, on every event but these: a start or
-- restart while a connection is under way, a restart while a timer is left to try again, and an event of
-- the channel after it was given up for a connection. The destructor's assert holds unless the
-- connector connects. All runs in the loop's thread, and the functors that an event queues run before
-- the next event.
pub step_lem :
    (d : Dialled) (e : Event) (c : Connector)
    → IsValid c
    → IsAllowed e c
    → (c' : Connector) × (step d e c ≡ ok c')
      × IsValid c'
      × ((is_connecting c'.state ≡ true) ⊎ (destroy c' ≡ ok c'))
step_lem d e c v a = let (c', ran, w) = step-Stepped d e c v a in (c', ran, w, destroy-valid c' w)
