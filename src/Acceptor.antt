-- ===== src/Acceptor.antt =====
-- myMuduo/lib/Acceptor.cpp with what it calls of Socket.cpp and SocketOps.cpp: a listening socket that
-- hands out connections. The kernel's answers are arguments; the descriptors that the process has open
-- are part of the state.
pub mod Accept
mod Tests
use my_learning.Base.{
  ℕ, ◌+◌, Bool, true, false, Option, none, some, List, [], ◌∷◌, ◌++◌, ltb, ◌==◌, update,
  if◌then◌else◌, Run, ok, abort, ◌>>=◌, ◌>>◌, assert, is_some,
}
use my_learning.Channel.{Channel, fresh, enable_reading, disable_all}
use my_learning.Sockets.{InetAddress}

-- what a system call returned: a descriptor, or -1 with an errno
pub data Returned : Type 0 where
  descriptor : ℕ → Returned
  failed : ℕ → Returned

abbrev pub fd_of : Returned → Option ℕ
fd_of (descriptor fd) = some fd
fd_of (failed errno) = none

-- EPERM, EINTR, EAGAIN, EMFILE and ECONNABORTED, whose errno is kept
abbrev kept_errno : ℕ → Bool
kept_errno e =
    if e == 1
    then true
    else if e == 4
    then true
    else if e == 11
    then true
    else if e == 24
    then true
    else e == 103

abbrev pub emfile : ℕ
emfile = 24

-- LOG_SYSFATAL and LOG_FATAL: the logger's destructor ends the process
abbrev log_fatal : Run (Unit {0})
log_fatal = abort

-- sockets::accept: the descriptor and errno, or none for -1
unfoldable pub accept_descriptor : ℕ → Returned → Run (Option ℕ × ℕ)
accept_descriptor errno (descriptor fd) =
    let connected : Option ℕ × ℕ = (some fd, errno) in ok connected
accept_descriptor errno (failed saved_errno) =
    let refused : Option ℕ × ℕ = (none, saved_errno) in
    log_fatal >> (if kept_errno saved_errno then ok refused else log_fatal >> ok refused)

-- Socket::accept, with the address that the kernel wrote
unfoldable pub accept : ℕ → Returned → InetAddress → InetAddress → Run (Option ℕ × ℕ × InetAddress)
accept errno answer written peer_addr = do
  (connfd, e) ← accept_descriptor errno answer
  let peer : Option ℕ × ℕ × InetAddress =
        (connfd, e, if is_some connfd then written else peer_addr) in
      ok peer

pub record Acceptor : Type 0 where
  pub accept_socket : ℕ
  pub accept_channel : Channel
  pub listening : Bool
  -- -1 is none
  pub idle_fd : Option ℕ
  pub has_new_connection_callback : Bool
  -- the open descriptors
  pub opened : ℕ → Bool
  -- what the callback was given, the latest first
  pub connections : List (ℕ × InetAddress)

abbrev pub open_fd : Option ℕ → Acceptor → Acceptor
open_fd none a = a
open_fd (some fd) a = record a { opened = update a.opened fd true }

abbrev pub close_fd : Option ℕ → Acceptor → Acceptor
close_fd none a = a
close_fd (some fd) a = record a { opened = update a.opened fd false }

-- the constructor; `stale` is what the storage of the channel's own descriptor held
unfoldable pub construct : (ℕ → Bool) → Returned → Returned → Bool → ℕ → Run Acceptor
construct opened (failed e) idle bound stale = abort
construct opened (descriptor fd) (failed e) bound stale = abort
construct opened (descriptor fd) (descriptor idle) bound stale =
    if bound
    then ok (record {
      accept_socket = fd;
      accept_channel = record { fd = stale; events = 0; revents = 0; index = fresh };
      listening = false;
      idle_fd = some idle;
      has_new_connection_callback = false;
      opened = update (update opened fd true) idle true;
      connections = [];
    })
    else abort

-- the destructor, with that of the socket
unfoldable pub destroy : Acceptor → Acceptor
destroy a =
    let a₁ = record a { accept_channel = disable_all a.accept_channel } in
    let a₂ = close_fd a₁.idle_fd a₁ in close_fd (some a₂.accept_socket) a₂

-- listen; `listens` tells that the call of ::listen succeeds
unfoldable pub listen : Bool → Bool → Acceptor → Run Acceptor
listen in_loop_thread listens a =
    assert in_loop_thread
    >> (let a₁ = record a { listening = true } in
        if listens
        then ok (record a₁ { accept_channel = enable_reading a₁.accept_channel })
        else log_fatal >> ok a₁)

-- what the kernel answers to one call of handleRead: to accept with the peer's address, and, where the
-- process has too many open files, to the second accept and to the open of /dev/null
pub record Answers : Type 0 where
  pub accepted : Returned
  pub peer : InetAddress
  pub second : Returned
  pub reopened : Returned

-- the branch of EMFILE
unfoldable pub drop_one : Answers → Acceptor → Acceptor
drop_one ans a =
    let a₁ = close_fd a.idle_fd a in
    let a₂ = open_fd (fd_of ans.second) (record a₁ { idle_fd = fd_of ans.second }) in
    let a₃ = close_fd a₂.idle_fd a₂ in
    open_fd (fd_of ans.reopened) (record a₃ { idle_fd = fd_of ans.reopened })

-- handleRead once accept gave `connfd`
unfoldable pub handle_accepted : Option ℕ → ℕ → InetAddress → Answers → Acceptor → Acceptor
handle_accepted none errno peer ans a = if errno == emfile then drop_one ans a else a
handle_accepted (some connfd) errno peer ans a =
    if ltb 0 connfd
    then (if a.has_new_connection_callback
        then record a { connections = (connfd, peer) ∷ a.connections }
        else close_fd (some connfd) a)
    else if errno == emfile
    then drop_one ans a
    else a

unfoldable pub handle_read : Bool → InetAddress → ℕ → Answers → Acceptor → Run Acceptor
handle_read in_loop_thread blank errno ans a = do
  assert in_loop_thread
  (connfd, e, peer) ← accept errno ans.accepted ans.peer blank
  ok (handle_accepted connfd e peer ans (open_fd connfd a))

-- one call for each time that the socket is readable
unfoldable pub handle_reads : InetAddress → ℕ → List Answers → Acceptor → Run Acceptor
handle_reads blank errno [] a = ok a
handle_reads blank errno (ans ∷ rest) a =
    handle_read true blank errno ans a >>= handle_reads blank errno rest
