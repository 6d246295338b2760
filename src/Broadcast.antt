-- ===== src/Broadcast.antt =====
-- BroadCast/src/main.cpp: the options of the server and its start up to the sockets. What getopt(3) finds
-- on the command line is a list, after which it returns -1; what fork(2) and open(2) return are arguments.
pub mod Start
mod Tests
use my_learning.Base.{ℕ, Bool, true, false, Option, none, some, List, [], ◌∷◌, ◌==◌, if◌then◌else◌}

-- what getopt finds for "M:P:F:D:I:H", with optarg
pub data Opt : Type 0 where
  opt_m : List ℕ → Opt
  opt_p : List ℕ → Opt
  opt_f : List ℕ → Opt
  opt_d : List ℕ → Opt
  opt_i : List ℕ → Opt
  opt_h : Opt
  -- '?'
  opt_unknown : Opt

abbrev pub run_daemon : ℕ
run_daemon = 1

abbrev pub run_foreground : ℕ
run_foreground = 2

pub record ServerConf : Type 0 where
  pub rcvport : List ℕ
  pub mgroup : List ℕ
  pub media_dir : List ℕ
  pub runmode : ℕ
  pub ifname : List ℕ

-- how a function of the program ends
pub data Ended {ℓ} (A : Type ℓ) : Type ℓ where
  returned : A → Ended A
  exited : ℕ → Ended A
  aborted : Ended A

abbrev pub and_then {ℓ κ} : {A : Type ℓ} {B : Type κ} → Ended A → (A → Ended B) → Ended B
and_then (returned a) f = f a
and_then (exited n) f = exited n
and_then aborted f = aborted

-- the loop of set_opt, which has no case for -1
unfoldable pub set_opt : List Opt → ServerConf → Ended ServerConf
set_opt [] conf = aborted
set_opt (opt_m arg ∷ rest) conf = set_opt rest (record conf { mgroup = arg })
set_opt (opt_p arg ∷ rest) conf = set_opt rest (record conf { rcvport = arg })
set_opt (opt_f arg ∷ rest) conf = set_opt rest (record conf { runmode = run_foreground })
set_opt (opt_d arg ∷ rest) conf = set_opt rest (record conf { media_dir = arg })
set_opt (opt_i arg ∷ rest) conf = set_opt rest (record conf { ifname = arg })
set_opt (opt_h ∷ rest) conf = exited 0
set_opt (opt_unknown ∷ rest) conf = aborted

-- what fork returned
pub data Forked : Type 0 where
  fork_failed in_parent in_child : Forked

-- daemonize; it has no return statement at its end, and `stale` is what its caller reads
unfoldable pub daemonize : Forked → Option ℕ → Bool → Ended Bool
daemonize fork_failed fd stale = returned false
daemonize in_parent fd stale = exited 0
daemonize in_child none stale = returned false
daemonize in_child (some fd) stale = returned stale

-- main up to socket_init; a result of daemonize of 0 is true
unfoldable pub start : List Opt → ServerConf → Forked → Option ℕ → Bool → Ended ServerConf
start opts conf forked fd stale = and_then (set_opt opts conf) λ conf'.
    if conf'.runmode == run_daemon
    then and_then (daemonize forked fd stale)
        (λ zero_returned. if zero_returned then returned conf' else exited 1)
    else if conf'.runmode == run_foreground
    then returned conf'
    else exited 1
