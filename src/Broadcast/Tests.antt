-- ===== src/Broadcast/Tests.antt =====
-- A server in the foreground with its own port.
use my_learning.Base.{◌≡◌, true, some, List, [], ◌∷◌, if◌then◌else◌}
use my_learning.Broadcast.{
  Opt, opt_p, opt_f, run_daemon, ServerConf, exited, aborted, in_child, start,
}
use my_learning.Broadcast.Start.{asks_help, start_broadcast_lem}

-- port "1989"
abbrev conf : ServerConf
conf = record {
  rcvport = 49 ∷ 57 ∷ 56 ∷ 57 ∷ [];
  mgroup = 50 ∷ 50 ∷ 52 ∷ [];
  media_dir = 47 ∷ [];
  runmode = run_daemon;
  ifname = 101 ∷ [];
}

abbrev opts : List Opt
opts = opt_f [] ∷ opt_p (56 ∷ []) ∷ []

start_broadcast_lem_example :
    start opts conf in_child (some 3) true ≡ (if asks_help opts then exited 0 else aborted)
start_broadcast_lem_example = start_broadcast_lem opts conf in_child (some 3) true
