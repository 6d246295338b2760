-- ===== src/Broadcast/Start.antt =====
-- The server does not start.
use my_learning.Base.{
  ℕ, ◌≡◌, inl, inr, Bool-cases, refl, Bool, true, false, Option, List, [], ◌∷◌, if◌then◌else◌,
}
use my_learning.Broadcast.{
  Opt, opt_m, opt_p, opt_f, opt_d, opt_i, opt_h, opt_unknown, ServerConf, exited, aborted, set_opt,
  Forked, start,
}

-- help is asked for before any option that is not known
abbrev pub asks_help : List Opt → Bool
asks_help [] = false
asks_help (opt_h ∷ rest) = true
asks_help (opt_unknown ∷ rest) = false
asks_help (_ ∷ rest) = asks_help rest

set_opt_ends :
    (opts : List Opt) (conf : ServerConf)
    → set_opt opts conf ≡ (if asks_help opts then exited 0 else aborted)
unfolding set_opt
set_opt_ends [] conf = refl
set_opt_ends (opt_m arg ∷ rest) conf = set_opt_ends rest (record conf { mgroup = arg })
set_opt_ends (opt_p arg ∷ rest) conf = set_opt_ends rest (record conf { rcvport = arg })
set_opt_ends (opt_f arg ∷ rest) conf = set_opt_ends rest (record conf { runmode = 2 })
set_opt_ends (opt_d arg ∷ rest) conf = set_opt_ends rest (record conf { media_dir = arg })
set_opt_ends (opt_i arg ∷ rest) conf = set_opt_ends rest (record conf { ifname = arg })
set_opt_ends (opt_h ∷ rest) conf = refl
set_opt_ends (opt_unknown ∷ rest) conf = refl

-- Whatever the command line and the system say, the server never comes to its sockets: it exits with 0
-- when help is asked for before an unknown option, and otherwise aborts at the end of the options.
pub start_broadcast_lem :
    (opts : List Opt) (conf : ServerConf) (forked : Forked) (fd : Option ℕ) (stale : Bool)
    → start opts conf forked fd stale ≡ (if asks_help opts then exited 0 else aborted)
unfolding start
start_broadcast_lem opts conf forked fd stale = elim (Bool-cases (asks_help opts)) [
  | inl e ↦ rw (set_opt_ends opts conf, e) refl
  | inr e ↦ rw (set_opt_ends opts conf, e) refl
]
