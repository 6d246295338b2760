-- ===== src/Acceptor/Tests.antt =====
-- An acceptor with two connections.
use my_learning.Base.{
  ℕ, ◌≡◌, ◌↔◌, refl, arith, Bool, true, false, some, [], ◌∷◌, ok, abort, update, ltb,
}
use my_learning.Channel.{fresh}
use my_learning.Sockets.{zeroed}
use my_learning.Acceptor.{descriptor, failed, Acceptor, construct, Answers, handle_reads, emfile}
use my_learning.Acceptor.Accept.{
  IsValid, AllNew, connected, has_error, handle_reads-IsValid, handle_reads_abort,
}

-- standard input, output and error
abbrev standard : ℕ → Bool
standard fd = ltb fd 3

-- the constructor's channel is not the listening socket's: it has what its own storage held
made : Acceptor
made = record {
  accept_socket = 3;
  accept_channel = record { fd = 77; events = 0; revents = 0; index = fresh };
  listening = false;
  idle_fd = some 4;
  has_new_connection_callback = false;
  opened = update (update standard 3 true) 4 true;
  connections = [];
}

construct-made : construct standard (descriptor 3) (descriptor 4) true 77 ≡ ok made
unfolding construct made
construct-made = refl

abbrev bound : Acceptor
bound = record made { has_new_connection_callback = true }

bound-IsValid : IsValid standard bound
unfolding made
bound-IsValid = record {
  owned = λ fd. ground arith;
  other_socket = refl;
  other_idle = λ i e. ground (arith, e);
  handed_socket = refl;
  handed_idle = λ i e. refl;
}

abbrev answer : ℕ → Answers
answer fd = record {
  accepted = descriptor fd;
  peer = zeroed;
  second = failed 24;
  reopened = descriptor 4;
}

abbrev refused : Answers
refused = record {
  accepted = failed emfile;
  peer = zeroed;
  second = descriptor 9;
  reopened = descriptor 4;
}

two_new : AllNew bound.opened (answer 5 ∷ answer 6 ∷ [])
unfolding made
two_new = (5, refl, omega arith, refl, (6, refl, omega arith, refl, tt))

handle_reads-IsValid_example :
    (b : Acceptor) × (handle_reads zeroed 0 (answer 5 ∷ answer 6 ∷ []) bound ≡ ok b)
    × IsValid standard b
    × (b.connections ≡ connected (answer 5 ∷ answer 6 ∷ []) bound.connections)
handle_reads-IsValid_example =
    handle_reads-IsValid standard zeroed 0 (answer 5 ∷ answer 6 ∷ []) bound bound-IsValid refl
      two_new

handle_reads_abort_example :
    (handle_reads zeroed 0 (answer 5 ∷ refused ∷ []) bound ≡ abort)
    ↔ (has_error (answer 5 ∷ refused ∷ []) ≡ true)
handle_reads_abort_example = handle_reads_abort zeroed 0 (answer 5 ∷ refused ∷ []) bound
