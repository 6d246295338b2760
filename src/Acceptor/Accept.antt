-- ===== src/Acceptor/Accept.antt =====
-- Who owns a descriptor, and what an error of accept does.
use my_learning.Base.{
  ℕ, ◌≡◌, ◌<◌, ◌↔◌, ◌⊎◌, inl, inr, refl, arith, Bool, true, false, ◌||◌, none, some, List, [], ◌∷◌,
  lt→ltb, ◌==◌, update, ok, abort, is_some_of,
}
use my_learning.Sockets.{InetAddress}
use my_learning.Acceptor.{
  Returned, descriptor, failed, fd_of, accept_descriptor, accept, Acceptor, open_fd, destroy,
  Answers, handle_accepted, handle_read, handle_reads,
}

-- `fd` was handed to the callback
abbrev pub handed : ℕ → List (ℕ × InetAddress) → Bool
handed fd [] = false
handed fd ((c, peer) ∷ rest) = (fd == c) || handed fd rest

-- The process has open what it had besides, `others`, the acceptor's two descriptors and what it handed
-- out, and these do not overlap.
pub record IsValid (others : ℕ → Bool) (a : Acceptor) : Type 0 where
  pub owned :
      (fd : ℕ)
      → a.opened fd ≡ (
          others fd
          || (fd == a.accept_socket)
          || is_some_of a.idle_fd fd
          || handed fd a.connections)
  pub other_socket : others a.accept_socket ≡ false
  pub other_idle : (i : ℕ) → a.idle_fd ≡ some i → others i ≡ false
  pub handed_socket : handed a.accept_socket a.connections ≡ false
  pub handed_idle : (i : ℕ) → a.idle_fd ≡ some i → handed i a.connections ≡ false

-- the connections that `answers` make, the latest first
abbrev pub connected : List Answers → List (ℕ × InetAddress) → List (ℕ × InetAddress)
connected [] old = old
connected (ans ∷ rest) old =
    connected rest (elim (fd_of ans.accepted) [ some fd ↦ (fd, ans.peer) ∷ old | none ↦ old ])

-- each answer is a positive descriptor that was not open
abbrev pub AllNew : (ℕ → Bool) → List Answers → Type 0
AllNew opened [] = Unit
AllNew opened (ans ∷ rest) =
    (fd : ℕ) × (ans.accepted ≡ descriptor fd)
    × (0 < fd)
    × (opened fd ≡ false)
    × AllNew (update opened fd true) rest

-- the acceptor once it has handed out `fd`
abbrev hand_out : ℕ → InetAddress → Acceptor → Acceptor
hand_out fd peer a = record a {
  opened = update a.opened fd true;
  connections = (fd, peer) ∷ a.connections;
}

handle_read_new :
    (blank : InetAddress) (errno fd : ℕ) (ans : Answers) (a : Acceptor)
    → a.has_new_connection_callback ≡ true
    → ans.accepted ≡ descriptor fd
    → 0 < fd
    → handle_read true blank errno ans a ≡ ok (hand_out fd ans.peer a)
unfolding handle_read accept accept_descriptor handle_accepted
handle_read_new blank errno fd ans a c e h = rw (e, c, lt→ltb 0 fd h) refl

hand_out-IsValid :
    (others : ℕ → Bool) (fd : ℕ) (peer : InetAddress) (a : Acceptor)
    → IsValid others a
    → a.opened fd ≡ false
    → IsValid others (hand_out fd peer a)
hand_out-IsValid others fd peer a v h = record {
  owned = λ x. ground (arith, v.owned x, v.owned fd, h);
  other_socket = v.other_socket;
  other_idle = v.other_idle;
  handed_socket = ground (arith, v.owned fd, h, v.handed_socket);
  handed_idle = λ i e. ground (arith, v.owned fd, h, v.handed_idle i e, e);
}

module _ (others : ℕ → Bool) (blank : InetAddress) (errno : ℕ) where
  -- While a callback is set and every answer of accept is a new descriptor other than 0, handleRead
  -- passes each with its peer to the callback, once and in order, and nothing else stays open.
  pub handle_reads-IsValid :
      (answers : List Answers) (a : Acceptor)
      → IsValid others a
      → a.has_new_connection_callback ≡ true
      → AllNew a.opened answers
      → (b : Acceptor) × (handle_reads blank errno answers a ≡ ok b)
        × IsValid others b
        × (b.connections ≡ connected answers a.connections)
  unfolding handle_reads
  handle_reads-IsValid [] a v c n = (a, refl, v, refl)
  handle_reads-IsValid (ans ∷ rest) a v c (fd, e, pos, new, n) =
      let (b, r, w, l) =
        handle_reads-IsValid rest (hand_out fd ans.peer a)
          (hand_out-IsValid others fd ans.peer a v new) c n in
      (b, rw (handle_read_new blank errno fd ans a c e pos) r, w, rw e l)

Returned-cases : (r : Returned) → ((e : ℕ) × (r ≡ failed e)) ⊎ ((fd : ℕ) × (r ≡ descriptor fd))
Returned-cases (descriptor fd) = inr (fd, refl)
Returned-cases (failed e) = inl (e, refl)

-- an error among the answers
abbrev pub has_error : List Answers → Bool
has_error [] = false
has_error (ans ∷ rest) = elim (fd_of ans.accepted) [ none ↦ true | some fd ↦ has_error rest ]

module _ (blank : InetAddress) (errno : ℕ) where
  -- An error of accept, of any errno, ends the process before handleRead sees it: the calls abort
  -- exactly when one of the answers is an error, so the branch for EMFILE never serves it.
  pub handle_reads_abort :
      (answers : List Answers) (a : Acceptor)
      → (handle_reads blank errno answers a ≡ abort) ↔ (has_error answers ≡ true)
  unfolding handle_reads handle_read accept accept_descriptor
  handle_reads_abort [] a = ground arith
  handle_reads_abort (ans ∷ rest) a = elim (Returned-cases ans.accepted) [
    | inl (e, f) ↦ rw f (ground arith)
    | inr (fd, f) ↦ rw f (
        handle_reads_abort rest (
          handle_accepted (some fd) errno ans.peer (record ans { accepted = descriptor fd })
            (open_fd (some fd) a)))
  ]

-- The destructor closes the listening socket and the idle descriptor and leaves all else open.
pub destroy_closes :
    (others : ℕ → Bool) (a : Acceptor) (idle : ℕ)
    → IsValid others a
    → a.idle_fd ≡ some idle
    → (fd : ℕ) → (destroy a).opened fd ≡ (others fd || handed fd a.connections)
unfolding destroy
destroy_closes others a idle v e fd = rw e (
    ground (
      arith,
      e,
      v.owned fd,
      v.other_socket,
      v.other_idle idle e,
      v.handed_socket,
      v.handed_idle idle e,
    ))
