-- ===== src/Reactor/Polled.antt =====
-- The waits of the epoll poller against the board, and whole iterations of the loop.
use my_learning.Base.{
  ◌∙◌, ℕ, ◌*◌, ◌≡◌, ◌≢◌, refl, sym, ap, subst, inl, inr, Bool, true, false, not, Option, none, some,
  List, [], ◌∷◌, ◌++◌, ◌==◌, leb, if◌then◌else◌, is_some_of, length, Run, ok, abort, arith, All,
  Bool-cases,
}
use my_learning.Epoll.{Epoll, EpollEvent}
use my_learning.Channel.{is_fresh, Index-cases}
use my_learning.Poller
use my_learning.Poller.{
  Poller, Waited, reported, wait_failed, poll, set_revents, fill_active_channels,
}
use my_learning.Poller.Sync.{IsTable, IsSynced, wanted_by}
use my_learning.Poller.Wait.{IsSameBut, IsKnown, fill-IsSameBut}
use my_learning.Reactor.{Reactor, Round, iterate_each}
use my_learning.Reactor.Board.{Board, board, board_wait, all_listed}
use my_learning.Base.Both.{Both, Both-map}
use my_learning.Reactor.Simulation.{Simulates, IsAlike, iterate_each-Alike}
use my_learning.Reactor.Watch.{
  epoll_poller, Shows, fd-free, found-listed, distinct_kept, update-Both, remove-Both,
}

module _ (epoll : Epoll) where
  open epoll use {interest}

  -- the test of fillActiveChannels, for the channels that are listed
  abbrev Finds : (ℕ → Bool) → Poller epoll → Type 0
  Finds listed s = (c : ℕ) → is_some_of (s.channels (s.chan c).fd) c ≡ listed c

  all-Known :
      (listed : ℕ → Bool) (es : List EpollEvent) (s : Poller epoll)
      → Finds listed s
      → all_listed listed es ≡ true
      → All (IsKnown epoll s) es
  unfolding all_listed
  all-Known listed [] s f a = tt
  all-Known listed (e ∷ es) s f a =
      (ground (arith, f e.ptr), all-Known listed es s f (ground arith))

  fill_unlisted-abort :
      (listed : ℕ → Bool) (es : List EpollEvent) (active : List ℕ) (s : Poller epoll)
      → Finds listed s
      → all_listed listed es ≡ false
      → fill_active_channels epoll es active s ≡ abort
  unfolding all_listed fill_active_channels
  fill_unlisted-abort listed [] active s f a = cc
  fill_unlisted-abort listed (e ∷ es) active s f a =
      let later : listed e.ptr ≡ true → all_listed listed es ≡ false = λ on. ground arith in
      elim (Bool-cases (listed e.ptr)) [
        | inl on ↦ ground (
          arith,
          f e.ptr,
          fill_unlisted-abort listed es (active ++ e.ptr ∷ []) (set_revents epoll s e.ptr e.events)
              (λ c. ground (arith, f c)) (later on),
        )
        | inr off ↦ ground (arith, f e.ptr)
      ]

  module _ (s s' : Poller epoll) (same : IsSameBut epoll s s') where
    wanted_by-same : (o : Option ℕ) → wanted_by epoll s' o ≡ wanted_by epoll s o
    wanted_by-same none = refl
    wanted_by-same (some c) = rw (same.index c, same.events c) refl

    same-IsTable : IsTable epoll s → IsTable epoll s'
    same-IsTable t = record {
      mapped = λ fd c e.
          let (at, old) = t.mapped fd c (subst (λ f. f fd ≡ some c) same.channels e) in
          (same.fd c ∙ at, λ n. old (sym (same.index c) ∙ n));
      marked =
          λ c old. rw (same.channels) (rw (same.fd c) (t.marked c (λ n. old (same.index c ∙ n))));
    }

    same-IsSynced : IsSynced epoll s → IsSynced epoll s'
    same-IsSynced y fd =
        rw (same.kernel) (rw (same.channels) (y fd ∙ sym (wanted_by-same (s.channels fd))))

    same-Shows :
        (b : Board) (size capacity : ℕ)
        → Shows epoll s b
        → size ≡ capacity
        → Shows epoll (record s' { events_size = size }) (record b { capacity = capacity })
    same-Shows b size capacity h e =
        let t = same-IsTable h.table in
        record {
          table = record { mapped = t.mapped; marked = t.marked };
          synced = same-IsSynced h.synced;
          distinct = distinct_kept epoll s s' b h same.fd;
          events = λ c. same.events c ∙ h.events c;
          listed = λ c. ap (λ i. not (is_fresh i)) (same.index c) ∙ h.listed c;
          quiet = λ c e. same.events c ∙ h.quiet c (sym (same.index c) ∙ e);
          capacity = e;
          takes = h.takes;
        }

  abbrev WaitAlike : List ℕ × Poller epoll → List ℕ × Board → Type 0
  WaitAlike x y = (x.0 ≡ y.0) × Shows epoll x.1 y.1

  -- the calls of fillActiveChannels and of poll for a list of events that is not empty
  module _ (e : EpollEvent) (es : List EpollEvent) (s : Poller epoll) where
    abbrev filled : Run (List ℕ × Poller epoll)
    filled = fill_active_channels epoll (e ∷ es) [] s

    abbrev polled : Run (List ℕ × Poller epoll)
    polled = (epoll_poller epoll).wait (reported (e ∷ es)) s

    over-abort : leb (length (e ∷ es)) s.events_size ≡ false → polled ≡ abort
    unfolding poll
    over-abort p = ground arith

    unlisted-abort : filled ≡ abort → polled ≡ abort
    unfolding poll
    unlisted-abort f = ground (arith, Bool-cases (leb (length (e ∷ es)) s.events_size))

    filled-polled :
        (active : List ℕ) (s' : Poller epoll)
        → leb (length (e ∷ es)) s.events_size ≡ true
        → filled ≡ ok (active, s')
        → s'.events_size ≡ s.events_size
        → polled
          ≡ ok (
            active,
            record s' {
              events_size =
                  if length (e ∷ es) == s.events_size then s.events_size * 2 else s.events_size;
            },
          )
    unfolding poll
    filled-polled active s' p f q = ground arith

  -- a wait in which events were reported, by the two tests of the board
  reported-Both :
      (e : EpollEvent) (es : List EpollEvent) (s : Poller epoll) (b : Board) (fits known : Bool)
      → Shows epoll s b
      → leb (length (e ∷ es)) b.capacity ≡ fits
      → all_listed b.listed (e ∷ es) ≡ known
      → Both WaitAlike (polled e es s) (board_wait (reported (e ∷ es)) b)
  reported-Both e es s b false known h p q =
      rw (over-abort e es s (subst (λ n. leb (length (e ∷ es)) n ≡ false) (sym h.capacity) p))
        (rw p tt)
  reported-Both e es s b true false h p q =
      rw
        (unlisted-abort e es s
          (fill_unlisted-abort b.listed (e ∷ es) [] s (λ c. found-listed epoll s b c h) q))
        (rw (p, q) tt)
  reported-Both e es s b true true h p q =
      let (s', run, same) =
        fill-IsSameBut epoll (e ∷ es) [] s
          (all-Known b.listed (e ∷ es) s (λ c. found-listed epoll s b c h) q) in
      rw
        (filled-polled e es s _ s' (subst (λ n. leb (length (e ∷ es)) n ≡ true) (sym h.capacity) p)
          run same.size)
        (rw (p, q)
          (
            refl,
            same-Shows s s' same b _ _ h
                (ap (λ n. if length (e ∷ es) == n then n * 2 else n) h.capacity),
          ))

  wait-Both :
      (w : Waited) (s : Poller epoll) (b : Board)
      → Shows epoll s b
      → Both WaitAlike ((epoll_poller epoll).wait w s) (board_wait w b)
  unfolding poll all_listed
  wait-Both (wait_failed errno) s b h = (refl, h)
  wait-Both (reported []) s b h =
      let fits : leb 0 b.capacity ≡ true = ground arith in
      let kept : (if 0 == b.capacity then b.capacity * 2 else b.capacity) ≡ b.capacity =
        ground arith in
      rw (fits, kept) (refl, h)
  wait-Both (reported (e ∷ es)) s b h = reported-Both e es s b _ _ h refl refl

  epoll_poller-Simulates : Simulates (epoll_poller epoll) board (Shows epoll)
  unfolding Poller.has_channel
  epoll_poller-Simulates = record {
    update = λ k c s b h. update-Both epoll s b c h k;
    remove = λ c s b h. remove-Both epoll s b c h;
    has = λ c s b h. ap (λ x. ok x) (found-listed epoll s b c h);
    wait = wait-Both;
  }

  -- The kernel watches a channel that is listed and asks for something, for just that, and no
  -- descriptor of a channel that is not listed.
  pub record Watches (s : Poller epoll) (b : Board) : Type 0 where
    pub watched :
        (c : ℕ)
        → b.listed c ≡ true
        → b.events c ≢ 0
        → interest s.kernel (s.chan c).fd ≡ some (record { events = b.events c; ptr = c })
    pub unwatched : (c : ℕ) → b.listed c ≡ false → interest s.kernel (s.chan c).fd ≡ none

  pub Shows-Watches : (s : Poller epoll) (b : Board) → Shows epoll s b → Watches s b
  Shows-Watches s b h = record {
    watched = λ c on loud. elim (Index-cases (s.chan c).index) [
      | inl e ↦ ground (arith, h.listed c)
      | inr (inl e) ↦ ground (arith, h.synced (s.chan c).fd, h.table.marked c, h.events c)
      | inr (inr e) ↦ absurd (loud (sym (h.events c) ∙ h.quiet c e))
    ];
    unwatched = λ c off. elim (Index-cases (s.chan c).index) [
      | inl e ↦ ground (arith, h.synced (s.chan c).fd, fd-free epoll s b c h e)
      | inr (inl e) ↦ ground (arith, h.listed c)
      | inr (inr e) ↦ ground (arith, h.listed c)
    ];
  }

  abbrev pub IsServed : Reactor (epoll_poller epoll) → Reactor board → Type 0
  IsServed l m = IsAlike (epoll_poller epoll) board (Shows epoll) l m × Watches l.object m.object

  -- Whatever the waits report and the callbacks and functors ask, in any number of iterations, the
  -- loop over the epoll poller aborts exactly when the loop over the board does. Otherwise it serves
  -- the channels that the board lists: the kernel watches those that ask for events, for just these,
  -- and no channel that is not listed. Each channel has a descriptor of its own, the kernel is taken to
  -- admit every descriptor (where it refuses one, update ends the process), and all calls come from
  -- the loop's thread.
  pub iterate_each_lem :
      (rounds : List Round) (l : Reactor (epoll_poller epoll)) (m : Reactor board)
      → IsAlike (epoll_poller epoll) board (Shows epoll) l m
      → Both IsServed (iterate_each (epoll_poller epoll) rounds l) (iterate_each board rounds m)
  iterate_each_lem rounds l m a =
      Both-map _ IsServed _ _
        (iterate_each-Alike (epoll_poller epoll) board (Shows epoll) epoll_poller-Simulates rounds l
          m a)
        (λ l' m' a'. (a', Shows-Watches l'.object m'.object a'.object))
