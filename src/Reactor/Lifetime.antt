-- ===== src/Reactor/Lifetime.antt =====
-- The constructor and the destructor of myMuduo/lib/EventLoop.cpp: the one loop of a thread, and the
-- wakeup channel of a loop.
use my_learning.Base.{
  ℕ, ◌≡◌, refl, ap, sym, subst, true, false, not, Option, none, some, List, [], ◌==◌, update,
  is_some, Run, ok, abort, ◌>>=◌, ◌>>◌, assert, arith, Bool-cases, Bool, ◌≢◌,
}
use my_learning.Base.Both.{Both}
use my_learning.Epoll.{Epoll}
use my_learning.Poller.{Poller}
use my_learning.Reactor.{
  PollerClass, Reactor, Round, iterate_each, enable_reading, disable_all, changed, update_channel,
  remove_channel,
}
use my_learning.Reactor.Board.{Board, board}
use my_learning.Reactor.Watch.{epoll_poller, Shows, update-Both, remove-Both}
use my_learning.Reactor.Simulation.{IsAlike}
use my_learning.Reactor.Polled.{IsServed, Shows-Watches, iterate_each_lem}
use my_learning.Reactor.Kept.{IsKept, Both-Ends, iterate_each-IsKept}

-- `t_loopInThisThread` of each thread
abbrev pub Threads : Type 0
Threads = ℕ → Option ℕ

module _ (poller : PollerClass) where
  abbrev pub new_reactor : poller.Object → Reactor poller
  new_reactor object = record {
    owned = λ c. true;
    event_handling = false;
    active_channel = [];
    current_active_channel = none;
    object = object;
  }

  -- The loop `id` is created in the thread `tid`, with a new poller, its timer queue, which enables the
  -- channel of its timerfd, and its wakeup channel.
  unfoldable pub construct :
      ℕ → ℕ → ℕ → ℕ → poller.Object → Threads → Run (Threads × Reactor poller)
  unfolding update_channel
  construct tid id timerfd wakeup object threads = do
    l₁ ←
        update_channel poller true timerfd
          (new_reactor (poller.set_events enable_reading timerfd object))
    assert (not (is_some (threads tid)))
    l₂ ←
        update_channel poller true wakeup
          (record l₁ { object = poller.set_events enable_reading wakeup l₁.object })
    let result : Threads × Reactor poller = (update threads tid (some id), l₂)
    ok result

  -- disableAll and remove of a channel
  unfoldable pub take_out : Bool → ℕ → Reactor poller → Run (Reactor poller)
  unfolding update_channel remove_channel
  take_out in_loop c l = do
    l₁ ←
        update_channel poller in_loop c
          (record l { object = poller.set_events disable_all c l.object })
    remove_channel poller in_loop c l₁

  -- The loop of the thread `owner` is destroyed in the thread `tid`, and then its timer queue.
  unfoldable pub destroy : ℕ → ℕ → ℕ → ℕ → Reactor poller → Threads → Run (Threads × Reactor poller)
  unfolding take_out
  destroy tid owner timerfd wakeup l threads = do
    l₁ ← take_out (owner == tid) wakeup l
    l₂ ← take_out (owner == tid) timerfd l₁
    let result : Threads × Reactor poller = (update threads tid none, l₂)
    ok result

take_out-ok :
    (P : PollerClass) (c : ℕ) (l : Reactor P) (o₁ o₂ : P.Object)
    → l.owned c ≡ true
    → l.event_handling ≡ false
    → P.update c (P.set_events disable_all c l.object) ≡ ok o₁
    → P.remove c o₁ ≡ ok o₂
    → take_out P true c l ≡ ok (record l { object = o₂ })
unfolding take_out
take_out-ok P c l o₁ o₂ mine idle updated removed = ground arith

aborts : {A B : Type 0} (m : Run A) (f : A → Run B) → ((a : A) → f a ≡ abort) → (m >>= f) ≡ abort
aborts (ok a) f h = h a
aborts abort f h = refl

Both-ok :
    {A B : Type 0} (R : A → B → Type 0) (m : Run A) (b : B)
    → Both R m (ok b)
    → (a : A) × (m ≡ ok a) × R a b
Both-ok R (ok a) b h = (a, refl, h)
Both-ok R abort b h = absurd h

module _ (epoll : Epoll) where
  open epoll use {interest}

  -- the board with the channel `c` listed, for some events or none
  abbrev pub listing : Board → ℕ → ℕ → Board
  listing b c events = record b {
    events = update b.events c events;
    listed = update b.listed c true;
  }

  -- the loop over the board that a new loop is compared with
  abbrev pub started : Board → ℕ → ℕ → Reactor board
  started b timerfd wakeup = new_reactor board (listing (listing b timerfd 3) wakeup 3)

  enable-Shows :
      (c : ℕ) (s : Poller epoll) (b : Board)
      → Shows epoll s b
      → b.events c ≡ 0
      → (s' : Poller epoll) × ((epoll_poller epoll).update c
            ((epoll_poller epoll).set_events enable_reading c s)
          ≡ ok s')
        × Shows epoll s' (listing b c 3)
  unfolding changed
  enable-Shows c s b h quiet =
      let (s', ran, shows) = Both-ok (Shows epoll) _ _ (update-Both epoll s b c h enable_reading) in
      (
        s',
        ran,
        subst (λ e. Shows epoll s' (listing b c e)) (ap (changed enable_reading) quiet) shows,
      )

  module _ (tid id timerfd wakeup : ℕ) (threads : Threads) (s : Poller epoll) (b : Board)
      (h : Shows epoll s b) (apart : timerfd ≢ wakeup) where
    construct_lem :
        threads tid ≡ none
        → b.events timerfd ≡ 0
        → b.events wakeup ≡ 0
        → (threads' : Threads) × (l : Reactor (epoll_poller epoll)) × (construct
              (epoll_poller epoll)
              tid
              id
              timerfd
              wakeup
              s
              threads
            ≡ ok (threads', l))
          × (threads' tid ≡ some id)
          × IsAlike (epoll_poller epoll) board (Shows epoll) l (started b timerfd wakeup)
          × IsKept (epoll_poller epoll) (λ c. true) false l
    unfolding construct
    construct_lem free quiet₁ quiet₂ =
        let (s₁, ran₁, shows₁) = enable-Shows timerfd s b h quiet₁ in
        let still : (listing b timerfd 3).events wakeup ≡ 0 = ground arith in
        let (s₂, ran₂, shows₂) = enable-Shows wakeup s₁ (listing b timerfd 3) shows₁ still in
        (
          update threads tid (some id),
          record (new_reactor (epoll_poller epoll) s) { object = s₂ },
          ground (arith, ran₁, free, ran₂),
          ground arith,
          record {
            owned = λ c. refl;
            event_handling = refl;
            active_channel = refl;
            current_active_channel = refl;
            object = shows₂;
          },
          record { owner = refl; busy = refl },
        )

  -- the board without the channel of a loop that was destroyed
  abbrev unlisting : Board → ℕ → Board
  unlisting b c = record b {
    events = update b.events c 0;
    listed = update (update b.listed c true) c false;
  }

  removable : (b : Board) (c : ℕ) → board.remove c (listing b c 0) ≡ ok (unlisting b c)
  removable b c = ground arith

  take_out_lem :
      (c : ℕ) (b : Board) (l : Reactor (epoll_poller epoll))
      → Shows epoll l.object b
      → l.owned c ≡ true
      → l.event_handling ≡ false
      → (s' : Poller epoll) × (take_out (epoll_poller epoll) true c l
          ≡ ok (record l { object = s' }))
        × Shows epoll s' (unlisting b c)
  unfolding changed
  take_out_lem c b l h mine idle =
      let (s₁, ran₁, shows₁) =
        Both-ok (Shows epoll) _ _ (update-Both epoll l.object b c h disable_all) in
      let (s₂, ran₂, shows₂) = Both-ok (Shows epoll) _ (unlisting b c) (
        subst (λ r. Both (Shows epoll) ((epoll_poller epoll).remove c s₁) r) (removable b c)
          (remove-Both epoll s₁ (listing b c 0) c shows₁)) in
      (s₂, take_out-ok (epoll_poller epoll) c l s₁ s₂ mine idle ran₁ ran₂, shows₂)

  abbrev ended : Board → ℕ → ℕ → Board
  ended b timerfd wakeup = unlisting (unlisting b wakeup) timerfd

  destroy_lem :
      (tid timerfd wakeup : ℕ) (threads : Threads) (b : Board) (l : Reactor (epoll_poller epoll))
      → Shows epoll l.object b
      → l.owned timerfd ≡ true
      → l.owned wakeup ≡ true
      → l.event_handling ≡ false
      → (threads' : Threads) × (l' : Reactor (epoll_poller epoll)) × (destroy
            (epoll_poller epoll)
            tid
            tid
            timerfd
            wakeup
            l
            threads
          ≡ ok (threads', l'))
        × (threads' tid ≡ none)
        × Shows epoll l'.object (ended b timerfd wakeup)
  unfolding destroy
  destroy_lem tid timerfd wakeup threads b l h mine₁ mine₂ idle =
      let (s₁, ran₁, shows₁) = take_out_lem wakeup b l h mine₂ idle in
      let l₁ : Reactor (epoll_poller epoll) = record l { object = s₁ } in
      let (s₂, ran₂, shows₂) = take_out_lem timerfd (unlisting b wakeup) l₁ shows₁ mine₁ idle in
      let here : (tid == tid) ≡ true = ground arith in
      (
        update threads tid none,
        record l { object = s₂ },
        rw here (rw ran₁ (rw ran₂ refl)),
        ground arith,
        shows₂,
      )

  construct-abort :
      (tid id owner timerfd wakeup : ℕ) (threads : Threads) (s : Poller epoll)
      → threads tid ≡ some owner
      → construct (epoll_poller epoll) tid id timerfd wakeup s threads ≡ abort
  unfolding construct
  construct-abort tid id owner timerfd wakeup threads s e =
      aborts
        (update_channel (epoll_poller epoll) true timerfd (
          new_reactor (epoll_poller epoll)
            ((epoll_poller epoll).set_events enable_reading timerfd s)))
        _ (λ l. rw e refl)

  destroy-abort :
      (tid other timerfd wakeup : ℕ) (threads : Threads) (l : Reactor (epoll_poller epoll))
      → (tid == other) ≡ false
      → destroy (epoll_poller epoll) other tid timerfd wakeup l threads ≡ abort
  unfolding destroy take_out
  destroy-abort tid other timerfd wakeup threads l e = ground (arith, Bool-cases (l.owned wakeup))

  -- What becomes of a loop of the thread `tid`: it can be destroyed there, which leaves the thread
  -- free and neither of its channels watched, and in no other thread.
  pub record IsMortal (tid timerfd wakeup : ℕ) (threads : Threads)
      (l : Reactor (epoll_poller epoll)) : Type 0 where
    pub ends :
        (threads' : Threads) × (l' : Reactor (epoll_poller epoll)) × (destroy
            (epoll_poller epoll)
            tid
            tid
            timerfd
            wakeup
            l
            threads
          ≡ ok (threads', l'))
        × (threads' tid ≡ none)
        × (interest l'.object.kernel (l'.object.chan wakeup).fd ≡ none)
        × (interest l'.object.kernel (l'.object.chan timerfd).fd ≡ none)
    pub guarded :
        (other : ℕ)
        → (tid == other) ≡ false
        → destroy (epoll_poller epoll) other tid timerfd wakeup l threads ≡ abort

  abbrev pub IsWatched : Reactor (epoll_poller epoll) → ℕ → Type 0
  IsWatched l c =
      interest l.object.kernel (l.object.chan c).fd ≡ some (record { events = 3; ptr = c })

  -- What a new loop `l` is: the loop of its thread, which admits no other, with the channels of its
  -- timerfd and of its eventfd watched for reading.
  pub record IsNew (tid id timerfd wakeup : ℕ) (threads : Threads)
      (l : Reactor (epoll_poller epoll)) : Type 0 where
    pub named : threads tid ≡ some id
    pub timed : IsWatched l timerfd
    pub woken : IsWatched l wakeup
    pub alone :
        (id₂ timerfd₂ wakeup₂ : ℕ) (s₂ : Poller epoll)
        → construct (epoll_poller epoll) tid id₂ timerfd₂ wakeup₂ s₂ threads ≡ abort

  Shows-IsMortal :
      (tid timerfd wakeup : ℕ) (threads : Threads) (b : Board) (l : Reactor (epoll_poller epoll))
      → Shows epoll l.object b
      → l.owned timerfd ≡ true
      → l.owned wakeup ≡ true
      → l.event_handling ≡ false
      → IsMortal tid timerfd wakeup threads l
  Shows-IsMortal tid timerfd wakeup threads b l h mine₁ mine₂ idle =
      let (threads', l', ran, free, shows) =
        destroy_lem tid timerfd wakeup threads b l h mine₁ mine₂ idle in
      let watches = Shows-Watches epoll l'.object _ shows in
      let off₁ : (ended b timerfd wakeup).listed timerfd ≡ false = ground arith in
      let off₂ : (ended b timerfd wakeup).listed wakeup ≡ false = ground arith in
      record {
        ends = (
          threads',
          l',
          ran,
          free,
          watches.unwatched wakeup off₂,
          watches.unwatched timerfd off₁,
        );
        guarded = λ other e. destroy-abort tid other timerfd wakeup threads l e;
      }

  Shows-IsWatched :
      (l : Reactor (epoll_poller epoll)) (b : Board) (c : ℕ)
      → Shows epoll l.object b
      → b.listed c ≡ true
      → b.events c ≡ 3
      → IsWatched l c
  Shows-IsWatched l b c h on asked =
      rw (sym asked)
        ((Shows-Watches epoll l.object b h).watched c on (λ e. omega (arith, asked, e)))

  -- A loop can be made in a thread that has none, over a poller that serves a board's channels and
  -- where the channels of its timerfd and its eventfd, which differ, ask for nothing yet. It is then
  -- the loop of its thread, both channels are watched for reading, and a second loop in that thread
  -- aborts. Whatever its iterations meet, it aborts exactly when the loop over the board does;
  -- otherwise its own thread can destroy it with its timer queue, after which the thread is free again
  -- and neither channel is watched, and the destruction in any other thread aborts. The kernel is
  -- taken to admit every descriptor.
  pub lifetime_lem :
      (tid id timerfd wakeup : ℕ) (threads : Threads) (s : Poller epoll) (b : Board)
      (rounds : List Round)
      → Shows epoll s b
      → timerfd ≢ wakeup
      → threads tid ≡ none
      → b.events timerfd ≡ 0
      → b.events wakeup ≡ 0
      → (threads' : Threads) × (l : Reactor (epoll_poller epoll)) × (construct
            (epoll_poller epoll)
            tid
            id
            timerfd
            wakeup
            s
            threads
          ≡ ok (threads', l))
        × IsNew tid id timerfd wakeup threads' l
        × Both
            (λ l' m. IsMortal tid timerfd wakeup threads' l')
            (iterate_each (epoll_poller epoll) rounds l)
            (iterate_each board rounds (started b timerfd wakeup))
  lifetime_lem tid id timerfd wakeup threads s b rounds h apart free quiet₁ quiet₂ =
      let (threads', l, ran, named, alike, kept) =
        construct_lem tid id timerfd wakeup threads s b h apart free quiet₁ quiet₂ in
      let m = started b timerfd wakeup in
      let on₁ : m.object.listed timerfd ≡ true = ground arith in
      let asked₁ : m.object.events timerfd ≡ 3 = ground arith in
      let on₂ : m.object.listed wakeup ≡ true = ground arith in
      let asked₂ : m.object.events wakeup ≡ 3 = ground arith in
      (
        threads',
        l,
        ran,
        record {
          named = named;
          timed = Shows-IsWatched l m.object timerfd alike.object on₁ asked₁;
          woken = Shows-IsWatched l m.object wakeup alike.object on₂ asked₂;
          alone = λ id₂ timerfd₂ wakeup₂ s₂.
              construct-abort tid id₂ id timerfd₂ wakeup₂ threads' s₂ named;
        },
        Both-Ends (IsServed epoll) _ (IsKept (epoll_poller epoll) (λ c. true) false) _ _
            (iterate_each_lem epoll rounds l m alike)
            (iterate_each-IsKept (epoll_poller epoll) (λ c. true) rounds l kept)
            (λ l' m' served kept'.
              Shows-IsMortal tid timerfd wakeup threads' m'.object l' (served.0).object
                (ap (λ f. f timerfd) kept'.owner) (ap (λ f. f wakeup) kept'.owner) kept'.busy),
      )
