-- ===== src/EventLoop/Wakeup.antt =====
-- Why the loop never sleeps while a functor is pending, and when it returns.
use my_learning.Base.{
  ℕ, not, ◌||◌, ◌≡◌, ◌≢◌, subst, refl, sym, ◌∙◌, Bool, true, false, List, [], ◌∷◌, ◌++◌, arith,
  if◌then◌else◌, All, ok,
}
use my_learning.EventLoop.{EventLoop, Script, Round, call_others, iterate, loop_rounds, loop}
use my_learning.EventLoop.Functors.{queued_by_each, stops_each, or_false}
use my_learning.EventLoop.Others.{IsWaiting, queued_by_others, stops_of_others, Foreign-calls}
use my_learning.EventLoop.Iterate.{queued_by_events, stops_of_events, iterate_lem}

-- Whether anyone calls quit in these rounds: another thread, the callback of an active channel or a
-- functor that gets its turn, the functors in `pending` first.
unfoldable pub quit_called : List Round → List Script → Bool
unfolding queued_by_others stops_of_others queued_by_events stops_of_events queued_by_each
    stops_each
quit_called [] pending = false
quit_called (r ∷ rounds) pending =
    let functors = (pending ++ queued_by_others r.others) ++ queued_by_events r.active in
    ((stops_of_others r.others || stops_of_events r.active) || stops_each functors)
    || quit_called rounds (queued_by_each functors)

-- the calls of other threads are made by other threads
abbrev pub AreForeign : ℕ → List Round → Type 0
AreForeign tid = All (λ r. All (λ o. o.0 ≢ tid) r.others)

pub record Looped (stopped : Bool) (l' : EventLoop) : Type 0 where
  pub waiting : IsWaiting l'
  pub looping : l'.looping ≡ not stopped
  pub quits : l'.quit_flag ≡ stopped

left_loop :
    (stopped : Bool) (l : EventLoop)
    → IsWaiting l
    → l.quit_flag ≡ true
    → Looped (l.quit_flag || stopped) (record l { looping = false })
left_loop stopped l w q =
    let b = w.between in
    record {
      waiting = record {
        awake = w.awake;
        between = record {
          not_handling = b.not_handling;
          not_calling = b.not_calling;
          no_channel = b.no_channel;
        };
      };
      looping = rw q refl;
      quits = rw q refl;
    }

if-Looped :
    (stopped b : Bool) (x y : EventLoop)
    → (b ≡ true → Looped stopped x)
    → (b ≡ false → Looped stopped y)
    → Looped stopped (if b then x else y)
if-Looped stopped true x y f g = f refl
if-Looped stopped false x y f g = g refl

loop_rounds-Looped :
    (rounds : List Round) (l : EventLoop)
    → AreForeign l.thread_id rounds
    → IsWaiting l
    → l.looping ≡ true
    → Looped (l.quit_flag || quit_called rounds l.pending_functors) (loop_rounds rounds l)
unfolding loop_rounds quit_called
loop_rounds-Looped [] l n w on =
    if-Looped (l.quit_flag || false) l.quit_flag (record l { looping = false }) l
      (left_loop false l w)
      (λ q. record { waiting = w; looping = rw q on; quits = or_false l.quit_flag })
loop_rounds-Looped (r ∷ rounds) l (n, ns) w on =
    let l₁ = call_others r.others l in
    let f = Foreign-calls r.others l n w in
    let i = iterate_lem r.active l₁ in
    let l₂ = iterate r.active l₁ in
    let same : l₂.thread_id ≡ l.thread_id = i.thread ∙ f.thread in
    let stopped = quit_called (r ∷ rounds) l.pending_functors in
    if-Looped (l.quit_flag || stopped) l.quit_flag (record l { looping = false })
      (loop_rounds rounds l₂) (left_loop stopped l w)
      (λ q.
        let rest =
          loop_rounds-Looped rounds l₂ (subst (λ t. AreForeign t rounds) (sym same) ns)
            (record { awake = i.awake; between = i.between }) (i.looping ∙ (f.looping ∙ on)) in
        subst (λ b. Looped b (loop_rounds rounds l₂))
          (rw i.quits (rw i.pending (rw f.quits (rw f.pending (rw q refl))))) rest)

-- The loop has returned, with `looping_` reset, exactly when quit was called since it began: by
-- another thread while the loop waits or while it runs callbacks and functors, by a callback, or by a
-- functor that got its turn. A quit before loop() is forgotten. Otherwise it waits in poll. Whatever
-- the others call, a functor that is pending when the loop waits or ends has woken it up, and no
-- iteration is left half done. This needs that nothing is pending without a wakeup when loop() is
-- called: a functor that the loop's own thread has queued before loop() waits for the first poll to
-- return, and is left out here.
pub loop_lem :
    (tid : ℕ) (rounds : List Round) (l : EventLoop)
    → l.thread_id ≡ tid
    → l.looping ≡ false
    → IsWaiting l
    → AreForeign tid rounds
    → (l' : EventLoop) × (loop tid rounds l ≡ ok l')
      × Looped (quit_called rounds l.pending_functors) l'
unfolding loop
loop_lem tid rounds l here off w n =
    let l₁ = record l { looping = true; quit_flag = false } in
    let b = w.between in
    let w₁ : IsWaiting l₁ = record {
      awake = w.awake;
      between = record {
        not_handling = b.not_handling;
        not_calling = b.not_calling;
        no_channel = b.no_channel;
      };
    } in
    (
      loop_rounds rounds l₁,
      ground (arith, here, off),
      loop_rounds-Looped rounds l₁ (subst (λ t. AreForeign t rounds) (sym here) n) w₁ refl,
    )
