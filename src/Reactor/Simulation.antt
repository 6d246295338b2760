-- ===== src/Reactor/Simulation.antt =====
-- A loop does the same over two poller classes, one of which simulates the other.
use my_learning.Base.{ℕ, ◌≡◌, refl, true, false, some, none, List, [], ◌∷◌, Run, ok, ◌>>=◌}
use my_learning.Base.Both.{Both, >>=-Both, assert-Both}
use my_learning.Poller.{Waited}
use my_learning.Reactor.{
  PollerClass, Reactor, Change, Demand, Round, change, remove, perform, perform_each, handle_events,
  iterate, iterate_each,
}

module _ (P Q : PollerClass) (R : P.Object → Q.Object → Type 0) where
  -- What P does, Q does, and they abort on the same calls.
  pub record Simulates : Type 0 where
    pub update :
        (k : Change) (c : ℕ) (p : P.Object) (q : Q.Object)
        → R p q
        → Both R (P.update c (P.set_events k c p)) (Q.update c (Q.set_events k c q))
    pub remove :
        (c : ℕ) (p : P.Object) (q : Q.Object) → R p q → Both R (P.remove c p) (Q.remove c q)
    pub has : (c : ℕ) (p : P.Object) (q : Q.Object) → R p q → P.has c p ≡ Q.has c q
    pub wait :
        (w : Waited) (p : P.Object) (q : Q.Object)
        → R p q
        → Both (λ x y. (x.0 ≡ y.0) × R x.1 y.1) (P.wait w p) (Q.wait w q)

  -- Two loops that differ in their pollers only.
  pub record IsAlike (l : Reactor P) (m : Reactor Q) : Type 0 where
    pub owned : (c : ℕ) → l.owned c ≡ m.owned c
    pub event_handling : l.event_handling ≡ m.event_handling
    pub active_channel : l.active_channel ≡ m.active_channel
    pub current_active_channel : l.current_active_channel ≡ m.current_active_channel
    pub object : R l.object m.object

module _ (P Q : PollerClass) (R : P.Object → Q.Object → Type 0) (sim : Simulates P Q R) where
  abbrev Alike : Run (Reactor P) → Run (Reactor Q) → Type 0
  Alike = Both (IsAlike P Q R)

  set_object-Alike :
      (l : Reactor P) (m : Reactor Q) (p : Run P.Object) (q : Run Q.Object)
      → IsAlike P Q R l m
      → Both R p q
      → Alike (p >>= λ o. ok (record l { object = o })) (q >>= λ o. ok (record m { object = o }))
  set_object-Alike l m p q a h =
      >>=-Both R (IsAlike P Q R) p q (λ o. ok (record l { object = o }))
        (λ o. ok (record m { object = o })) h
        (λ o o' r. record {
          owned = a.owned;
          event_handling = a.event_handling;
          active_channel = a.active_channel;
          current_active_channel = a.current_active_channel;
          object = r;
        })

  perform-Alike :
      (d : Demand) (l : Reactor P) (m : Reactor Q)
      → IsAlike P Q R l m
      → Alike (perform P d l) (perform Q d m)
  unfolding perform
  perform-Alike (change k c) l m a =
      assert-Both (IsAlike P Q R) (l.owned c) (m.owned c) _ _ (a.owned c) (
        set_object-Alike l m (P.update c (P.set_events k c l.object))
          (Q.update c (Q.set_events k c m.object)) a (sim.update k c l.object m.object a.object))
  perform-Alike (remove c) l m a =
      assert-Both (IsAlike P Q R) (l.owned c) (m.owned c) _ _ (a.owned c) (
        assert-Both (IsAlike P Q R) _ _ _ _
          (rw (a.event_handling, a.active_channel, a.current_active_channel) refl)
          (set_object-Alike l m (P.remove c l.object) (Q.remove c m.object) a
            (sim.remove c l.object m.object a.object)))

  perform_each-Alike :
      (ds : List Demand) (l : Reactor P) (m : Reactor Q)
      → IsAlike P Q R l m
      → Alike (perform_each P ds l) (perform_each Q ds m)
  unfolding perform_each
  perform_each-Alike [] l m a = a
  perform_each-Alike (d ∷ ds) l m a =
      >>=-Both (IsAlike P Q R) (IsAlike P Q R) (perform P d l) (perform Q d m) (perform_each P ds)
        (perform_each Q ds) (perform-Alike d l m a) (perform_each-Alike ds)

  handle_events-Alike :
      (callbacks : ℕ → List Demand) (active : List ℕ) (l : Reactor P) (m : Reactor Q)
      → IsAlike P Q R l m
      → Alike (handle_events P callbacks active l) (handle_events Q callbacks active m)
  unfolding handle_events
  handle_events-Alike callbacks [] l m a = a
  handle_events-Alike callbacks (c ∷ active) l m a =
      >>=-Both (IsAlike P Q R) (IsAlike P Q R) _ _ (handle_events P callbacks active)
        (handle_events Q callbacks active)
        (perform_each-Alike (callbacks c) (record l { current_active_channel = some c })
          (record m { current_active_channel = some c })
          (record {
            owned = a.owned;
            event_handling = a.event_handling;
            active_channel = a.active_channel;
            current_active_channel = refl;
            object = a.object;
          }))
        (handle_events-Alike callbacks active)

  iterate-Alike :
      (r : Round) (l : Reactor P) (m : Reactor Q)
      → IsAlike P Q R l m
      → Alike (iterate P r l) (iterate Q r m)
  unfolding iterate
  iterate-Alike r l m a =
      >>=-Both (λ x y. (x.0 ≡ y.0) × R x.1 y.1) (IsAlike P Q R) _ _ _ _
        (sim.wait r.waited l.object m.object a.object)
        (λ x y h.
          >>=-Both (IsAlike P Q R) (IsAlike P Q R) _ _ _ _
            (rw (h.0) (
              handle_events-Alike r.callbacks y.0
                (record l { active_channel = y.0; event_handling = true; object = x.1 })
                (record m { active_channel = y.0; event_handling = true; object = y.1 })
                (record {
                  owned = a.owned;
                  event_handling = refl;
                  active_channel = refl;
                  current_active_channel = a.current_active_channel;
                  object = h.1;
                })))
            (λ l' m' a'.
              perform_each-Alike r.functors
                (record l' { current_active_channel = none; event_handling = false })
                (record m' { current_active_channel = none; event_handling = false })
                (record {
                  owned = a'.owned;
                  event_handling = refl;
                  active_channel = a'.active_channel;
                  current_active_channel = refl;
                  object = a'.object;
                })))

  -- Whatever happens in any number of iterations, the two loops abort together, or end alike.
  pub iterate_each-Alike :
      (rounds : List Round) (l : Reactor P) (m : Reactor Q)
      → IsAlike P Q R l m
      → Both (IsAlike P Q R) (iterate_each P rounds l) (iterate_each Q rounds m)
  unfolding iterate_each
  iterate_each-Alike [] l m a = a
  iterate_each-Alike (r ∷ rounds) l m a =
      >>=-Both (IsAlike P Q R) (IsAlike P Q R) (iterate P r l) (iterate Q r m)
        (iterate_each P rounds) (iterate_each Q rounds) (iterate-Alike r l m a)
        (iterate_each-Alike rounds)
