-- ===== src/Reactor/Kept.antt =====
-- What the iterations of a loop never change: whose the channels are, and that it handles no event
-- between two iterations.
use my_learning.Base.{
  ℕ, ◌≡◌, refl, Bool, true, false, some, none, List, [], ◌∷◌, Run, ok, abort, ◌>>=◌, ◌>>◌, assert,
}
use my_learning.Base.Both.{Both, Ends}
use my_learning.Reactor.{
  PollerClass, Reactor, Demand, Round, change, remove, perform, perform_each, handle_events,
  iterate, iterate_each,
}

>>=-Ends :
    {A B : Type 0} (I : A → Type 0) (J : B → Type 0) (m : Run A) (f : A → Run B)
    → Ends I m
    → ((a : A) → I a → Ends J (f a))
    → Ends J (m >>= f)
>>=-Ends I J (ok a) f h next = next a h
>>=-Ends I J abort f h next = tt

pub Both-Ends :
    {A B : Type 0} (R S : A → B → Type 0) (I : A → Type 0) (m : Run A) (n : Run B)
    → Both R m n
    → Ends I m
    → ((a : A) (b : B) → R a b → I a → S a b)
    → Both S m n
Both-Ends R S I (ok a) (ok b) h e f = f a b h e
Both-Ends R S I abort abort h e f = tt
Both-Ends R S I (ok a) abort h e f = absurd h
Both-Ends R S I abort (ok b) h e f = absurd h

any : {A : Type 0} (m : Run A) → Ends (λ a. Unit) m
any (ok a) = tt
any abort = tt

module _ (P : PollerClass) (owned : ℕ → Bool) where
  pub record IsKept (handling : Bool) (l : Reactor P) : Type 0 where
    pub owner : l.owned ≡ owned
    pub busy : l.event_handling ≡ handling

  set_object-IsKept :
      (handling : Bool) (l : Reactor P) (o : Run P.Object)
      → IsKept handling l
      → Ends (IsKept handling) (o >>= λ x. ok (record l { object = x }))
  set_object-IsKept handling l (ok x) k = record { owner = k.owner; busy = k.busy }
  set_object-IsKept handling l abort k = tt

  assert-IsKept :
      (handling t : Bool) (m : Run (Reactor P))
      → Ends (IsKept handling) m
      → Ends (IsKept handling) (assert t >> m)
  assert-IsKept handling true m h = h
  assert-IsKept handling false m h = tt

  perform-IsKept :
      (handling : Bool) (d : Demand) (l : Reactor P)
      → IsKept handling l
      → Ends (IsKept handling) (perform P d l)
  unfolding perform
  perform-IsKept handling (change k c) l h =
      assert-IsKept handling (l.owned c) _
        (set_object-IsKept handling l (P.update c (P.set_events k c l.object)) h)
  perform-IsKept handling (remove c) l h =
      assert-IsKept handling (l.owned c) _
        (assert-IsKept handling _ _ (set_object-IsKept handling l (P.remove c l.object) h))

  perform_each-IsKept :
      (handling : Bool) (ds : List Demand) (l : Reactor P)
      → IsKept handling l
      → Ends (IsKept handling) (perform_each P ds l)
  unfolding perform_each
  perform_each-IsKept handling [] l h = h
  perform_each-IsKept handling (d ∷ ds) l h =
      >>=-Ends (IsKept handling) (IsKept handling) (perform P d l) (perform_each P ds)
        (perform-IsKept handling d l h) (perform_each-IsKept handling ds)

  handle_events-IsKept :
      (handling : Bool) (callbacks : ℕ → List Demand) (active : List ℕ) (l : Reactor P)
      → IsKept handling l
      → Ends (IsKept handling) (handle_events P callbacks active l)
  unfolding handle_events
  handle_events-IsKept handling callbacks [] l h = h
  handle_events-IsKept handling callbacks (c ∷ active) l h =
      >>=-Ends (IsKept handling) (IsKept handling) _ (handle_events P callbacks active)
        (perform_each-IsKept handling (callbacks c) (record l { current_active_channel = some c })
          (record { owner = h.owner; busy = h.busy }))
        (handle_events-IsKept handling callbacks active)

  iterate-IsKept :
      (r : Round) (l : Reactor P) → IsKept false l → Ends (IsKept false) (iterate P r l)
  unfolding iterate
  iterate-IsKept r l h =
      >>=-Ends (λ x. Unit) (IsKept false) (P.wait r.waited l.object) _ (any _)
        (λ x u.
          >>=-Ends (IsKept true) (IsKept false) _ _
            (handle_events-IsKept true r.callbacks x.0
              (record l { active_channel = x.0; event_handling = true; object = x.1 })
              (record { owner = h.owner; busy = refl }))
            (λ l' h'.
              perform_each-IsKept false r.functors
                (record l' { current_active_channel = none; event_handling = false })
                (record { owner = h'.owner; busy = refl })))

  pub iterate_each-IsKept :
      (rounds : List Round) (l : Reactor P)
      → IsKept false l
      → Ends (IsKept false) (iterate_each P rounds l)
  unfolding iterate_each
  iterate_each-IsKept [] l h = h
  iterate_each-IsKept (r ∷ rounds) l h =
      >>=-Ends (IsKept false) (IsKept false) (iterate P r l) (iterate_each P rounds)
        (iterate-IsKept r l h) (iterate_each-IsKept rounds)
