-- ===== src/EventLoop/Iterate.antt =====
-- One iteration of the loop.
use my_learning.Base.{
  append-append, append_nil, ℕ, suc, ◌≡◌, ◌<◌, map, refl, ap, sym, ◌∙◌, true, false, Bool, ◌||◌,
  none, some, List, [], ◌∷◌, ◌++◌, length, arith,
}
use my_learning.EventLoop.{
  EventLoop, Script, channel_of, Active, woken, event, handle_event, handle_events, iterate,
}
use my_learning.EventLoop.Functors.{
  visits_of, queued_by, visits_of_each, queued_by_each, stops, stops_each, or_false, or_or,
  call-Called, do_pending_functors_lem,
}

-- what the callbacks of the active channels visit and queue
unfoldable pub visits_of_events : List Active → List ℕ
unfolding visits_of
visits_of_events [] = []
visits_of_events (woken c ∷ active) = visits_of_events active
visits_of_events (event c cb ∷ active) = visits_of cb ++ visits_of_events active

unfoldable pub queued_by_events : List Active → List Script
unfolding queued_by
queued_by_events [] = []
queued_by_events (woken c ∷ active) = queued_by_events active
queued_by_events (event c cb ∷ active) = queued_by cb ++ queued_by_events active

unfoldable pub stops_of_events : List Active → Bool
unfolding stops
stops_of_events [] = false
stops_of_events (woken c ∷ active) = stops_of_events active
stops_of_events (event c cb ∷ active) = stops cb || stops_of_events active

record Handled (vs : List ℕ) (qs : List Script) (stopped : Bool) (l l' : EventLoop) : Type 0 where
  visits : l'.visits ≡ l.visits ++ vs
  pending : l'.pending_functors ≡ l.pending_functors ++ qs
  thread : l'.thread_id ≡ l.thread_id
  looping : l'.looping ≡ l.looping
  quits : l'.quit_flag ≡ (l.quit_flag || stopped)

handle_events-Handled :
    (active : List Active) (l : EventLoop)
    → Handled
        (visits_of_events active)
        (queued_by_events active)
        (stops_of_events active)
        l
        (handle_events active l)
unfolding handle_events handle_event visits_of_events queued_by_events stops_of_events
handle_events-Handled [] l = record {
  visits = sym (append_nil l.visits);
  pending = sym (append_nil l.pending_functors);
  thread = refl;
  looping = refl;
  quits = or_false l.quit_flag;
}
handle_events-Handled (woken c ∷ active) l =
    let h = handle_events-Handled active (handle_event (woken c) l) in
    record {
      visits = h.visits;
      pending = h.pending;
      thread = h.thread;
      looping = h.looping;
      quits = h.quits;
    }
handle_events-Handled (event c cb ∷ active) l =
    let l₁ = handle_event (event c cb) l in
    let d = call-Called l.thread_id cb (record l { current_active_channel = some c }) refl in
    let h = handle_events-Handled active l₁ in
    record {
      visits =
          h.visits
          ∙ (ap (λ x. x ++ visits_of_events active) d.visits
              ∙ append-append l.visits (visits_of cb) (visits_of_events active));
      pending =
          h.pending
          ∙ (ap (λ x. x ++ queued_by_events active) d.pending
              ∙ append-append l.pending_functors (queued_by cb) (queued_by_events active));
      thread = h.thread ∙ d.thread;
      looping = h.looping ∙ d.looping;
      quits =
          h.quits
          ∙ (ap (λ x. x || stops_of_events active) d.quits
              ∙ or_or l.quit_flag (stops cb) (stops_of_events active));
    }

-- If a functor is pending, the next poll returns at once.
abbrev pub IsAwake : EventLoop → Type 0
IsAwake l = 0 < length l.pending_functors → 0 < l.wakeups

-- nothing of an iteration is under way
pub record IsBetween (l : EventLoop) : Type 0 where
  pub not_handling : l.event_handling ≡ false
  pub not_calling : l.calling_pending_functors ≡ false
  pub no_channel : l.current_active_channel ≡ none

pub record Iterated (active : List Active) (l l' : EventLoop) : Type 0 where
  pub visits :
      l'.visits
      ≡ (l.visits ++ visits_of_events active)
        ++ visits_of_each (l.pending_functors ++ queued_by_events active)
  pub pending : l'.pending_functors ≡ queued_by_each (l.pending_functors ++ queued_by_events active)
  pub awake : IsAwake l'
  pub between : IsBetween l'
  pub thread : l'.thread_id ≡ l.thread_id
  pub looping : l'.looping ≡ l.looping
  pub quits : l'.quit_flag ≡ (
      (l.quit_flag || stops_of_events active)
      || stops_each (l.pending_functors ++ queued_by_events active))

-- the loop once the active channels are handled
abbrev handled : List Active → EventLoop → EventLoop
handled active l =
    record (handle_events active (record l {
      active_channel = map channel_of active;
      iteration = suc l.iteration;
      event_handling = true;
    })) { current_active_channel = none; event_handling = false }

-- An iteration runs the callbacks of the active channels in order, then every functor that was
-- pending before it and every one that those callbacks, or other threads meanwhile, queued. What is
-- queued after that stays pending, and the loop is awake for it, though the wakeup channel may have
-- read the eventfd. The quit flag is set afterwards exactly when it was before, or when one of these
-- callbacks and functors, or another thread meanwhile, has called quit.
pub iterate_lem : (active : List Active) (l : EventLoop) → Iterated active l (iterate active l)
unfolding iterate
iterate_lem active l =
    let h = handle_events-Handled active (record l {
      active_channel = map channel_of active;
      iteration = suc l.iteration;
      event_handling = true;
    }) in
    let d = do_pending_functors_lem (handled active l) in
    record {
      visits = d.visits ∙ rw h.visits (rw h.pending refl);
      pending = d.pending ∙ rw h.pending refl;
      awake = λ more. omega (arith, more, d.woken);
      between = record { not_handling = d.handling; not_calling = d.idle; no_channel = d.channel };
      thread = d.thread ∙ h.thread;
      looping = d.looping ∙ h.looping;
      quits = d.quits ∙ rw h.quits (rw h.pending refl);
    }
