-- ===== src/Thread/Tests.antt =====
-- A thread that is scheduled first, and one whose owner joins it.
use my_learning.Base.{◌≡◌, ◌≤◌, ◌⊎◌, refl, arith, Bool, true, false, none, [], ◌∷◌}
use my_learning.Thread.{
  in_wait, woken, after_start, at_entry, before_count, before_func, after_func, returns, System,
  Setting, construct, thread_at, owner_at, thread_step, owner_step, by_thread, by_owner, Reach,
  begin, next, shown_name, data_name, set_default_name,
}
use my_learning.Thread.Handover.{IsDone, handover_ends}
use my_learning.Thread.Aborts.{handover_safe, join_aborts}

-- The name of a thread is not shown: ThreadData leaves its own empty.
name_lost : shown_name (data_name (set_default_name (λ n. []) 0 (65 ∷ [])).0) ≡ shown_name []
unfolding data_name
name_lost = refl

abbrev setting : Bool → Setting
setting joins = record { created = true; gettid = 77; ends = returns; joins = joins }

-- the owner waits before the thread stores its id
abbrev waiting : System
waiting = record {
  owner = in_wait;
  thread = at_entry;
  started = false;
  joined = false;
  tid = 0;
  latch = 1;
  aborted = false;
}

abbrev stored : System
stored = record waiting { thread = before_count; tid = 77 }

abbrev counted : System
counted = record stored { thread = before_func; latch = 0 }

abbrev ended : System
ended = record counted { thread = after_func }

abbrev told : System
told = record ended { owner = woken }

abbrev started : System
started = record told { owner = after_start }

run : (joins : Bool) → Reach (setting joins) 6 started
unfolding construct thread_at owner_at
run joins =
    next {t = started}
      (next {t = told}
        (next {t = ended}
          (next {t = counted}
            (next {t = stored} (next {t = waiting} begin (by_owner refl)) (by_thread refl))
            (by_thread refl))
          (by_thread refl))
        (by_owner refl))
      (by_owner refl)

handover_ends_example :
    (6 ≤ 10)
    × (thread_step (setting false) started ≡ none
        → owner_step (setting false) started ≡ none
        → (started.aborted ≡ true) ⊎ IsDone (setting false) started)
handover_ends_example = handover_ends (setting false) (run false)

handover_safe_example : started.aborted ≡ false
handover_safe_example = handover_safe (setting false) (omega arith) refl refl refl (run false)

abbrev join_refused : System
join_refused = record started { aborted = true }

join_run : Reach (setting true) 7 join_refused
unfolding owner_at
join_run = next (run true) (by_owner refl)

join_aborts_example : join_refused.aborted ≡ true
unfolding thread_at owner_at
join_aborts_example = join_aborts (setting true) refl join_run refl refl
