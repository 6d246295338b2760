-- ===== src/Thread.antt =====
-- myMuduo/lib/Thread.cpp: a thread and its owner, who starts it, may join it, and waits for it at a
-- std::latch. Each side goes on in steps, between which the other side may run. Whether pthread_create
-- succeeds, the id that gettid gives and how the thread's function ends are arguments.
pub mod Progress
pub mod Handover
pub mod Aborts
mod Tests
use my_learning.Base.{
  ℕ, ◌+◌, ◌-◌, ◌≡◌, Bool, true, false, ◌&&◌, not, Option, none, some, List, [], ◌∷◌, ◌++◌, ltb,
  ◌==◌, if◌then◌else◌,
}

-- where the owner is: before start, in its latch_.wait, before its assertion, after start, in join, done
pub data OwnerAt : Type 0 where
  before_start in_wait woken after_start in_join after_join : OwnerAt

-- where the thread is: before it is created, at the store of its id, before the count down, before its
-- function, done
pub data ThreadAt : Type 0 where
  not_created at_entry before_count before_func after_func : ThreadAt

pub data FuncEnd : Type 0 where
  returns throws : FuncEnd

pub record System : Type 0 where
  pub owner : OwnerAt
  pub thread : ThreadAt
  pub started : Bool
  pub joined : Bool
  pub tid : ℕ
  pub latch : ℕ
  -- the process was aborted
  pub aborted : Bool

-- what does not depend on the code
pub record Setting : Type 0 where
  pub created : Bool
  pub gettid : ℕ
  pub ends : FuncEnd
  pub joins : Bool

-- Thread::Thread
unfoldable pub construct : System
construct = record {
  owner = before_start;
  thread = not_created;
  started = false;
  joined = false;
  tid = 0;
  latch = 1;
  aborted = false;
}

abbrev pub aborts : System → System
aborts s = record s { aborted = true }

-- ThreadData::runInThread
unfoldable pub thread_at : Setting → ThreadAt → System → Option System
thread_at w not_created s = none
thread_at w at_entry s = some (record s { tid = w.gettid; thread = before_count })
thread_at w before_count s = some (record s { latch = s.latch - 1; thread = before_func })
thread_at w before_func s =
    some (elim w.ends [ returns ↦ record s { thread = after_func } | throws ↦ aborts s ])
thread_at w after_func s = none

-- Thread::start and, where the owner calls it, Thread::join
unfoldable pub owner_at : Setting → OwnerAt → System → Option System
owner_at w before_start s = some (
    if s.started
    then aborts s
    else if w.created
    then record s { thread = at_entry; owner = in_wait }
    else aborts (record s { started = false }))
owner_at w in_wait s = if s.latch == 0 then some (record s { owner = woken }) else none
owner_at w woken s = some (if ltb 0 s.tid then record s { owner = after_start } else aborts s)
owner_at w after_start s =
    if w.joins
    then some (
        if s.started && not s.joined then record s { joined = true; owner = in_join } else aborts s)
    else none
owner_at w in_join s = elim s.thread [
  | after_func ↦ some (record s { owner = after_join })
  | _ ↦ none
]
owner_at w after_join s = none

abbrev pub thread_step : Setting → System → Option System
thread_step w s = if s.aborted then none else thread_at w s.thread s

abbrev pub owner_step : Setting → System → Option System
owner_step w s = if s.aborted then none else owner_at w s.owner s

-- one step of either side
pub data Step (w : Setting) (s t : System) : Type 0 where
  by_thread : thread_step w s ≡ some t → Step w s t
  by_owner : owner_step w s ≡ some t → Step w s t

-- what a run from the constructor on can come to, and in how many steps
pub data Reach (w : Setting) : ℕ → System → Type 0 where
  begin : Reach w 0 construct
  next : {n : ℕ} {s t : System} → Reach w n s → Step w s t → Reach w (n + 1) t

-- setDefaultName, with the number of threads so far and the text of "%d"
unfoldable pub set_default_name : (ℕ → List ℕ) → ℕ → List ℕ → List ℕ × ℕ
set_default_name decimal num [] = (84 ∷ 104 ∷ 114 ∷ 101 ∷ 97 ∷ 100 ∷ decimal num, num + 1)
set_default_name decimal num (c ∷ cs) = (c ∷ cs, num + 1)

-- the constructor of ThreadData, which leaves `name_` empty
unfoldable pub data_name : List ℕ → List ℕ
data_name name = []

-- the name that runInThread gives its thread, "muduo Thread" where `name_` is empty
unfoldable pub shown_name : List ℕ → List ℕ
shown_name [] = 109 ∷ 117 ∷ 100 ∷ 117 ∷ 111 ∷ 32 ∷ 84 ∷ 104 ∷ 114 ∷ 101 ∷ 97 ∷ 100 ∷ []
shown_name (c ∷ cs) = c ∷ cs
