-- ===== src/EventLoopThreadPool.antt =====
-- myMuduo/lib/EventLoopThreadPool.hpp and EventLoopThreadPool.cpp.
-- A loop is a number, and `start_loop` what EventLoopThread::startLoop returns for the thread of an
-- index. All of it runs in the thread of the base loop. A call of getNextLoop that falls off its end
-- without a result is `abort`.
pub mod Turns
mod Tests
use my_learning.Base.{
  ℕ, zero, suc, ◌+◌, ◌%◌, Bool, true, false, not, Option, none, some, List, [], ◌∷◌, ◌++◌, length,
  get_elem?, leb, ◌==◌, if◌then◌else◌, ◌&&◌, Run, ok, abort, ◌>>=◌, ◌>>◌, assert,
}

pub record EventLoopThreadPool : Type 0 where
  pub base_loop : ℕ
  pub started : Bool
  pub num_threads : ℕ
  pub next_index : ℕ
  pub loops : List ℕ

abbrev pub new_pool : ℕ → ℕ → EventLoopThreadPool
new_pool base num = record {
  base_loop = base;
  started = false;
  num_threads = num;
  next_index = 0;
  loops = [];
}

-- the loop of start over the `n` threads from thread `i` on
unfoldable pub start_each : (ℕ → ℕ) → ℕ → ℕ → List ℕ → List ℕ
start_each start_loop zero i loops = loops
start_each start_loop (suc n) i loops = start_each start_loop n (suc i) (loops ++ start_loop i ∷ [])

-- with the loop that the callback, if there is one, is called with here
unfoldable pub start : (ℕ → ℕ) → Bool → EventLoopThreadPool → Run (EventLoopThreadPool × Option ℕ)
start start_loop has_cb p = do
  assert (not p.started)
  let result : EventLoopThreadPool × Option ℕ = (
    record p { started = true; loops = start_each start_loop p.num_threads 0 p.loops },
    if p.num_threads == 0 && has_cb then some p.base_loop else none,
  )
  ok result

unfoldable pub get_next_loop : EventLoopThreadPool → Run (ℕ × EventLoopThreadPool)
get_next_loop p = do
  assert p.started
  elim (get_elem? p.loops p.next_index) [
    | none ↦ abort
    | some loop ↦
        let next = suc p.next_index in
        let result : ℕ × EventLoopThreadPool =
          (loop, record p { next_index = if leb (length p.loops) next then 0 else next }) in
        ok result
  ]

unfoldable pub get_loop_for_hash : ℕ → EventLoopThreadPool → ℕ
get_loop_for_hash hash p =
    if length p.loops == 0 then p.base_loop else (elim (get_elem? p.loops (hash % length p.loops)) [
      | none ↦ p.base_loop
      | some loop ↦ loop
    ])

unfoldable pub get_all_loops : EventLoopThreadPool → Run (List ℕ)
get_all_loops p = do
  assert p.started
  ok (if length p.loops == 0 then p.base_loop ∷ [] else p.loops)

-- calls of getNextLoop, one for each item
unfoldable pub get_next_loops : List ℕ → EventLoopThreadPool → Run (List ℕ × EventLoopThreadPool)
get_next_loops [] p = let result : List ℕ × EventLoopThreadPool = ([], p) in ok result
get_next_loops (_ ∷ calls) p = do
  (loop, p₁) ← get_next_loop p
  (loops, p₂) ← get_next_loops calls p₁
  let result : List ℕ × EventLoopThreadPool = (loop ∷ loops, p₂)
  ok result
