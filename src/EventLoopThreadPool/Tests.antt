-- ===== src/EventLoopThreadPool/Tests.antt =====
-- A pool of three loops.
use my_learning.Base.{ℕ, ◌≡◌, refl, [], ◌∷◌, ok}
use my_learning.EventLoopThreadPool.{get_next_loops, get_loop_for_hash}
use my_learning.EventLoopThreadPool.Turns.{turn, get_next_loops_lem}

abbrev threads : ℕ
threads = 3

-- hash 7 of three loops
hash_loop : get_loop_for_hash 7 (turn 9 3 (5 ∷ 6 ∷ 7 ∷ []) 0) ≡ 6
unfolding get_loop_for_hash
hash_loop = refl

get_next_loops_lem_example :
    get_next_loops (5 ∷ 6 ∷ 7 ∷ []) (turn 9 3 (5 ∷ 6 ∷ 7 ∷ []) 0)
    ≡ ok (5 ∷ 6 ∷ 7 ∷ [], turn 9 3 (5 ∷ 6 ∷ 7 ∷ []) 0)
get_next_loops_lem_example = get_next_loops_lem 9 3 5 (6 ∷ 7 ∷ [])
