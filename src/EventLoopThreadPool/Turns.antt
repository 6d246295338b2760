-- ===== src/EventLoopThreadPool/Turns.antt =====
-- The loops take turns.
use my_learning.Base.{
  ℕ, zero, suc, ◌+◌, ◌≡◌, refl, ap, ◌∙◌, subst, Bool, true, false, Option, none, some, List, [],
  ◌∷◌, ◌++◌, length, get_elem?, ok, arith, length-append, append-append, leb, if◌then◌else◌, ◌==◌,
  ◌&&◌,
}
use my_learning.EventLoopThreadPool.{
  EventLoopThreadPool, new_pool, start_each, start, get_next_loop, get_next_loops,
}

-- a pool that has started, with its next loop
abbrev pub turn : ℕ → ℕ → List ℕ → ℕ → EventLoopThreadPool
turn base num loops i = record {
  base_loop = base;
  started = true;
  num_threads = num;
  next_index = i;
  loops = loops;
}

get_elem?-append :
    (done rest : List ℕ) (x : ℕ) → get_elem? (done ++ x ∷ rest) (length done) ≡ some x
get_elem?-append [] rest x = refl
get_elem?-append (d ∷ done) rest x = get_elem?-append done rest x

get_next_loop-eq :
    (base num : ℕ) (done rest : List ℕ) (x : ℕ)
    → get_next_loop (turn base num (done ++ x ∷ rest) (length done))
      ≡ ok (
        x,
        turn base num
            (done ++ x ∷ rest)
            (if leb (length (done ++ x ∷ rest)) (suc (length done)) then 0 else suc (length done)),
      )
unfolding get_next_loop
get_next_loop-eq base num done rest x = rw (get_elem?-append done rest x) refl

get_next_loops-cons :
    (c : ℕ) (calls : List ℕ) (p : EventLoopThreadPool) (loop : ℕ) (p₁ : EventLoopThreadPool)
    (loops : List ℕ) (p₂ : EventLoopThreadPool)
    → get_next_loop p ≡ ok (loop, p₁)
    → get_next_loops calls p₁ ≡ ok (loops, p₂)
    → get_next_loops (c ∷ calls) p ≡ ok (loop ∷ loops, p₂)
unfolding get_next_loops
get_next_loops-cons c calls p loop p₁ loops p₂ e f = rw e (rw f refl)

length-snoc : (done : List ℕ) (x : ℕ) → length (done ++ x ∷ []) ≡ suc (length done)
length-snoc done x = omega (arith, length-append done (x ∷ []))

last_turn :
    (base num : ℕ) (done : List ℕ) (x : ℕ)
    → get_next_loop (turn base num (done ++ x ∷ []) (length done))
      ≡ ok (x, turn base num (done ++ x ∷ []) 0)
last_turn base num done x =
    let last : leb (length (done ++ x ∷ [])) (suc (length done)) ≡ true =
      ground (arith, length-snoc done x) in
    get_next_loop-eq base num done [] x
    ∙ ap (λ b. ok (x, turn base num (done ++ x ∷ []) (if b then 0 else suc (length done)))) last

next_turn :
    (base num : ℕ) (done rest : List ℕ) (x y : ℕ)
    → get_next_loop (turn base num (done ++ x ∷ y ∷ rest) (length done))
      ≡ ok (x, turn base num (done ++ x ∷ y ∷ rest) (suc (length done)))
next_turn base num done rest x y =
    let more : leb (length (done ++ x ∷ y ∷ rest)) (suc (length done)) ≡ false =
      ground (arith, length-append done (x ∷ y ∷ rest)) in
    get_next_loop-eq base num done (y ∷ rest) x
    ∙ ap (λ b. ok (x, turn base num (done ++ x ∷ y ∷ rest) (if b then 0 else suc (length done))))
        more

no_turns : (p : EventLoopThreadPool) → get_next_loops [] p ≡ ok ([], p)
unfolding get_next_loops
no_turns p = refl

rest_turns :
    (base num : ℕ) (done rest : List ℕ) (x : ℕ)
    → get_next_loops (x ∷ rest) (turn base num (done ++ x ∷ rest) (length done))
      ≡ ok (x ∷ rest, turn base num (done ++ x ∷ rest) 0)
rest_turns base num done [] x =
    let all = done ++ x ∷ [] in
    get_next_loops-cons x [] (turn base num all (length done)) x (turn base num all 0) []
      (turn base num all 0) (last_turn base num done x) (no_turns (turn base num all 0))
rest_turns base num done (y ∷ rest) x =
    let all = done ++ x ∷ y ∷ rest in
    let later =
      subst
        (λ ls.
          get_next_loops (y ∷ rest) (turn base num ls (length (done ++ x ∷ [])))
          ≡ ok (y ∷ rest, turn base num ls 0))
        (append-append done (x ∷ []) (y ∷ rest)) (rest_turns base num (done ++ x ∷ []) rest y) in
    let following =
      subst
        (λ i. get_next_loops (y ∷ rest) (turn base num all i) ≡ ok (y ∷ rest, turn base num all 0))
        (length-snoc done x) later in
    get_next_loops-cons x (y ∷ rest) (turn base num all (length done)) x
      (turn base num all (suc (length done))) (y ∷ rest) (turn base num all 0)
      (next_turn base num done rest x y) following

-- As many calls of getNextLoop as the pool has loops return each loop once, in their order, and the
-- first loop is next again.
pub get_next_loops_lem :
    (base num x : ℕ) (rest : List ℕ)
    → get_next_loops (x ∷ rest) (turn base num (x ∷ rest) 0)
      ≡ ok (x ∷ rest, turn base num (x ∷ rest) 0)
get_next_loops_lem base num x rest = rest_turns base num [] rest x

length-start_each :
    (start_loop : ℕ → ℕ) (n i : ℕ) (loops : List ℕ)
    → length (start_each start_loop n i loops) ≡ length loops + n
unfolding start_each
length-start_each start_loop zero i loops = omega arith
length-start_each start_loop (suc n) i loops = omega (
  arith,
  length-start_each start_loop n (suc i) (loops ++ start_loop i ∷ []),
  length-snoc loops (start_loop i),
)

-- A new pool starts one loop for each of its threads and is ready for its first call; the callback is
-- called with the base loop exactly when there is one and the pool has no threads.
pub start_loops :
    (start_loop : ℕ → ℕ) (has_cb : Bool) (base num : ℕ)
    → (loops : List ℕ) × (called : Option ℕ) × (start start_loop has_cb (new_pool base num)
        ≡ ok (turn base num loops 0, called))
      × (length loops ≡ num)
      × (called ≡ some base → (num ≡ 0) × (has_cb ≡ true))
      × (num ≡ 0 → has_cb ≡ true → called ≡ some base)
unfolding start
start_loops start_loop has_cb base num = (
  start_each start_loop num 0 [],
  if num == 0 && has_cb then some base else none,
  refl,
  omega (arith, length-start_each start_loop num 0 []),
  λ h. ground (arith, h),
  λ z h. ground (arith, z, h),
)
