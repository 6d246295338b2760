-- ===== src/TimerQueue/Waiting.antt =====
-- Timers that wait for their insertion, beside those that expire.
use my_learning.Base.{ℕ, ◌≡◌, ◌≢◌, sym, subst, true, false, List, [], ◌∷◌, ◌++◌, All, arith}
use my_learning.OrderedSet.{Pair, member}
use my_learning.OrderedSet.Laws.{All-of_member}
use my_learning.TimerQueue.{TimerQueue}
use my_learning.TimerQueue.Valid.{IsValid, Pending, AreApart}

All-append_left : (P : Pair → Type 0) (xs ys : List Pair) → All P (xs ++ ys) → All P xs
All-append_left P [] ys a = tt
All-append_left P (x ∷ xs) ys (h, a) = (h, All-append_left P xs ys a)

All-join : (P : Pair → Type 0) (xs ys : List Pair) → All P xs → All P ys → All P (xs ++ ys)
All-join P [] ys a b = b
All-join P (x ∷ xs) ys (h, a) b = (h, All-join P xs ys a b)

apart_from :
    (q : TimerQueue) (p s : ℕ) (rest : List Pair)
    → member (p, s) q.active_timers ≡ true
    → Pending q rest
    → All (λ x. x.1 ≢ p) rest
apart_from q p s [] m g = tt
apart_from q p s ((w, o) ∷ rest) m (_, idle, _, g) =
    (λ e. ground (arith, m, idle s, e), apart_from q p s rest m g)

-- A timer that waits is at no pointer of the queue.
pub waiting-AreApart :
    (q : TimerQueue) (expired later rest : List Pair)
    → IsValid q
    → expired ++ later ≡ q.timers
    → Pending q rest
    → AreApart expired rest
waiting-AreApart q expired later rest v split g = All-append_left _ expired later (
    subst (λ ts. AreApart ts rest) (sym split)
      (All-of_member q.timers (λ x m.
        let (t, _, _, active) = v.timed x.0 x.1 m in apart_from q x.1 t.sequence rest active g)))

pub Pending-join :
    (q : TimerQueue) (expired rest : List Pair)
    → AreApart expired rest
    → Pending q expired
    → Pending q rest
    → Pending q (expired ++ rest)
Pending-join q [] rest a g h = h
Pending-join q (e ∷ expired) rest (apart, a) (live, idle, distinct, g) h =
    (live, idle, All-join _ expired rest distinct apart, Pending-join q expired rest a g h)

pub Pending-right :
    (q : TimerQueue) (expired rest : List Pair) → Pending q (expired ++ rest) → Pending q rest
Pending-right q [] rest g = g
Pending-right q (e ∷ expired) rest (_, _, _, g) = Pending-right q expired rest g

pub Pending-left :
    (q : TimerQueue) (expired rest : List Pair) → Pending q (expired ++ rest) → Pending q expired
Pending-left q [] rest g = tt
Pending-left q (e ∷ expired) rest (live, idle, distinct, g) =
    (live, idle, All-append_left _ expired rest distinct, Pending-left q expired rest g)

-- Idle timers stay so where active timers only go.
pub fewer-Pending :
    (q q' : TimerQueue) (rest : List Pair)
    → q'.heap ≡ q.heap
    → ((x : Pair) → member x q.active_timers ≡ false → member x q'.active_timers ≡ false)
    → Pending q rest
    → Pending q' rest
fewer-Pending q q' [] h f g = tt
fewer-Pending q q' ((w, p) ∷ rest) h f ((t, live, at), idle, distinct, g) = (
  (t, ground (arith, live, h), at),
  λ s. f (p, s) (idle s),
  distinct,
  fewer-Pending q q' rest h f g,
)
