-- ===== src/Reactor/Board.antt =====
-- What a poller promises: it knows which channels it serves and what each asks for, and nothing of
-- epoll, the marks or descriptors.
use my_learning.Base.{
  ℕ, ◌*◌, Bool, true, false, ◌&&◌, List, [], ◌∷◌, ◌==◌, leb, if◌then◌else◌, update, length, map,
  Run, ok, ◌>>◌, assert,
}
use my_learning.Epoll.{EpollEvent}
use my_learning.Poller.{Waited, reported, wait_failed}
use my_learning.Reactor.{PollerClass, changed}

pub record Board : Type 0 where
  pub events : ℕ → ℕ
  pub listed : ℕ → Bool
  -- how many events one wait may report
  pub capacity : ℕ

unfoldable pub all_listed : (ℕ → Bool) → List EpollEvent → Bool
all_listed listed [] = true
all_listed listed (e ∷ es) = listed e.ptr && all_listed listed es

abbrev pub board_wait : Waited → Board → Run (List ℕ × Board)
board_wait (wait_failed errno) b = ok ([], b)
board_wait (reported es) b = do
  assert (leb (length es) b.capacity)
  assert (all_listed b.listed es)
  let capacity = if length es == b.capacity then b.capacity * 2 else b.capacity
  let result : List ℕ × Board = (map (λ e. e.ptr) es, record b { capacity = capacity })
  ok result

abbrev pub board : PollerClass
board = record {
  Object = Board;
  set_events = λ k c b. record b { events = update b.events c (changed k (b.events c)) };
  update = λ c b. ok (record b { listed = update b.listed c true });
  remove = λ c b. do
    assert (b.listed c)
    assert (b.events c == 0)
    ok (record b { listed = update b.listed c false });
  has = λ c b. ok (b.listed c);
  wait = board_wait;
}
