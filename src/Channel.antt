-- ===== src/Channel.antt =====
-- myMuduo/lib/Channel.hpp: what a descriptor's channel asks for. The event masks and `update`, which
-- myMuduo/lib/Channel.cpp leaves out, are those of muduo/lib/channel.cpp; `update` hands the channel
-- to the poller (Poller.antt).
use Prim.Native.Nat.{bit_and, bit_or}
use my_learning.Base.{ℕ, ◌≡◌, refl, ◌⊎◌, inl, inr, ◌-◌, ◌^◌, Bool, true, false, ◌==◌, not}

-- the poller's mark: kNew (-1), kAdded (1) or kDeleted (2)
pub data Index : Type 0 where
  fresh added deleted : Index

abbrev pub is_fresh : Index → Bool
is_fresh fresh = true
is_fresh added = false
is_fresh deleted = false

abbrev pub is_added : Index → Bool
is_added fresh = false
is_added added = true
is_added deleted = false

abbrev pub is_deleted : Index → Bool
is_deleted fresh = false
is_deleted added = false
is_deleted deleted = true

pub Index-cases : (i : Index) → (i ≡ fresh) ⊎ ((i ≡ added) ⊎ (i ≡ deleted))
Index-cases fresh = inl refl
Index-cases added = inr (inl refl)
Index-cases deleted = inr (inr refl)

pub record Channel : Type 0 where
  pub fd : ℕ
  pub events : ℕ
  pub revents : ℕ
  pub index : Index

-- POLLIN | POLLPRI and POLLOUT
abbrev pub none_event : ℕ
none_event = 0

abbrev pub read_event : ℕ
read_event = 3

abbrev pub write_event : ℕ
write_event = 4

abbrev pub is_none_event : Channel → Bool
is_none_event c = c.events == none_event

-- `~mask` of an int, as a bit pattern
abbrev pub complement : ℕ → ℕ
complement mask = 2 ^ 32 - 1 - mask

-- The five changes of `events_`; the call of `update` that ends each is the caller's.
unfoldable pub enable_reading : Channel → Channel
enable_reading c = record c { events = bit_or c.events read_event }

unfoldable pub disable_reading : Channel → Channel
disable_reading c = record c { events = bit_and c.events (complement read_event) }

unfoldable pub enable_writing : Channel → Channel
enable_writing c = record c { events = bit_or c.events write_event }

unfoldable pub disable_writing : Channel → Channel
disable_writing c = record c { events = bit_and c.events (complement write_event) }

unfoldable pub disable_all : Channel → Channel
disable_all c = record c { events = none_event }

unfoldable pub is_writing : Channel → Bool
is_writing c = not (bit_and c.events write_event == 0)

unfoldable pub is_reading : Channel → Bool
is_reading c = not (bit_and c.events read_event == 0)
