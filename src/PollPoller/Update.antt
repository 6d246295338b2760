-- ===== src/PollPoller/Update.antt =====
-- updateChannel.
use my_learning.Base.{
  ℕ, ◌≡◌, refl, arith, Bool, true, false, some, ◌==◌, abort, Option-cases, inl, inr,
}
use my_learning.PollPoller.{PollPoller, put_at, add_channel, change_channel, update_channel}

-- updateChannel fails for every channel, as long as the table gives a descriptor to no other channel than
-- its own: a new channel is entered by `at`, which throws for a new key, and a channel of the table fails
-- the assertion that it is not in the table.
pub update_channel_aborts :
    (in_loop_thread : Bool) (stale : ℕ) (s : PollPoller) (c : ℕ)
    → ((c' : ℕ) → s.channels (s.chan c).fd ≡ some c' → c' ≡ c)
    → update_channel in_loop_thread stale s c ≡ abort
unfolding update_channel add_channel change_channel put_at
update_channel_aborts false stale s c own = refl
update_channel_aborts true stale s c own = elim (Option-cases (s.channels (s.chan c).fd)) [
  | inl e ↦ elim (Option-cases (s.chan c).index) [
    | inl f ↦ rw (f, e) refl
    | inr (i, f) ↦ rw (f, e) refl
  ]
  | inr (c', e) ↦ elim (Option-cases (s.chan c).index) [
    | inl f ↦ rw (f, e) refl
    | inr (i, f) ↦ let same : (c' == c) ≡ true = ground (arith, own c' e) in rw (f, e, same) refl
  ]
]
