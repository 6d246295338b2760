-- ===== src/PollPoller/Fill.antt =====
-- fillActiveChannels.
use my_learning.Base.{
  ℕ, zero, suc, ◌≡◌, ◌≤◌, ◌⊎◌, refl, ◌∙◌, arith, true, false, Option, none, some, List, [], ◌∷◌,
  take, take_all, length, ltb, ◌==◌, if◌then◌else◌, ok, Bool-cases, inl, inr,
}
use my_learning.PollPoller.{
  PollPoller, poll, PollFd, PollChannel, set_revents, fill_active_channels,
}

-- Every descriptor with events is in the table, under a channel with that descriptor.
abbrev pub IsKnown : (ℕ → Option ℕ) → (ℕ → PollChannel) → List PollFd → Type 0
IsKnown channels chan [] = Unit
IsKnown channels chan (pfd ∷ rest) =
    (pfd.revents ≡ 0
      ⊎ ((fd : ℕ) × (c : ℕ) × (pfd.fd ≡ some fd) × (channels fd ≡ some c) × ((chan c).fd ≡ fd)))
    × IsKnown channels chan rest

-- the channel of an entry of the table, 0 where there is none
abbrev pub channel_of : (ℕ → Option ℕ) → Option ℕ → ℕ
channel_of channels none = 0
channel_of channels (some fd) = elim (channels fd) [ none ↦ 0 | some c ↦ c ]

-- the channels with events, in the order of the descriptors
abbrev pub active : (ℕ → Option ℕ) → List PollFd → List ℕ
active channels [] = []
active channels (pfd ∷ rest) =
    if ltb 0 pfd.revents
    then channel_of channels pfd.fd ∷ active channels rest
    else active channels rest

-- nothing but `revents` differs
pub record IsNoted (chan chan' : ℕ → PollChannel) : Type 0 where
  pub fd : (c : ℕ) → (chan' c).fd ≡ (chan c).fd
  pub events : (c : ℕ) → (chan' c).events ≡ (chan c).events
  pub index : (c : ℕ) → (chan' c).index ≡ (chan c).index

IsKnown-IsNoted :
    (channels : ℕ → Option ℕ) (chan chan' : ℕ → PollChannel) (pfds : List PollFd)
    → IsNoted chan chan'
    → IsKnown channels chan pfds
    → IsKnown channels chan' pfds
IsKnown-IsNoted channels chan chan' [] n k = tt
IsKnown-IsNoted channels chan chan' (pfd ∷ rest) n (k, ks) = (
  elim k [ inl z ↦ inl z | inr (fd, c, e, f, g) ↦ inr (fd, c, e, f, n.fd c ∙ g) ],
  IsKnown-IsNoted channels chan chan' rest n ks,
)

IsNoted-set_revents : (chan : ℕ → PollChannel) (c r : ℕ) → IsNoted chan (set_revents chan c r)
IsNoted-set_revents chan c r = record {
  fd = λ d. ground arith;
  events = λ d. ground arith;
  index = λ d. ground arith;
}

IsNoted-refl : (a : ℕ → PollChannel) → IsNoted a a
IsNoted-refl a = record { fd = λ d. refl; events = λ d. refl; index = λ d. refl }

IsNoted-trans : (a b c : ℕ → PollChannel) → IsNoted a b → IsNoted b c → IsNoted a c
IsNoted-trans a b c p q = record {
  fd = λ d. q.fd d ∙ p.fd d;
  events = λ d. q.events d ∙ p.events d;
  index = λ d. q.index d ∙ p.index d;
}

fill-IsNoted :
    (channels : ℕ → Option ℕ) (n : ℕ) (pfds : List PollFd) (chan : ℕ → PollChannel)
    → IsKnown channels chan pfds
    → (chan' : ℕ → PollChannel) × (fill_active_channels channels n pfds chan
        ≡ ok (take n (active channels pfds), chan'))
      × IsNoted chan chan'
unfolding fill_active_channels
fill-IsNoted channels zero [] chan k = (chan, refl, IsNoted-refl chan)
fill-IsNoted channels (suc n) [] chan k = (chan, refl, IsNoted-refl chan)
fill-IsNoted channels zero (pfd ∷ rest) chan k = (chan, refl, IsNoted-refl chan)
fill-IsNoted channels (suc n) (pfd ∷ rest) chan (inl z, ks) =
    let (chan', e, i) = fill-IsNoted channels (suc n) rest chan ks in
    let no : ltb 0 pfd.revents ≡ false = ground (arith, z) in (chan', rw no e, i)
fill-IsNoted channels (suc n) (pfd ∷ rest) chan (inr (fd, c, e, f, g), ks) =
    elim (Bool-cases (ltb 0 pfd.revents)) [
      | inl y ↦
          let noted = IsNoted-set_revents chan c pfd.revents in
          let (chan', h, i) =
            fill-IsNoted channels n rest (set_revents chan c pfd.revents)
              (IsKnown-IsNoted channels chan (set_revents chan c pfd.revents) rest noted ks) in
          let found : channel_of channels (some fd) ≡ c = rw (channel_of, f) refl in
          let own : ((chan c).fd == fd) ≡ true = ground (arith, g) in
          (
            chan',
            rw (y, e, f, own, h, found) refl,
            IsNoted-trans chan (set_revents chan c pfd.revents) chan' noted i,
          )
      | inr y ↦ let (chan', h, i) = fill-IsNoted channels (suc n) rest chan ks in (chan', rw y h, i)
    ]

-- When every descriptor with events has its channel in the table and poll(2) counted them all, no assert
-- of Poller::poll fails: the active channels are those of the descriptors with events, in the order of
-- the descriptors, and nothing changes but what channels have received.
pub poll_lem :
    (num_events : ℕ) (s : PollPoller)
    → IsKnown s.channels s.chan s.pollfds
    → length (active s.channels s.pollfds) ≤ num_events
    → (chan' : ℕ → PollChannel) × (poll (some num_events) s
        ≡ ok (active s.channels s.pollfds, record s { chan = chan' }))
      × IsNoted s.chan chan'
unfolding poll
poll_lem num_events s k h =
    let (chan', e, i) = fill-IsNoted s.channels num_events s.pollfds s.chan k in
    let all = take_all num_events (active s.channels s.pollfds) h in (chan', rw (e, all) refl, i)
