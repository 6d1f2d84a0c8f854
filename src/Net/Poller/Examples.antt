-- ===== src/Net/Poller/Examples.antt =====
-- A poller with the channels 0, 1 and 2 at the descriptors 5, 6 and 7, of which the first wants nothing.
use xjblg.Base.{
  inl, inr, ◌⊎◌, sym, some-injective, ℕ, zero, suc, ◌≡◌, refl, Option, none, some, true, false, [],
  ◌∷◌, arith, get_elem?, ◌==◌, if◌then◌else◌,
}
use xjblg.Base.Maps.{put}
use xjblg.Net.Channel.{Interest, Channel, none_event, make_channel}
use xjblg.Net.Poller.{
  descriptor, pos, negsuc, PollFd, Poller, nothing_came, remove_channel, drop_entry, pop_back,
  set_index, swap_last,
}
use xjblg.Net.Poller.Tracking.{Tracks}
use xjblg.Net.Poller.Leaving.{remove_channel-Tracks}

abbrev reading : Interest
reading = record { reads = true; writes = false }

abbrev channel : ℕ → Channel (Option ℕ)
channel p =
    if p == 0
    then make_channel (some 0) 5
    else if p == 1
    then record (make_channel (some 1) 6) { interest = reading }
    else if p == 2
    then record (make_channel (some 2) 7) { interest = reading }
    else make_channel none p

abbrev three : Poller
three = record {
  channels = λ fd.
      if fd == 5 then some 0 else if fd == 6 then some 1 else if fd == 7 then some 2 else none;
  store = channel;
  poll_fds =
      record { fd = negsuc 5; events = none_event; revents = some nothing_came }
      ∷ record { fd = pos 6; events = reading; revents = none }
      ∷ record { fd = pos 7; events = reading; revents = none }
      ∷ [];
}

abbrev two_left : Poller
two_left = record {
  channels = put three.channels 5 none;
  store = put channel 2 (record (channel 2) { index = some 0 });
  poll_fds =
      record { fd = pos 7; events = reading; revents = none }
      ∷ record { fd = pos 6; events = reading; revents = none }
      ∷ [];
}

removed : remove_channel 0 three ≡ some two_left
unfolding remove_channel drop_entry put pop_back set_index swap_last
removed = refl

placed :
    (fd p : ℕ)
    → three.channels fd ≡ some p
    → ((p ≡ 0) × (fd ≡ 5)) ⊎ (((p ≡ 1) × (fd ≡ 6)) ⊎ ((p ≡ 2) × (fd ≡ 7)))
placed fd p h = ground arith

three-Tracks : Tracks three
three-Tracks = record {
  entered = λ fd p h. elim (placed fd p h) [
    | inl (e, e') ↦ rw (e, e') (refl, (0, _, refl, refl, record { names = refl; wants = refl }))
    | inr (inl (e, e')) ↦
        rw (e, e') (refl, (1, _, refl, refl, record { names = refl; wants = refl }))
    | inr (inr (e, e')) ↦
        rw (e, e') (refl, (2, _, refl, refl, record { names = refl; wants = refl }))
  ];
  listed = listed;
}
  where
    listed :
        (i : ℕ) (e : PollFd)
        → get_elem? three.poll_fds i ≡ some e
        → (p : ℕ) × (three.channels (descriptor e.fd) ≡ some p) × ((three.store p).index ≡ some i)
    listed zero e h = (0, rw (sym (some-injective h)) refl, refl)
    listed (suc zero) e h = (1, rw (sym (some-injective h)) refl, refl)
    listed (suc (suc zero)) e h = (2, rw (sym (some-injective h)) refl, refl)
    listed (suc (suc (suc i))) e h = cc

remove_channel-Tracks_example :
    (s' : Poller) × (remove_channel 0 three ≡ some s')
    × Tracks s'
    × (s'.channels ≡ put three.channels 5 none)
remove_channel-Tracks_example =
    remove_channel-Tracks 0 0
      (record { fd = negsuc 5; events = none_event; revents = some nothing_came }) three
      three-Tracks refl refl refl refl refl
