-- ===== src/Net/Timers/Examples.antt =====
-- Runs of the timer queue.
use xjblg.Base.{
  ℕ, ◌≡◌, refl, ap, ◌∙◌, inl, inr, true, false, ◌&&◌, none, some, List, [], ◌∷◌, arith, leb, ltb,
}
use xjblg.Base.Maps.{put, put-same}
use xjblg.Base.PairSet.{Pair, same, is_in, or-cases, Sorted, insert}
use xjblg.Net.Timers.{Timer, TimerQueue, make_queue, get_expired, handle_read}
use xjblg.Net.Timers.Queue.{Apart, Sound, Absent, pair-parts, change-Holds, entered-Holds}
use xjblg.Net.Timers.Expiry.{get_expired-Sound}
use xjblg.Net.Timers.Round.{AllAllowed, handle_read-Sound}

nothing_waits : Sound [] make_queue
unfolding is_in Sorted Apart
nothing_waits = record {
  by_time = tt;
  by_address = tt;
  sizes = refl;
  timer_live = λ w p h. cc;
  active_live = λ p s h. cc;
  out_live = λ w p h. cc;
  apart = tt;
  low = λ p h. refl;
}

abbrev every_second : Timer
every_second = record { expiration = 3000000000; interval = 1000000; repeats = true; sequence = 1 }

-- After that timer was added.
abbrev one_waits : TimerQueue
one_waits = record make_queue {
  heap = put (λ p. none) 7 (some every_second);
  created = 1;
  timers = (3000000000, 7) ∷ [];
  active_timers = (7, 1) ∷ [];
  armed = some 3000000000;
}

seven-Absent : Absent 7 [] [] []
unfolding is_in
seven-Absent = record { no_timer = λ w. refl; no_active = λ s. refl; not_out = λ w. refl }

one_waits-Sound : Sound [] one_waits
unfolding insert
one_waits-Sound =
    entered-Holds 7 every_second
      (change-Holds 7 (some every_second) nothing_waits seven-Absent λ h. absurd (omega (arith, h)))
      seven-Absent (put-same (λ p. none) 7 (some every_second))

get_expired-Sound_example :
    (expired : List Pair) × (q' : TimerQueue) × (get_expired 3000000000 one_waits
      ≡ some (expired, q'))
    × Sound expired q'
    × ((w p : ℕ) → is_in (w, p) expired ≡ (leb w 3000000000 && is_in (w, p) one_waits.timers))
    × ((w p : ℕ) → is_in (w, p) q'.timers ≡ (ltb 3000000000 w && is_in (w, p) one_waits.timers))
get_expired-Sound_example = get_expired-Sound 3000000000 one_waits one_waits-Sound

-- While the timer is called.
abbrev one_called : TimerQueue
one_called = record one_waits { timers = []; active_timers = [] }

one_called-Sound : Sound ((3000000000, 7) ∷ []) one_called
unfolding is_in Sorted Apart
one_called-Sound = record {
  by_time = tt;
  by_address = tt;
  sizes = refl;
  timer_live = λ w p h. cc;
  active_live = λ p s h. cc;
  out_live = λ w p h. elim (or-cases (same (w, p) (3000000000, 7)) false h) [
    | inl i ↦ (
      every_second,
      ap (put (λ j. none) 7 (some every_second)) ((pair-parts w p 3000000000 7 i).1)
          ∙ put-same (λ j. none) 7 (some every_second),
      λ s. refl,
    )
    | inr i ↦ cc
  ];
  apart = (λ v. refl, tt);
  low = one_waits-Sound.low;
}

quiet : (expired : List Pair) (q : TimerQueue) → AllAllowed (λ t. []) expired q
unfolding AllAllowed
quiet [] q = tt
quiet ((w, p) ∷ expired) q = λ t live. (tt, λ q' h. quiet expired q')

handle_read-Sound_example :
    (q' : TimerQueue) × (handle_read 8 (λ t. []) 3000000000 one_waits ≡ some q') × Sound [] q'
handle_read-Sound_example =
    handle_read-Sound (λ t. []) 3000000000 one_waits one_waits-Sound λ expired q1 h. quiet expired _
