-- ===== src/Net/EventLoop/Examples.antt =====
-- A run of the loop: another thread queues 3, and 3 queues 4 while it runs.
use xjblg.Base.{inl, ◌+◌, ◌<◌, ◌≡◌, refl, ◌⊎◌, [], ◌∷◌, ◌++◌}
use xjblg.Net.EventLoop.{
  begins, begin_in, begin_loop, polling, handling, calling, EventLoop, make_loop, push_functor,
  wakeup, queue_in_loop, queue_outside, poll_in, poll_returns, swap_in, swap_pending, queue_all,
  call_in, call_next, Steps, unchanged, after, outside_queues, returns, swaps, calls,
}
use xjblg.Net.EventLoop.Wakeups.{to_call, functors_in_order, polling_is_woken}

abbrev told : EventLoop
told = record make_loop { phase = polling; pending = 3 ∷ []; owed = 1; queued = 3 ∷ [] }

abbrev in_call : EventLoop
in_call = record told {
  returned = 1;
  phase = calling [];
  pending = 4 ∷ [];
  wakeups = 1;
  queued = 3 ∷ 4 ∷ [];
  ran = 3 ∷ [];
}

abbrev back : EventLoop
back = record in_call { phase = polling }

tells : Steps make_loop told
unfolding queue_outside push_functor begin_loop begin_in
tells =
    after (after unchanged (begins (record make_loop { phase = polling }) refl)) (outside_queues 3)

gets_back : Steps make_loop back
unfolding poll_returns poll_in swap_pending swap_in call_next call_in queue_all queue_in_loop
    push_functor wakeup
gets_back =
    after
      (after
        (after (after tells (returns (record told { phase = handling; returned = 1 }) refl))
          (swaps (record told { returned = 1; phase = calling (3 ∷ []); pending = [] }) refl))
        (calls (4 ∷ []) in_call refl))
      (calls [] back refl)

functors_in_order_example : back.queued ≡ back.ran ++ (to_call back.phase ++ back.pending)
functors_in_order_example = functors_in_order back gets_back

polling_is_woken_example : (back.pending ≡ []) ⊎ (0 < back.wakeups + back.owed)
polling_is_woken_example = polling_is_woken back gets_back refl (inl refl)
