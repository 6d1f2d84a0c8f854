-- ===== src/Net/Timers/Round.antt =====
-- One expiry of the timer descriptor: `handleRead` with the callbacks it makes, and what a time that
-- wraps does to it.
use xjblg.Base.{
  ℕ, ◌<◌, ◌≡◌, refl, sym, ap, ◌∙◌, inl, inr, true, false, none, some, List, [], ◌∷◌, Bool-cases,
}
use xjblg.Base.Maps.{put, put-same}
use xjblg.Base.PairSet.{Pair, same, is_in, insert, same_refl}
use xjblg.Net.Timers.{
  max_pointer, valid, add_time, restart, reset_timerfd, Timer, Call, adding, cancelling, TimerQueue,
  add_timer, cancel, get_expired, call_all, run_expired, insert_timer, reset_one, reset_loop, rearm,
  reset, handle_read,
}
use xjblg.Net.Timers.Queue.{Sound, or_right}
use xjblg.Net.Timers.Adding.{add_timer-Sound}
use xjblg.Net.Timers.Cancelling.{cancel-Sound, reset_one-Sound}
use xjblg.Net.Timers.Expiry.{get_expired-Sound}

-- Each new timer of the calls comes to a fresh address below UINTPTR_MAX.
unfoldable pub Allowed : List Call → TimerQueue → Type 0
Allowed [] q = Unit {0}
Allowed (adding p when interval repeats ∷ calls) q =
    (q.heap p ≡ none)
    × (p < max_pointer)
    × ((q' : TimerQueue) → add_timer p when interval repeats q ≡ some q' → Allowed calls q')
Allowed (cancelling p s ∷ calls) q = (q' : TimerQueue) → cancel p s q ≡ some q' → Allowed calls q'

unfoldable pub AllAllowed : (Timer → List Call) → List Pair → TimerQueue → Type 0
unfolding Allowed
AllAllowed calls [] q = Unit {0}
AllAllowed calls ((w, p) ∷ expired) q =
    (t : Timer)
    → q.heap p ≡ some t
    → Allowed (calls t) q
      × ((q' : TimerQueue) → call_all (calls t) q ≡ some q' → AllAllowed calls expired q')

call_all-Sound :
    (calls : List Call) (out : List Pair) (q : TimerQueue)
    → Sound out q
    → Allowed calls q
    → (q' : TimerQueue) × (call_all calls q ≡ some q') × Sound out q'
unfolding call_all Allowed
call_all-Sound [] out q v a = (q, refl, v)
call_all-Sound (adding p when interval repeats ∷ calls) out q v (free, low, a) =
    let (q1, ok1, v1, _, _) = add_timer-Sound out p when interval repeats q v free low in
    let (q2, ok2, v2) = call_all-Sound calls out q1 v1 (a q1 ok1) in (q2, rw (ok1, ok2) refl, v2)
call_all-Sound (cancelling p s ∷ calls) out q v a =
    let (q1, ok1, v1, _, _) = cancel-Sound out p s q v in
    let (q2, ok2, v2) = call_all-Sound calls out q1 v1 (a q1 ok1) in (q2, rw (ok1, ok2) refl, v2)

run_expired-Sound :
    (calls : Timer → List Call) (expired out : List Pair) (q : TimerQueue)
    → Sound out q
    → ((e : Pair) → is_in e expired ≡ true → is_in e out ≡ true)
    → AllAllowed calls expired q
    → (q' : TimerQueue) × (run_expired calls expired q ≡ some q') × Sound out q'
unfolding run_expired AllAllowed is_in
run_expired-Sound calls [] out q v into a = (q, refl, v)
run_expired-Sound calls ((w, p) ∷ expired) out q v into a =
    let (t, live, _) = v.out_live w p (into (w, p) (rw (same_refl (w, p)) refl)) in
    let (now_ok, later_ok) = a t live in
    let (q1, ok1, v1) = call_all-Sound (calls t) out q v now_ok in
    let (q2, ok2, v2) =
      run_expired-Sound calls expired out q1 v1 (λ e h. into e (rw h (or_right (same e (w, p)))))
        (later_ok q1 ok1) in
    (q2, rw (live, ok1, ok2) refl, v2)

reset_loop-Sound :
    (now : ℕ) (expired : List Pair) (q : TimerQueue)
    → Sound expired q
    → (q' : TimerQueue) × (reset_loop now expired q ≡ some q') × Sound [] q'
unfolding reset_loop
reset_loop-Sound now [] q v = (q, refl, v)
reset_loop-Sound now ((w, p) ∷ expired) q v =
    let (t, live, q1, ok1, v1, _) = reset_one-Sound w p now expired q v in
    let (q2, ok2, v2) = reset_loop-Sound now expired q1 v1 in (q2, rw (ok1, ok2) refl, v2)

rearm-Sound :
    (xs : List Pair) (q : TimerQueue)
    → Sound [] q
    → xs ≡ q.timers
    → (q' : TimerQueue) × (rearm xs q ≡ some q') × Sound [] q'
unfolding rearm is_in
rearm-Sound [] q v e = (q, refl, v)
rearm-Sound ((w, p) ∷ xs) q v e =
    let head : is_in (w, p) q.timers ≡ true =
      ap (is_in (w, p)) (sym e) ∙ rw (same_refl (w, p)) refl in
    let (t, live, _, _) = v.timer_live w p head in
    elim (Bool-cases (valid t.expiration)) [
      | inl h ↦ (reset_timerfd t.expiration q, rw (live, h) refl, v)
      | inr h ↦ (q, rw (live, h) refl, v)
    ]

-- Where the queue is sound, and each timer that the callbacks of the expired timers add comes to a fresh
-- address below UINTPTR_MAX, `handleRead`, whose read gives eight bytes, passes every assert, whatever timers the callbacks add and
-- cancel, and uses no deleted timer; it leaves the queue sound.
pub handle_read-Sound :
    (calls : Timer → List Call) (now : ℕ) (q : TimerQueue)
    → Sound [] q
    → ((expired : List Pair) (q1 : TimerQueue)
        → get_expired now q ≡ some (expired, q1)
        → AllAllowed calls expired
            (record q1 { calling_expired_timers = true; canceling_timers = [] }))
    → (q' : TimerQueue) × (handle_read 8 calls now q ≡ some q') × Sound [] q'
unfolding handle_read reset
handle_read-Sound calls now q v a =
    let (expired, q1, ok1, v1, _, _) = get_expired-Sound now q v in
    let (q2, ok2, v2) =
      run_expired-Sound calls expired expired
        (record q1 { calling_expired_timers = true; canceling_timers = [] }) v1 (λ e h. h)
        (a expired q1 ok1) in
    let q3 = record q2 { calling_expired_timers = false } in
    let (q4, ok4, v4) = reset_loop-Sound now expired q3 v2 in
    let (q5, ok5, v5) = rearm-Sound q4.timers q4 v4 refl in (q5, rw (ok1, ok2, ok4) ok5, v5)

-- Where the only timer expires, repeats, was not cancelled, and its next time wraps to one that is not
-- positive, `reset` puts it back and does not set the descriptor.
pub wrapped_not_armed :
    (w p now : ℕ) (t : Timer) (q : TimerQueue)
    → q.timers ≡ []
    → q.active_timers ≡ []
    → q.heap p ≡ some t
    → t.repeats ≡ true
    → is_in (p, t.sequence) q.canceling_timers ≡ false
    → valid (add_time now t.interval) ≡ false
    → (q' : TimerQueue) × (reset ((w, p) ∷ []) now q ≡ some q')
      × (q'.timers ≡ (add_time now t.interval, p) ∷ [])
      × (q'.armed ≡ q.armed)
unfolding reset reset_loop rearm reset_one insert_timer is_in insert
wrapped_not_armed w p now t q none_waits none_active live again kept wrapped = (
  record q {
    heap = put q.heap p (some (restart now t));
    timers = (add_time now t.interval, p) ∷ [];
    active_timers = (p, t.sequence) ∷ [];
  },
  rw
      (
        live,
        again,
        kept,
        none_waits,
        none_active,
        put-same q.heap p
            (some (record t { expiration = add_time now t.interval; repeats = true })),
        wrapped,
      )
      refl,
  refl,
  refl,
)
