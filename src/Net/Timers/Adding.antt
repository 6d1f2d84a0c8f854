-- ===== src/Net/Timers/Adding.antt =====
-- Adding a timer to the queue.
use xjblg.Base.{
  ==_iff, ℕ, suc, ◌<◌, ◌≡◌, refl, ◌∙◌, inl, inr, Bool, true, ◌||◌, none, some, List, arith,
  Bool-cases,
}
use xjblg.Base.Maps.{put, put-same}
use xjblg.Base.PairSet.{Pair, same, is_in, insert, same_refl}
use xjblg.Base.PairSet.Laws.{is_in-insert}
use xjblg.Net.Timers.{max_pointer, Timer, TimerQueue, is_earliest, insert_timer, add_timer}
use xjblg.Net.Timers.Queue.{Sound, Absent, fresh-Absent, change-Holds, entered-Holds}

pub insert_timer_lem :
    (out : List Pair) (p : ℕ) (t : Timer) (q : TimerQueue)
    → Sound out q
    → Absent p out q.timers q.active_timers
    → q.heap p ≡ some t
    → insert_timer p t q
      ≡ some (
        is_earliest t.expiration q.timers,
        record q {
          timers = insert (t.expiration, p) q.timers;
          active_timers = insert (p, t.sequence) q.active_timers;
        },
      )
unfolding insert_timer
insert_timer_lem out p t q v a live =
    let w = entered-Holds p t v a live in
    rw
      (
        (==_iff _ _).1 v.sizes,
        a.no_timer t.expiration,
        a.no_active t.sequence,
        (==_iff _ _).1 w.sizes,
      )
      refl

-- Where the queue is sound, adding a timer at a fresh address below UINTPTR_MAX passes every assert. Then the queue is
-- sound, the timer waits in it with its time and the next sequence number, and the other entries are as
-- before.
pub add_timer-Sound :
    (out : List Pair) (p when interval : ℕ) (repeats : Bool) (q : TimerQueue)
    → Sound out q
    → q.heap p ≡ none
    → p < max_pointer
    → (q' : TimerQueue) × (add_timer p when interval repeats q ≡ some q')
      × Sound out q'
      × ((e : Pair) → is_in e q'.timers ≡ (same e (when, p) || is_in e q.timers))
      × (is_in (p, suc q.created) q'.active_timers ≡ true)
unfolding add_timer
add_timer-Sound out p when interval repeats q v free small =
    let t : Timer = record {
      expiration = when;
      interval = interval;
      repeats = repeats;
      sequence = suc q.created;
    } in
    let a = fresh-Absent p v free in
    let q1 = record q { heap = put q.heap p (some t); created = suc q.created } in
    let v1 = change-Holds p (some t) v a (λ h. absurd (omega (arith, h, small))) in
    let live = put-same q.heap p (some t) in
    let ok = insert_timer_lem out p t q1 v1 a live in
    let v2 = entered-Holds p t v1 a live in
    let there =
      is_in-insert (p, t.sequence) (p, t.sequence) q.active_timers
      ∙ rw (same_refl (p, t.sequence)) refl in
    let mem = λ (e : Pair). is_in-insert e (when, p) q.timers in
    let q2 = record q1 {
      timers = insert (when, p) q.timers;
      active_timers = insert (p, t.sequence) q.active_timers;
    } in
    elim (Bool-cases (is_earliest when q.timers)) [
      | inl e ↦ (record q2 { armed = some when }, rw (ok, e) refl, v2, mem, there)
      | inr e ↦ (q2, rw (ok, e) refl, v2, mem, there)
    ]
