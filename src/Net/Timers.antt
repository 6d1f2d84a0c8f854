-- ===== src/Net/Timers.antt =====
-- NETLIB/net/TimeQueue.h, TimeQueue.cpp, Timer.h, Timer.cpp, and the times of Timestamp.h. Every call is
-- made in the thread of the loop. A time is the `int` of a Timestamp, moved up by 2^31; a pointer is a
-- number, below `UINTPTR_MAX`. The address of a new timer and what the callbacks of timers do are
-- arguments. `none` is a failed assert, or the use of a pointer to no timer.
pub mod Queue
pub mod Adding
pub mod Cancelling
pub mod Round
pub mod Examples
pub mod Expiry
use xjblg.Base.{
  ℕ, suc, ◌+◌, ◌-◌, ◌%◌, ◌^◌, Bool, true, false, not, ◌&&◌, Option, none, some, List, [], ◌∷◌,
  length, ltb, ◌==◌, if◌then◌else◌, ◌>>=◌, ◌>>◌, assert,
}
use xjblg.Base.Maps.{put}
use xjblg.Base.PairSet.{Pair, before, is_in, insert, erase, take_before, drop_before}

-- `Timestamp(int64)`: the conversion to `int` keeps the lower 32 bits.
abbrev pub from_micros : ℕ → ℕ
from_micros m = (m + 2 ^ 31) % 2 ^ 32

-- `Timestamp::invalid()`, and `valid`.
abbrev pub invalid : ℕ
invalid = 2 ^ 31

abbrev pub valid : ℕ → Bool
valid t = ltb invalid t

-- `addTime`, with the delay in microseconds.
abbrev pub add_time : ℕ → ℕ → ℕ
add_time t delta = (t + delta) % 2 ^ 32

-- `UINTPTR_MAX`.
abbrev pub max_pointer : ℕ
max_pointer = 2 ^ 64 - 1

-- `interval` is in microseconds; `repeats` says that it was positive before it was rounded.
pub record Timer : Type 0 where
  pub expiration : ℕ
  pub interval : ℕ
  pub repeats : Bool
  pub sequence : ℕ

abbrev pub restart : ℕ → Timer → Timer
restart now t = record t { expiration = if t.repeats then add_time now t.interval else invalid }

-- What a callback asks of the queue: a timer at an address with its time, interval and whether it repeats,
-- or to cancel the timer of an address and a sequence number.
pub data Call : Type 0 where
  adding : ℕ → ℕ → ℕ → Bool → Call
  cancelling : ℕ → ℕ → Call

-- `heap` holds the timers that are not deleted, `created` is `s_numCreated_`, an `int` of the program that is
-- taken to stay below 2^31 and not to be used by another queue, and `armed` the time that
-- the timer descriptor was set to last.
pub record TimerQueue : Type 0 where
  pub heap : ℕ → Option Timer
  pub created : ℕ
  pub timers : List Pair
  pub active_timers : List Pair
  pub calling_expired_timers : Bool
  pub canceling_timers : List Pair
  pub armed : Option ℕ

abbrev pub make_queue : TimerQueue
make_queue = record {
  heap = λ p. none;
  created = 0;
  timers = [];
  active_timers = [];
  calling_expired_timers = false;
  canceling_timers = [];
  armed = none;
}

abbrev sizes_agree : TimerQueue → Bool
sizes_agree q = length q.timers == length q.active_timers

-- Whether a time lies before that of the first timer.
abbrev pub is_earliest : ℕ → List Pair → Bool
is_earliest when [] = true
is_earliest when ((w, _) ∷ _) = ltb when w

-- `insert`: whether the timer is the earliest now.
pub insert_timer : ℕ → Timer → TimerQueue → Option (Bool × TimerQueue)
insert_timer p t q =
    let q' = record q {
      timers = insert (t.expiration, p) q.timers;
      active_timers = insert (p, t.sequence) q.active_timers;
    } in
    assert (sizes_agree q)
    >> assert
        (not (is_in (t.expiration, p) q.timers) && not (is_in (p, t.sequence) q.active_timers))
    >> assert (sizes_agree q')
    >> some (is_earliest t.expiration q.timers, q')

-- `resetTimerfd`.
abbrev pub reset_timerfd : ℕ → TimerQueue → TimerQueue
reset_timerfd w q = record q { armed = some w }

-- `addTimer` and `addTimerInLoop`, with the address of the new timer.
pub add_timer : ℕ → ℕ → ℕ → Bool → TimerQueue → Option TimerQueue
unfolding insert_timer
add_timer p when interval repeats q = do
  let t : Timer = record {
    expiration = when;
    interval = interval;
    repeats = repeats;
    sequence = suc q.created;
  }
  (earliest, q') ←
      insert_timer p t (record q { heap = put q.heap p (some t); created = suc q.created })
  some (if earliest then reset_timerfd when q' else q')

-- `cancelInLoop`.
pub cancel : ℕ → ℕ → TimerQueue → Option TimerQueue
cancel p sequence q =
    assert (sizes_agree q)
    >> (if is_in (p, sequence) q.active_timers
        then (q.heap p >>= λ t.
            let q' = record q {
              heap = put q.heap p none;
              timers = erase (t.expiration, p) q.timers;
              active_timers = erase (p, sequence) q.active_timers;
            } in
            assert (is_in (t.expiration, p) q.timers) >> assert (sizes_agree q') >> some q')
        else some (
            if q.calling_expired_timers
            then record q { canceling_timers = insert (p, sequence) q.canceling_timers }
            else q))

-- The loop of `getExpired` over the expired timers.
pub erase_expired : (ℕ → Option Timer) → List Pair → List Pair → Option (List Pair)
erase_expired heap [] active = some active
erase_expired heap ((w, p) ∷ expired) active = do
  t ← heap p
  assert (is_in (p, t.sequence) active)
  erase_expired heap expired (erase (p, t.sequence) active)

-- `getExpired`.
pub get_expired : ℕ → TimerQueue → Option (List Pair × TimerQueue)
unfolding erase_expired
get_expired now q = do
  let expired = take_before (now, max_pointer) q.timers
  let rest = drop_before (now, max_pointer) q.timers
  assert (sizes_agree q)
  assert (elim rest [ [] ↦ true | (w, _) ∷ _ ↦ ltb now w ])
  active ← erase_expired q.heap expired q.active_timers
  let q' = record q { timers = rest; active_timers = active }
  assert (sizes_agree q')
  some (expired, q')

-- The calls of one callback.
pub call_all : List Call → TimerQueue → Option TimerQueue
unfolding add_timer cancel
call_all [] q = some q
call_all (adding p when interval repeats ∷ calls) q =
    add_timer p when interval repeats q >>= call_all calls
call_all (cancelling p sequence ∷ calls) q = cancel p sequence q >>= call_all calls

-- The callbacks of the expired timers: `calls` is what the callback of a timer does.
pub run_expired : (Timer → List Call) → List Pair → TimerQueue → Option TimerQueue
unfolding call_all
run_expired calls [] q = some q
run_expired calls ((w, p) ∷ expired) q = do
  t ← q.heap p
  q' ← call_all (calls t) q
  run_expired calls expired q'

-- One round of the loop of `reset`.
pub reset_one : ℕ → ℕ → TimerQueue → Option TimerQueue
unfolding insert_timer
reset_one now p q = q.heap p >>= λ t.
    let again = restart now t in
    if t.repeats && not (is_in (p, t.sequence) q.canceling_timers)
    then (insert_timer p again (record q { heap = put q.heap p (some again) }) >>= λ (earliest, q').
        some q')
    else some (record q { heap = put q.heap p none })

pub reset_loop : ℕ → List Pair → TimerQueue → Option TimerQueue
unfolding reset_one
reset_loop now [] q = some q
reset_loop now ((w, p) ∷ expired) q = reset_one now p q >>= reset_loop now expired

-- The end of `reset`, over the timers that wait: the descriptor is set for the first.
pub rearm : List Pair → TimerQueue → Option TimerQueue
rearm [] q = some q
rearm ((_, p) ∷ _) q =
    q.heap p >>= λ t. some (if valid t.expiration then reset_timerfd t.expiration q else q)

-- `reset`.
pub reset : List Pair → ℕ → TimerQueue → Option TimerQueue
unfolding reset_loop rearm
reset expired now q = reset_loop now expired q >>= λ q'. rearm q'.timers q'

-- `handleRead`, at the time `now`; `readTimerfd` ends the program where the descriptor does not give eight
-- bytes.
pub handle_read : ℕ → (Timer → List Call) → ℕ → TimerQueue → Option TimerQueue
unfolding get_expired run_expired reset
handle_read bytes_read calls now q = do
  assert (bytes_read == 8)
  (expired, q1) ← get_expired now q
  q2 ←
      run_expired calls expired (record q1 { calling_expired_timers = true; canceling_timers = [] })
  reset expired now (record q2 { calling_expired_timers = false })
