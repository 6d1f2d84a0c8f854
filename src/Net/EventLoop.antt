-- ===== src/Net/EventLoop.antt =====
-- NETLIB/net/Eventloop.h and Eventloop.cpp: the functors that other threads and the loop itself queue, and
-- the descriptor that wakes the loop. A functor is a number; what a functor queues while it runs is an
-- argument. `none` is a step that the loop does not take where it stands.
pub mod Wakeups
pub mod Examples
use xjblg.Base.{
  ℕ, zero, suc, ◌+◌, ◌-◌, ◌≡◌, Bool, true, false, not, ◌||◌, Option, none, some, List, [], ◌∷◌,
  ◌++◌, ltb, if◌then◌else◌, ◌>>=◌,
}

-- Where the thread of the loop stands: before `loop`, in `poll`, in the handlers of the active channels, or in
-- `doPendingFunctors`, with the functors that are still to be called.
pub data Phase : Type 0 where
  starting polling handling : Phase
  calling : List ℕ → Phase

-- `wakeups` is the count of the eventfd, and `owed` how many other threads have queued a functor and not yet
-- called `wakeup`. `queued` and `ran` are logs; `early` logs what the thread of the loop queues before
-- `loop`, and `returned` counts the returns of `poll`.
pub record EventLoop : Type 0 where
  pub phase : Phase
  pub pending : List ℕ
  pub wakeups : ℕ
  pub owed : ℕ
  pub queued : List ℕ
  pub ran : List ℕ
  pub early : List ℕ
  pub returned : ℕ

-- The constructor: the loop does not run yet.
abbrev pub make_loop : EventLoop
make_loop = record {
  phase = starting;
  pending = [];
  wakeups = 0;
  owed = 0;
  queued = [];
  ran = [];
  early = [];
  returned = 0;
}

-- `callingPendingFunctors_`.
abbrev pub is_calling : Phase → Bool
is_calling (calling rest) = true
is_calling _ = false

pub wakeup : EventLoop → EventLoop
wakeup s = record s { wakeups = s.wakeups + 1 }

-- `push_back` of `queueInLoop`, under the mutex.
pub push_functor : ℕ → EventLoop → EventLoop
push_functor f s = record s { pending = s.pending ++ (f ∷ []); queued = s.queued ++ (f ∷ []) }

-- `queueInLoop` in the thread of the loop.
pub queue_in_loop : ℕ → EventLoop → EventLoop
unfolding push_functor wakeup
queue_in_loop f s = let s' = push_functor f s in if is_calling s.phase then wakeup s' else s'

-- `queueInLoop` in the thread of the loop, before it calls `loop`.
pub queue_early : ℕ → EventLoop → EventLoop
unfolding queue_in_loop
queue_early f s = let s' = queue_in_loop f s in record s' { early = s.early ++ (f ∷ []) }

-- `loop` comes to its first `poll`.
pub begin_in : Phase → EventLoop → Option EventLoop
begin_in starting s = some (record s { phase = polling })
begin_in _ s = none

pub begin_loop : EventLoop → Option EventLoop
unfolding begin_in
begin_loop s = begin_in s.phase s

-- The two halves of `queueInLoop` in another thread: other steps may come between them.
pub queue_outside : ℕ → EventLoop → EventLoop
unfolding push_functor
queue_outside f s = let s' = push_functor f s in record s' { owed = s.owed + 1 }

pub wake_outside : EventLoop → Option EventLoop
unfolding wakeup
wake_outside s = if ltb 0 s.owed then some (wakeup (record s { owed = s.owed - 1 })) else none

-- `poll` returns, with events or after its timeout; the phase is that of the loop.
pub poll_in : Phase → EventLoop → Option EventLoop
poll_in polling s = some (record s { phase = handling; returned = s.returned + 1 })
poll_in _ s = none

pub poll_returns : EventLoop → Option EventLoop
unfolding poll_in
poll_returns s = poll_in s.phase s

-- `handleRead`: a read of the eventfd takes all of its count.
pub read_in : Phase → EventLoop → Option EventLoop
read_in handling s = some (record s { wakeups = 0 })
read_in _ s = none

pub handle_wakeup : EventLoop → Option EventLoop
unfolding read_in
handle_wakeup s = read_in s.phase s

-- The swap of `doPendingFunctors`.
pub swap_in : Phase → EventLoop → Option EventLoop
swap_in handling s = some (record s { phase = calling s.pending; pending = [] })
swap_in _ s = none

pub swap_pending : EventLoop → Option EventLoop
unfolding swap_in
swap_pending s = swap_in s.phase s

pub queue_all : List ℕ → EventLoop → EventLoop
unfolding queue_in_loop
queue_all [] s = s
queue_all (f ∷ fs) s = queue_all fs (queue_in_loop f s)

-- The next call of `doPendingFunctors`, which queues `fs`, or its end.
pub call_in : Phase → List ℕ → EventLoop → Option EventLoop
unfolding queue_all
call_in (calling []) fs s = some (record s { phase = polling })
call_in (calling (f ∷ rest)) fs s =
    some (queue_all fs (record s { phase = calling rest; ran = s.ran ++ (f ∷ []) }))
call_in _ fs s = none

pub call_next : List ℕ → EventLoop → Option EventLoop
unfolding call_in
call_next fs s = call_in s.phase fs s

-- What can happen next, in any interleaving with other threads.
pub data Step (s : EventLoop) : EventLoop → Type 0 where
  starter_queues : (f : ℕ) → s.phase ≡ starting → Step s (queue_early f s)
  begins : (s' : EventLoop) → begin_loop s ≡ some s' → Step s s'
  outside_queues : (f : ℕ) → Step s (queue_outside f s)
  outside_wakes : (s' : EventLoop) → wake_outside s ≡ some s' → Step s s'
  returns : (s' : EventLoop) → poll_returns s ≡ some s' → Step s s'
  reads : (s' : EventLoop) → handle_wakeup s ≡ some s' → Step s s'
  handler_queues : (f : ℕ) → s.phase ≡ handling → Step s (queue_in_loop f s)
  swaps : (s' : EventLoop) → swap_pending s ≡ some s' → Step s s'
  calls : (fs : List ℕ) (s' : EventLoop) → call_next fs s ≡ some s' → Step s s'

pub data Steps (s : EventLoop) : EventLoop → Type 0 where
  unchanged : Steps s s
  after : {s' s'' : EventLoop} → Steps s s' → Step s' s'' → Steps s s''
