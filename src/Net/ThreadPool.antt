-- ===== src/Net/ThreadPool.antt =====
-- NETLIB/net/ThreadPool.h and ThreadPool.cpp: the queue that producers fill and worker threads empty.
-- A task is a number, and a thread moves from one section under the mutex, or call of a task, to the
-- next. `none` is a thread that waits, is at its end, or does not exist.
pub mod Order
pub mod Stopped
pub mod Examples
use xjblg.Base.{
  ℕ, ◌≡◌, Bool, true, false, ◌&&◌, Option, none, some, List, [], ◌∷◌, ◌++◌, length, get_elem?, set,
  replicate, ltb, leb, if◌then◌else◌, ◌>>=◌,
}

-- Where a worker stands in `runInThread`: before the test of `running_`, before the test in `take`, with
-- a task that it has taken and not called, or at the end.
pub data Worker : Type 0 where
  checking taking finished : Worker
  holding : ℕ → Worker

-- `accepted` are the tasks that `run` took, `taken` those that `take` returned, and `executed` those that
-- were called, each in order; a call counts when it begins.
pub record Pool : Type 0 where
  pub workers : List Worker
  pub queue : List ℕ
  pub max_queue_size : ℕ
  pub running : Bool
  pub accepted : List ℕ
  pub taken : List ℕ
  pub executed : List ℕ

-- The constructor, with what `setMaxQueueSize` sets.
abbrev pub make_thread_pool : ℕ → Pool
make_thread_pool max = record {
  workers = [];
  queue = [];
  max_queue_size = max;
  running = false;
  accepted = [];
  taken = [];
  executed = [];
}

-- `start`: the assert is that there are no threads yet.
pub start_workers : ℕ → Pool → Option Pool
start_workers n s = elim s.workers [
  | [] ↦ some (record s { workers = replicate n checking; running = true })
  | w ∷ ws ↦ none
]

abbrev pub is_full : Pool → Bool
is_full s = ltb 0 s.max_queue_size && leb s.max_queue_size (length s.queue)

-- The branches of `run`, by the threads.
pub run_with : List Worker → ℕ → Pool → Option Pool
run_with [] t s = some (record s {
  accepted = s.accepted ++ (t ∷ []);
  taken = s.taken ++ (t ∷ []);
  executed = s.executed ++ (t ∷ []);
})
run_with (w ∷ ws) t s =
    if is_full s
    then none
    else some (record s { queue = s.queue ++ (t ∷ []); accepted = s.accepted ++ (t ∷ []) })

-- `run`: without threads the caller runs the task, which counts as taken; while the queue is full the caller waits.
pub run_task : ℕ → Pool → Option Pool
unfolding run_with
run_task t s = run_with s.workers t s

abbrev pub move_to : Worker → ℕ → Pool → Pool
move_to w i s = record s { workers = set s.workers i w }

-- The branches of `take`, by the queue, and the task that it returns.
pub take_from : List ℕ → ℕ → Pool → Option Pool
take_from [] i s = if s.running then none else some (move_to checking i s)
take_from (t ∷ queue) i s =
    some (move_to (holding t) i (record s { queue = queue; taken = s.taken ++ (t ∷ []) }))

-- `take`.
pub take_task : ℕ → Pool → Option Pool
unfolding take_from
take_task i s = take_from s.queue i s

-- One section of `runInThread`, by where the worker stands; the call of a task is outside the mutex.
pub work_from : Worker → ℕ → Pool → Option Pool
unfolding take_task
work_from checking i s = some (move_to (if s.running then taking else finished) i s)
work_from taking i s = take_task i s
work_from (holding t) i s =
    some (move_to checking i (record s { executed = s.executed ++ (t ∷ []) }))
work_from finished i s = none

pub work : ℕ → Pool → Option Pool
unfolding work_from
work i s = get_elem? s.workers i >>= λ w. work_from w i s

-- The first half of `stop`; joining the threads waits for them to finish.
pub stop_pool : Pool → Pool
stop_pool s = record s { running = false }

-- What can happen next, in any interleaving.
pub data Step (s : Pool) : Pool → Type 0 where
  produces : (t : ℕ) (s' : Pool) → run_task t s ≡ some s' → Step s s'
  works : (i : ℕ) (s' : Pool) → work i s ≡ some s' → Step s s'
  stops : Step s (stop_pool s)

pub data Steps (s : Pool) : Pool → Type 0 where
  unchanged : Steps s s
  after : {s' s'' : Pool} → Steps s s' → Step s' s'' → Steps s s''
