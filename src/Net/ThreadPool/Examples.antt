-- ===== src/Net/ThreadPool/Examples.antt =====
-- Runs of a pool with one thread.
use xjblg.Base.{ℕ, ◌+◌, ◌≤◌, ◌≡◌, refl, ◌⊎◌, true, some, [], ◌∷◌, ◌++◌, length}
use xjblg.Net.ThreadPool.{
  checking, Pool, make_thread_pool, start_workers, run_with, run_task, unchanged, after, produces,
}
use xjblg.Net.ThreadPool.Order.{count, in_hand, sections, Steps-InOrder, worker_drains}

-- One thread, room for one task.
abbrev started_pool : Pool
started_pool = record (make_thread_pool 1) { workers = checking ∷ []; running = true }

abbrev loaded_pool : Pool
loaded_pool = record started_pool { queue = 4 ∷ []; accepted = 4 ∷ [] }

starts : start_workers 1 (make_thread_pool 1) ≡ some started_pool
unfolding start_workers
starts = refl

loads : run_task 4 started_pool ≡ some loaded_pool
unfolding run_task run_with
loads = refl

Steps-InOrder_example :
    (loaded_pool.accepted ≡ loaded_pool.taken ++ loaded_pool.queue)
    × ((t : ℕ)
        → count t loaded_pool.taken ≡ count t loaded_pool.executed + in_hand t loaded_pool.workers)
    × ((loaded_pool.max_queue_size ≡ 0) ⊎ (length loaded_pool.queue ≤ loaded_pool.max_queue_size))
Steps-InOrder_example =
    Steps-InOrder 1 1 started_pool loaded_pool starts
      (after unchanged (produces 4 loaded_pool loads))

worker_drains_example :
    (s' : Pool) × (sections 3 0 loaded_pool ≡ some s') × (s'.queue ≡ []) × (s'.executed ≡ 4 ∷ [])
worker_drains_example = worker_drains 0 loaded_pool refl refl
