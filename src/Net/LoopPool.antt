-- ===== src/Net/LoopPool.antt =====
-- NETLIB/net/EventLoopThreadPool.h and EventLoopThreadPool.cpp. A loop is a number; what `startLoop` of
-- each new thread returns is an argument. `none` is a failed assert or an index out of range.
pub mod RoundRobin
use xjblg.Base.{
  ℕ, zero, suc, ◌+◌, ◌%◌, Bool, true, false, not, Option, none, some, List, [], ◌∷◌, ◌++◌, length,
  get_elem?, leb, if◌then◌else◌, ◌>>=◌, ◌>>◌, assert,
}

pub record LoopPool : Type 0 where
  pub base_loop : ℕ
  pub started : Bool
  pub num_threads : ℕ
  pub next : ℕ
  pub loops : List ℕ

abbrev pub make_pool : ℕ → LoopPool
make_pool base = record { base_loop = base; started = false; num_threads = 0; next = 0; loops = [] }

abbrev set_thread_num : ℕ → LoopPool → LoopPool
set_thread_num n p = record p { num_threads = n }

-- The loop of `start`: one thread after another.
pub start_threads : ℕ → (ℕ → ℕ) → ℕ → List ℕ → List ℕ
start_threads zero new i loops = loops
start_threads (suc n) new i loops = start_threads n new (i + 1) (loops ++ (new i ∷ []))

-- `start`, without the callback: `new i` is the loop of the i-th thread.
pub start_pool : (ℕ → ℕ) → LoopPool → Option LoopPool
unfolding start_threads
start_pool new p = do
  assert (not p.started)
  some (record p { started = true; loops = start_threads p.num_threads new 0 p.loops })

-- `getNextLoop`.
pub get_next_loop : LoopPool → Option (ℕ × LoopPool)
get_next_loop p = do
  assert p.started
  elim p.loops [
    | [] ↦ some (p.base_loop, p)
    | l ∷ ls ↦
        (get_elem? p.loops p.next >>= λ loop.
        some
          (loop, record p { next = if leb (length p.loops) (p.next + 1) then 0 else p.next + 1 }))
  ]

-- `getLoopForHash`.
pub get_loop_for_hash : ℕ → LoopPool → Option ℕ
get_loop_for_hash h p = elim p.loops [
  | [] ↦ some p.base_loop
  | l ∷ ls ↦ get_elem? p.loops (h % length p.loops)
]

-- `getAllLoops`.
pub get_all_loops : LoopPool → Option (List ℕ)
get_all_loops p = do
  assert p.started
  elim p.loops [ [] ↦ some (p.base_loop ∷ []) | l ∷ ls ↦ some p.loops ]
