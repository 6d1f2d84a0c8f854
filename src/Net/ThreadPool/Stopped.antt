-- ===== src/Net/ThreadPool/Stopped.antt =====
-- What a stopped pool does with the tasks in its queue, and with producers that wait.
use mathlib.Core.Path.{subst}
use xjblg.Base.{
  ℕ, zero, suc, ◌≡◌, ◌≢◌, refl, sym, ap, ◌∙◌, inl, inr, Bool, true, false, Option, none, some, List,
  [], ◌∷◌, get_elem?, set, if◌then◌else◌, >>=-eq-some, Bool-cases, if-true, if-false,
  some-injective,
}
use xjblg.Net.ThreadPool.{
  Worker, checking, taking, holding, finished, Pool, is_full, move_to, run_with, run_task,
  work_from, work, stop_pool, Step, produces, works, stops, Steps, unchanged, after,
}

abbrev pub is_taking : Option Worker → Bool
is_taking (some taking) = true
is_taking (some (holding t)) = true
is_taking _ = false

-- A stopped pool with threads, none of which is in `take` or has a task.
pub record Idle (s : Pool) : Type 0 where
  pub off : s.running ≡ false
  pub threaded : s.workers ≢ []
  pub idle : (i : ℕ) → is_taking (get_elem? s.workers i) ≡ false

record Frozen (s s' : Pool) : Type 0 where
  idle : Idle s'
  ran : s'.executed ≡ s.executed
  full : is_full s ≡ true → is_full s' ≡ true

set-idle :
    (xs : List Worker) (i j : ℕ)
    → ((k : ℕ) → is_taking (get_elem? xs k) ≡ false)
    → is_taking (get_elem? (set xs i finished) j) ≡ false
set-idle [] i j h = refl
set-idle (x ∷ xs) zero zero h = refl
set-idle (x ∷ xs) zero (suc j) h = h (suc j)
set-idle (x ∷ xs) (suc i) zero h = h zero
set-idle (x ∷ xs) (suc i) (suc j) h = set-idle xs i j λ k. h (suc k)

set-threaded : (xs : List Worker) (i : ℕ) → xs ≢ [] → set xs i finished ≢ []
set-threaded [] i h = h
set-threaded (x ∷ xs) zero h = λ e. cc
set-threaded (x ∷ xs) (suc i) h = λ e. cc

work_from-Frozen :
    (w : Worker) (i : ℕ) (s0 s s' : Pool)
    → Frozen s0 s
    → get_elem? s.workers i ≡ some w
    → work_from w i s ≡ some s'
    → Frozen s0 s'
unfolding work_from
work_from-Frozen checking i s0 s s' f at h =
    let e = ap (λ b. some (move_to (if b then taking else finished) i s)) (sym f.idle.off) ∙ h in
    subst (Frozen s0) (some-injective e) (record {
      idle = record {
        off = f.idle.off;
        threaded = set-threaded s.workers i f.idle.threaded;
        idle = λ j. set-idle s.workers i j f.idle.idle;
      };
      ran = f.ran;
      full = f.full;
    })
work_from-Frozen taking i s0 s s' f at h = cc (f.idle.idle i, ap is_taking at)
work_from-Frozen (holding t) i s0 s s' f at h = cc (f.idle.idle i, ap is_taking at)
work_from-Frozen finished i s0 s s' f at h = cc

run_with-Frozen :
    (ws : List Worker) (t : ℕ) (s0 s s' : Pool)
    → Frozen s0 s
    → ws ≡ s.workers
    → run_with ws t s ≡ some s'
    → Frozen s0 s'
unfolding run_with
run_with-Frozen [] t s0 s s' f e h = absurd (f.idle.threaded (sym e))
run_with-Frozen (w ∷ ws) t s0 s s' f e h = elim (Bool-cases (is_full s)) [
  | inl full ↦ cc (sym (if-true _ _ full) ∙ h)
  | inr room ↦ subst (Frozen s0) (some-injective (sym (if-false _ _ room) ∙ h)) (record {
    idle = record { off = f.idle.off; threaded = f.idle.threaded; idle = f.idle.idle };
    ran = f.ran;
    full = λ was. cc (f.full was, room);
  })
]

Step-Frozen : (s0 s s' : Pool) → Frozen s0 s → Step s s' → Frozen s0 s'
unfolding run_task work stop_pool
Step-Frozen s0 s s' f (produces t s'' h) = run_with-Frozen s.workers t s0 s s' f refl h
Step-Frozen s0 s s' f (works i s'' h) =
    let (w, at, done) = >>=-eq-some (get_elem? s.workers i) _ h in
    work_from-Frozen w i s0 s s' f at done
Step-Frozen s0 s s' f stops = record {
  idle = record { off = refl; threaded = f.idle.threaded; idle = f.idle.idle };
  ran = f.ran;
  full = f.full;
}

Steps-Frozen : (s s' : Pool) → Idle s → Steps s s' → Frozen s s'
Steps-Frozen s s' v unchanged = record { idle = v; ran = refl; full = λ h. h }
Steps-Frozen s s' v (after before step) = Step-Frozen s _ s' (Steps-Frozen s _ v before) step

-- Once a pool with threads is stopped and no worker is inside `take` or has a task, no task runs any more, in any
-- interleaving: what the queue holds is dropped.
pub stopped_runs_nothing : (s s' : Pool) → Idle s → Steps s s' → s'.executed ≡ s.executed
stopped_runs_nothing s s' v steps = (Steps-Frozen s s' v steps).ran

blocked :
    (ws : List Worker) (t : ℕ) (s : Pool) → ws ≢ [] → is_full s ≡ true → run_with ws t s ≡ none
unfolding run_with
blocked [] t s h full = absurd (h refl)
blocked (w ∷ ws) t s h full = if-true _ _ full

-- Where the queue is full when a pool with threads is stopped and no worker is inside `take` or has a task, a producer
-- waits for room forever: in no state that can follow does `run` go on.
pub stopped_producer_waits :
    (s s' : Pool) (t : ℕ) → Idle s → is_full s ≡ true → Steps s s' → run_task t s' ≡ none
unfolding run_task
stopped_producer_waits s s' t v full steps =
    let f = Steps-Frozen s s' v steps in blocked s'.workers t s' f.idle.threaded (f.full full)
