-- ===== src/Net/ThreadPool/Order.antt =====
-- No task is lost, run twice or taken out of order, the queue keeps its bound, and a worker empties it.
use mathlib.Core.List.{append-nil, append_assoc}
use mathlib.Core.Path.{subst}
use xjblg.Base.{
  ℕ, zero, suc, ◌+◌, ◌*◌, ◌≤◌, ◌≡◌, ◌⊎◌, refl, sym, ap, ◌∙◌, inl, inr, true, false, ◌&&◌, Option,
  some, List, [], ◌∷◌, ◌++◌, arith, length, length-append, length-set, get_elem?, set, ltb, leb,
  replicate, ◌==◌, if◌then◌else◌, ◌>>=◌, >>=-eq-some, Bool-cases, if-true, if-false, some-injective,
}
use xjblg.Net.ThreadPool.{
  Worker, checking, taking, holding, finished, Pool, make_thread_pool, start_workers, is_full,
  move_to, run_with, run_task, take_from, take_task, work_from, work, stop_pool, Step, produces,
  works, stops, Steps, unchanged, after,
}

pub count : ℕ → List ℕ → ℕ
count t [] = 0
count t (x ∷ xs) = (if x == t then 1 else 0) + count t xs

-- How many workers hold the task, taken and not called.
pub in_hand : ℕ → List Worker → ℕ
in_hand t [] = 0
in_hand t (holding x ∷ ws) = (if x == t then 1 else 0) + in_hand t ws
in_hand t (w ∷ ws) = in_hand t ws

-- What has been accepted is what was taken, followed by what is in the queue; what was taken was called or is
-- in the hand of a worker; a bounded queue keeps to its bound.
pub record InOrder (s : Pool) : Type 0 where
  pub order : s.accepted ≡ s.taken ++ s.queue
  pub once : (t : ℕ) → count t s.taken ≡ count t s.executed + in_hand t s.workers
  pub bound : (s.max_queue_size ≡ 0) ⊎ (length s.queue ≤ s.max_queue_size)
  pub unthreaded : s.workers ≡ [] → s.queue ≡ []

not_full : (max n : ℕ) → (ltb 0 max && leb max n) ≡ false → (max ≡ 0) ⊎ (n + 1 ≤ max)
not_full max n h = ground arith

shorter : (max n : ℕ) → (max ≡ 0) ⊎ (suc n ≤ max) → (max ≡ 0) ⊎ (n ≤ max)
shorter max n (inl h) = inl h
shorter max n (inr h) = inr (omega (arith, h))

-- The share of one worker.
abbrev hand : ℕ → Worker → ℕ
hand t (holding x) = if x == t then 1 else 0
hand t _ = 0

one : (t x : ℕ) → count t (x ∷ []) ≡ hand t (holding x)
unfolding count
one t x = omega arith

count-append : (t : ℕ) (xs ys : List ℕ) → count t (xs ++ ys) ≡ count t xs + count t ys
unfolding count
count-append t [] ys = omega arith
count-append t (x ∷ xs) ys = let q = count-append t xs ys in omega (arith, q)

in_hand_cons :
    (t : ℕ) (w : Worker) (ws : List Worker) → in_hand t (w ∷ ws) ≡ hand t w + in_hand t ws
unfolding in_hand
in_hand_cons t checking ws = omega arith
in_hand_cons t taking ws = omega arith
in_hand_cons t finished ws = omega arith
in_hand_cons t (holding x) ws = refl

in_hand-set :
    (t i : ℕ) (w v : Worker) (ws : List Worker)
    → get_elem? ws i ≡ some w
    → in_hand t (set ws i v) + hand t w ≡ in_hand t ws + hand t v
in_hand-set t i w v [] h = cc
in_hand-set t zero w v (x ∷ ws) h =
    let e : hand t x ≡ hand t w = ap (hand t) (some-injective h) in
    omega (arith, e, in_hand_cons t v ws, in_hand_cons t x ws)
in_hand-set t (suc i) w v (x ∷ ws) h =
    let q = in_hand-set t i w v ws h in
    omega (arith, q, in_hand_cons t x (set ws i v), in_hand_cons t x ws)

run_with-InOrder :
    (ws : List Worker) (t : ℕ) (s s' : Pool)
    → InOrder s
    → ws ≡ s.workers
    → run_with ws t s ≡ some s'
    → InOrder s'
unfolding run_with
run_with-InOrder [] t s s' v e h =
    let no_queue = v.unthreaded (sym e) in
    let ran : s.accepted ≡ s.taken =
      v.order ∙ ap (λ x. s.taken ++ x) no_queue ∙ append-nil s.taken in
    subst InOrder (some-injective h) (record {
      order =
          ap (λ x. x ++ (t ∷ [])) ran
          ∙ sym (ap (λ x. (s.taken ++ (t ∷ [])) ++ x) no_queue ∙ append-nil (s.taken ++ (t ∷ [])));
      once = λ u.
          let q = v.once u in
          omega (arith, q, count-append u s.taken (t ∷ []), count-append u s.executed (t ∷ []));
      bound = v.bound;
      unthreaded = v.unthreaded;
    })
run_with-InOrder (w ∷ ws) t s s' v e h = elim (Bool-cases (is_full s)) [
  | inl full ↦ cc (sym (if-true _ _ full) ∙ h)
  | inr room ↦ subst InOrder (some-injective (sym (if-false _ _ room) ∙ h)) (record {
    order = ap (λ x. x ++ (t ∷ [])) v.order ∙ append_assoc s.taken s.queue (t ∷ []);
    once = v.once;
    bound = rw (length-append s.queue (t ∷ [])) (not_full s.max_queue_size (length s.queue) room);
    unthreaded = λ none_now. cc (e, none_now);
  })
]

set-nil : (xs : List Worker) (i : ℕ) (w : Worker) → set xs i w ≡ [] → xs ≡ []
set-nil [] i w h = refl
set-nil (x ∷ xs) i w h = absurd (omega (arith, sym (length-set (x ∷ xs) i w), ap length h))

-- A worker that holds no task moves to where it holds none.
move_to-InOrder :
    (w v : Worker) (i : ℕ) (s : Pool)
    → ((t : ℕ) → (hand t w ≡ 0) × (hand t v ≡ 0))
    → get_elem? s.workers i ≡ some w
    → InOrder s
    → InOrder (move_to v i s)
move_to-InOrder w v i s free at o = record {
  order = o.order;
  once =
      λ t. let (e, e') = free t in omega (arith, o.once t, in_hand-set t i w v s.workers at, e, e');
  bound = o.bound;
  unthreaded = λ h. o.unthreaded (set-nil s.workers i v h);
}

take_from-InOrder :
    (queue : List ℕ) (i : ℕ) (s s' : Pool)
    → InOrder s
    → get_elem? s.workers i ≡ some taking
    → queue ≡ s.queue
    → take_from queue i s ≡ some s'
    → InOrder s'
unfolding take_from
take_from-InOrder [] i s s' v at e h = elim (Bool-cases s.running) [
  | inl on ↦ cc (sym (if-true _ _ on) ∙ h)
  | inr off ↦
      subst InOrder (some-injective (sym (if-false _ _ off) ∙ h))
        (move_to-InOrder taking checking i s (λ t. (refl, refl)) at v)
]
take_from-InOrder (t ∷ queue) i s s' v at e h = subst InOrder (some-injective h) (record {
  order = v.order ∙ ap (λ x. s.taken ++ x) (sym e) ∙ sym (append_assoc s.taken (t ∷ []) queue);
  once = λ u. omega (
    arith,
    v.once u,
    in_hand-set u i taking (holding t) s.workers at,
    count-append u s.taken (t ∷ []),
    one u t,
  );
  bound =
      shorter s.max_queue_size (length queue)
        (subst (λ q. (s.max_queue_size ≡ 0) ⊎ (length q ≤ s.max_queue_size)) (sym e) v.bound);
  unthreaded = λ no_workers. cc (e, v.unthreaded (set-nil s.workers i (holding t) no_workers));
})

work_from-InOrder :
    (w : Worker) (i : ℕ) (s s' : Pool)
    → InOrder s
    → get_elem? s.workers i ≡ some w
    → work_from w i s ≡ some s'
    → InOrder s'
unfolding work_from take_task
work_from-InOrder checking i s s' v at h = elim (Bool-cases s.running) [
  | inl on ↦
      subst InOrder
        (ap (λ b. move_to (if b then taking else finished) i s) (sym on) ∙ some-injective h)
        (move_to-InOrder checking taking i s (λ t. (refl, refl)) at v)
  | inr off ↦
      subst InOrder
        (ap (λ b. move_to (if b then taking else finished) i s) (sym off) ∙ some-injective h)
        (move_to-InOrder checking finished i s (λ t. (refl, refl)) at v)
]
work_from-InOrder taking i s s' v at h = take_from-InOrder s.queue i s s' v at refl h
work_from-InOrder (holding t) i s s' v at h = subst InOrder (some-injective h) (record {
  order = v.order;
  once = λ u. omega (
    arith,
    v.once u,
    in_hand-set u i (holding t) checking s.workers at,
    count-append u s.executed (t ∷ []),
    one u t,
  );
  bound = v.bound;
  unthreaded = λ no_workers. v.unthreaded (set-nil s.workers i checking no_workers);
})
work_from-InOrder finished i s s' v at h = cc

Step-InOrder : (s s' : Pool) → InOrder s → Step s s' → InOrder s'
unfolding run_task work stop_pool
Step-InOrder s s' v (produces t s'' h) = run_with-InOrder s.workers t s s' v refl h
Step-InOrder s s' v (works i s'' h) =
    let (w, at, done) = >>=-eq-some (get_elem? s.workers i) _ h in
    work_from-InOrder w i s s' v at done
Step-InOrder s s' v stops = record {
  order = v.order;
  once = v.once;
  bound = v.bound;
  unthreaded = v.unthreaded;
}

none_held : (t n : ℕ) → in_hand t (replicate n checking) ≡ 0
unfolding in_hand
none_held t zero = refl
none_held t (suc n) = none_held t n

started-InOrder :
    (n max : ℕ) (s : Pool) → start_workers n (make_thread_pool max) ≡ some s → InOrder s
unfolding start_workers count
started-InOrder n max s h = subst InOrder (some-injective h) (record {
  order = refl;
  once = λ t. omega (arith, none_held t n);
  bound = inr (omega arith);
  unthreaded = λ _. refl;
})

-- From a pool that was started, in every interleaving of producers, workers and a stop: what was accepted
-- is what was taken, in order, followed by what is in the queue; each task was taken as often as it was
-- called and is in the hand of a worker, so none is lost on the way or run twice; and a queue with a
-- bound never holds more tasks than it. Tasks that are in hand may be called in any order.
pub Steps-InOrder :
    (n max : ℕ) (s s' : Pool)
    → start_workers n (make_thread_pool max) ≡ some s
    → Steps s s'
    → (s'.accepted ≡ s'.taken ++ s'.queue)
      × ((t : ℕ) → count t s'.taken ≡ count t s'.executed + in_hand t s'.workers)
      × ((s'.max_queue_size ≡ 0) ⊎ (length s'.queue ≤ s'.max_queue_size))
Steps-InOrder n max s s' started steps = let v = go s' steps in (v.order, v.once, v.bound)
  where
    go : (s' : Pool) → Steps s s' → InOrder s'
    go s' unchanged = started-InOrder n max s started
    go s' (after before step) = Step-InOrder _ s' (go _ before) step

-- So many sections of one worker, with nothing between them.
pub sections : ℕ → ℕ → Pool → Option Pool
unfolding work
sections zero i s = some s
sections (suc n) i s = work i s >>= sections n i

get_elem-set :
    (xs : List Worker) (i : ℕ) (w v : Worker)
    → get_elem? xs i ≡ some v
    → get_elem? (set xs i w) i ≡ some w
get_elem-set [] i w v h = cc
get_elem-set (x ∷ xs) zero w v h = refl
get_elem-set (x ∷ xs) (suc i) w v h = get_elem-set xs i w v h

work_checks :
    (i : ℕ) (s : Pool)
    → s.running ≡ true
    → get_elem? s.workers i ≡ some checking
    → work i s ≡ some (move_to taking i s)
unfolding work work_from
work_checks i s on at = rw at (ap (λ b. some (move_to (if b then taking else finished) i s)) on)

work_takes :
    (t : ℕ) (queue : List ℕ) (i : ℕ) (s : Pool)
    → t ∷ queue ≡ s.queue
    → get_elem? s.workers i ≡ some taking
    → work i s
      ≡ some (move_to (holding t) i (record s { queue = queue; taken = s.taken ++ (t ∷ []) }))
unfolding work work_from take_task take_from
work_takes t queue i s e at = rw at (ap (λ q. take_from q i s) (sym e))

work_calls :
    (t i : ℕ) (s : Pool)
    → get_elem? s.workers i ≡ some (holding t)
    → work i s ≡ some (move_to checking i (record s { executed = s.executed ++ (t ∷ []) }))
unfolding work work_from
work_calls t i s at = rw at refl

drain :
    (queue : List ℕ) (i : ℕ) (s : Pool)
    → queue ≡ s.queue
    → s.running ≡ true
    → get_elem? s.workers i ≡ some checking
    → (s' : Pool) × (sections (length queue * 3) i s ≡ some s')
      × (s'.queue ≡ [])
      × (s'.executed ≡ s.executed ++ s.queue)
unfolding sections
drain [] i s e on at =
    (s, refl, sym e, sym (ap (λ x. s.executed ++ x) (sym e) ∙ append-nil s.executed))
drain (t ∷ queue) i s e on at =
    let s1 = move_to taking i s in
    let at1 = get_elem-set s.workers i taking checking at in
    let s2 = move_to (holding t) i (record s1 { queue = queue; taken = s.taken ++ (t ∷ []) }) in
    let at2 = get_elem-set s1.workers i (holding t) taking at1 in
    let s3 = move_to checking i (record s2 { executed = s.executed ++ (t ∷ []) }) in
    let at3 = get_elem-set s2.workers i checking (holding t) at2 in
    let (s', ok, empty, ran) = drain queue i s3 refl on at3 in
    let n = length queue * 3 in
    let three : suc (length queue) * 3 ≡ suc (suc (suc n)) = omega arith in
    (
      s',
      ap (λ n. sections n i s) three
          ∙ ap (λ m. m >>= sections (suc (suc n)) i) (work_checks i s on at)
          ∙ ap (λ m. m >>= sections (suc n) i) (work_takes t queue i s1 e at1)
          ∙ ap (λ m. m >>= sections n i) (work_calls t i s2 at2)
          ∙ ok,
      empty,
      ran ∙ append_assoc s.executed (t ∷ []) queue ∙ ap (λ x. s.executed ++ x) e,
    )

-- In a running pool, a worker that stands before the test of `running_` empties the queue alone: after
-- three sections for each task, all of them have run in order.
pub worker_drains :
    (i : ℕ) (s : Pool)
    → s.running ≡ true
    → get_elem? s.workers i ≡ some checking
    → (s' : Pool) × (sections (length s.queue * 3) i s ≡ some s')
      × (s'.queue ≡ [])
      × (s'.executed ≡ s.executed ++ s.queue)
worker_drains i s = drain s.queue i s refl
