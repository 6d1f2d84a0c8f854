-- ===== src/Net/EventLoop/Wakeups.antt =====
-- No functor is lost or overtaken, and when the loop waits in `poll` while one is pending.
use mathlib.Core.List.{append-nil, append_assoc}
use mathlib.Core.Path.{subst}
use xjblg.Base.{
  some-injective, ℕ, ◌+◌, ◌<◌, ◌≡◌, refl, sym, ap, ◌∙◌, ◌⊎◌, inl, inr, Bool, Bool-cases, true,
  false, some, List, [], ◌∷◌, ◌++◌, arith, length, length-append, ltb, if-true, if-false,
}
use xjblg.Net.EventLoop.{
  Phase, starting, polling, queue_early, begin_in, begin_loop, starter_queues, begins, handling,
  calling, EventLoop, make_loop, is_calling, wakeup, push_functor, queue_in_loop, queue_outside,
  wake_outside, poll_returns, handle_wakeup, swap_pending, poll_in, read_in, swap_in, call_in,
  queue_all, call_next, Step, outside_queues, outside_wakes, returns, reads, handler_queues, swaps,
  calls, Steps, unchanged, after,
}

-- The functors that `doPendingFunctors` has yet to call.
abbrev pub to_call : Phase → List ℕ
to_call (calling rest) = rest
to_call _ = []

abbrev pub is_handling : Phase → Bool
is_handling handling = true
is_handling _ = false

abbrev is_starting : Phase → Bool
is_starting starting = true
is_starting _ = false

-- The loop has only come to its first `poll`, and its own thread has queued a functor before.
abbrev Unwoken : EventLoop → Type 0
Unwoken s = (s.returned ≡ 0) × (0 < length s.early)

record Awake (s : EventLoop) : Type 0 where
  order : s.queued ≡ s.ran ++ (to_call s.phase ++ s.pending)
  woken : (is_handling s.phase ≡ true) ⊎ ((s.pending ≡ []) ⊎ ((0 < s.wakeups + s.owed) ⊎ Unwoken s))
  fresh : is_starting s.phase ≡ true → s.returned ≡ 0

snoc : (a b c : List ℕ) (f : ℕ) → (a ++ (b ++ c)) ++ (f ∷ []) ≡ a ++ (b ++ (c ++ (f ∷ [])))
snoc a b c f = append_assoc a (b ++ c) (f ∷ []) ∙ ap (λ x. a ++ x) (append_assoc b c (f ∷ []))

queue_in_loop-Awake :
    (f : ℕ) (s : EventLoop)
    → Awake s
    → (is_handling s.phase ≡ true) ⊎ (is_calling s.phase ≡ true)
    → Awake (queue_in_loop f s)
unfolding queue_in_loop push_functor wakeup
queue_in_loop-Awake f s v where_it_is = elim (Bool-cases (is_calling s.phase)) [
  | inl h ↦ subst Awake (sym (if-true _ _ h)) (record {
    order = ap (λ x. x ++ (f ∷ [])) v.order ∙ snoc s.ran (to_call s.phase) s.pending f;
    woken = inr (inr (inl (omega arith)));
    fresh = v.fresh;
  })
  | inr h ↦ subst Awake (sym (if-false _ _ h)) (record {
    order = ap (λ x. x ++ (f ∷ [])) v.order ∙ snoc s.ran (to_call s.phase) s.pending f;
    woken = elim where_it_is [ inl at ↦ inl at | inr at ↦ cc (at, h) ];
    fresh = v.fresh;
  })
]

queue_keeps_phase : (f : ℕ) (s : EventLoop) → (queue_in_loop f s).phase ≡ s.phase
unfolding queue_in_loop push_functor wakeup
queue_keeps_phase f s = elim (Bool-cases (is_calling s.phase)) [
  | inl h ↦ ap (λ (x : EventLoop). x.phase) (if-true _ _ h)
  | inr h ↦ ap (λ (x : EventLoop). x.phase) (if-false _ _ h)
]

queue_all-Awake :
    (fs : List ℕ) (s : EventLoop) → is_calling s.phase ≡ true → Awake s → Awake (queue_all fs s)
unfolding queue_all
queue_all-Awake [] s e v = v
queue_all-Awake (f ∷ fs) s e v =
    queue_all-Awake fs (queue_in_loop f s) (ap is_calling (queue_keeps_phase f s) ∙ e)
      (queue_in_loop-Awake f s v (inr e))

poll_in-Awake :
    (at : Phase) (s s' : EventLoop) → Awake s → at ≡ s.phase → poll_in at s ≡ some s' → Awake s'
unfolding poll_in
poll_in-Awake polling s s' v e h = subst Awake (some-injective h) (record {
  order = v.order ∙ ap (λ x. s.ran ++ (to_call x ++ s.pending)) (sym e);
  woken = inl refl;
  fresh = λ k. cc;
})
poll_in-Awake starting s s' v e h = cc
poll_in-Awake handling s s' v e h = cc
poll_in-Awake (calling rest) s s' v e h = cc

read_in-Awake :
    (at : Phase) (s s' : EventLoop) → Awake s → at ≡ s.phase → read_in at s ≡ some s' → Awake s'
unfolding read_in
read_in-Awake starting s s' v e h = cc
read_in-Awake polling s s' v e h = cc
read_in-Awake handling s s' v e h =
    subst Awake (some-injective h)
      (record { order = v.order; woken = inl (ap is_handling (sym e)); fresh = v.fresh })
read_in-Awake (calling rest) s s' v e h = cc

swap_in-Awake :
    (at : Phase) (s s' : EventLoop) → Awake s → at ≡ s.phase → swap_in at s ≡ some s' → Awake s'
unfolding swap_in
swap_in-Awake starting s s' v e h = cc
swap_in-Awake polling s s' v e h = cc
swap_in-Awake handling s s' v e h = subst Awake (some-injective h) (record {
  order =
      v.order
      ∙ ap (λ x. s.ran ++ (to_call x ++ s.pending)) (sym e)
      ∙ ap (λ x. s.ran ++ x) (sym (append-nil s.pending));
  woken = inr (inl refl);
  fresh = λ k. cc;
})
swap_in-Awake (calling rest) s s' v e h = cc

-- What does not depend on the handlers: something wakes the loop, or nothing is pending.
not_handling :
    (at : Phase) (s : EventLoop)
    → Awake s
    → at ≡ s.phase
    → is_handling at ≡ false
    → (s.pending ≡ []) ⊎ ((0 < s.wakeups + s.owed) ⊎ Unwoken s)
not_handling at s v e h = elim v.woken [ inl k ↦ cc (k, h, ap is_handling e) | inr k ↦ k ]

call_in-Awake :
    (at : Phase) (fs : List ℕ) (s s' : EventLoop)
    → Awake s
    → at ≡ s.phase
    → call_in at fs s ≡ some s'
    → Awake s'
unfolding call_in
call_in-Awake starting fs s s' v e h = cc
call_in-Awake polling fs s s' v e h = cc
call_in-Awake handling fs s s' v e h = cc
call_in-Awake (calling []) fs s s' v e h = subst Awake (some-injective h) (record {
  order = v.order ∙ ap (λ x. s.ran ++ (to_call x ++ s.pending)) (sym e);
  woken = inr (not_handling (calling []) s v e refl);
  fresh = λ k. cc;
})
call_in-Awake (calling (f ∷ rest)) fs s s' v e h = subst Awake (some-injective h) (
    queue_all-Awake fs (record s { phase = calling rest; ran = s.ran ++ (f ∷ []) }) refl
      (record {
        order =
            v.order
            ∙ ap (λ x. s.ran ++ (to_call x ++ s.pending)) (sym e)
            ∙ sym (append_assoc s.ran (f ∷ []) (rest ++ s.pending));
        woken = inr (not_handling (calling (f ∷ rest)) s v e refl);
        fresh = λ k. cc;
      }))

wake_outside-Awake : (s s' : EventLoop) → Awake s → wake_outside s ≡ some s' → Awake s'
unfolding wake_outside wakeup
wake_outside-Awake s s' v h = elim (Bool-cases (ltb 0 s.owed)) [
  | inl k ↦
      subst Awake (some-injective (sym (if-true _ _ k) ∙ h))
        (record { order = v.order; woken = inr (inr (inl (omega arith))); fresh = v.fresh })
  | inr k ↦ cc (sym (if-false _ _ k) ∙ h)
]

queue_early-Awake : (f : ℕ) (s : EventLoop) → Awake s → s.phase ≡ starting → Awake (queue_early f s)
unfolding queue_early queue_in_loop push_functor
queue_early-Awake f s v at = rw (ap is_calling at) (record {
  order = ap (λ x. x ++ (f ∷ [])) v.order ∙ snoc s.ran (to_call s.phase) s.pending f;
  woken =
      inr (
        inr (inr (v.fresh (ap is_starting at), rw (length-append s.early (f ∷ [])) (omega arith))));
  fresh = v.fresh;
})

begin_in-Awake :
    (at : Phase) (s s' : EventLoop) → Awake s → at ≡ s.phase → begin_in at s ≡ some s' → Awake s'
unfolding begin_in
begin_in-Awake starting s s' v e h = subst Awake (some-injective h) (record {
  order = v.order ∙ ap (λ x. s.ran ++ (to_call x ++ s.pending)) (sym e);
  woken = inr (not_handling starting s v e refl);
  fresh = λ k. cc;
})
begin_in-Awake polling s s' v e h = cc
begin_in-Awake handling s s' v e h = cc
begin_in-Awake (calling rest) s s' v e h = cc

Step-Awake : (s s' : EventLoop) → Awake s → Step s s' → Awake s'
unfolding queue_outside push_functor poll_returns handle_wakeup swap_pending call_next begin_loop
Step-Awake s s' v (starter_queues f h) = queue_early-Awake f s v h
Step-Awake s s' v (begins s'' h) = begin_in-Awake s.phase s s' v refl h
Step-Awake s s' v (outside_queues f) = record {
  order = ap (λ x. x ++ (f ∷ [])) v.order ∙ snoc s.ran (to_call s.phase) s.pending f;
  woken = inr (inr (inl (omega arith)));
  fresh = v.fresh;
}
Step-Awake s s' v (outside_wakes s'' h) = wake_outside-Awake s s' v h
Step-Awake s s' v (returns s'' h) = poll_in-Awake s.phase s s' v refl h
Step-Awake s s' v (reads s'' h) = read_in-Awake s.phase s s' v refl h
Step-Awake s s' v (handler_queues f h) = queue_in_loop-Awake f s v (inl (ap is_handling h))
Step-Awake s s' v (swaps s'' h) = swap_in-Awake s.phase s s' v refl h
Step-Awake s s' v (calls fs s'' h) = call_in-Awake s.phase fs s s' v refl h

Steps-Awake : (s : EventLoop) → Steps make_loop s → Awake s
Steps-Awake s unchanged = record { order = refl; woken = inr (inl refl); fresh = λ h. refl }
Steps-Awake s (after before step) = Step-Awake _ s (Steps-Awake _ before) step

-- In every interleaving of a new loop with other threads, every functor that was queued has run, is about to
-- be called, or is pending, in the order of queueing: none is lost, run twice or overtaken.
pub functors_in_order :
    (s : EventLoop) → Steps make_loop s → s.queued ≡ s.ran ++ (to_call s.phase ++ s.pending)
functors_in_order s steps = (Steps-Awake s steps).order

-- In every interleaving of a new loop with other threads, while the loop is in `poll`, no functor is
-- pending, or a wakeup is written to its descriptor, or a thread that has queued a functor is about
-- to write one. The condition is that the thread of the loop queued nothing before it called `loop`, or
-- that `poll` has returned since.
pub polling_is_woken :
    (s : EventLoop)
    → Steps make_loop s
    → s.phase ≡ polling
    → (s.early ≡ []) ⊎ (0 < s.returned)
    → (s.pending ≡ []) ⊎ (0 < s.wakeups + s.owed)
polling_is_woken s steps e later =
    elim (not_handling polling s (Steps-Awake s steps) (sym e) refl) [
      | inl none_waits ↦ inl none_waits
      | inr (inl woken) ↦ inr woken
      | inr (inr (first, some_early)) ↦ elim later [
        | inl no_early ↦ absurd (omega (arith, some_early, ap length no_early))
        | inr again ↦ absurd (omega (arith, first, again))
      ]
    ]

-- A functor that the thread of a new loop queues before `loop` is pending while the loop is in its first
-- `poll`, and nothing wakes it.
pub early_is_not_woken :
    (f : ℕ)
    → (s : EventLoop) × Steps make_loop s
      × (s.phase ≡ polling)
      × (s.pending ≡ f ∷ [])
      × (s.wakeups + s.owed ≡ 0)
unfolding queue_early queue_in_loop push_functor begin_loop begin_in
early_is_not_woken f = (
  record make_loop { phase = polling; pending = f ∷ []; queued = f ∷ []; early = f ∷ [] },
  after (after unchanged (starter_queues f refl)) (begins _ refl),
  refl,
  refl,
  refl,
)
