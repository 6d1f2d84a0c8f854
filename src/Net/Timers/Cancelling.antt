-- ===== src/Net/Timers/Cancelling.antt =====
-- Cancelling a timer, and what `reset` does with one that has expired.
use mathlib.Core.Path.{subst}
use xjblg.Base.{
  ==_iff, ℕ, ◌≡◌, refl, sym, ap, ◌∙◌, inl, inr, Bool, true, false, not, ◌&&◌, ◌||◌, Option, none,
  some, List, ◌∷◌, length, Bool-cases,
}
use xjblg.Base.Maps.{put, put-same}
use xjblg.Base.PairSet.{Pair, same, is_in, insert, erase, same_refl, same-eq}
use xjblg.Base.PairSet.Laws.{is_in-insert, is_in-erase, and_left}
use xjblg.Net.Timers.{Timer, TimerQueue, restart, add_time, cancel, reset_one}
use xjblg.Net.Timers.Queue.{
  Holds, Sound, Absent, Apart, or_right, not-true, change-Holds, entered-Holds, erased-Holds,
  erased-Absent,
}
use xjblg.Net.Timers.Adding.{insert_timer_lem}

nothing_noted : (a b c : Bool) → (((a && false) && b) || c) ≡ c
nothing_noted true b c = refl
nothing_noted false b c = refl

keeps_others :
    (e : Pair) (xs : List Pair)
    → is_in e xs ≡ false
    → (f : Pair) → is_in f xs ≡ (not (same f e) && is_in f xs)
keeps_others e xs gone f = elim (Bool-cases (same f e)) [
  | inl i ↦ rw (same-eq f e i, gone, same_refl e) refl
  | inr i ↦ rw i refl
]

-- Where the queue is sound, cancelling passes every assert, whether the timer is there or not. Then the
-- queue is sound, the pair of address and sequence number is not in the set, and every other timer
-- stays: so a number that is out of date cancels no timer that has come to the same address. While the expired
-- timers are called, a timer that is not in the set is noted as cancelled.
pub cancel-Sound :
    (out : List Pair) (p s : ℕ) (q : TimerQueue)
    → Sound out q
    → (q' : TimerQueue) × (cancel p s q ≡ some q')
      × Sound out q'
      × ((e : Pair) → is_in e q'.active_timers ≡ (not (same e (p, s)) && is_in e q.active_timers))
      × ((e : Pair)
          → is_in e q'.canceling_timers ≡ (
              ((q.calling_expired_timers && not (is_in (p, s) q.active_timers)) && same e (p, s))
              || is_in e q.canceling_timers))
unfolding cancel
cancel-Sound out p s q v = elim (Bool-cases (is_in (p, s) q.active_timers)) [
  | inl here ↦
      let (t, live, e, there) = v.active_live p s here in
      let here' : is_in (p, t.sequence) q.active_timers ≡ true = rw e here in
      let w = erased-Holds p t v live here' there in
      let w' = change-Holds p none w (erased-Absent p t v live here') (λ h. refl) in
      (
        record q {
          heap = put q.heap p none;
          timers = erase (t.expiration, p) q.timers;
          active_timers = erase (p, s) q.active_timers;
        },
        rw
            (
              (==_iff _ _).1 v.sizes,
              here,
              live,
              there,
              (==_iff _ _).1 (w.sizes ∙ ap (λ x. length (erase (p, x) q.active_timers)) e),
            )
            refl,
        subst
            (λ x.
              Holds out (put q.heap p none) (erase (t.expiration, p) q.timers)
                (erase (p, x) q.active_timers))
            e w',
        λ f. is_in-erase f (p, s) q.active_timers v.by_address,
        λ e. rw (here) (
            sym (
              nothing_noted q.calling_expired_timers (same e (p, s)) (is_in e q.canceling_timers))),
      )
  | inr gone ↦
      let keeps = keeps_others (p, s) q.active_timers gone in
      elim (Bool-cases q.calling_expired_timers) [
        | inl calling ↦ (
          record q { canceling_timers = insert (p, s) q.canceling_timers },
          rw ((==_iff _ _).1 v.sizes, gone, calling) refl,
          v,
          keeps,
          λ e. is_in-insert e (p, s) q.canceling_timers ∙ rw (calling, gone) refl,
        )
        | inr quiet ↦
            (q, rw ((==_iff _ _).1 v.sizes, gone, quiet) refl, v, keeps, λ e. rw (quiet) refl)
      ]
]

module _ {w p : ℕ} {out timers active : List Pair} {heap : ℕ → Option Timer}
    (v : Holds ((w, p) ∷ out) heap timers active) where
  expired_timer : (t : Timer) × (heap p ≡ some t) × ((s : ℕ) → is_in (p, s) active ≡ false)
  unfolding is_in
  expired_timer = v.out_live w p (rw (same_refl (w, p)) refl)

  pub tail-Holds : Holds out heap timers active
  unfolding is_in Apart
  tail-Holds = record {
    by_time = v.by_time;
    by_address = v.by_address;
    sizes = v.sizes;
    timer_live = v.timer_live;
    active_live = v.active_live;
    out_live = λ u j h. v.out_live u j (rw h (or_right (same (u, j) (w, p))));
    apart = v.apart.1;
    low = v.low;
  }

  head-Absent : Absent p out timers active
  unfolding Apart
  head-Absent = record {
    no_timer = λ u.
        not-true _ λ h.
          let (t, l, e, there) = v.timer_live u p h in cc (there, (expired_timer.2) t.sequence);
    no_active = expired_timer.2;
    not_out = v.apart.0;
  }

-- Where the queue is sound and a timer has expired, a round of `reset` passes every assert and leaves the queue
-- sound. The timer waits again, its interval after now, exactly if it repeats and was not
-- cancelled in the meantime; the other entries are as before.
pub reset_one-Sound :
    (w p now : ℕ) (out : List Pair) (q : TimerQueue)
    → Sound ((w, p) ∷ out) q
    → (t : Timer) × (q.heap p ≡ some t)
      × (q' : TimerQueue) × (reset_one now p q ≡ some q')
      × Sound out q'
      × ((e : Pair)
          → is_in e q'.timers ≡ (
              ((t.repeats && not (is_in (p, t.sequence) q.canceling_timers))
                && same e (add_time now t.interval, p))
              || is_in e q.timers))
unfolding reset_one
reset_one-Sound w p now out q v =
    let (t, live, never) = expired_timer v in
    let a = head-Absent v in
    let u = tail-Holds v in
    elim (Bool-cases (t.repeats && not (is_in (p, t.sequence) q.canceling_timers))) [
      | inl again ↦
          let r = restart now t in
          let u1 = change-Holds p (some r) u a (λ h. cc (v.low p h, live)) in
          let is_live = put-same q.heap p (some r) in
          let q1 = record q { heap = put q.heap p (some r) } in
          let ok = insert_timer_lem out p r q1 u1 a is_live in
          let e : r.expiration ≡ add_time now t.interval = rw (and_left t.repeats _ again) refl in
          (
            t,
            live,
            record q1 {
              timers = insert (r.expiration, p) q.timers;
              active_timers = insert (p, t.sequence) q.active_timers;
            },
            rw (live, again, ok) refl,
            entered-Holds p r u1 a is_live,
            λ f. is_in-insert f (r.expiration, p) q.timers ∙ rw (again, e) refl,
          )
      | inr over ↦ (
        t,
        live,
        record q { heap = put q.heap p none },
        rw (live, over) refl,
        change-Holds p none u a (λ h. refl),
        λ f. rw over refl,
      )
    ]
