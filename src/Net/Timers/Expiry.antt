-- ===== src/Net/Timers/Expiry.antt =====
-- The timers that have expired: `getExpired` takes them out of the queue.
use mathlib.Core.Path.{subst}
use native.Mathlib.Decide.{dec_lt}
use xjblg.Base.{
  some-injective, ==_iff, ℕ, ◌≤◌, ◌<◌, ◌≡◌, refl, sym, ap, ◌∙◌, ◌⊎◌, inl, inr, Bool, true, false,
  not, ◌&&◌, Option, some, List, [], ◌∷◌, ◌++◌, arith, ltb, leb, lt→ltb, ltb→lt,
}
use xjblg.Base.PairSet.{
  Pair, before, same, is_in, erase, take_before, drop_before, Sorted, same_refl, or-cases,
}
use xjblg.Base.PairSet.Laws.{
  head_once, take-drop_before, is_in-drop_before, is_in-take_before, take_before-Sorted, and_left,
  and_right,
}
use xjblg.Net.Timers.{max_pointer, Timer, TimerQueue, erase_expired, get_expired}
use xjblg.Net.Timers.Queue.{
  Holds, Sound, Absent, Apart, not-true, or_right, pair-parts, erased-Holds, erased-Absent,
}

moved : List Pair → List Pair → List Pair
moved [] out = out
moved (x ∷ xs) out = moved xs (x ∷ out)

is_in-moved :
    (e : Pair) (xs out : List Pair)
    → (is_in e xs ≡ true) ⊎ (is_in e out ≡ true)
    → is_in e (moved xs out) ≡ true
unfolding moved is_in
is_in-moved e [] out (inl h) = cc
is_in-moved e [] out (inr h) = h
is_in-moved e (x ∷ xs) out (inl h) = elim (or-cases (same e x) (is_in e xs) h) [
  | inl i ↦ is_in-moved e xs (x ∷ out) (inr (rw i refl))
  | inr i ↦ is_in-moved e xs (x ∷ out) (inl i)
]
is_in-moved e (x ∷ xs) out (inr h) = is_in-moved e xs (x ∷ out) (inr (rw h (or_right (same e x))))

module _ {timers active : List Pair} {heap : ℕ → Option Timer} where
  -- A live timer that is in no set is out.
  push-Holds :
      (w p : ℕ) (t : Timer) (out : List Pair)
      → Holds out heap timers active
      → Absent p out timers active
      → heap p ≡ some t
      → Holds ((w, p) ∷ out) heap timers active
  unfolding Apart is_in
  push-Holds w p t out v a live = record {
    by_time = v.by_time;
    by_address = v.by_address;
    sizes = v.sizes;
    timer_live = v.timer_live;
    active_live = v.active_live;
    out_live = λ u j h. elim (or-cases (same (u, j) (w, p)) (is_in (u, j) out) h) [
      | inl i ↦
          let ej = (pair-parts u j w p i).1 in
          (t, ap heap ej ∙ live, λ s. ap (λ x. is_in (x, s) active) ej ∙ a.no_active s)
      | inr i ↦ v.out_live u j i
    ];
    apart = (a.not_out, v.apart);
    low = v.low;
  }

  -- The timers that are out, in another order.
  reorder-Holds :
      (out out' : List Pair)
      → Holds out heap timers active
      → ((e : Pair) → is_in e out' ≡ true → is_in e out ≡ true)
      → Apart out'
      → Holds out' heap timers active
  reorder-Holds out out' v into a = record {
    by_time = v.by_time;
    by_address = v.by_address;
    sizes = v.sizes;
    timer_live = v.timer_live;
    active_live = v.active_live;
    out_live = λ w p h. v.out_live w p (into (w, p) h);
    apart = a;
    low = v.low;
  }

-- Timers with different times or addresses have different addresses.
Sorted-Apart :
    (heap : ℕ → Option Timer) (xs : List Pair)
    → Sorted xs
    → ((w p : ℕ) → is_in (w, p) xs ≡ true → (t : Timer) × (heap p ≡ some t) × (t.expiration ≡ w))
    → Apart xs
unfolding Sorted Apart is_in
Sorted-Apart heap [] s live = tt
Sorted-Apart heap ((w, p) ∷ xs) (below, s) live = (
  λ u. not-true _ λ h.
      let (t, l, e) = live u p (rw h (or_right (same (u, p) (w, p)))) in
      let (t', l', e') = live w p (rw (same_refl (w, p)) refl) in
      let same_time : u ≡ w = sym e ∙ ap (λ x. x.expiration) (some-injective (sym l ∙ l')) ∙ e' in
      cc (head_once (w, p) xs below, ap (λ x. is_in (x, p) xs) (sym same_time) ∙ h),
  Sorted-Apart heap xs s λ u j h. live u j (rw h (or_right (same (u, j) (w, p)))),
)

erase-head : (e : Pair) (xs : List Pair) → erase e (e ∷ xs) ≡ xs
unfolding erase
erase-head e xs = rw (same_refl e) refl

erase_expired_lem :
    (heap : ℕ → Option Timer) (expired rest out active : List Pair)
    → Holds out heap (expired ++ rest) active
    → (a : List Pair) × (erase_expired heap expired active ≡ some a)
      × Holds (moved expired out) heap rest a
unfolding erase_expired moved is_in
erase_expired_lem heap [] rest out active v = (active, refl, v)
erase_expired_lem heap ((w, p) ∷ expired) rest out active v =
    let head : is_in (w, p) ((w, p) ∷ (expired ++ rest)) ≡ true = rw (same_refl (w, p)) refl in
    let (t, live, e, there) = v.timer_live w p head in
    let at : is_in (t.expiration, p) ((w, p) ∷ (expired ++ rest)) ≡ true =
      ap (λ x. is_in (x, p) ((w, p) ∷ (expired ++ rest))) e ∙ head in
    let left : erase (t.expiration, p) ((w, p) ∷ (expired ++ rest)) ≡ expired ++ rest =
      ap (λ x. erase (x, p) ((w, p) ∷ (expired ++ rest))) e ∙ erase-head (w, p) (expired ++ rest) in
    let v1 =
      subst (λ xs. Holds out heap xs (erase (p, t.sequence) active)) left
        (erased-Holds p t v live there at) in
    let a1 =
      subst (λ xs. Absent p out xs (erase (p, t.sequence) active)) left
        (erased-Absent p t v live there) in
    let (a, ok, v2) =
      erase_expired_lem heap expired rest ((w, p) ∷ out) (erase (p, t.sequence) active)
        (push-Holds w p t out v1 a1 live) in
    (a, rw (live, there, ok) refl, v2)

early : (w p now : ℕ) → p < max_pointer → before (w, p) (now, max_pointer) ≡ leb w now
early w p now h = ground arith

late : (w now : ℕ) → not (leb w now) ≡ ltb now w
late w now = ground arith

below_or : (a b : ℕ) → (a < b) ⊎ (b ≤ a)
below_or a b = elim (dec_lt a b) [ yes h ↦ inl h | no h ↦ inr (omega (arith, h)) ]

-- The assert of `getExpired` on the first timer that stays.
head_is_late :
    (now : ℕ) (xs : List Pair)
    → ((w p : ℕ) → is_in (w, p) xs ≡ true → now < w)
    → (elim xs [ [] ↦ true | (w, _) ∷ _ ↦ ltb now w ]) ≡ true
unfolding is_in
head_is_late now [] h = refl
head_is_late now ((w, p) ∷ xs) h = lt→ltb now w (h w p (rw (same_refl (w, p)) refl))

-- A test that matters only where the entry is there.
guard : (a a' b : Bool) → (b ≡ true → a ≡ a') → (a && b) ≡ (a' && b)
guard a a' true h = rw (h refl) refl
guard a a' false h = ground arith

-- Where the queue is sound, `getExpired` passes every assert. What it returns are exactly the timers
-- whose time is not after now; exactly the later ones stay in the queue, which is
-- sound while the others are out.
pub get_expired-Sound :
    (now : ℕ) (q : TimerQueue)
    → Sound [] q
    → (expired : List Pair) × (q' : TimerQueue) × (get_expired now q ≡ some (expired, q'))
      × Sound expired q'
      × ((w p : ℕ) → is_in (w, p) expired ≡ (leb w now && is_in (w, p) q.timers))
      × ((w p : ℕ) → is_in (w, p) q'.timers ≡ (ltb now w && is_in (w, p) q.timers))
unfolding get_expired
get_expired-Sound now q v =
    let expired = take_before (now, max_pointer) q.timers in
    let rest = drop_before (now, max_pointer) q.timers in
    let split = take-drop_before (now, max_pointer) q.timers in
    let (a, ok, v1) =
      erase_expired_lem q.heap expired rest [] q.active_timers
        (subst (λ xs. Holds [] q.heap xs q.active_timers) (sym split) v) in
    let low : (w p : ℕ) → is_in (w, p) q.timers ≡ true → p < max_pointer = λ w p h.
      elim (below_or p max_pointer) [
        | inl b ↦ b
        | inr b ↦ let (t, live, _, _) = v.timer_live w p h in cc (live, v.low p b)
      ] in
    let is_early : (w p : ℕ) → is_in (w, p) expired ≡ (leb w now && is_in (w, p) q.timers) = λ w p.
      is_in-take_before (w, p) (now, max_pointer) q.timers v.by_time
      ∙ guard _ _ (is_in (w, p) q.timers) (λ h. early w p now (low w p h)) in
    let is_late : (w p : ℕ) → is_in (w, p) rest ≡ (ltb now w && is_in (w, p) q.timers) = λ w p.
      is_in-drop_before (w, p) (now, max_pointer) q.timers v.by_time
      ∙ guard _ _ (is_in (w, p) q.timers) (λ h. ap not (early w p now (low w p h)) ∙ late w now) in
    let a1 =
      Sorted-Apart q.heap expired (take_before-Sorted (now, max_pointer) q.timers v.by_time)
        (λ w p h.
          let (t, l, e, _) = v.timer_live w p (and_right (leb w now) _ (sym (is_early w p) ∙ h)) in
          (t, l, e)) in
    let v2 =
      reorder-Holds (moved expired []) expired v1 (λ e h. is_in-moved e expired [] (inl h)) a1 in
    (
      expired,
      record q { timers = rest; active_timers = a },
      rw
          (
            (==_iff _ _).1 v.sizes,
            head_is_late now rest
                (λ w p h. ltb→lt now w (and_left (ltb now w) _ (sym (is_late w p) ∙ h))),
            ok,
            (==_iff _ _).1 v2.sizes,
          )
          refl,
      v2,
      is_early,
      is_late,
    )
