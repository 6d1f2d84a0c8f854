-- ===== src/Net/Timers/Queue.antt =====
-- The invariant of the timer queue: its two sets hold the same live timers. Adding and cancelling keep it.
use mathlib.Core.Path.{subst}
use xjblg.Base.{
  some-injective, ℕ, suc, ◌≤◌, ◌≡◌, ◌≢◌, refl, sym, ap, ◌∙◌, inl, inr, Bool, true, false, not, ◌||◌,
  Option, none, some, List, [], ◌∷◌, arith, length,
}
use xjblg.Base.Maps.{put, put-other, put-every}
use xjblg.Base.PairSet.{Pair, same, is_in, insert, erase, Sorted, same_refl, or-cases}
use xjblg.Base.PairSet.Laws.{
  is_in-insert, length-insert, insert-Sorted, is_in-erase, erase-Sorted, length-erase, and_left,
  and_right, and-false,
}
use xjblg.Net.Timers.{max_pointer, Timer, TimerQueue}

unfoldable pub Apart : List Pair → Type 0
Apart [] = Unit {0}
Apart ((w, p) ∷ out) = ((v : ℕ) → is_in (v, p) out ≡ false) × Apart out

-- The two sets hold the same timers, each live, while the timers `out` are live and in neither. No timer
-- lies at `UINTPTR_MAX`.
pub record Holds (out : List Pair) (heap : ℕ → Option Timer) (timers active : List Pair)
    : Type 0 where
  pub by_time : Sorted timers
  pub by_address : Sorted active
  pub sizes : length timers ≡ length active
  pub timer_live :
      (w p : ℕ)
      → is_in (w, p) timers ≡ true
      → (t : Timer) × (heap p ≡ some t) × (t.expiration ≡ w) × (is_in (p, t.sequence) active ≡ true)
  pub active_live :
      (p s : ℕ)
      → is_in (p, s) active ≡ true
      → (t : Timer) × (heap p ≡ some t) × (t.sequence ≡ s) × (is_in (t.expiration, p) timers ≡ true)
  pub out_live :
      (w p : ℕ)
      → is_in (w, p) out ≡ true
      → (t : Timer) × (heap p ≡ some t) × ((s : ℕ) → is_in (p, s) active ≡ false)
  pub apart : Apart out
  pub low : (p : ℕ) → max_pointer ≤ p → heap p ≡ none

abbrev pub Sound : List Pair → TimerQueue → Type 0
Sound out q = Holds out q.heap q.timers q.active_timers

-- No timer at the address `p` is in a set, or out.
pub record Absent (p : ℕ) (out timers active : List Pair) : Type 0 where
  pub no_timer : (w : ℕ) → is_in (w, p) timers ≡ false
  pub no_active : (s : ℕ) → is_in (p, s) active ≡ false
  pub not_out : (w : ℕ) → is_in (w, p) out ≡ false

pub pair-parts : (a b c d : ℕ) → same (a, b) (c, d) ≡ true → (a ≡ c) × (b ≡ d)
pair-parts a b c d h = ground arith

pub not-true : (b : Bool) → (b ≡ true → false ≡ true) → b ≡ false
not-true true h = cc (h refl)
not-true false h = refl

pub or_right : (b : Bool) → (b || true) ≡ true
or_right true = refl
or_right false = refl

pub same-other : (a b c d : ℕ) → a ≢ c → same (a, b) (c, d) ≡ false
same-other a b c d ne = ground arith

other_entry : (a b c d : ℕ) → a ≢ c → same (b, a) (d, c) ≡ false
other_entry a b c d ne = ground arith

suc-inj : {a b : ℕ} → suc a ≡ suc b → a ≡ b
suc-inj h = omega (arith, h)

module _ {out timers active : List Pair} {heap : ℕ → Option Timer} where
  pub fresh-Absent :
      (p : ℕ) → Holds out heap timers active → heap p ≡ none → Absent p out timers active
  fresh-Absent p v free = record {
    no_timer = λ w. not-true _ λ h. cc ((v.timer_live w p h).1, free);
    no_active = λ s. not-true _ λ h. cc ((v.active_live p s h).1, free);
    not_out = λ w. not-true _ λ h. cc ((v.out_live w p h).1, free);
  }

  -- What is at an address that is absent does not matter.
  pub change-Holds :
      (p : ℕ) (o : Option Timer)
      → Holds out heap timers active
      → Absent p out timers active
      → (max_pointer ≤ p → o ≡ none)
      → Holds out (put heap p o) timers active
  change-Holds p o v a lo = record {
    low = put-every (λ j x. max_pointer ≤ j → x ≡ none) heap p o lo (λ j ne. v.low j);
    by_time = v.by_time;
    by_address = v.by_address;
    sizes = v.sizes;
    timer_live = λ w j h.
        let other : j ≢ p =
          λ e. cc (h, subst (λ x. is_in (w, x) timers ≡ false) (sym e) (a.no_timer w)) in
        rw (put-other heap p o j other) (v.timer_live w j h);
    active_live = λ j s h.
        let other : j ≢ p =
          λ e. cc (h, subst (λ x. is_in (x, s) active ≡ false) (sym e) (a.no_active s)) in
        rw (put-other heap p o j other) (v.active_live j s h);
    out_live = λ w j h.
        let other : j ≢ p =
          λ e. cc (h, subst (λ x. is_in (w, x) out ≡ false) (sym e) (a.not_out w)) in
        rw (put-other heap p o j other) (v.out_live w j h);
    apart = v.apart;
  }

  -- A timer that is absent enters both sets.
  pub entered-Holds :
      (p : ℕ) (t : Timer)
      → Holds out heap timers active
      → Absent p out timers active
      → heap p ≡ some t
      → Holds out heap (insert (t.expiration, p) timers) (insert (p, t.sequence) active)
  entered-Holds p t v a live = record {
    low = v.low;
    by_time = insert-Sorted _ timers v.by_time;
    by_address = insert-Sorted _ active v.by_address;
    sizes =
        length-insert _ timers (a.no_timer t.expiration)
        ∙ ap suc v.sizes
        ∙ sym (length-insert _ active (a.no_active t.sequence));
    timer_live = λ w j h.
        elim (or-cases (same (w, j) (t.expiration, p)) _ (sym (is_in-insert (w, j) _ timers) ∙ h)) [
          | inl i ↦
              let (ew, ej) = pair-parts w j _ _ i in
              (
                t,
                ap heap ej ∙ live,
                sym ew,
                is_in-insert _ _ active ∙ rw (ej, same_refl (p, t.sequence)) refl,
              )
          | inr i ↦
              let (u, l, e, there) = v.timer_live w j i in
              (
                u,
                l,
                e,
                is_in-insert (j, u.sequence) (p, t.sequence) active
                    ∙ rw there (or_right (same (j, u.sequence) (p, t.sequence))),
              )
        ];
    active_live = λ j s h.
        elim (or-cases (same (j, s) (p, t.sequence)) _ (sym (is_in-insert (j, s) _ active) ∙ h)) [
          | inl i ↦
              let (ej, es) = pair-parts j s _ _ i in
              (
                t,
                ap heap ej ∙ live,
                sym es,
                is_in-insert _ _ timers ∙ rw (ej, same_refl (t.expiration, p)) refl,
              )
          | inr i ↦
              let (u, l, e, there) = v.active_live j s i in
              (
                u,
                l,
                e,
                is_in-insert (u.expiration, j) (t.expiration, p) timers
                    ∙ rw there (or_right (same (u.expiration, j) (t.expiration, p))),
              )
        ];
    out_live = λ w j h.
        let (u, l, never) = v.out_live w j h in
        let other : j ≢ p =
          λ e. cc (h, subst (λ x. is_in (w, x) out ≡ false) (sym e) (a.not_out w)) in
        (
          u,
          l,
          λ s.
              is_in-insert (j, s) (p, t.sequence) active
              ∙ rw (never s, same-other j s p t.sequence other) refl,
        );
    apart = v.apart;
  }

  module _ (p : ℕ) (t : Timer) (v : Holds out heap timers active) (live : heap p ≡ some t) where
    -- What stays in a set when the timer at `p` leaves it is at another address.
    stays_timer :
        (w j : ℕ)
        → is_in (w, j) (erase (t.expiration, p) timers) ≡ true
        → (is_in (w, j) timers ≡ true) × (j ≢ p)
    stays_timer w j h =
        let k = sym (is_in-erase (w, j) (t.expiration, p) timers v.by_time) ∙ h in
        let is_there = and_right (not (same (w, j) (t.expiration, p))) (is_in (w, j) timers) k in
        let (u, l, e, _) = v.timer_live w j is_there in
        (
          is_there,
          λ jp.
              let ew : w ≡ t.expiration =
                sym e ∙ ap (λ x. x.expiration) (some-injective (sym l ∙ ap heap jp ∙ live)) in
              let is_same : same (w, j) (t.expiration, p) ≡ true =
                rw (ew, jp) (same_refl (t.expiration, p)) in
              cc (and_left (not (same (w, j) (t.expiration, p))) (is_in (w, j) timers) k, is_same),
        )

    stays_active :
        (j s : ℕ)
        → is_in (j, s) (erase (p, t.sequence) active) ≡ true
        → (is_in (j, s) active ≡ true) × (j ≢ p)
    stays_active j s h =
        let k = sym (is_in-erase (j, s) (p, t.sequence) active v.by_address) ∙ h in
        let is_there = and_right (not (same (j, s) (p, t.sequence))) (is_in (j, s) active) k in
        let (u, l, e, _) = v.active_live j s is_there in
        (
          is_there,
          λ jp.
              let es : s ≡ t.sequence =
                sym e ∙ ap (λ x. x.sequence) (some-injective (sym l ∙ ap heap jp ∙ live)) in
              let is_same : same (j, s) (p, t.sequence) ≡ true =
                rw (es, jp) (same_refl (p, t.sequence)) in
              cc (and_left (not (same (j, s) (p, t.sequence))) (is_in (j, s) active) k, is_same),
        )

    -- A timer that is in the sets leaves both.
    pub erased-Holds :
        is_in (p, t.sequence) active ≡ true
        → is_in (t.expiration, p) timers ≡ true
        → Holds out heap (erase (t.expiration, p) timers) (erase (p, t.sequence) active)
    erased-Holds here there = record {
      low = v.low;
      by_time = erase-Sorted _ timers v.by_time;
      by_address = erase-Sorted _ active v.by_address;
      sizes = suc-inj (length-erase _ timers there ∙ v.sizes ∙ sym (length-erase _ active here));
      timer_live = λ w j h.
          let (is_there, other) = stays_timer w j h in
          let (u, l, e, i) = v.timer_live w j is_there in
          (
            u,
            l,
            e,
            is_in-erase (j, u.sequence) (p, t.sequence) active v.by_address
                ∙ rw (i, same-other j u.sequence p t.sequence other) refl,
          );
      active_live = λ j s h.
          let (is_there, other) = stays_active j s h in
          let (u, l, e, i) = v.active_live j s is_there in
          (
            u,
            l,
            e,
            is_in-erase (u.expiration, j) (t.expiration, p) timers v.by_time
                ∙ rw (i, other_entry j u.expiration p t.expiration other) refl,
          );
      out_live = λ w j h.
          let (u, l, never) = v.out_live w j h in
          (
            u,
            l,
            λ s.
                is_in-erase (j, s) (p, t.sequence) active v.by_address
                ∙ rw (never s) (and-false (not (same (j, s) (p, t.sequence)))),
          );
      apart = v.apart;
    }

    pub erased-Absent :
        is_in (p, t.sequence) active ≡ true
        → Absent p out (erase (t.expiration, p) timers) (erase (p, t.sequence) active)
    erased-Absent here = record {
      no_timer = λ w. not-true _ λ h. absurd ((stays_timer w p h).1 refl);
      no_active = λ s. not-true _ λ h. absurd ((stays_active p s h).1 refl);
      not_out =
          λ w. not-true _ λ h. let (u, l, never) = v.out_live w p h in cc (here, never t.sequence);
    }
