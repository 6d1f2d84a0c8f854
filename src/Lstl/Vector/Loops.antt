-- ===== src/Lstl/Vector/Loops.antt =====
-- What the loops over cells leave: each writes one window of them.
use xjblg.Base.{
  ℕ, zero, suc, ◌+◌, ◌-◌, ◌≤◌, ◌<◌, ◌≡◌, ◌≢◌, refl, sym, ap, ◌∙◌, ◌⊎◌, inl, inr, ◌&&◌, Option, none,
  some, arith, ltb, leb, lt→ltb, le→leb, if◌then◌else◌, if-true, if-false, Bool-cases, ◌>>=◌,
}
use mathlib.Core.Path.{fun_ext}
use native.Mathlib.Decide.{dec_lt}
use xjblg.Base.Maps.{put, put-same, put-other, ℕ-cases}
use xjblg.Lstl.Vector.{
  assign_cell, construct, destroy, copy, copy_backward, fill, uninitialized_copy,
  uninitialized_copy_from, uninitialized_fill_n,
}

-- Where a number lies with respect to a window.
pub place : (ret n j : ℕ) → (j < ret) ⊎ ((ret ≤ j) × (j < ret + n)) ⊎ (ret + n ≤ j)
place ret n j = elim (dec_lt j ret) [
  | yes h ↦ inl h
  | no h ↦ elim (dec_lt j (ret + n)) [
    | yes k ↦ inr (inl (omega (arith, h), k))
    | no k ↦ inr (inr (omega (arith, k)))
  ]
]

below_not : (j ret : ℕ) → j < ret + 1 → j ≢ ret → j < ret
below_not j ret h ne = omega (arith, h, ne)

above_not : (j k ret n : ℕ) → ret + n ≤ j → j ≢ ret + n → ret + suc n ≤ j
above_not j k ret n h ne = omega (arith, h, ne)

module _ {ℓ} {A : Type ℓ} where
  -- The cells `m` with the `n` cells from `ret` on written over by `f`.
  pub window : (ℕ → Option A) → ℕ → ℕ → (ℕ → Option A) → ℕ → Option A
  window m ret n f j = if leb ret j && ltb j (ret + n) then f (j - ret) else m j

  pub window-in :
      (m : ℕ → Option A) (ret n : ℕ) (f : ℕ → Option A) (j : ℕ)
      → ret ≤ j
      → j < ret + n
      → window m ret n f j ≡ f (j - ret)
  unfolding window
  window-in m ret n f j h k = rw (le→leb ret j h, lt→ltb j (ret + n) k) refl

  pub window-before :
      (m : ℕ → Option A) (ret n : ℕ) (f : ℕ → Option A) (j : ℕ) → j < ret → window m ret n f j ≡ m j
  unfolding window
  window-before m ret n f j h = ground arith

  pub window-behind :
      (m : ℕ → Option A) (ret n : ℕ) (f : ℕ → Option A) (j : ℕ)
      → ret + n ≤ j
      → window m ret n f j ≡ m j
  unfolding window
  window-behind m ret n f j h = ground arith

  -- A window that grows by its first cell.
  pub window-first :
      (m : ℕ → Option A) (ret n : ℕ) (f : ℕ → Option A)
      → window (put m ret (f 0)) (ret + 1) n (λ k. f (k + 1)) ≡ window m ret (suc n) f
  window-first m ret n f = fun_ext λ j. elim (place (ret + 1) n j) [
    | inl low ↦ window-before _ (ret + 1) n _ j low ∙ elim (ℕ-cases j ret) [
      | inl e ↦
          ap (put m ret (f 0)) e
          ∙ put-same m ret (f 0)
          ∙ sym (
              window-in m ret (suc n) f j (omega (arith, e)) (omega (arith, e))
              ∙ ap f (omega (arith, e)))
      | inr ne ↦
          put-other m ret (f 0) j ne
          ∙ sym (window-before m ret (suc n) f j (below_not j ret low ne))
    ]
    | inr (inl (h, k)) ↦
        window-in _ (ret + 1) n _ j h k
        ∙ ap f (omega (arith, h))
        ∙ sym (window-in m ret (suc n) f j (omega (arith, h)) (omega (arith, k)))
    | inr (inr h) ↦
        window-behind _ (ret + 1) n _ j h
        ∙ put-other m ret (f 0) j (λ e. omega (arith, e, h))
        ∙ sym (window-behind m ret (suc n) f j (omega (arith, h)))
  ]

  -- A window that grows by its last cell.
  pub window-last :
      (m : ℕ → Option A) (ret n : ℕ) (f : ℕ → Option A)
      → window (put m (ret + n) (f n)) ret n f ≡ window m ret (suc n) f
  window-last m ret n f = fun_ext λ j. elim (place ret n j) [
    | inl low ↦
        window-before _ ret n _ j low
        ∙ put-other m (ret + n) (f n) j (λ e. omega (arith, e, low))
        ∙ sym (window-before m ret (suc n) f j low)
    | inr (inl (h, k)) ↦
        window-in _ ret n _ j h k ∙ sym (window-in m ret (suc n) f j h (omega (arith, k)))
    | inr (inr h) ↦ window-behind _ ret n _ j h ∙ elim (ℕ-cases j (ret + n)) [
      | inl e ↦
          ap (put m (ret + n) (f n)) e
          ∙ put-same m (ret + n) (f n)
          ∙ sym (
              window-in m ret (suc n) f j (omega (arith, e)) (omega (arith, e))
              ∙ ap f (omega (arith, e)))
      | inr ne ↦
          put-other m (ret + n) (f n) j ne
          ∙ sym (window-behind m ret (suc n) f j (above_not j (ret + n) ret n h ne))
    ]
  ]

  pub window-none : (m : ℕ → Option A) (ret : ℕ) (f : ℕ → Option A) → m ≡ window m ret 0 f
  window-none m ret f = fun_ext λ j. elim (place ret 0 j) [
    | inl low ↦ sym (window-before m ret 0 f j low)
    | inr (inl (h, k)) ↦ absurd (omega (arith, h, k))
    | inr (inr h) ↦ sym (window-behind m ret 0 f j h)
  ]

  assign_lem :
      (p : ℕ) (v a : A) (m : ℕ → Option A)
      → m p ≡ some a
      → assign_cell p v m ≡ some (put m p (some v))
  unfolding assign_cell
  assign_lem p v a m h = rw h refl

  pub construct_lem :
      (room p : ℕ) (v : A) (m : ℕ → Option A)
      → p < room
      → construct room p v m ≡ some (put m p (some v))
  unfolding construct
  construct_lem room p v m h = if-true _ _ (lt→ltb p room h)

  -- Each of the `n` cells from `first` on holds an object.
  abbrev pub Filled : (ℕ → Option A) → ℕ → ℕ → Type ℓ
  Filled m first n = (k : ℕ) → k < n → (a : A) × (m (first + k) ≡ some a)

  pub fill_lem :
      (n first : ℕ) (v : A) (m : ℕ → Option A)
      → Filled m first n
      → fill n first v m ≡ some (window m first n λ k. some v)
  unfolding fill
  fill_lem zero first v m h = ap some (window-none m first λ k. some v)
  fill_lem (suc n) first v m h =
      let (a, e) = h 0 (omega arith) in
      ap (λ x. x >>= fill n (first + 1) v) (assign_lem first v a m (ap m (omega arith) ∙ e))
      ∙ fill_lem n (first + 1) v (put m first (some v)) (λ k l.
        let (b, d) = h (suc k) (omega (arith, l)) in
        (
          b,
          put-other m first (some v) (first + 1 + k) (λ q. omega (arith, q))
              ∙ ap m (omega arith)
              ∙ d,
        ))
      ∙ ap some (window-first m first n λ k. some v)

  pub uninitialized_fill_n_lem :
      (room n first : ℕ) (v : A) (m : ℕ → Option A)
      → first + n ≤ room
      → uninitialized_fill_n room n first v m ≡ some (window m first n λ k. some v)
  unfolding uninitialized_fill_n
  uninitialized_fill_n_lem room zero first v m h = ap some (window-none m first λ k. some v)
  uninitialized_fill_n_lem room (suc n) first v m h =
      ap (λ x. x >>= uninitialized_fill_n room n (first + 1) v)
        (construct_lem room first v m (omega (arith, h)))
      ∙ uninitialized_fill_n_lem room n (first + 1) v (put m first (some v)) (omega (arith, h))
      ∙ ap some (window-first m first n λ k. some v)

  pub uninitialized_copy_from_lem :
      (src : ℕ → Option A) (room n first ret : ℕ) (m : ℕ → Option A)
      → Filled src first n
      → ret + n ≤ room
      → uninitialized_copy_from src room n first ret m ≡ some (window m ret n λ k. src (first + k))
  unfolding uninitialized_copy_from
  uninitialized_copy_from_lem src room zero first ret m h r = ap some (window-none m ret _)
  uninitialized_copy_from_lem src room (suc n) first ret m h r =
      let (a, e) = h 0 (omega arith) in
      let at : src first ≡ some a = ap src (omega arith) ∙ e in
      rw (at, construct_lem room ret a m (omega (arith, r)))
        (uninitialized_copy_from_lem src room n (first + 1) (ret + 1) (put m ret (some a))
            (λ k l. let (b, d) = h (suc k) (omega (arith, l)) in (b, ap src (omega arith) ∙ d))
            (omega (arith, r))
          ∙ ap some (
              ap (λ f. window (put m ret (some a)) (ret + 1) n f)
                (fun_ext λ k. ap src (omega arith))
              ∙ ap (λ o. window (put m ret o) (ret + 1) n λ k. src (first + (k + 1))) (sym e)
              ∙ window-first m ret n λ k. src (first + k)))

  -- Inside a block, the cells that are read lie before those that are written.
  inside_from :
      (src : ℕ → Option A) (room n first ret : ℕ) (m : ℕ → Option A)
      → first + n ≤ ret
      → ((k : ℕ) → k < n → m (first + k) ≡ src (first + k))
      → uninitialized_copy room n first ret m ≡ uninitialized_copy_from src room n first ret m
  unfolding uninitialized_copy uninitialized_copy_from construct
  inside_from src room zero first ret m before same = refl
  inside_from src room (suc n) first ret m before same =
      let at : m first ≡ src first =
        ap m (omega arith) ∙ same 0 (omega arith) ∙ ap src (omega arith) in
      rw at (
        ap (λ next. src first >>= next)
          (fun_ext λ v. elim (Bool-cases (ltb ret room)) [
            | inl h ↦ rw (if-true (some (put m ret (some v))) none h) (
                inside_from src room n (first + 1) (ret + 1) (put m ret (some v))
                  (omega (arith, before))
                  (λ k l.
                    put-other m ret (some v) (first + 1 + k) (λ q. omega (arith, q, l, before))
                    ∙ ap m (omega arith)
                    ∙ same (suc k) (omega (arith, l))
                    ∙ ap src (omega arith)))
            | inr h ↦ rw (if-false (some (put m ret (some v))) none h) refl
          ]))

  pub uninitialized_copy_lem :
      (room n first ret : ℕ) (m : ℕ → Option A)
      → Filled m first n
      → first + n ≤ ret
      → ret + n ≤ room
      → uninitialized_copy room n first ret m ≡ some (window m ret n λ k. m (first + k))
  uninitialized_copy_lem room n first ret m h before r =
      inside_from m room n first ret m before (λ k l. refl)
      ∙ uninitialized_copy_from_lem m room n first ret m h r

  backward_from :
      (src : ℕ → Option A) (n e r end ret : ℕ) (m : ℕ → Option A)
      → end ≡ e + n
      → ret ≡ r + n
      → e ≤ r
      → Filled src e n
      → Filled m r n
      → ((k : ℕ) → k < n → m (e + k) ≡ src (e + k))
      → copy_backward n end ret m ≡ some (window m r n λ k. src (e + k))
  unfolding copy_backward
  backward_from src zero e r end ret m e1 e2 le fs fm same = ap some (window-none m r _)
  backward_from src (suc n) e r end ret m e1 e2 le fs fm same =
      let (a, ea) = fs n (omega arith) in
      let (b, eb) = fm n (omega arith) in
      let read : m (end - 1) ≡ some a = ap m (omega (arith, e1)) ∙ same n (omega arith) ∙ ea in
      let last : ret - 1 ≡ r + n = omega (arith, e2) in
      rw (read, last, assign_lem (r + n) a b m eb)
        (backward_from src n e r (end - 1) (r + n) (put m (r + n) (some a)) (omega (arith, e1)) refl
            le (λ k l. fs k (omega (arith, l)))
            (λ k l.
              let (c, d) = fm k (omega (arith, l)) in
              (c, put-other m (r + n) (some a) (r + k) (λ q. omega (arith, q, l)) ∙ d))
            (λ k l.
              put-other m (r + n) (some a) (e + k) (λ q. omega (arith, q, l, le))
              ∙ same k (omega (arith, l)))
          ∙ ap some (
              ap (λ o. window (put m (r + n) o) r n λ k. src (e + k)) (sym ea)
              ∙ window-last m r n λ k. src (e + k)))

  pub copy_backward_lem :
      (n e r end ret : ℕ) (m : ℕ → Option A)
      → end ≡ e + n
      → ret ≡ r + n
      → e ≤ r
      → Filled m e n
      → Filled m r n
      → copy_backward n end ret m ≡ some (window m r n λ k. m (e + k))
  copy_backward_lem n e r end ret m e1 e2 le fs fm =
      backward_from m n e r end ret m e1 e2 le fs fm (λ k l. refl)

  forward_from :
      (src : ℕ → Option A) (n first ret : ℕ) (m : ℕ → Option A)
      → ret ≤ first
      → Filled src first n
      → Filled m ret n
      → ((k : ℕ) → k < n → m (first + k) ≡ src (first + k))
      → copy n first ret m ≡ some (window m ret n λ k. src (first + k))
  unfolding copy
  forward_from src zero first ret m le fs fm same = ap some (window-none m ret _)
  forward_from src (suc n) first ret m le fs fm same =
      let (a, ea) = fs 0 (omega arith) in
      let (b, eb) = fm 0 (omega arith) in
      let read : m first ≡ some a = ap m (omega arith) ∙ same 0 (omega arith) ∙ ea in
      rw (read, assign_lem ret a b m (ap m (omega arith) ∙ eb))
        (forward_from src n (first + 1) (ret + 1) (put m ret (some a)) (omega (arith, le))
            (λ k l. let (c, d) = fs (suc k) (omega (arith, l)) in (c, ap src (omega arith) ∙ d))
            (λ k l.
              let (c, d) = fm (suc k) (omega (arith, l)) in
              (
                c,
                put-other m ret (some a) (ret + 1 + k) (λ q. omega (arith, q))
                    ∙ ap m (omega arith)
                    ∙ d,
              ))
            (λ k l.
              put-other m ret (some a) (first + 1 + k) (λ q. omega (arith, q, le))
              ∙ ap m (omega arith)
              ∙ same (suc k) (omega (arith, l))
              ∙ ap src (omega arith))
          ∙ ap some (
              ap (λ f. window (put m ret (some a)) (ret + 1) n f)
                (fun_ext λ k. ap src (omega arith))
              ∙ ap (λ o. window (put m ret o) (ret + 1) n λ k. src (first + (k + 1))) (sym ea)
              ∙ window-first m ret n λ k. src (first + k)))

  pub copy_lem :
      (n first ret : ℕ) (m : ℕ → Option A)
      → ret ≤ first
      → Filled m first n
      → Filled m ret n
      → copy n first ret m ≡ some (window m ret n λ k. m (first + k))
  copy_lem n first ret m le fs fm = forward_from m n first ret m le fs fm (λ k l. refl)

  pub destroy_lem :
      (n first : ℕ) (m : ℕ → Option A) → destroy n first m ≡ window m first n (λ k. none)
  unfolding destroy
  destroy_lem zero first m = window-none m first (λ k. none)
  destroy_lem (suc n) first m =
      destroy_lem n (first + 1) (put m first none) ∙ window-first m first n (λ k. none)
