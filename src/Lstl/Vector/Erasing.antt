-- ===== src/Lstl/Vector/Erasing.antt =====
-- The operations of a vector that take elements out of it, and `resize`.
use xjblg.Base.{
  ℕ, zero, suc, ◌+◌, ◌-◌, ◌^◌, ◌≤◌, ◌<◌, ◌≡◌, refl, sym, ap, ◌∙◌, inl, inr, false, none, some,
  arith, List, [], ◌∷◌, ◌++◌, length, length-append, length-take, length-drop, get_elem?, take,
  drop, replicate, take-all, drop-all, ltb, ltb→lt, if-true, if-false, Bool-cases,
}
use mathlib.Core.Path.{fun_ext, subst}
use mathlib.Core.List.{append-nil}
use xjblg.Lstl.Vector.{Vector, destroy, erase_range, resize}
use xjblg.Lstl.Vector.Loops.{
  window, window-in, window-before, window-behind, place, copy_lem, destroy_lem,
}
use xjblg.Lstl.Vector.Sequence.{Holds, get_behind, get_within}
use xjblg.Lstl.Vector.Growing.{insert-Holds}

not_lt : (a b : ℕ) → ltb a b ≡ false → b ≤ a
not_lt a b h = ground arith

module _ {ℓ} {A : Type ℓ} where
  get_take_append :
      (f : ℕ) (xs ys : List A) (j : ℕ)
      → f ≤ length xs
      → j < f
      → get_elem? (take f xs ++ ys) j ≡ get_elem? xs j
  get_take_append zero xs ys j h k = absurd (omega (arith, k))
  get_take_append (suc f) [] ys j h k = absurd (omega (arith, h))
  get_take_append (suc f) (x ∷ xs) ys zero h k = refl
  get_take_append (suc f) (x ∷ xs) ys (suc j) h k =
      get_take_append f xs ys j (omega (arith, h)) (omega (arith, k))

  get_append_behind :
      (f : ℕ) (xs ys : List A) (k : ℕ)
      → f ≤ length xs
      → get_elem? (take f xs ++ ys) (f + k) ≡ get_elem? ys k
  get_append_behind zero xs ys k h = ap (get_elem? ys) (omega arith)
  get_append_behind (suc f) [] ys k h = absurd (omega (arith, h))
  get_append_behind (suc f) (x ∷ xs) ys k h =
      ap (get_elem? (x ∷ (take f xs ++ ys))) (let e : suc f + k ≡ suc (f + k) = omega arith in e)
      ∙ get_append_behind f xs ys k (omega (arith, h))

  get-drop : (n : ℕ) (xs : List A) (k : ℕ) → get_elem? (drop n xs) k ≡ get_elem? xs (n + k)
  get-drop zero xs k = ap (get_elem? xs) (omega arith)
  get-drop (suc n) [] k = refl
  get-drop (suc n) (x ∷ xs) k =
      get-drop n xs k ∙ ap (get_elem? (x ∷ xs)) (let e : suc (n + k) ≡ suc n + k = omega arith in e)

  -- Where the cells hold a sequence within the storage, erasing a range of it succeeds: the cells then hold
  -- the sequence without the range, and the cells behind it hold no object.
  pub erase_range-Holds :
      (xs : List A) (v : Vector A) (first last : ℕ)
      → Holds xs v
      → first ≤ last
      → last ≤ length xs
      → (v' : Vector A) × (erase_range first last v ≡ some v')
        × Holds (take first xs ++ drop last xs) v'
  unfolding erase_range
  erase_range-Holds xs v f l s fl ln =
      let c = v.cells in
      let kept = v.finish - l in
      let at : (j : ℕ) → c j ≡ get_elem? xs j = λ j. ap (λ g. g j) s.stored in
      let full : (j : ℕ) → j < v.finish → (b : A) × (c j ≡ some b) =
        λ j h. let (b, e) = get_within xs j (omega (arith, h, s.sized)) in (b, at j ∙ e) in
      let m1 = window c f kept (λ k. c (l + k)) in
      let rest = v.finish - (f + kept) in
      let m2 = window m1 (f + kept) rest (λ k. none) in
      let ok1 =
        copy_lem kept l f c fl (λ k h. full (l + k) (omega (arith, h)))
          (λ k h. full (f + k) (omega (arith, h, fl))) in
      let v' = record v { cells = destroy rest (f + kept) m1; finish = v.finish - (l - f) } in
      let end = s.fits in
      (
        v',
        rw ok1 refl,
        record {
          stored =
              destroy_lem rest (f + kept) m1
              ∙ fun_ext λ j. elim (place f kept j) [
                | inl h ↦
                    window-before m1 (f + kept) rest _ j (omega (arith, h))
                    ∙ window-before c f kept _ j h
                    ∙ at j
                    ∙ sym (get_take_append f xs (drop l xs) j (omega (arith, fl, ln)) h)
                | inr (inl (h, k)) ↦
                    window-before m1 (f + kept) rest _ j k
                    ∙ window-in c f kept _ j h k
                    ∙ at (l + (j - f))
                    ∙ sym (split j h)
                | inr (inr h) ↦ elim (place (f + kept) rest j) [
                  | inl q ↦ absurd (omega (arith, h, q))
                  | inr (inl (q, r)) ↦
                      window-in m1 (f + kept) rest _ j q r
                      ∙ sym (
                          split j (omega (arith, h))
                          ∙ get_behind xs (l + (j - f)) (omega (arith, h, s.sized)))
                  | inr (inr q) ↦
                      window-behind m1 (f + kept) rest _ j q
                      ∙ window-behind c f kept _ j h
                      ∙ at j
                      ∙ get_behind xs j (omega (arith, h, q, s.sized))
                      ∙ sym (
                          split j (omega (arith, h))
                          ∙ get_behind xs (l + (j - f)) (omega (arith, h, s.sized)))
                ]
              ];
          sized =
              rw (length-append (take f xs) (drop l xs), length-take f xs, length-drop l xs)
                (omega (arith, s.sized, fl, ln));
          fits = omega (arith, end);
        },
      )
    where
      split : (j : ℕ) → f ≤ j → get_elem? (take f xs ++ drop l xs) j ≡ get_elem? xs (l + (j - f))
      split j h =
          ap (get_elem? (take f xs ++ drop l xs)) (let e : j ≡ f + (j - f) = omega (arith, h) in e)
          ∙ get_append_behind f xs (drop l xs) (j - f) (omega (arith, fl, ln))
          ∙ get-drop l xs (j - f)

  -- Where the cells hold a sequence within the storage, and the new size and twice the old one are below
  -- 2^64, `resize` succeeds: the cells then hold the sequence cut
  -- to the size, or filled up to it with the value.
  pub resize-Holds :
      (xs : List A) (v : Vector A) (size : ℕ) (a : A)
      → Holds xs v
      → length xs + length xs < 2 ^ 64
      → size < 2 ^ 64
      → (v' : Vector A) × (resize size a v ≡ some v')
        × Holds (take size xs ++ replicate (size - length xs) a) v'
  unfolding resize
  resize-Holds xs v size a s twice small = elim (Bool-cases (ltb size v.finish)) [
    | inl h ↦
        let less : size < v.finish = ltb→lt size v.finish h in
        let (v', ok, w) =
          erase_range-Holds xs v size v.finish s (omega (arith, less)) (omega (arith, s.sized)) in
        (
          v',
          if-true _ _ h ∙ ok,
          subst (λ ys. Holds (take size xs ++ ys) v')
              (drop-all v.finish xs (omega (arith, s.sized))
                ∙ sym (
                    ap (λ n. replicate n a)
                      (let e : size - length xs ≡ 0 = omega (arith, less, s.sized) in e)))
              w,
        )
    | inr h ↦
        let more : length xs ≤ size = let q = not_lt size v.finish h in omega (arith, q, s.sized) in
        let (v', ok, w) =
          insert-Holds xs v v.finish (size - v.finish) a s (omega (arith, s.sized)) twice
            (omega (arith, more, small, s.sized)) in
        (v', if-false _ _ h ∙ ok, subst (λ ys. Holds ys v') (tail v.finish s.sized more) w)
  ]
    where
      tail :
          (n : ℕ)
          → n ≡ length xs
          → length xs ≤ size
          → take n xs ++ (replicate (size - n) a ++ drop n xs)
            ≡ take size xs ++ replicate (size - length xs) a
      tail n e more =
          rw
            (
              take-all n xs (omega (arith, e)),
              drop-all n xs (omega (arith, e)),
              take-all size xs more,
              append-nil (replicate (size - n) a),
              e,
            )
            refl
