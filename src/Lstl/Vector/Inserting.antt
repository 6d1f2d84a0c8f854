-- ===== src/Lstl/Vector/Inserting.antt =====
-- Inserting into a vector: each way the elements move gives the sequence with the new elements in it.
use xjblg.Base.{
  ℕ, ◌+◌, ◌-◌, ◌≤◌, ◌<◌, ◌≡◌, refl, sym, ap, ◌∙◌, ◌⊎◌, inl, inr, false, Option, none, some, arith,
  List, length, get_elem?, ltb, lt→ltb, if-false,
}
use native.Mathlib.Decide.{dec_lt}
use xjblg.Lstl.Vector.{Vector, insert_in_place, insert_moving}
use xjblg.Lstl.Vector.Loops.{
  window, window-in, window-before, window-behind, fill_lem, uninitialized_fill_n_lem,
  uninitialized_copy_from_lem, uninitialized_copy_lem, copy_backward_lem,
}
use xjblg.Lstl.Vector.Sequence.{
  Holds, inserted, get_behind, get_within, inserted_cells, length-inserted,
}

below_or : (a b : ℕ) → (a < b) ⊎ (b ≤ a)
below_or a b = elim (dec_lt a b) [ yes h ↦ inl h | no h ↦ inr (omega (arith, h)) ]

not_less : (a b : ℕ) → b ≤ a → ltb a b ≡ false
not_less a b h = ground arith

module _ {ℓ} {A : Type ℓ} where
  module _ (xs : List A) (v : Vector A) (s : Holds xs v) (p n : ℕ) (a : A)
      (inside : p ≤ length xs) where
    at : (j : ℕ) → v.cells j ≡ get_elem? xs j
    at j = ap (λ f. f j) s.stored

    full : (j : ℕ) → j < v.finish → (b : A) × (v.cells j ≡ some b)
    full j h = let (b, e) = get_within xs j (omega (arith, h, s.sized)) in (b, at j ∙ e)

    pub open_end : (j : ℕ) → v.finish ≤ j → v.cells j ≡ none
    open_end j h = at j ∙ get_behind xs j (omega (arith, h, s.sized))

    behind_none : (j : ℕ) → v.finish ≤ j → get_elem? xs j ≡ none
    behind_none j h = get_behind xs j (omega (arith, h, s.sized))

    pub holds_inserted :
        (size : ℕ) (m : ℕ → Option A)
        → m ≡ get_elem? (inserted p n a xs)
        → v.finish + n ≤ size
        → Holds
            (inserted p n a xs)
            (record { cells = m; finish = v.finish + n; end_of_storage = size })
    holds_inserted size m e fits = record {
      stored = e;
      sized = ap (λ k. k + n) s.sized ∙ sym (length-inserted p n a xs inside);
      fits = fits;
    }

    pub moving_lem :
        (size : ℕ)
        → v.finish + n ≤ size
        → (m : ℕ → Option A) × (insert_moving size p n a v
            ≡ some (record { cells = m; finish = v.finish + n; end_of_storage = size }))
          × Holds
              (inserted p n a xs)
              (record { cells = m; finish = v.finish + n; end_of_storage = size })
    unfolding insert_moving
    moving_lem size fits =
        let c = v.cells in
        let m1 = window (λ j. none) 0 p (λ k. c (0 + k)) in
        let m2 = window m1 p n (λ k. some a) in
        let m3 = window m2 (p + n) (v.finish - p) (λ k. c (p + k)) in
        let ok1 =
          uninitialized_copy_from_lem c size p 0 0 (λ j. none)
            (λ k l. full (0 + k) (omega (arith, l, inside, s.sized)))
            (omega (arith, fits, inside, s.sized)) in
        let ok2 = uninitialized_fill_n_lem size n p a m1 (omega (arith, fits, inside, s.sized)) in
        let ok3 =
          uninitialized_copy_from_lem c size (v.finish - p) p (p + n) m2
            (λ k l. full (p + k) (omega (arith, l))) (omega (arith, fits, inside, s.sized)) in
        let low : (j : ℕ) → j < p → m3 j ≡ get_elem? xs j = λ j l.
          window-before m2 (p + n) (v.finish - p) _ j (omega (arith, l))
          ∙ window-before m1 p n _ j l
          ∙ window-in (λ i. none) 0 p _ j (omega arith) (omega (arith, l))
          ∙ ap c (omega arith)
          ∙ at j in
        let new : (k : ℕ) → k < n → m3 (p + k) ≡ some a = λ k l.
          window-before m2 (p + n) (v.finish - p) _ (p + k) (omega (arith, l))
          ∙ window-in m1 p n _ (p + k) (omega arith) (omega (arith, l)) in
        let high : (j : ℕ) → p ≤ j → m3 (j + n) ≡ get_elem? xs j = λ j l.
          elim (below_or j v.finish) [
            | inl b ↦
                window-in m2 (p + n) (v.finish - p) _ (j + n) (omega (arith, l))
                  (omega (arith, l, b))
                ∙ ap c (omega (arith, l))
                ∙ at j
            | inr b ↦
                window-behind m2 (p + n) (v.finish - p) _ (j + n) (omega (arith, l, b))
                ∙ window-behind m1 p n _ (j + n) (omega (arith, l))
                ∙ window-behind (λ i. none) 0 p _ (j + n) (omega (arith, l))
                ∙ sym (behind_none j b)
          ] in
        (
          m3,
          rw (ok1, ok2, ok3) refl,
          holds_inserted size m3 (inserted_cells p n a xs m3 inside low new high) fits,
        )

    -- The elements behind the position move in two parts.
    pub two_parts :
        n < v.finish - p
        → v.finish + n ≤ v.end_of_storage
        → (m : ℕ → Option A) × (insert_in_place p n a v
            ≡ some (record v { cells = m; finish = v.finish + n }))
          × (m ≡ get_elem? (inserted p n a xs))
    unfolding insert_in_place
    two_parts more fits =
        let c = v.cells in
        let room = v.end_of_storage in
        let left = v.finish - n - p in
        let m1 = window c v.finish n (λ k. c (v.finish - n + k)) in
        let m2 = window m1 (p + n) left (λ k. m1 (p + k)) in
        let m3 = window m2 p n (λ k. some a) in
        let under1 : (j : ℕ) → j < v.finish → m1 j ≡ c j =
          λ j l. window-before c v.finish n _ j l in
        let filled1 : (j : ℕ) → j < v.finish → (b : A) × (m1 j ≡ some b) =
          λ j l. let (b, e) = full j l in (b, under1 j l ∙ e) in
        let ok1 =
          uninitialized_copy_lem room n (v.finish - n) v.finish c
            (λ k l. full (v.finish - n + k) (omega (arith, l, more))) (omega (arith, more)) fits in
        let ok2 =
          copy_backward_lem left p (p + n) (v.finish - n) v.finish m1 (omega (arith, more))
            (omega (arith, more)) (omega arith) (λ k l. filled1 (p + k) (omega (arith, l, more)))
            (λ k l. filled1 (p + n + k) (omega (arith, l, more))) in
        let ok3 = fill_lem n p a m2 (λ k l.
          let (b, e) = filled1 (p + k) (omega (arith, l, more)) in
          (b, window-before m1 (p + n) left _ (p + k) (omega (arith, l)) ∙ e)) in
        let low : (j : ℕ) → j < p → m3 j ≡ get_elem? xs j = λ j l.
          window-before m2 p n _ j l
          ∙ window-before m1 (p + n) left _ j (omega (arith, l))
          ∙ under1 j (omega (arith, l, more))
          ∙ at j in
        let new : (k : ℕ) → k < n → m3 (p + k) ≡ some a =
          λ k l. window-in m2 p n _ (p + k) (omega arith) (omega (arith, l)) in
        let high : (j : ℕ) → p ≤ j → m3 (j + n) ≡ get_elem? xs j = λ j l.
          window-behind m2 p n _ (j + n) (omega (arith, l)) ∙ elim (below_or (j + n) v.finish) [
            | inl b ↦
                window-in m1 (p + n) left _ (j + n) (omega (arith, l)) (omega (arith, l, b, more))
                ∙ ap m1 (omega (arith, l))
                ∙ under1 j (omega (arith, b))
                ∙ at j
            | inr b ↦
                window-behind m1 (p + n) left _ (j + n) (omega (arith, l, b, more))
                ∙ elim (below_or j v.finish) [
                  | inl d ↦
                      window-in c v.finish n _ (j + n) b (omega (arith, d))
                      ∙ ap c (omega (arith, b, d, more))
                      ∙ at j
                  | inr d ↦
                      window-behind c v.finish n _ (j + n) (omega (arith, d))
                      ∙ open_end (j + n) b
                      ∙ sym (behind_none j d)
                ]
          ] in
        (
          m3,
          rw (lt→ltb n (v.finish - p) more, ok1, ok2, ok3) refl,
          inserted_cells p n a xs m3 inside low new high,
        )

    -- The new elements reach behind the old end.
    pub one_part :
        v.finish - p ≤ n
        → v.finish + n ≤ v.end_of_storage
        → (m : ℕ → Option A) × (insert_in_place p n a v
            ≡ some (record v { cells = m; finish = v.finish + n }))
          × (m ≡ get_elem? (inserted p n a xs))
    unfolding insert_in_place
    one_part few fits =
        let c = v.cells in
        let room = v.end_of_storage in
        let elems = v.finish - p in
        let pn : v.finish + (n - elems) ≡ p + n = omega (arith, few, inside, s.sized) in
        let m1 = window c v.finish (n - elems) (λ k. some a) in
        let m2 = window m1 (v.finish + (n - elems)) elems (λ k. m1 (p + k)) in
        let m3 = window m2 p elems (λ k. some a) in
        let under1 : (j : ℕ) → j < v.finish → m1 j ≡ c j =
          λ j l. window-before c v.finish (n - elems) _ j l in
        let filled1 : (j : ℕ) → j < v.finish → (b : A) × (m1 j ≡ some b) =
          λ j l. let (b, e) = full j l in (b, under1 j l ∙ e) in
        let ok1 = uninitialized_fill_n_lem room (n - elems) v.finish a c (omega (arith, fits)) in
        let ok2 =
          uninitialized_copy_lem room elems p (v.finish + (n - elems)) m1
            (λ k l. filled1 (p + k) (omega (arith, l))) (omega (arith, inside, s.sized))
            (omega (arith, fits, pn, inside, s.sized)) in
        let ok3 = fill_lem elems p a m2 (λ k l.
          let (b, e) = filled1 (p + k) (omega (arith, l)) in
          (b, window-before m1 (v.finish + (n - elems)) elems _ (p + k) (omega (arith, l)) ∙ e)) in
        let low : (j : ℕ) → j < p → m3 j ≡ get_elem? xs j = λ j l.
          window-before m2 p elems _ j l
          ∙ window-before m1 (v.finish + (n - elems)) elems _ j (omega (arith, l, inside, s.sized))
          ∙ under1 j (omega (arith, l, inside, s.sized))
          ∙ at j in
        let new : (k : ℕ) → k < n → m3 (p + k) ≡ some a = λ k l. elim (below_or k elems) [
          | inl b ↦ window-in m2 p elems _ (p + k) (omega arith) (omega (arith, b))
          | inr b ↦
              window-behind m2 p elems _ (p + k) (omega (arith, b))
              ∙ window-before m1 (v.finish + (n - elems)) elems _ (p + k) (omega (arith, l, pn))
              ∙ window-in c v.finish (n - elems) _ (p + k) (omega (arith, b)) (omega (arith, l, pn))
        ] in
        let high : (j : ℕ) → p ≤ j → m3 (j + n) ≡ get_elem? xs j = λ j l.
          window-behind m2 p elems _ (j + n) (omega (arith, l, few)) ∙ elim (below_or j v.finish) [
            | inl b ↦
                window-in m1 (v.finish + (n - elems)) elems _ (j + n) (omega (arith, l, pn))
                  (omega (arith, b, pn))
                ∙ ap m1 (omega (arith, l, pn))
                ∙ under1 j b
                ∙ at j
            | inr b ↦
                window-behind m1 (v.finish + (n - elems)) elems _ (j + n) (omega (arith, b, pn))
                ∙ window-behind c v.finish (n - elems) _ (j + n) (omega (arith, b, pn))
                ∙ open_end (j + n) (omega (arith, b))
                ∙ sym (behind_none j b)
          ] in
        (
          m3,
          rw (if-false _ _ (not_less n elems few), ok1, ok2, ok3) refl,
          inserted_cells p n a xs m3 inside low new high,
        )
