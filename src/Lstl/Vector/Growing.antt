-- ===== src/Lstl/Vector/Growing.antt =====
-- The operations of a vector that grow it: `insert` and `push_back`.
use xjblg.Base.{
  ℕ, ◌+◌, ◌-◌, ◌^◌, ◌≤◌, ◌<◌, ◌≡◌, refl, sym, ap, ◌∙◌, inl, inr, false, Option, none, some, arith,
  List, [], ◌∷◌, ◌++◌, length, get_elem?, take, drop, replicate, take-all, drop-all,
  take-append-drop, ltb, leb, ◌==◌, ==_iff, ltb→lt, leb→le, if◌then◌else◌, if-true, if-false,
  Bool-cases, ◌>>=◌,
}
use mathlib.Core.Path.{fun_ext, subst}
use xjblg.Base.Words.{add_size, mul_size}
use xjblg.Base.Maps.{put, put-same, put-other}
use xjblg.Lstl.Vector.{
  Vector, construct, uninitialized_copy_from, uninitialized_fill_n, insert_in_place, insert_moving,
  insert, insert_aux_moving, push_back,
}
use xjblg.Lstl.Vector.Loops.{construct_lem}
use xjblg.Lstl.Vector.Sequence.{Holds, inserted, get_behind, inserted_cells}
use xjblg.Lstl.Vector.Inserting.{moving_lem, two_parts, one_part, holds_inserted}

enough :
    (n finish : ℕ)
    → finish + finish < 2 ^ 64
    → finish + n < 2 ^ 64
    → finish + n ≤ add_size finish (if ltb n finish then finish else n)
enough n finish h k = ground arith

doubled :
    (finish : ℕ)
    → finish + finish < 2 ^ 64
    → finish + 1 ≤ (if finish == 0 then 1 else mul_size 2 finish)
doubled finish h = ground arith

not_full : (a b : ℕ) → a ≤ b → (a == b) ≡ false → a < b
not_full a b h k = ground arith

not_lt : (a b : ℕ) → ltb a b ≡ false → b ≤ a
not_lt a b h = ground arith

bind_some {ℓ κ} :
    {B : Type ℓ} {C : Type κ} (x : Option B) (f : B → Option C)
    → ((x >>= λ m. some m) >>= f) ≡ (x >>= f)
bind_some none f = refl
bind_some (some a) f = refl

module _ {ℓ} {A : Type ℓ} where
  inserted_none : (p : ℕ) (a : A) (xs : List A) → inserted p 0 a xs ≡ xs
  unfolding inserted
  inserted_none p a xs = take-append-drop p xs

  inserted_end : (a : A) (xs : List A) → inserted (length xs) 1 a xs ≡ xs ++ (a ∷ [])
  unfolding inserted
  inserted_end a xs =
      rw (take-all (length xs) xs (omega arith), drop-all (length xs) xs (omega arith)) refl

  grown :
      (xs : List A) (v : Vector A) (p n : ℕ) (a : A)
      → Holds xs v
      → p ≤ length xs
      → v.finish + n ≤ v.end_of_storage
      → (m : ℕ → Option A) × (insert_in_place p n a v
          ≡ some (record v { cells = m; finish = v.finish + n }))
        × (m ≡ get_elem? (inserted p n a xs))
      → (v' : Vector A) × (insert_in_place p n a v ≡ some v') × Holds (inserted p n a xs) v'
  grown xs v p n a s inside fits (m, ok, e) = (
    record v { cells = m; finish = v.finish + n },
    ok,
    holds_inserted xs v s p n a inside v.end_of_storage m e fits,
  )

  in_place_lem :
      (xs : List A) (v : Vector A) (p n : ℕ) (a : A)
      → Holds xs v
      → p ≤ length xs
      → v.finish + n ≤ v.end_of_storage
      → (v' : Vector A) × (insert_in_place p n a v ≡ some v') × Holds (inserted p n a xs) v'
  in_place_lem xs v p n a s inside fits = elim (Bool-cases (ltb n (v.finish - p))) [
    | inl h ↦
        grown xs v p n a s inside fits
          (two_parts xs v s p n a inside (ltb→lt n (v.finish - p) h) fits)
    | inr h ↦
        grown xs v p n a s inside fits
          (one_part xs v s p n a inside (not_lt n (v.finish - p) h) fits)
  ]

  -- Where the cells hold a sequence within the storage, and neither twice its length nor its length with the
  -- `n` new values is 2^64 or more, inserting `n` copies of a value at a place in it succeeds: no cell without an object is read or assigned to, and nothing is written behind the storage. The
  -- cells then hold the sequence with the copies in that place, and no other object.
  pub insert-Holds :
      (xs : List A) (v : Vector A) (position n : ℕ) (a : A)
      → Holds xs v
      → position ≤ length xs
      → length xs + length xs < 2 ^ 64
      → length xs + n < 2 ^ 64
      → (v' : Vector A) × (insert position n a v ≡ some v')
        × Holds (take position xs ++ (replicate n a ++ drop position xs)) v'
  unfolding insert inserted
  insert-Holds xs v p n a s inside twice sum = elim (Bool-cases (n == 0)) [
    | inl h ↦ (
      v,
      if-true _ _ h,
      subst (λ k. Holds (inserted p k a xs) v) (sym ((==_iff n 0).0 h))
          (subst (λ ys. Holds ys v) (sym (inserted_none p a xs)) s),
    )
    | inr h ↦ elim (Bool-cases (leb n (v.end_of_storage - v.finish))) [
      | inl k ↦
          let (v', ok, w) =
            in_place_lem xs v p n a s inside
              (let l = leb→le n _ k in let f = s.fits in omega (arith, l, f)) in
          (v', if-false _ _ h ∙ if-true _ _ k ∙ ok, w)
      | inr k ↦
          let (m, ok, w) =
            moving_lem xs v s p n a inside
              (add_size v.finish (if ltb n v.finish then v.finish else n))
              (enough n v.finish (omega (arith, twice, s.sized)) (omega (arith, sum, s.sized))) in
          (_, if-false _ _ h ∙ if-false _ _ k ∙ ok, w)
    ]
  ]

  aux_lem :
      (p : ℕ) (a : A) (v : Vector A)
      → insert_aux_moving p a v
        ≡ insert_moving (if v.finish == 0 then 1 else mul_size 2 v.finish) p 1 a v
  unfolding insert_aux_moving insert_moving uninitialized_fill_n
  aux_lem p a v =
      let size = if v.finish == 0 then 1 else mul_size 2 v.finish in
      ap (λ next. uninitialized_copy_from v.cells size p 0 0 (λ q. none) >>= next)
        (fun_ext λ m1. sym (bind_some (construct size p a m1) _))

  appended :
      (xs : List A) (v : Vector A) (a : A)
      → Holds xs v
      → put v.cells v.finish (some a) ≡ get_elem? (inserted (length xs) 1 a xs)
  appended xs v a s =
      let m = put v.cells v.finish (some a) in
      inserted_cells (length xs) 1 a xs m (omega arith)
        (λ j l.
          put-other v.cells v.finish (some a) j (λ e. omega (arith, e, l, s.sized))
          ∙ ap (λ f. f j) s.stored)
        (λ k l. ap m (omega (arith, l, s.sized)) ∙ put-same v.cells v.finish (some a))
        (λ j l.
          put-other v.cells v.finish (some a) (j + 1) (λ e. omega (arith, e, l, s.sized))
          ∙ ap (λ f. f (j + 1)) s.stored
          ∙ get_behind xs (j + 1) (omega (arith, l))
          ∙ sym (get_behind xs j l))

  -- Where the cells hold a sequence within the storage and twice its length is below 2^64, `push_back` succeeds, whether the storage is full or
  -- not, and the cells then hold the sequence with the value at its end.
  pub push_back-Holds :
      (xs : List A) (v : Vector A) (a : A)
      → Holds xs v
      → length xs + length xs < 2 ^ 64
      → (v' : Vector A) × (push_back a v ≡ some v') × Holds (xs ++ (a ∷ [])) v'
  unfolding push_back
  push_back-Holds xs v a s twice = elim (Bool-cases (v.finish == v.end_of_storage)) [
    | inl h ↦
        let size = if v.finish == 0 then 1 else mul_size 2 v.finish in
        let (m, ok, w) =
          moving_lem xs v s v.finish 1 a (omega (arith, s.sized)) size
            (doubled v.finish (omega (arith, twice, s.sized))) in
        (
          _,
          if-true _ _ h ∙ aux_lem v.finish a v ∙ ok,
          subst
              (λ ys. Holds ys (record { cells = m; finish = v.finish + 1; end_of_storage = size }))
              (ap (λ p. inserted p 1 a xs) s.sized ∙ inserted_end a xs) w,
        )
    | inr h ↦
        let m = put v.cells v.finish (some a) in
        let f = s.fits in
        let room : v.finish < v.end_of_storage = not_full v.finish v.end_of_storage f h in
        let v' = record v { cells = m; finish = v.finish + 1 } in
        (
          v',
          if-false _ _ h
              ∙ ap (λ x. x >>= λ m'. some (record v { cells = m'; finish = v.finish + 1 }))
                  (construct_lem v.end_of_storage v.finish a v.cells room),
          subst (λ ys. Holds ys v') (inserted_end a xs)
              (holds_inserted xs v s (length xs) 1 a (omega arith) v.end_of_storage m
                (appended xs v a s) (omega (arith, room))),
        )
  ]
