-- ===== src/Base/Lists.antt =====
-- Lists measured and indexed by native numbers, and writes of a block into a list.
use Prim.Native.Nat.{ℕ, zero, suc, ◌+◌, ◌-◌, ◌≤◌, min}
use mathlib.Core.Path.{◌≡◌, refl, ap, ◌∙◌}
use mathlib.Core.List.{List, [], ◌∷◌, ◌++◌, append-nil}
use mathlib.Core.Option.{Option, none, some}
use native.Mathlib.Omega.{arith}

module _ {ℓ} {A : Type ℓ} where
  abbrev pub length : List A → ℕ
  length [] = 0
  length (x ∷ xs) = suc (length xs)

  abbrev pub get_elem? : List A → ℕ → Option A
  get_elem? [] i = none
  get_elem? (x ∷ xs) zero = some x
  get_elem? (x ∷ xs) (suc i) = get_elem? xs i

  -- A write out of bounds changes nothing.
  abbrev pub set : List A → ℕ → A → List A
  set [] i v = []
  set (x ∷ xs) zero v = v ∷ xs
  set (x ∷ xs) (suc i) v = x ∷ set xs i v

  abbrev pub get_or : List A → ℕ → A → A
  get_or [] i d = d
  get_or (x ∷ xs) zero d = x
  get_or (x ∷ xs) (suc i) d = get_or xs i d

  abbrev pub take : ℕ → List A → List A
  take zero xs = []
  take (suc n) [] = []
  take (suc n) (x ∷ xs) = x ∷ take n xs

  abbrev pub drop : ℕ → List A → List A
  drop zero xs = xs
  drop (suc n) [] = []
  drop (suc n) (x ∷ xs) = drop n xs

  abbrev pub replicate : ℕ → A → List A
  replicate zero a = []
  replicate (suc n) a = a ∷ replicate n a

  -- The block `xs` written over the list from index `i` on; what falls past the end is dropped.
  abbrev pub overwrite : List A → ℕ → List A → List A
  overwrite [] i xs = []
  overwrite (b ∷ bs) zero [] = b ∷ bs
  overwrite (b ∷ bs) zero (x ∷ xs) = x ∷ overwrite bs zero xs
  overwrite (b ∷ bs) (suc i) xs = b ∷ overwrite bs i xs

module _ {ℓ} {A : Type ℓ} where
  pub length-append : (xs ys : List A) → length (xs ++ ys) ≡ length xs + length ys
  length-append [] ys = omega arith
  length-append (x ∷ xs) ys = omega (arith, length-append xs ys)

  pub length-take : (n : ℕ) (xs : List A) → length (take n xs) ≡ min n (length xs)
  length-take zero xs = omega arith
  length-take (suc n) [] = omega arith
  length-take (suc n) (x ∷ xs) = omega (arith, length-take n xs)

  pub length-drop : (n : ℕ) (xs : List A) → length (drop n xs) ≡ length xs - n
  length-drop zero xs = omega arith
  length-drop (suc n) [] = omega arith
  length-drop (suc n) (x ∷ xs) = omega (arith, length-drop n xs)

  pub length-replicate : (n : ℕ) (a : A) → length (replicate n a) ≡ n
  length-replicate zero a = refl
  length-replicate (suc n) a = ap suc (length-replicate n a)

  pub length-overwrite :
      (bs : List A) (i : ℕ) (xs : List A) → length (overwrite bs i xs) ≡ length bs
  length-overwrite [] i xs = refl
  length-overwrite (b ∷ bs) zero [] = refl
  length-overwrite (b ∷ bs) zero (x ∷ xs) = ap suc (length-overwrite bs zero xs)
  length-overwrite (b ∷ bs) (suc i) xs = ap suc (length-overwrite bs i xs)

  pub length-set : (xs : List A) (i : ℕ) (v : A) → length (set xs i v) ≡ length xs
  length-set [] i v = refl
  length-set (x ∷ xs) zero v = refl
  length-set (x ∷ xs) (suc i) v = ap suc (length-set xs i v)

module _ {ℓ} {A : Type ℓ} where
  pub drop-nil : (n : ℕ) → drop {A = A} n [] ≡ []
  drop-nil zero = refl
  drop-nil (suc n) = refl

  pub take-nil : (n : ℕ) → take {A = A} n [] ≡ []
  take-nil zero = refl
  take-nil (suc n) = refl

  pub take-all : (n : ℕ) (xs : List A) → length xs ≤ n → take n xs ≡ xs
  take-all zero [] h = refl
  take-all zero (x ∷ xs) h = absurd (omega arith)
  take-all (suc n) [] h = refl
  take-all (suc n) (x ∷ xs) h = ap (◌∷◌ x) (take-all n xs (omega arith))

  pub drop-all : (n : ℕ) (xs : List A) → length xs ≤ n → drop n xs ≡ []
  drop-all zero [] h = refl
  drop-all zero (x ∷ xs) h = absurd (omega arith)
  drop-all (suc n) [] h = refl
  drop-all (suc n) (x ∷ xs) h = drop-all n xs (omega arith)

  pub drop-drop : (m n k : ℕ) (xs : List A) → k ≡ m + n → drop m (drop n xs) ≡ drop k xs
  drop-drop m zero k xs e = ap (λ j. drop j xs) (omega arith)
  drop-drop m (suc n) zero xs e = absurd (omega arith)
  drop-drop m (suc n) (suc k) [] e = drop-nil m
  drop-drop m (suc n) (suc k) (x ∷ xs) e = drop-drop m n k xs (omega arith)

  pub take-append : (n : ℕ) (xs ys : List A) → n ≤ length xs → take n (xs ++ ys) ≡ take n xs
  take-append zero xs ys h = refl
  take-append (suc n) [] ys h = absurd (omega arith)
  take-append (suc n) (x ∷ xs) ys h = ap (◌∷◌ x) (take-append n xs ys (omega arith))

  pub drop-append : (n : ℕ) (xs ys : List A) → n ≤ length xs → drop n (xs ++ ys) ≡ drop n xs ++ ys
  drop-append zero xs ys h = refl
  drop-append (suc n) [] ys h = absurd (omega arith)
  drop-append (suc n) (x ∷ xs) ys h = drop-append n xs ys (omega arith)

  pub drop-take : (m n : ℕ) (xs : List A) → drop m (take n xs) ≡ take (n - m) (drop m xs)
  drop-take zero n xs = ap (λ k. take k xs) (omega arith)
  drop-take (suc m) zero xs =
      let e : 0 ≡ 0 - suc m = omega arith in ap (λ k. take k (drop (suc m) xs)) e
  drop-take (suc m) (suc n) [] = rw take-nil
  drop-take (suc m) (suc n) (x ∷ xs) =
      rw (drop-take m n xs) (ap (λ k. take k (drop m xs)) (omega arith))

  pub take-take : (m n : ℕ) (xs : List A) → m ≤ n → take m (take n xs) ≡ take m xs
  take-take zero n xs h = refl
  take-take (suc m) zero xs h = absurd (omega arith)
  take-take (suc m) (suc n) [] h = refl
  take-take (suc m) (suc n) (x ∷ xs) h = ap (◌∷◌ x) (take-take m n xs (omega arith))

  pub take-append-drop : (n : ℕ) (xs : List A) → take n xs ++ drop n xs ≡ xs
  take-append-drop zero xs = refl
  take-append-drop (suc n) [] = refl
  take-append-drop (suc n) (x ∷ xs) = rw (take-append-drop n xs)

module _ {ℓ} {A : Type ℓ} where
  -- A write from index `i` on leaves what lies below `i`.
  pub drop-overwrite :
      (r i : ℕ) (bs xs : List A)
      → r ≤ i
      → drop r (overwrite bs i xs) ≡ overwrite (drop r bs) (i - r) xs
  drop-overwrite zero i bs xs h = ap (λ k. overwrite bs k xs) (omega arith)
  drop-overwrite (suc r) zero bs xs h = absurd (omega arith)
  drop-overwrite (suc r) (suc i) [] xs h = refl
  drop-overwrite (suc r) (suc i) (b ∷ bs) xs h =
      rw (drop-overwrite r i bs xs (omega arith))
        (ap (λ k. overwrite (drop r bs) k xs) (omega arith))

  take-overwrite-zero :
      (k : ℕ) (bs xs : List A)
      → length xs ≤ length bs
      → take (length xs + k) (overwrite bs zero xs) ≡ xs ++ take k (drop (length xs) bs)
  take-overwrite-zero k [] [] h = ap (λ j. take j []) (omega arith)
  take-overwrite-zero k (b ∷ bs) [] h = ap (λ j. take j (b ∷ bs)) (omega arith)
  take-overwrite-zero k [] (x ∷ xs) h = absurd (omega arith)
  take-overwrite-zero k (b ∷ bs) (x ∷ xs) h =
      ap (λ j. take j (x ∷ overwrite bs zero xs))
        (let e : suc (length xs) + k ≡ suc (length xs + k) = omega arith in e)
      ∙ ap (◌∷◌ x) (take-overwrite-zero k bs xs (omega arith))

  -- Written right behind the first `w` elements, a block follows them.
  pub take-overwrite :
      (w n : ℕ) (bs xs : List A)
      → n ≡ w + length xs
      → n ≤ length bs
      → take n (overwrite bs w xs) ≡ take w bs ++ xs
  take-overwrite zero n bs xs e h =
      ap (λ j. take j (overwrite bs zero xs)) (let q : n ≡ length xs + 0 = omega arith in q)
      ∙ take-overwrite-zero 0 bs xs (omega arith)
      ∙ append-nil xs
  take-overwrite (suc w) n [] xs e h = absurd (omega arith)
  take-overwrite (suc w) zero (b ∷ bs) xs e h = absurd (omega arith)
  take-overwrite (suc w) (suc n) (b ∷ bs) xs e h =
      ap (◌∷◌ b) (take-overwrite w n bs xs (omega arith) (omega arith))

  -- Written at the front, a block is followed by what it did not cover.
  pub take-overwrite_front :
      (k n : ℕ) (bs xs : List A)
      → n ≡ length xs + k
      → length xs ≤ length bs
      → take n (overwrite bs 0 xs) ≡ xs ++ take k (drop (length xs) bs)
  take-overwrite_front k n bs xs e h = rw e (take-overwrite-zero k bs xs h)
