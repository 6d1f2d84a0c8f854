-- ===== src/Lstl/Vector/Sequence.antt =====
-- A vector as a sequence, and the parts of a sequence with new elements in it.
use xjblg.Base.{
  ℕ, zero, suc, ◌+◌, ◌-◌, ◌≤◌, ◌<◌, ◌≡◌, refl, sym, ap, ◌∙◌, inl, inr, Option, none, some, arith,
  List, [], ◌∷◌, ◌++◌, length, length-append, length-take, length-drop, length-replicate, get_elem?,
  take, drop, replicate,
}
use mathlib.Core.Path.{fun_ext}
use xjblg.Lstl.Vector.{Vector}
use xjblg.Lstl.Vector.Loops.{place}

module _ {ℓ} {A : Type ℓ} where
  -- The cells hold exactly the elements of the sequence, in order, within the storage.
  pub record Holds (xs : List A) (v : Vector A) : Type ℓ where
    pub stored : v.cells ≡ get_elem? xs
    pub sized : v.finish ≡ length xs
    pub fits : v.finish ≤ v.end_of_storage

  unfoldable pub inserted : ℕ → ℕ → A → List A → List A
  inserted position n a xs = take position xs ++ (replicate n a ++ drop position xs)

  pub get_behind : (xs : List A) (i : ℕ) → length xs ≤ i → get_elem? xs i ≡ none
  get_behind [] i h = refl
  get_behind (x ∷ xs) zero h = absurd (omega (arith, h))
  get_behind (x ∷ xs) (suc i) h = get_behind xs i (omega (arith, h))

  pub get_within : (xs : List A) (i : ℕ) → i < length xs → (a : A) × (get_elem? xs i ≡ some a)
  get_within [] i h = absurd (omega (arith, h))
  get_within (x ∷ xs) zero h = (x, refl)
  get_within (x ∷ xs) (suc i) h = get_within xs i (omega (arith, h))

  inserted_before :
      (position n : ℕ) (a : A) (xs : List A) (j : ℕ)
      → position ≤ length xs
      → j < position
      → get_elem? (inserted position n a xs) j ≡ get_elem? xs j
  unfolding inserted
  inserted_before zero n a xs j h k = absurd (omega (arith, k))
  inserted_before (suc p) n a [] j h k = absurd (omega (arith, h))
  inserted_before (suc p) n a (x ∷ xs) zero h k = refl
  inserted_before (suc p) n a (x ∷ xs) (suc j) h k =
      inserted_before p n a xs j (omega (arith, h)) (omega (arith, k))

  inserted_new :
      (position n : ℕ) (a : A) (xs : List A) (k : ℕ)
      → position ≤ length xs
      → k < n
      → get_elem? (inserted position n a xs) (position + k) ≡ some a
  unfolding inserted
  inserted_new zero n a xs k h l =
      ap (get_elem? (replicate n a ++ xs)) (omega arith) ∙ repeated n xs k l
    where
      repeated : (n : ℕ) (ys : List A) (k : ℕ) → k < n → get_elem? (replicate n a ++ ys) k ≡ some a
      repeated zero ys k l = absurd (omega (arith, l))
      repeated (suc n) ys zero l = refl
      repeated (suc n) ys (suc k) l = repeated n ys k (omega (arith, l))
  inserted_new (suc p) n a [] k h l = absurd (omega (arith, h))
  inserted_new (suc p) n a (x ∷ xs) k h l =
      ap (get_elem? (inserted (suc p) n a (x ∷ xs)))
        (let e : suc p + k ≡ suc (p + k) = omega arith in e)
      ∙ inserted_new p n a xs k (omega (arith, h)) l

  inserted_behind :
      (position n : ℕ) (a : A) (xs : List A) (j : ℕ)
      → position ≤ length xs
      → position ≤ j
      → get_elem? (inserted position n a xs) (j + n) ≡ get_elem? xs j
  unfolding inserted
  inserted_behind zero n a xs j h k = behind n j
    where
      behind : (n j : ℕ) → get_elem? (replicate n a ++ xs) (j + n) ≡ get_elem? xs j
      behind zero j = ap (get_elem? xs) (omega arith)
      behind (suc n) j =
          ap (get_elem? (a ∷ (replicate n a ++ xs)))
            (let e : j + suc n ≡ suc (j + n) = omega arith in e)
          ∙ behind n j
  inserted_behind (suc p) n a [] j h k = absurd (omega (arith, h))
  inserted_behind (suc p) n a (x ∷ xs) zero h k = absurd (omega (arith, k))
  inserted_behind (suc p) n a (x ∷ xs) (suc j) h k =
      ap (get_elem? (inserted (suc p) n a (x ∷ xs)))
        (let e : suc j + n ≡ suc (j + n) = omega arith in e)
      ∙ inserted_behind p n a xs j (omega (arith, h)) (omega (arith, k))

  -- Cells that agree with the sequence in the three parts hold it.
  pub inserted_cells :
      (position n : ℕ) (a : A) (xs : List A) (m : ℕ → Option A)
      → position ≤ length xs
      → ((j : ℕ) → j < position → m j ≡ get_elem? xs j)
      → ((k : ℕ) → k < n → m (position + k) ≡ some a)
      → ((j : ℕ) → position ≤ j → m (j + n) ≡ get_elem? xs j)
      → m ≡ get_elem? (inserted position n a xs)
  inserted_cells position n a xs m h low new high = fun_ext λ j. elim (place position n j) [
    | inl l ↦ low j l ∙ sym (inserted_before position n a xs j h l)
    | inr (inl (l, k)) ↦
        let e : j ≡ position + (j - position) = omega (arith, l) in
        let inside : j - position < n = omega (arith, l, k) in
        ap m e
        ∙ new (j - position) inside
        ∙ sym (
            ap (get_elem? (inserted position n a xs)) e
            ∙ inserted_new position n a xs (j - position) h inside)
    | inr (inr l) ↦
        let e : j ≡ (j - n) + n = omega (arith, l) in
        let there : position ≤ j - n = omega (arith, l) in
        ap m e
        ∙ high (j - n) there
        ∙ sym (
            ap (get_elem? (inserted position n a xs)) e
            ∙ inserted_behind position n a xs (j - n) h there)
  ]

  pub length-inserted :
      (position n : ℕ) (a : A) (xs : List A)
      → position ≤ length xs
      → length (inserted position n a xs) ≡ length xs + n
  unfolding inserted
  length-inserted p n a xs h =
      length-append (take p xs) _
      ∙ rw
          (
            length-append (replicate n a) (drop p xs),
            length-take p xs,
            length-replicate n a,
            length-drop p xs,
          )
          (omega (arith, h))
