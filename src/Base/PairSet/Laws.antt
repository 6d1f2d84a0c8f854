-- ===== src/Base/PairSet/Laws.antt =====
-- Membership, order and size under the operations on sets of pairs.
use xjblg.Base.{
  suc, ◌≡◌, refl, sym, ap, ◌∙◌, inl, inr, Bool, true, false, not, ◌&&◌, ◌||◌, List, [], ◌∷◌, ◌++◌,
  arith, length, Bool-cases,
}
use xjblg.Base.PairSet.{
  Pair, before, same, is_in, insert, erase, take_before, drop_before, Below, Sorted, same-eq,
  before_irrefl, before_trans, before_total, or-cases,
}

or_swap : (a b c : Bool) → (a || (b || c)) ≡ (b || (a || c))
or_swap a b c = ground arith

or_idem : (a c : Bool) → (a || (a || c)) ≡ (a || c)
or_idem a c = ground arith

pub or-false : (a b : Bool) → (a || b) ≡ false → (a ≡ false) × (b ≡ false)
or-false true b h = cc
or-false false b h = (refl, h)

pub is_in-insert : (f e : Pair) (xs : List Pair) → is_in f (insert e xs) ≡ (same f e || is_in f xs)
unfolding is_in insert
is_in-insert f e [] = refl
is_in-insert f e (x ∷ xs) = elim (Bool-cases (before e x)) [
  | inl h ↦ rw h refl
  | inr h ↦ elim (Bool-cases (before x e)) [
    | inl k ↦ rw (h, k, is_in-insert f e xs) (or_swap (same f x) (same f e) (is_in f xs))
    | inr k ↦ rw (h, k, same-eq e x (before_total e x h k)) (sym (or_idem (same f x) (is_in f xs)))
  ]
]

pub length-insert :
    (e : Pair) (xs : List Pair) → is_in e xs ≡ false → length (insert e xs) ≡ suc (length xs)
unfolding is_in insert
length-insert e [] h = refl
length-insert e (x ∷ xs) h = elim (Bool-cases (before e x)) [
  | inl a ↦ rw a refl
  | inr a ↦ elim (Bool-cases (before x e)) [
    | inl b ↦ rw (a, b) (ap suc (length-insert e xs (ground arith)))
    | inr b ↦ cc ((or-false (same e x) (is_in e xs) h).0, before_total e x a b)
  ]
]

pub insert-Sorted : (e : Pair) (xs : List Pair) → Sorted xs → Sorted (insert e xs)
unfolding Sorted Below insert is_in
insert-Sorted e [] s = (λ y h. cc, tt)
insert-Sorted e (x ∷ xs) (below, s) = elim (Bool-cases (before e x)) [
  | inl a ↦ rw a (
    λ y h. elim (or-cases (same y x) _ h) [
      | inl i ↦ rw (same-eq y x i) a
      | inr i ↦ before_trans e x y a (below y i)
    ],
    (below, s),
  )
  | inr a ↦ elim (Bool-cases (before x e)) [
    | inl b ↦
        rw (a, b)
          (
            λ y h. elim (or-cases (same y e) _ (sym (is_in-insert y e xs) ∙ h)) [
              | inl i ↦ rw (same-eq y e i) b
              | inr i ↦ below y i
            ],
            insert-Sorted e xs s,
          )
    | inr b ↦ rw (a, b) (below, s)
  ]
]

pub and-false : (a : Bool) → (a && false) ≡ false
and-false true = refl
and-false false = refl

pub and_right : (a b : Bool) → (a && b) ≡ true → b ≡ true
and_right true b h = h
and_right false b h = cc

pub and_left : (a b : Bool) → (a && b) ≡ true → a ≡ true
and_left true b h = refl
and_left false b h = cc

-- A set holds an element once.
pub head_once : (x : Pair) (xs : List Pair) → Below x xs → is_in x xs ≡ false
unfolding Below
head_once x xs below = elim (Bool-cases (is_in x xs)) [
  | inl h ↦ cc (below x h, before_irrefl x)
  | inr h ↦ h
]

pub is_in-erase :
    (f e : Pair) (xs : List Pair)
    → Sorted xs
    → is_in f (erase e xs) ≡ (not (same f e) && is_in f xs)
unfolding Sorted is_in erase
is_in-erase f e [] s = ground arith
is_in-erase f e (x ∷ xs) (below, s) = elim (Bool-cases (same e x)) [
  | inl a ↦ elim (Bool-cases (same f x)) [
    | inl i ↦ rw (a, same-eq e x a, i, same-eq f x i) (head_once x xs below)
    | inr i ↦ rw (a, same-eq e x a, i) refl
  ]
  | inr a ↦ elim (Bool-cases (same f e)) [
    | inl i ↦ rw (a, is_in-erase f e xs s, i, same-eq f e i, a) refl
    | inr i ↦ rw (a, is_in-erase f e xs s, i) refl
  ]
]

pub erase-Sorted : (e : Pair) (xs : List Pair) → Sorted xs → Sorted (erase e xs)
unfolding Sorted Below is_in erase
erase-Sorted e [] s = tt
erase-Sorted e (x ∷ xs) (below, s) = elim (Bool-cases (same e x)) [
  | inl a ↦ rw a s
  | inr a ↦
      rw a (λ y h. below y (and_right _ _ (sym (is_in-erase y e xs s) ∙ h)), erase-Sorted e xs s)
]

pub length-erase :
    (e : Pair) (xs : List Pair) → is_in e xs ≡ true → suc (length (erase e xs)) ≡ length xs
unfolding is_in erase
length-erase e [] h = cc
length-erase e (x ∷ xs) h = elim (Bool-cases (same e x)) [
  | inl a ↦ rw a refl
  | inr a ↦ rw a (ap suc (length-erase e xs (ground arith)))
]

-- Where the first member is not before `e`, no member is.
none_before :
    (f e x : Pair) (xs : List Pair)
    → Below x xs
    → before x e ≡ false
    → (same f x || is_in f xs) ≡ true
    → before f e ≡ false
unfolding Below
none_before f e x xs below h k = elim (or-cases (same f x) _ k) [
  | inl i ↦ rw (same-eq f x i) h
  | inr i ↦ elim (Bool-cases (before f e)) [
    | inl b ↦ cc (before_trans x f e (below f i) b, h)
    | inr b ↦ b
  ]
]

pub take-drop_before : (e : Pair) (xs : List Pair) → take_before e xs ++ drop_before e xs ≡ xs
unfolding take_before drop_before
take-drop_before e [] = refl
take-drop_before e (x ∷ xs) = elim (Bool-cases (before x e)) [
  | inl h ↦ rw h (ap (◌∷◌ x) (take-drop_before e xs))
  | inr h ↦ rw h refl
]

-- Nothing before `e` lies behind the first member that is not before `e`.
pub is_in-drop_before :
    (f e : Pair) (xs : List Pair)
    → Sorted xs
    → is_in f (drop_before e xs) ≡ (not (before f e) && is_in f xs)
unfolding Sorted Below is_in drop_before
is_in-drop_before f e [] s = ground arith
is_in-drop_before f e (x ∷ xs) (below, s) = elim (Bool-cases (before x e)) [
  | inl h ↦ elim (Bool-cases (same f x)) [
    | inl i ↦ rw (h, is_in-drop_before f e xs s, i, same-eq f x i, h) refl
    | inr i ↦ rw (h, is_in-drop_before f e xs s, i) refl
  ]
  | inr h ↦ elim (Bool-cases (same f x || is_in f xs)) [
    | inl k ↦ rw (h, none_before f e x xs below h k) refl
    | inr k ↦ rw (h, k) (sym (and-false (not (before f e))))
  ]
]

pub is_in-take_before :
    (f e : Pair) (xs : List Pair)
    → Sorted xs
    → is_in f (take_before e xs) ≡ (before f e && is_in f xs)
unfolding Sorted Below is_in take_before
is_in-take_before f e [] s = ground arith
is_in-take_before f e (x ∷ xs) (below, s) = elim (Bool-cases (before x e)) [
  | inl h ↦ elim (Bool-cases (same f x)) [
    | inl i ↦ rw (h, is_in-take_before f e xs s, i, same-eq f x i, h) refl
    | inr i ↦ rw (h, is_in-take_before f e xs s, i) refl
  ]
  | inr h ↦ elim (Bool-cases (same f x || is_in f xs)) [
    | inl k ↦ rw (h, none_before f e x xs below h k) refl
    | inr k ↦ rw (h, k) (sym (and-false (before f e)))
  ]
]

pub drop_before-Sorted : (e : Pair) (xs : List Pair) → Sorted xs → Sorted (drop_before e xs)
unfolding Sorted drop_before
drop_before-Sorted e [] s = tt
drop_before-Sorted e (x ∷ xs) (below, s) = elim (Bool-cases (before x e)) [
  | inl h ↦ rw h (drop_before-Sorted e xs s)
  | inr h ↦ rw h (below, s)
]

pub take_before-Sorted : (e : Pair) (xs : List Pair) → Sorted xs → Sorted (take_before e xs)
unfolding Sorted Below take_before
take_before-Sorted e [] s = tt
take_before-Sorted e (x ∷ xs) (below, s) = elim (Bool-cases (before x e)) [
  | inl h ↦ rw h (
    λ y i. below y (and_right (before y e) _ (sym (is_in-take_before y e xs s) ∙ i)),
    take_before-Sorted e xs s,
  )
  | inr h ↦ rw h tt
]
