-- ===== src/Base/PairSet.antt =====
-- `std::set` of pairs of numbers, as a list in ascending order.
pub mod Laws
use xjblg.Base.{
  ℕ, suc, ◌+◌, ◌≡◌, refl, sym, ap, ◌∙◌, ◌⊎◌, inl, inr, Bool, true, false, not, ◌&&◌, ◌||◌, List, [],
  ◌∷◌, ◌++◌, arith, length, ltb, ◌==◌, if◌then◌else◌, Bool-cases,
}

abbrev pub Pair : Type 0
Pair = ℕ × ℕ

-- `operator<` of `std::pair`.
abbrev pub before : Pair → Pair → Bool
before (a, b) (c, d) = ltb a c || (a == c && ltb b d)

abbrev pub same : Pair → Pair → Bool
same (a, b) (c, d) = a == c && b == d

unfoldable pub is_in : Pair → List Pair → Bool
is_in e [] = false
is_in e (x ∷ xs) = same e x || is_in e xs

unfoldable pub insert : Pair → List Pair → List Pair
insert e [] = e ∷ []
insert e (x ∷ xs) =
    let rest = insert e xs in
    if before e x then e ∷ x ∷ xs else if before x e then x ∷ rest else x ∷ xs

unfoldable pub erase : Pair → List Pair → List Pair
erase e [] = []
erase e (x ∷ xs) = let rest = erase e xs in if same e x then xs else x ∷ rest

-- What lies in front of `lower_bound(e)`, and what lies behind it.
unfoldable pub take_before : Pair → List Pair → List Pair
take_before e [] = []
take_before e (x ∷ xs) = let rest = take_before e xs in if before x e then x ∷ rest else []

unfoldable pub drop_before : Pair → List Pair → List Pair
drop_before e [] = []
drop_before e (x ∷ xs) = let rest = drop_before e xs in if before x e then rest else x ∷ xs

-- `x` lies before each member.
unfoldable pub Below : Pair → List Pair → Type 0
unfolding is_in
Below x xs = (y : Pair) → is_in y xs ≡ true → before x y ≡ true

unfoldable pub Sorted : List Pair → Type 0
unfolding Below
Sorted [] = Unit {0}
Sorted (x ∷ xs) = Below x xs × Sorted xs

pub same-eq : (e f : Pair) → same e f ≡ true → e ≡ f
same-eq (a, b) (c, d) h = ground arith

pub same_refl : (e : Pair) → same e e ≡ true
same_refl (a, b) = ground arith

pub before_irrefl : (e : Pair) → before e e ≡ false
before_irrefl (a, b) = ground arith

pub before_trans : (e f g : Pair) → before e f ≡ true → before f g ≡ true → before e g ≡ true
before_trans (a, b) (c, d) (x, y) h k = ground arith

pub before_asym : (e f : Pair) → before e f ≡ true → before f e ≡ false
before_asym (a, b) (c, d) h = ground arith

pub before_total : (e f : Pair) → before e f ≡ false → before f e ≡ false → same e f ≡ true
before_total (a, b) (c, d) h k = ground arith

pub or-cases : (a b : Bool) → (a || b) ≡ true → (a ≡ true) ⊎ (b ≡ true)
or-cases true b h = inl refl
or-cases false b h = inr h
