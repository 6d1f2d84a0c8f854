-- ===== src/Base/Text.antt =====
-- Byte strings: equality, order, splitting at a byte, and white space.
use xjblg.Base.{
  ℕ, ◌+◌, ◌-◌, ◌*◌, ◌%◌, ◌^◌, Option, none, some, ◌>>=◌, ◌≡◌, refl, ◌≢◌, Bool, true, false, ◌&&◌,
  ◌||◌, List, [], ◌∷◌, ◌++◌, arith, ltb, leb, ◌==◌, if◌then◌else◌,
}
use xjblg.Base.Words.{size_mod}

abbrev pub Text : Type 0
Text = List ℕ

unfoldable pub str_eq : Text → Text → Bool
str_eq [] [] = true
str_eq (c ∷ cs) (d ∷ ds) = c == d && str_eq cs ds
str_eq _ _ = false

pub str_eq_refl : (s : Text) → str_eq s s ≡ true
unfolding str_eq
str_eq_refl [] = refl
str_eq_refl (c ∷ cs) = ground (arith, str_eq_refl cs)

pub str_eq_sound : (s t : Text) → str_eq s t ≡ true → s ≡ t
unfolding str_eq
str_eq_sound [] [] h = refl
str_eq_sound [] (d ∷ ds) h = cc
str_eq_sound (c ∷ cs) [] h = cc
str_eq_sound (c ∷ cs) (d ∷ ds) h = ground (arith, str_eq_sound cs ds)

-- `std::string`'s order, by unsigned bytes.
unfoldable pub str_lt : Text → Text → Bool
str_lt [] [] = false
str_lt [] (d ∷ ds) = true
str_lt (c ∷ cs) [] = false
str_lt (c ∷ cs) (d ∷ ds) = ltb c d || (c == d && str_lt cs ds)

-- The bytes before the first `c`, and those from it on: `std::find` over the range.
abbrev pub split_at : ℕ → Text → Text × Text
split_at c [] = ([], [])
split_at c (d ∷ ds) =
    let (before, from) = split_at c ds in if d == c then ([], d ∷ ds) else (d ∷ before, from)

-- `c` does not occur.
abbrev pub Lacks : ℕ → Text → Type 0
Lacks c [] = Unit
Lacks c (d ∷ ds) = (d ≢ c) × Lacks c ds

pub split_at-found :
    (c : ℕ) (s rest : Text) → Lacks c s → split_at c (s ++ (c ∷ rest)) ≡ (s, c ∷ rest)
split_at-found c [] rest h = ground arith
split_at-found c (d ∷ s) rest h = let ih = split_at-found c s rest h.1 in ground arith

pub split_at-Lacks : (c : ℕ) (s : Text) → Lacks c s → split_at c s ≡ (s, [])
split_at-Lacks c [] h = refl
split_at-Lacks c (d ∷ s) h = let ih = split_at-Lacks c s h.1 in ground arith

pub Lacks-append : (c : ℕ) (s t : Text) → Lacks c s → Lacks c t → Lacks c (s ++ t)
Lacks-append c [] t h k = k
Lacks-append c (d ∷ s) t h k = (h.0, Lacks-append c s t h.1 k)

-- `isspace` in the C locale.
abbrev pub is_space : ℕ → Bool
is_space c = c == b' ' || (leb 9 c && leb c 13)

abbrev pub skip_space : Text → Text
skip_space [] = []
skip_space (c ∷ cs) = if is_space c then skip_space cs else c ∷ cs

-- Without the white space at the end.
abbrev pub trim_end : Text → Text
trim_end [] = []
trim_end (c ∷ cs) = elim (trim_end cs) [
  | [] ↦ if is_space c then [] else c ∷ []
  | d ∷ ds ↦ c ∷ d ∷ ds
]

-- No white space at either end.
abbrev pub Trimmed : Text → Type 0
Trimmed s = (skip_space s ≡ s) × (trim_end s ≡ s)

abbrev pub is_digit : ℕ → Bool
is_digit c = leb b'0' c && leb c b'9'

-- The value of the digits at the front behind a value already read, and how many there are.
digits_from : ℕ → ℕ → Text → ℕ × ℕ
digits_from acc n [] = (acc, n)
digits_from acc n (c ∷ cs) =
    let rest = digits_from (acc * 10 + (c - b'0')) (n + 1) cs in
    if is_digit c then rest else (acc, n)

unsigned_of : Text → Option ℕ
unfolding digits_from
unsigned_of s = let (v, n) = digits_from 0 0 s in if n == 0 then none else some v

-- `std::stoi`, converted to `size_t`; `none` is `std::invalid_argument` or `std::out_of_range`.
unfoldable pub stoi_size : Text → Option ℕ
unfolding unsigned_of
stoi_size s = elim (skip_space s) [
  | [] ↦ none
  | c ∷ cs ↦
      if c == b'-'
      then (unsigned_of cs >>= λ v.
          if ltb (2 ^ 31) v then none else some ((size_mod - v) % size_mod))
      else ((if c == b'+' then unsigned_of cs else unsigned_of (c ∷ cs)) >>= λ v.
          if ltb v (2 ^ 31) then some v else none)
]
