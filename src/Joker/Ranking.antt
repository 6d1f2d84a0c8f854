-- ===== src/Joker/Ranking.antt =====
-- The weight of a hand against the rules of the game: kinds of hands, and the order in a kind.
use xjblg.Base.{
  ℕ, ◌↔◌, inl, inr, ◌+◌, ◌*◌, ◌≤◌, ◌<◌, ◌≡◌, refl, ap, ◌≢◌, ◌⊎◌, Bool, true, false, ◌&&◌, ◌||◌,
  some, [], ◌∷◌, arith, ◌==◌, if◌then◌else◌,
}
use Prim.Native.Nat.{suc-le-suc}
use native.Mathlib.Decide.{dec_lt}
use native.Mathlib.Nat.{le_trans, mul-le-mul}
use xjblg.Joker.Cards.{Card, same_color, base_rank, value_of_ranks, figure_rank}

-- The kinds of the comment in `Player::operator<`, from the weakest on.
pub data Kind : Type 0 where
  single pair straight flush straight_flush triple : Kind

abbrev pub kind_order : Kind → ℕ
kind_order single = 0
kind_order pair = 1
kind_order straight = 2
kind_order flush = 3
kind_order straight_flush = 4
kind_order triple = 5

-- The kind of a hand by the rules, from the ranks in order and whether the colors agree: A23 is the
-- lowest straight.
abbrev pub kind_of : Bool → ℕ → ℕ → ℕ → Kind
kind_of one_color x y z =
    if x == y && y == z
    then triple
    else (let runs = (x + 1 == y && y + 1 == z) || (x == 2 && y == 3 && z == 14) in
        if runs
        then (if one_color then straight_flush else straight)
        else if one_color
        then flush
        else if x == y || y == z
        then pair
        else single)

-- The weight that `figureRank` gives a hand of these ranks.
abbrev pub weight : Bool → ℕ → ℕ → ℕ → ℕ
weight one_color x y z = value_of_ranks x y z + (if one_color then 623505 else 0)

-- Ranks of a sorted hand.
pub record Sorted (x y z : ℕ) : Type 0 where
  pub low : 2 ≤ x
  pub first : x ≤ y
  pub second : y ≤ z
  pub high : z ≤ 14

-- Two cards of one rank differ in color, so three cards of one color differ in rank.
abbrev pub Proper : Bool → ℕ → ℕ → ℕ → Type 0
Proper one_color x y z = one_color ≡ true → (x ≢ y) × (y ≢ z)

-- Two consecutive ranks and an ace that do not make a straight.
abbrev pub AceGap : ℕ → ℕ → ℕ → Type 0
AceGap x y z = (x + 1 ≡ y) × (z ≡ 14) × (x ≢ 2) × (y ≢ 13)

sq_mono : (a b : ℕ) → a ≤ b → a * a ≤ b * b
sq_mono a b h = mul-le-mul h h

cube_mono : (a b : ℕ) → a ≤ b → a * a * a ≤ b * b * b
cube_mono a b h = mul-le-mul (mul-le-mul h h) h

base_bounds : (x y z : ℕ) → Sorted x y z → (14 ≤ base_rank x y z) × (base_rank x y z ≤ 2954)
base_bounds x y z s = omega (
  arith,
  sq_mono 2 y (omega (arith, s.low, s.first)),
  sq_mono y 14 (omega (arith, s.second, s.high)),
  cube_mono 2 z (omega (arith, s.low, s.first, s.second)),
  cube_mono z 14 s.high,
)

-- The weights of a kind lie between these.
abbrev least : Kind → ℕ
least single = 14
least pair = 5924
least straight = 44325
least flush = 623519
least straight_flush = 667830
least triple = 1249979

abbrev greatest : Kind → ℕ
greatest single = 2954
greatest pair = 44324
greatest straight = 623504
greatest flush = 626459
greatest straight_flush = 1247009
greatest triple = 1252919

weight_bounds :
    (one_color : Bool) (x y z : ℕ)
    → Sorted x y z
    → Proper one_color x y z
    → ¬ AceGap x y z
    → (least (kind_of one_color x y z) ≤ weight one_color x y z)
      × (weight one_color x y z ≤ greatest (kind_of one_color x y z))
unfolding value_of_ranks
weight_bounds one_color x y z s p n = ground (arith, base_bounds x y z s)

greatest-lt-least : (j k : Kind) → kind_order j < kind_order k → greatest j < least k
greatest-lt-least j k h = ground arith

-- Of two sorted hands that can be dealt from one deck and are no ace gaps, the one of the weaker kind by
-- the rules weighs less.
pub kind_decides :
    (c c' : Bool) (x y z x' y' z' : ℕ)
    → Sorted x y z
    → Sorted x' y' z'
    → Proper c x y z
    → Proper c' x' y' z'
    → ¬ AceGap x y z
    → ¬ AceGap x' y' z'
    → kind_order (kind_of c x y z) < kind_order (kind_of c' x' y' z')
    → weight c x y z < weight c' x' y' z'
kind_decides c c' x y z x' y' z' s s' p p' n n' h =
    le_trans (suc-le-suc (weight_bounds c x y z s p n).1) (
      le_trans (greatest-lt-least (kind_of c x y z) (kind_of c' x' y' z') h)
        (weight_bounds c' x' y' z' s' p' n').0)

highest_card : (x y z x' y' z' : ℕ) → x ≤ y → y ≤ z → z < z' → base_rank x y z < base_rank x' y' z'
highest_card x y z x' y' z' h k l = omega (arith, sq_mono y z k, cube_mono (z + 1) z' (omega arith))

middle_card : (x y z x' y' z' : ℕ) → x ≤ y → z ≡ z' → y < y' → base_rank x y z < base_rank x' y' z'
middle_card x y z x' y' z' h e l =
    omega (arith, sq_mono (y + 1) y' (omega arith), ap (λ (n : ℕ). n * n * n) e)

lowest_card : (x y z x' y' z' : ℕ) → z ≡ z' → y ≡ y' → x < x' → base_rank x y z < base_rank x' y' z'
lowest_card x y z x' y' z' e d l =
    omega (arith, ap (λ (n : ℕ). n * n) d, ap (λ (n : ℕ). n * n * n) e)

same_cards : (x y z x' y' z' : ℕ) → z ≡ z' → y ≡ y' → x ≡ x' → base_rank x y z ≡ base_rank x' y' z'
same_cards x y z x' y' z' e d c =
    omega (arith, ap (λ (n : ℕ). n * n) d, ap (λ (n : ℕ). n * n * n) e)

-- The base weights of two sorted hands are ordered as their ranks are, compared from the highest card down.
pub base_rank_lex :
    (x y z x' y' z' : ℕ)
    → Sorted x y z
    → Sorted x' y' z'
    → (base_rank x y z < base_rank x' y' z')
      ↔ ((z < z') ⊎ (((z ≡ z') × (y < y')) ⊎ ((z ≡ z') × (y ≡ y') × (x < x'))))
base_rank_lex x y z x' y' z' s s' = (
  λ h. ground (
    arith,
    highest_card x' y' z' x y z s'.first s'.second,
    middle_card x' y' z' x y z s'.first,
    lowest_card x' y' z' x y z,
    same_cards x y z x' y' z',
  ),
  λ h. elim h [
    | inl l ↦ highest_card x y z x' y' z' s.first s.second l
    | inr (inl (e, l)) ↦ middle_card x y z x' y' z' s.first e l
    | inr (inr (e, d, l)) ↦ lowest_card x y z x' y' z' e d l
  ],
)

-- The card of a pair's hand that does not belong to the pair.
abbrev pub kicker : ℕ → ℕ → ℕ → ℕ
kicker x y z = if x == y then z else x

pair_weight :
    (x y z : ℕ)
    → kind_of false x y z ≡ pair
    → ¬ AceGap x y z
    → (weight false x y z ≡ 2955 * y + base_rank x y z)
      × (((x ≡ y) × (kicker x y z ≡ z)) ⊎ ((y ≡ z) × (kicker x y z ≡ x)))
unfolding value_of_ranks
pair_weight x y z k n = ground arith

-- Of two pairs in sorted hands of mixed colors that are no ace gaps, the one of the higher rank weighs
-- more, and of two pairs of one rank the one with the higher third card.
pub pair_order :
    (x y z x' y' z' : ℕ)
    → Sorted x y z
    → Sorted x' y' z'
    → kind_of false x y z ≡ pair
    → kind_of false x' y' z' ≡ pair
    → ¬ AceGap x y z
    → ¬ AceGap x' y' z'
    → (y < y') ⊎ ((y ≡ y') × (kicker x y z < kicker x' y' z'))
    → weight false x y z < weight false x' y' z'
pair_order x y z x' y' z' s s' k k' n n' h =
    let (w, form) = pair_weight x y z k n in
    let (w', form') = pair_weight x' y' z' k' n' in
    rw (w, w')
      (elim h [
        | inl l ↦ omega (arith, base_bounds x y z s, base_bounds x' y' z' s')
        | inr (e, l) ↦
            let lower : base_rank x y z < base_rank x' y' z' = elim (dec_lt z z') [
              | yes t ↦ highest_card x y z x' y' z' s.first s.second t
              | no t ↦ lowest_card x y z x' y' z' (omega arith) e (omega arith)
            ] in
            omega arith
      ])

-- A sorted hand of mixed colors with two consecutive ranks and an ace that is no straight is a pair or
-- a single hand by the rules, weighs as much as A23, and more than every sorted pair that is no such
-- hand.
pub ace_gap :
    (x y z x' y' z' : ℕ)
    → Sorted x y z
    → AceGap x y z
    → Sorted x' y' z'
    → kind_of false x' y' z' ≡ pair
    → ¬ AceGap x' y' z'
    → ((kind_of false x y z ≡ pair) ⊎ (kind_of false x y z ≡ single))
      × (weight false x y z ≡ weight false 2 3 14)
      × (weight false x' y' z' < weight false x y z)
unfolding value_of_ranks
ace_gap x y z x' y' z' s g s' k n = ground (arith, base_bounds x' y' z' s')

-- `figureRank` of three cards is the weight of their ranks.
pub figure_rank-weight :
    (a b c : Card)
    → figure_rank (a ∷ b ∷ c ∷ [])
      ≡ some (weight (same_color a b && same_color b c) a.rank b.rank c.rank)
unfolding figure_rank value_of_ranks
figure_rank-weight a b c = refl
