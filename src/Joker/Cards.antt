-- ===== src/Joker/Cards.antt =====
-- Cards, their order, and the weight of a hand: `Card`, `figureColor`, `figureValue`, `figureRank`
-- of AAA/joker.cpp. A `std::vector<Card>` that is read out of range is `none`.
use xjblg.Base.{
  ℕ, ◌+◌, ◌*◌, Bool, ◌&&◌, ◌||◌, Option, some, List, [], ◌∷◌, get_elem?, ltb, ◌==◌, if◌then◌else◌,
  ◌>>=◌,
}

pub data Color : Type 0 where
  diamond heart club spade : Color

-- The value of the enumerator.
abbrev pub color_value : Color → ℕ
color_value diamond = 0
color_value heart = 1
color_value club = 2
color_value spade = 3

pub record Card : Type 0 where
  pub value : ℕ
  pub color : Color
  pub rank : ℕ

-- `Card::operator<`: by rank, and by color where the ranks are equal.
abbrev pub card_lt : Card → Card → Bool
card_lt a b =
    if a.rank == b.rank then ltb (color_value a.color) (color_value b.color) else ltb a.rank b.rank

-- `std::sort` by `card_lt`. What it returns is determined, since the order is total on cards up to
-- rank and color.
unfoldable pub insert_card : Card → List Card → List Card
insert_card c [] = c ∷ []
insert_card c (d ∷ ds) = if card_lt d c then d ∷ insert_card c ds else c ∷ d ∷ ds

unfoldable pub sort_cards : List Card → List Card
unfolding insert_card
sort_cards [] = []
sort_cards (c ∷ cs) = insert_card c (sort_cards cs)

abbrev flush_weight : ℕ
flush_weight = 623505

abbrev pub same_color : Card → Card → Bool
same_color a b = color_value a.color == color_value b.color

unfoldable pub figure_color : List Card → Option ℕ
figure_color cards = do
  a ← get_elem? cards 0
  b ← get_elem? cards 1
  c ← get_elem? cards 2
  some (if same_color a b && same_color b c then flush_weight else 0)

-- `pow(x,1) + pow(y,2) + pow(z,3)`; these doubles are exact.
abbrev pub base_rank : ℕ → ℕ → ℕ → ℕ
base_rank x y z = x + y * y + z * z * z

-- The branches of `figureValue` over the ranks of the three cards.
unfoldable pub value_of_ranks : ℕ → ℕ → ℕ → ℕ
value_of_ranks x y z =
    if x == y && y == z
    then base_rank x y z + 1249965
    else if x + 1 == y && y + 1 == z
    then 44325 * z + base_rank x y z
    else if x + 1 == y && z == 14
    then 44325
    else if x == y || y == z
    then 2955 * y + base_rank x y z
    else base_rank x y z

unfoldable pub figure_value : List Card → Option ℕ
unfolding value_of_ranks
figure_value cards = do
  a ← get_elem? cards 0
  b ← get_elem? cards 1
  c ← get_elem? cards 2
  some (value_of_ranks a.rank b.rank c.rank)

unfoldable pub figure_rank : List Card → Option ℕ
unfolding figure_value figure_color
figure_rank cards = do v ← figure_value cards; c ← figure_color cards; some (v + c)
