-- ===== src/Joker/Deal.antt =====
-- Dealing: each card is dealt once, and how many players a deck is enough for.
use xjblg.Base.{
  ℕ, zero, suc, ◌+◌, ◌*◌, ◌-◌, ◌%◌, ◌≤◌, ◌<◌, ◌≡◌, refl, inl, inr, none, some, List, [], ◌∷◌, arith,
  get_elem?, set, replicate, length, length-set, length-append, ap, ◌∙◌, >>=-eq-some, Option-cases,
}
use xjblg.Joker.Cards.{Card, color_value}
use xjblg.Joker.Table.{
  Table, Player, get_card, sort_player_cards, show_player_cards, add_player, card_of, deal_a_card,
  deal_hand, deal_all, deal_cards, shuffle, update, figure_player_rank,
}

-- The number that a card was made from.
abbrev pub number_of : Card → ℕ
number_of c = (c.value - 1) * 4 + color_value c.color

number_of-card_of : (v : ℕ) → v < 52 → number_of (card_of v) ≡ v
number_of-card_of v h = ground arith

-- How many entries are not 0.
unfoldable pub count_used : List ℕ → ℕ
count_used [] = 0
count_used (zero ∷ us) = count_used us
count_used (suc u ∷ us) = suc (count_used us)

count_used-le : (us : List ℕ) → count_used us ≤ length us
unfolding count_used
count_used-le [] = omega arith
count_used-le (zero ∷ us) = omega (arith, count_used-le us)
count_used-le (suc u ∷ us) = omega (arith, count_used-le us)

count_used-set :
    (us : List ℕ) (v : ℕ) → get_elem? us v ≡ some 0 → count_used (set us v 1) ≡ suc (count_used us)
unfolding count_used
count_used-set [] v h = cc
count_used-set (zero ∷ us) zero h = refl
count_used-set (suc u ∷ us) zero h = ground arith
count_used-set (zero ∷ us) (suc v) h = count_used-set us v h
count_used-set (suc u ∷ us) (suc v) h = omega (arith, count_used-set us v h)

-- A card that `dealACard` returns is one of the 52, was free before, and is the only one whose mark
-- changes.
pub deal_a_card_lem :
    (rs used used' : List ℕ) (c : Card)
    → deal_a_card rs used ≡ some (c, used')
    → (number_of c < 52)
      × (c ≡ card_of (number_of c))
      × (get_elem? used (number_of c) ≡ some 0)
      × (used' ≡ set used (number_of c) 1)
unfolding deal_a_card
deal_a_card_lem [] used used' c h = cc
deal_a_card_lem (r ∷ rs) used used' c h =
    ground (arith, deal_a_card_lem rs used used' c, number_of-card_of (r % 52))

pub deal_a_card-count :
    (rs used used' : List ℕ) (c : Card)
    → deal_a_card rs used ≡ some (c, used')
    → (count_used used' ≡ suc (count_used used)) × (length used' ≡ length used)
deal_a_card-count rs used used' c h =
    let (_, _, free, e) = deal_a_card_lem rs used used' c h in
    rw e (count_used-set used (number_of c) free, length-set used (number_of c) 1)

deal_hand-count :
    (n : ℕ) (draws : ℕ → List ℕ) (k i : ℕ) (ps : List Player) (used : List ℕ) (ps' : List Player)
    (used' : List ℕ)
    → deal_hand n draws k i ps used ≡ some (ps', used')
    → (count_used used' ≡ n + count_used used) × (length used' ≡ length used)
unfolding deal_hand
deal_hand-count zero draws k i ps used ps' used' h = ground arith
deal_hand-count (suc n) draws k i ps used ps' used' h =
    let ((c, marked), got, h') = >>=-eq-some (deal_a_card (draws k) used) _ h in
    let (one, same) = deal_a_card-count (draws k) used marked c got in
    let (more, same') =
      deal_hand-count n draws (k + 1) i (update i (get_card c) ps) marked ps' used' h' in
    (omega arith, omega arith)

deal_all-count :
    (draws : ℕ → List ℕ) (k : ℕ) (is : List ℕ) (ps : List Player) (used : List ℕ)
    (ps' : List Player) (used' : List ℕ)
    → deal_all draws k is ps used ≡ some (ps', used')
    → (count_used used' ≡ 3 * length is + count_used used) × (length used' ≡ length used)
unfolding deal_all
deal_all-count draws k [] ps used ps' used' h = ground arith
deal_all-count draws k (i ∷ is) ps used ps' used' h =
    let ((ps₁, used₁), hand, h₁) = >>=-eq-some (deal_hand 3 draws k i ps used) _ h in
    let (ps₂, ranked, h₂) =
      >>=-eq-some (figure_player_rank i (update i sort_player_cards ps₁)) _ h₁ in
    let (three, same) = deal_hand-count 3 draws k i ps used ps₁ used₁ hand in
    let (others, same') =
      deal_all-count draws (k + 3) is (update i show_player_cards ps₂) used₁ ps' used' h₂ in
    (omega arith, omega arith)

-- A call of `dealCards` that returns has marked three cards for each player, and there are at most 17
-- players.
pub deal_cards-count :
    (draws : ℕ → List ℕ) (t t' : Table)
    → deal_cards draws t ≡ some t'
    → (count_used t'.used ≡ 3 * length t.players) × (length t.players ≤ 17)
unfolding deal_cards
deal_cards-count draws t t' h =
    let s : Table = shuffle t in
    let ((ps, used), dealt, h') =
      >>=-eq-some (deal_all draws 0 t.players s.store (replicate 52 0)) _ h in
    let (three, same) = deal_all-count draws 0 t.players s.store (replicate 52 0) ps used dealt in
    let e : t'.used ≡ used = ground arith in
    let zeros : count_used (replicate 52 0) ≡ 0 = unfold count_used in refl in
    (ap count_used e ∙ omega arith, omega (arith, count_used-le used))

-- At a table of 17 players `addPlayer` seats an eighteenth, and then `dealCards` does not return,
-- whatever `rand()` returns.
pub eighteenth_player :
    (draws : ℕ → List ℕ) (i : ℕ) (t : Table)
    → length t.players ≡ 17
    → (length (add_player i t).players ≡ 18) × (deal_cards draws (add_player i t) ≡ none)
eighteenth_player draws i t full = (
  seated,
  elim (Option-cases (deal_cards draws (add_player i t))) [
    | inl stuck ↦ stuck
    | inr (t', dealt) ↦
        absurd (omega (arith, (deal_cards-count draws (add_player i t) t' dealt).1, seated))
  ],
)
  where
    seated : length (add_player i t).players ≡ 18
    seated = unfold add_player in ground (arith, length-append t.players (i ∷ []))
