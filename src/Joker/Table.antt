-- ===== src/Joker/Table.antt =====
-- Players and the dealer of AAA/joker.cpp. A `shared_ptr<Player>` is an index into the store of
-- players. Output is left out. `none` is undefined behaviour, or a loop that does not end.
use Prim.Native.String.{String}
use xjblg.Base.{
  ℕ, zero, suc, ◌+◌, ◌/◌, ◌%◌, Bool, true, false, ◌&&◌, ◌||◌, not, Option, none, some, List, [],
  ◌∷◌, ◌++◌, get_elem?, set, replicate, length, ltb, leb, ◌==◌, if◌then◌else◌, ◌>>=◌,
}
use xjblg.Joker.Cards.{Color, diamond, heart, club, spade, Card, sort_cards, figure_rank}

pub data PlayerState : Type 0 where
  pwait palready pblind pknow : PlayerState

pub data CompareResult : Type 0 where
  win fault error : CompareResult

pub record Player : Type 0 where
  pub rank : ℕ
  pub nickname : String
  pub cards : List Card
  pub state : PlayerState

-- The players that exist, and the dealer: who sits at the table, and which cards are dealt out.
pub record Table : Type 0 where
  pub store : List Player
  pub players : List ℕ
  pub used : List ℕ

abbrev pub is_know : PlayerState → Bool
is_know pknow = true
is_know _ = false

abbrev pub is_blind : PlayerState → Bool
is_blind pblind = true
is_blind _ = false

abbrev pub same_state : PlayerState → PlayerState → Bool
same_state pwait pwait = true
same_state palready palready = true
same_state pblind pblind = true
same_state pknow pknow = true
same_state _ _ = false

-- A method call on the player at an index.
abbrev pub update : ℕ → (Player → Player) → List Player → List Player
update i f [] = []
update zero f (p ∷ ps) = f p ∷ ps
update (suc i) f (p ∷ ps) = p ∷ update i f ps

abbrev pub set_state : PlayerState → Player → Player
set_state s p = record p { state = s }

abbrev pub get_card : Card → Player → Player
get_card c p = record p { cards = p.cards ++ (c ∷ []); state = pblind }

abbrev pub sort_player_cards : Player → Player
sort_player_cards p = record p { cards = sort_cards p.cards }

abbrev pub discard : Player → Player
discard p = record p { cards = []; state = palready }

abbrev pub show_player_cards : Player → Player
show_player_cards p = set_state pknow p

-- `figureRank` of the player at an index.
abbrev pub figure_player_rank : ℕ → List Player → Option (List Player)
figure_player_rank i ps = do
  p ← get_elem? ps i
  r ← figure_rank p.cards
  some (update i (λ q. record q { rank = r }) ps)

unfoldable pub discard_all : List ℕ → List Player → List Player
discard_all [] ps = ps
discard_all (i ∷ is) ps = discard_all is (update i discard ps)

unfoldable pub shuffle : Table → Table
unfolding discard_all
shuffle t = record t { store = discard_all t.players t.store; used = replicate 52 0 }

abbrev pub color_of : ℕ → Color
color_of form =
    if form == 3 then spade else if form == 2 then club else if form == 1 then heart else diamond

-- The card for a number below 52.
abbrev pub card_of : ℕ → Card
card_of v = record {
  value = v / 4 + 1;
  color = color_of (v % 4);
  rank = if v / 4 + 1 == 1 then 14 else v / 4 + 1;
}

-- `dealACard`. The list holds what `rand()` returns after `srand`; a loop that has not met a free card
-- at its end has not returned.
unfoldable pub deal_a_card : List ℕ → List ℕ → Option (Card × List ℕ)
deal_a_card [] used = none
deal_a_card (r ∷ rs) used = do
  let again = deal_a_card rs used
  u ← get_elem? used (r % 52)
  if u == 0 then some (card_of (r % 52), set used (r % 52) 1) else again

-- The inner loop of `dealCards`: three cards for one player. The first argument counts the cards
-- still to deal, and `draws k` is what `rand()` returns in the k-th deal of the round.
unfoldable pub deal_hand :
    ℕ → (ℕ → List ℕ) → ℕ → ℕ → List Player → List ℕ → Option (List Player × List ℕ)
deal_hand zero draws k i ps used = some (ps, used)
deal_hand (suc n) draws k i ps used = do
  (c, used') ← deal_a_card (draws k) used
  deal_hand n draws (k + 1) i (update i (get_card c) ps) used'

-- The outer loop of `dealCards`.
unfoldable pub deal_all :
    (ℕ → List ℕ) → ℕ → List ℕ → List Player → List ℕ → Option (List Player × List ℕ)
deal_all draws k [] ps used = some (ps, used)
deal_all draws k (i ∷ is) ps used = do
  (ps', used') ← deal_hand 3 draws k i ps used
  ps'' ← figure_player_rank i (update i sort_player_cards ps')
  deal_all draws (k + 3) is (update i show_player_cards ps'') used'

unfoldable pub deal_cards : (ℕ → List ℕ) → Table → Option Table
unfolding shuffle
deal_cards draws t = do
  let s = shuffle t
  (ps, used) ← deal_all draws 0 s.players s.store s.used
  some (record s { store = ps; used = used })

unfoldable pub add_player : ℕ → Table → Table
add_player i t =
    if leb (length t.players) 17
    then record t { players = t.players ++ (i ∷ []); store = update i (set_state palready) t.store }
    else t

-- The vector without its first entry for the player, if it has one.
erase_player : ℕ → List ℕ → Option (List ℕ)
erase_player i [] = none
erase_player i (j ∷ js) =
    if j == i then some js else (erase_player i js >>= λ rest. some (j ∷ rest))

unfoldable pub delete_player : ℕ → Table → Bool × Table
unfolding erase_player
delete_player i t = elim (erase_player i t.players) [
  | some rest ↦ (true, record t { players = rest; store = update i (set_state pwait) t.store })
  | none ↦ (false, t)
]

-- `compareTwoPlayers(p1, p2)`, in which `&&` binds tighter than `||`.
unfoldable pub compare_two_players : ℕ → ℕ → Table → Option (CompareResult × Table)
compare_two_players i j t = do
  p ← get_elem? t.store i
  q ← get_elem? t.store j
  some (
      if is_know p.state && not (is_know q.state)
      then (error, t)
      else if (same_state p.state q.state && is_know q.state) || is_blind q.state
      then (let shown = update j (set_state pknow) (update i (set_state pknow) t.store) in
          if ltb p.rank q.rank
          then (fault, record t { store = update i discard shown })
          else (win, record t { store = update j discard shown }))
      else (error, t))

-- `playerMenu`: what the choice does, by the state that the player is in.
unfoldable pub player_menu : ℕ → ℕ → Table → Option Table
unfolding add_player delete_player
player_menu choice i t = do
  p ← get_elem? t.store i
  some (
      if choice == 1
      then elim p.state [
        | pwait ↦ add_player i t
        | palready ↦ (delete_player i t).1
        | pblind ↦ record t { store = update i show_player_cards t.store }
        | pknow ↦ t
      ]
      else if choice == 3 && is_know p.state
      then record t { store = update i discard t.store }
      else t)
