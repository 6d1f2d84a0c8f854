-- ===== src/Joker/Examples.antt =====
-- Runs of the game on concrete hands and tables.
use xjblg.Base.{
  ℕ, zero, suc, ◌+◌, ◌*◌, ◌≤◌, ◌<◌, ◌≡◌, ◌≢◌, refl, ap, ◌∙◌, inl, inr, true, false, some, List, [],
  ◌∷◌, arith, get_elem?, set, length, replicate,
}
use xjblg.Joker.Table.{
  Table, Player, palready, pknow, pblind, pwait, win, card_of, deal_a_card, deal_cards,
  compare_two_players, discard, set_state,
}
use xjblg.Joker.Ranking.{Sorted, AceGap, weight, kind_decides}
use xjblg.Joker.Deal.{count_used, deal_cards-count}
use xjblg.Joker.Progress.{Covers, Seats, deal_cards_returns}
use xjblg.Joker.Compare.{Allowed, outsider_wins}

hand-Sorted : (x y z : ℕ) → 2 ≤ x → x ≤ y → y ≤ z → z ≤ 14 → Sorted x y z
hand-Sorted x y z a b c d = record { low = a; first = b; second = c; high = d }

hand_2_3_5-Sorted : Sorted 2 3 5
hand_2_3_5-Sorted = hand-Sorted 2 3 5 (omega arith) (omega arith) (omega arith) (omega arith)

hand_4_4_9-Sorted : Sorted 4 4 9
hand_4_4_9-Sorted = hand-Sorted 4 4 9 (omega arith) (omega arith) (omega arith) (omega arith)

hand_5_8_8-Sorted : Sorted 5 8 8
hand_5_8_8-Sorted = hand-Sorted 5 8 8 (omega arith) (omega arith) (omega arith) (omega arith)

hand_3_4_14-Sorted : Sorted 3 4 14
hand_3_4_14-Sorted = hand-Sorted 3 4 14 (omega arith) (omega arith) (omega arith) (omega arith)

no_gap_2_3_5 : ¬ AceGap 2 3 5
no_gap_2_3_5 g = absurd (omega arith)

no_gap_4_4_9 : ¬ AceGap 4 4 9
no_gap_4_4_9 g = absurd (omega arith)

no_gap_5_8_8 : ¬ AceGap 5 8 8
no_gap_5_8_8 g = absurd (omega arith)

not_flush : (x y z : ℕ) → false ≡ true → (x ≢ y) × (y ≢ z)
not_flush x y z h = cc

kind_decides_example : weight false 2 3 5 < weight false 4 4 9
kind_decides_example =
    kind_decides false false 2 3 5 4 4 9 hand_2_3_5-Sorted hand_4_4_9-Sorted (not_flush 2 3 5)
      (not_flush 4 4 9) no_gap_2_3_5 no_gap_4_4_9 (omega arith)

-- The first number that comes up is dealt out already, the second is free.
abbrev one_dealt : List ℕ
one_dealt = set (replicate 52 0) 7 1

second_card : deal_a_card (59 ∷ 60 ∷ []) one_dealt ≡ some (card_of 8, set one_dealt 8 1)
unfolding deal_a_card
second_card = refl

abbrev player : ℕ → Player
player r = record { rank = r; nickname = "p"; cards = []; state = pknow }

abbrev two_players : Table
two_players = record {
  store = player 20 ∷ player 300 ∷ [];
  players = 0 ∷ 1 ∷ [];
  used = replicate 52 0;
}

abbrev up_to : ℕ → ℕ → List ℕ
up_to zero k = []
up_to (suc n) k = k ∷ up_to n (suc k)

get_elem?-up_to : (n k v : ℕ) → v < n → get_elem? (up_to n k) v ≡ some (k + v)
get_elem?-up_to zero k v h = absurd (omega arith)
get_elem?-up_to (suc n) k zero h = ap some (omega arith)
get_elem?-up_to (suc n) k (suc v) h =
    get_elem?-up_to n (suc k) v (omega arith) ∙ ap some (omega arith)

all_numbers-Covers : Covers (up_to 52 0)
all_numbers-Covers v h =
    let e : 0 + v ≡ v = omega arith in (v, v, get_elem?-up_to 52 0 v h ∙ ap some e, omega arith)

two_players-Seats : Seats two_players.players two_players.store
two_players-Seats zero i h = ground arith
two_players-Seats (suc zero) i h = ground arith
two_players-Seats (suc (suc k)) i h = cc

deal_cards_returns_example : (t' : Table) × (deal_cards (λ k. up_to 52 0) two_players ≡ some t')
deal_cards_returns_example =
    deal_cards_returns (λ k. up_to 52 0) two_players (λ k. all_numbers-Covers) two_players-Seats
      (omega arith)

dealt_round : (t' : Table) × (deal_cards (λ k. up_to 52 0) two_players ≡ some t')
dealt_round =
    deal_cards_returns (λ k. up_to 52 0) two_players (λ k. all_numbers-Covers) two_players-Seats
      (omega arith)

deal_cards-count_example :
    (count_used dealt_round.0.used ≡ 3 * length two_players.players)
    × (length two_players.players ≤ 17)
deal_cards-count_example =
    deal_cards-count (λ k. up_to 52 0) two_players dealt_round.0 dealt_round.1

abbrev full_table : Table
full_table = record { store = player 20 ∷ []; players = replicate 17 0; used = replicate 52 0 }

abbrev folded : Player
folded = record (player 300) { state = palready }

abbrev one_folded : Table
one_folded = record two_players { store = player 20 ∷ folded ∷ [] }

folded_not_Allowed : ¬ Allowed pknow palready
folded_not_Allowed a = elim a [ inl (_, e) ↦ cc | inr (_, e) ↦ cc ]

abbrev blind_seat : Player
blind_seat = record (player 20) { state = pblind }

abbrev waiting_caller : Table
waiting_caller = record two_players {
  store = record (player 300) { state = pwait } ∷ blind_seat ∷ [];
}

outsider_wins_example :
    (t' : Table) × (compare_two_players 0 1 waiting_caller ≡ some (win, t'))
    × (get_elem? t'.store 0 ≡ some (set_state pknow (record (player 300) { state = pwait })))
    × (get_elem? t'.store 1 ≡ some (discard blind_seat))
outsider_wins_example =
    outsider_wins 0 1 waiting_caller (record (player 300) { state = pwait }) blind_seat
      (λ e. absurd (omega arith)) refl refl (λ e. cc) (λ e. cc) refl (omega arith)
