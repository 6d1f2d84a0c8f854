-- ===== src/Joker/Progress.antt =====
-- With at most 17 players a round is dealt, if `rand()` reaches each number below 52.
use mathlib.Core.Path.{subst}
use xjblg.Base.{
  ℕ, zero, suc, ◌+◌, ◌*◌, ◌%◌, ◌≤◌, ◌<◌, ◌≡◌, refl, sym, ap, ◌∙◌, inl, inr, some, List, [], ◌∷◌,
  arith, get_elem?, set, replicate, length, length-append, ◌==◌, Bool-cases,
}
use xjblg.Joker.Cards.{Card, sort_cards, insert_card, figure_rank}
use xjblg.Joker.Table.{
  Table, Player, get_card, sort_player_cards, show_player_cards, card_of, deal_a_card, deal_hand,
  deal_all, deal_cards, discard_all, discard, update,
}
use xjblg.Joker.Deal.{count_used, deal_a_card-count}

-- Each number below 52 comes up in the list.
abbrev pub Covers : List ℕ → Type 0
Covers rs = (v : ℕ) → v < 52 → (j : ℕ) × (r : ℕ) × (get_elem? rs j ≡ some r) × (r % 52 ≡ v)

get_elem?-some {ℓ} :
    {A : Type ℓ} (xs : List A) (i : ℕ) → i < length xs → (x : A) × (get_elem? xs i ≡ some x)
get_elem?-some [] i h = absurd (omega arith)
get_elem?-some (x ∷ xs) zero h = (x, refl)
get_elem?-some (x ∷ xs) (suc i) h = get_elem?-some xs i (omega arith)

free_slot :
    (us : List ℕ)
    → count_used us < length us
    → (v : ℕ) × (v < length us) × (get_elem? us v ≡ some 0)
unfolding count_used
free_slot [] h = absurd (omega arith)
free_slot (zero ∷ us) h = (0, omega arith, refl)
free_slot (suc u ∷ us) h = let (v, lt, e) = free_slot us (omega arith) in (suc v, omega arith, e)

-- A list of draws in which some number is free returns a card.
deal_a_card_returns :
    (rs used : List ℕ) (j r : ℕ)
    → length used ≡ 52
    → get_elem? rs j ≡ some r
    → get_elem? used (r % 52) ≡ some 0
    → (c : Card) × (used' : List ℕ) × (deal_a_card rs used ≡ some (c, used'))
unfolding deal_a_card
deal_a_card_returns [] used j r n e free = cc
deal_a_card_returns (x ∷ rs) used zero r n e free =
    let same : x ≡ r = ground arith in
    (card_of (x % 52), set used (x % 52) 1, rw (ap (λ y. get_elem? used (y % 52)) same ∙ free))
deal_a_card_returns (x ∷ rs) used (suc j) r n e free =
    let (u, there) = get_elem?-some used (x % 52) (omega arith) in
    elim (Bool-cases (u == 0)) [
      | inl hit ↦ (card_of (x % 52), set used (x % 52) 1, rw (there, hit))
      | inr miss ↦
          let (c, used', later) = deal_a_card_returns rs used j r n e free in
          (c, used', rw (there, miss) later)
    ]

update-length :
    (i : ℕ) (f : Player → Player) (ps : List Player) → length (update i f ps) ≡ length ps
update-length i f [] = refl
update-length zero f (p ∷ ps) = refl
update-length (suc i) f (p ∷ ps) = ap suc (update-length i f ps)

get_elem?-update :
    (i : ℕ) (f : Player → Player) (ps : List Player) (p : Player)
    → get_elem? ps i ≡ some p
    → get_elem? (update i f ps) i ≡ some (f p)
get_elem?-update i f [] p h = cc
get_elem?-update zero f (q ∷ ps) p h = ground arith
get_elem?-update (suc i) f (q ∷ ps) p h = get_elem?-update i f ps p h

length-insert_card : (c : Card) (cs : List Card) → length (insert_card c cs) ≡ suc (length cs)
unfolding insert_card
length-insert_card c [] = refl
length-insert_card c (d ∷ ds) = ground (arith, length-insert_card c ds)

length-sort_cards : (cs : List Card) → length (sort_cards cs) ≡ length cs
unfolding sort_cards
length-sort_cards [] = refl
length-sort_cards (c ∷ cs) = length-insert_card c (sort_cards cs) ∙ ap suc (length-sort_cards cs)

figure_rank_returns : (cs : List Card) → 3 ≤ length cs → (r : ℕ) × (figure_rank cs ≡ some r)
unfolding figure_rank
figure_rank_returns [] h = absurd (omega arith)
figure_rank_returns (a ∷ []) h = absurd (omega arith)
figure_rank_returns (a ∷ b ∷ []) h = absurd (omega arith)
figure_rank_returns (a ∷ b ∷ c ∷ cs) h = (_, refl)

-- Dealing `n` cards to a player succeeds while `n` cards are free.
deal_hand_returns :
    (n : ℕ) (draws : ℕ → List ℕ) (k i : ℕ) (ps : List Player) (used : List ℕ) (p : Player)
    → ((j : ℕ) → Covers (draws j))
    → length used ≡ 52
    → count_used used + n ≤ 52
    → get_elem? ps i ≡ some p
    → (ps' : List Player) × (used' : List ℕ) × (p' : Player) × (deal_hand n draws k i ps used
        ≡ some (ps', used'))
      × (length used' ≡ 52)
      × (count_used used' ≡ count_used used + n)
      × (length ps' ≡ length ps)
      × (get_elem? ps' i ≡ some p')
      × (length p'.cards ≡ length p.cards + n)
unfolding deal_hand
deal_hand_returns zero draws k i ps used p cover full room there =
    (ps, used, p, refl, full, omega arith, refl, there, omega arith)
deal_hand_returns (suc n) draws k i ps used p cover full room there =
    let (v, lt, free) = free_slot used (omega arith) in
    let (j, r, drawn, e) = cover k v (omega arith) in
    let (c, used₁, got) =
      deal_a_card_returns (draws k) used j r full drawn (ap (get_elem? used) e ∙ free) in
    let (one, same) = deal_a_card-count (draws k) used used₁ c got in
    let (ps', used', p', rest, full', count', len', there', cards') =
      deal_hand_returns n draws (k + 1) i (update i (get_card c) ps) used₁ (get_card c p) cover
        (omega arith) (omega arith) (get_elem?-update i (get_card c) ps p there) in
    (
      ps',
      used',
      p',
      rw got rest,
      full',
      omega arith,
      len' ∙ update-length i (get_card c) ps,
      there',
      omega (arith, length-append p.cards (c ∷ [])),
    )

-- Each seat of the table refers to a player of the store.
abbrev pub Seats : List ℕ → List Player → Type 0
Seats is ps = (k i : ℕ) → get_elem? is k ≡ some i → i < length ps

deal_all_returns :
    (draws : ℕ → List ℕ) (k : ℕ) (is : List ℕ) (ps : List Player) (used : List ℕ)
    → ((j : ℕ) → Covers (draws j))
    → Seats is ps
    → length used ≡ 52
    → count_used used + 3 * length is ≤ 52
    → (ps' : List Player) × (used' : List ℕ) × (deal_all draws k is ps used ≡ some (ps', used'))
unfolding deal_all
deal_all_returns draws k [] ps used cover seats full room = (ps, used, refl)
deal_all_returns draws k (i ∷ is) ps used cover seats full room =
    let (p, there) = get_elem?-some ps i (seats 0 i refl) in
    let (ps₁, used₁, p₁, hand, full', count', len₁, there₁, three) =
      deal_hand_returns 3 draws k i ps used p cover full (omega arith) there in
    let sorted : List Player = update i sort_player_cards ps₁ in
    let there₂ : get_elem? sorted i ≡ some (sort_player_cards p₁) =
      get_elem?-update i sort_player_cards ps₁ p₁ there₁ in
    let (r, ranked) =
      figure_rank_returns (sort_player_cards p₁).cards
        (omega (arith, length-sort_cards p₁.cards)) in
    let weighed : List Player = update i (λ q. record q { rank = r }) sorted in
    let ps₂ : List Player = update i show_player_cards weighed in
    let len₂ : length ps₂ ≡ length ps =
      update-length i show_player_cards weighed
      ∙ update-length i (λ q. record q { rank = r }) sorted
      ∙ update-length i sort_player_cards ps₁
      ∙ len₁ in
    let (ps', used', rest) =
      deal_all_returns draws (k + 3) is ps₂ used₁ cover
        (λ j m e. subst (λ n. m < n) (sym len₂) (seats (suc j) m e)) full' (omega arith) in
    (ps', used', rw (hand, there₂, ranked) rest)

length-discard_all : (is : List ℕ) (ps : List Player) → length (discard_all is ps) ≡ length ps
unfolding discard_all
length-discard_all [] ps = refl
length-discard_all (i ∷ is) ps =
    length-discard_all is (update i discard ps) ∙ update-length i discard ps

-- At a table of at most 17 players whose seats refer to players that exist, `dealCards` returns, if each
-- of the 52 numbers comes up in what `rand()` returns after each seeding.
pub deal_cards_returns :
    (draws : ℕ → List ℕ) (t : Table)
    → ((j : ℕ) → Covers (draws j))
    → Seats t.players t.store
    → length t.players ≤ 17
    → (t' : Table) × (deal_cards draws t ≡ some t')
unfolding deal_cards
deal_cards_returns draws t cover seats few =
    let zeros : count_used (replicate 52 0) ≡ 0 = unfold count_used in refl in
    let (ps, used, dealt) =
      deal_all_returns draws 0 t.players (discard_all t.players t.store) (replicate 52 0) cover
        (λ j m e. subst (λ n. m < n) (sym (length-discard_all t.players t.store)) (seats j m e))
        refl (omega arith) in
    (record t { store = ps; used = used }, rw dealt)
