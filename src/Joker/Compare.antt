-- ===== src/Joker/Compare.antt =====
-- `compareTwoPlayers`: who may compare with whom, and who folds.
use xjblg.Base.{
  ℕ, ◌≤◌, ◌<◌, ◌≡◌, refl, sym, ap, ◌∙◌, ◌≢◌, ◌&&◌, ◌||◌, not, ltb→lt, Bool-cases, ◌⊎◌, inl, inr,
  true, false, some, List, [], ◌∷◌, arith, get_elem?, ltb, zero, suc,
}
use xjblg.Joker.Table.{
  Table, Player, PlayerState, pblind, pknow, win, fault, error, update, compare_two_players,
  is_know, is_blind, same_state, set_state, discard,
}

get_elem?-update_ne :
    (i j : ℕ) (f : Player → Player) (ps : List Player)
    → i ≢ j
    → get_elem? (update i f ps) j ≡ get_elem? ps j
get_elem?-update_ne i j f [] h = refl
get_elem?-update_ne zero zero f (p ∷ ps) h = absurd (h refl)
get_elem?-update_ne zero (suc j) f (p ∷ ps) h = refl
get_elem?-update_ne (suc i) zero f (p ∷ ps) h = refl
get_elem?-update_ne (suc i) (suc j) f (p ∷ ps) h = get_elem?-update_ne i j f ps (λ e. h (ap suc e))

get_elem?-update_self :
    (i : ℕ) (f : Player → Player) (ps : List Player) (p : Player)
    → get_elem? ps i ≡ some p
    → get_elem? (update i f ps) i ≡ some (f p)
get_elem?-update_self i f [] p h = cc
get_elem?-update_self zero f (q ∷ ps) p h = ground arith
get_elem?-update_self (suc i) f (q ∷ ps) p h = get_elem?-update_self i f ps p h

-- The comparisons that go through: both have looked at their cards, or the other one has not and the
-- caller is in any state but that.
abbrev pub GoesThrough : PlayerState → PlayerState → Type 0
GoesThrough s s' = ((s ≡ pknow) × (s' ≡ pknow)) ⊎ ((s ≢ pknow) × (s' ≡ pblind))

not_refused_lem : (s s' : PlayerState) → GoesThrough s s' → (is_know s && not (is_know s')) ≡ false
not_refused_lem s s' a = ground arith

through_lem :
    (s s' : PlayerState)
    → GoesThrough s s'
    → ((same_state s s' && is_know s') || is_blind s') ≡ true
through_lem s s' a = ground arith

refused_lem :
    (s s' : PlayerState)
    → ¬ GoesThrough s s'
    → ((is_know s && not (is_know s')) ≡ true)
      ⊎ (((is_know s && not (is_know s')) ≡ false)
          × (((same_state s s' && is_know s') || is_blind s') ≡ false))
refused_lem s s' a = ground arith

-- For two different players in such states, `compareTwoPlayers` goes through: the lower rank folds, a tie counts for the caller, and the
-- winner has looked at the cards.
pub compare_two_players_through :
    (i j : ℕ) (t : Table) (p q : Player)
    → i ≢ j
    → get_elem? t.store i ≡ some p
    → get_elem? t.store j ≡ some q
    → GoesThrough p.state q.state
    → (t' : Table) × (((p.rank < q.rank)
          × (compare_two_players i j t ≡ some (fault, t'))
          × (get_elem? t'.store i ≡ some (discard p))
          × (get_elem? t'.store j ≡ some (set_state pknow q)))
        ⊎ ((q.rank ≤ p.rank)
            × (compare_two_players i j t ≡ some (win, t'))
            × (get_elem? t'.store i ≡ some (set_state pknow p))
            × (get_elem? t'.store j ≡ some (discard q))))
unfolding compare_two_players
compare_two_players_through i j t p q ne ep eq ok =
    let not_refused : (is_know p.state && not (is_know q.state)) ≡ false =
      not_refused_lem p.state q.state ok in
    let through : ((same_state p.state q.state && is_know q.state) || is_blind q.state) ≡ true =
      through_lem p.state q.state ok in
    let s : List Player = update i (set_state pknow) t.store in
    let shown : List Player = update j (set_state pknow) s in
    let at_i : get_elem? shown i ≡ some (set_state pknow p) =
      get_elem?-update_ne j i (set_state pknow) s (λ e. ne (sym e))
      ∙ get_elem?-update_self i (set_state pknow) t.store p ep in
    let at_j : get_elem? shown j ≡ some (set_state pknow q) =
      get_elem?-update_self j (set_state pknow) s q
        (get_elem?-update_ne i j (set_state pknow) t.store ne ∙ eq) in
    elim (Bool-cases (ltb p.rank q.rank)) [
      | inl less ↦ (
        record t { store = update i discard shown },
        inl (
          ltb→lt p.rank q.rank less,
          rw (ep, eq, not_refused, through, less),
          get_elem?-update_self i discard shown (set_state pknow p) at_i,
          get_elem?-update_ne i j discard shown ne ∙ at_j,
        ),
      )
      | inr more ↦ (
        record t { store = update j discard shown },
        inr (
          ground arith,
          rw (ep, eq, not_refused, through, more),
          get_elem?-update_ne j i discard shown (λ e. ne (sym e)) ∙ at_i,
          get_elem?-update_self j discard shown (set_state pknow q) at_j,
        ),
      )
    ]

-- The comparisons that the comment on `compareTwoPlayers` allows: both have looked, or both are blind.
abbrev pub Allowed : PlayerState → PlayerState → Type 0
Allowed s s' = ((s ≡ pknow) × (s' ≡ pknow)) ⊎ ((s ≡ pblind) × (s' ≡ pblind))

-- A caller that waits or has folded, and is thus in no game, may compare with another player that is
-- blind, which the comment on `compareTwoPlayers` does not allow: where its rank is not lower it wins, the
-- blind player folds, and the caller has looked at its cards and is in the game.
pub outsider_wins :
    (i j : ℕ) (t : Table) (p q : Player)
    → i ≢ j
    → get_elem? t.store i ≡ some p
    → get_elem? t.store j ≡ some q
    → p.state ≢ pknow
    → p.state ≢ pblind
    → q.state ≡ pblind
    → q.rank ≤ p.rank
    → (t' : Table) × (compare_two_players i j t ≡ some (win, t'))
      × (get_elem? t'.store i ≡ some (set_state pknow p))
      × (get_elem? t'.store j ≡ some (discard q))
outsider_wins i j t p q ne ep eq not_know not_blind blind more =
    let (t', cases) = compare_two_players_through i j t p q ne ep eq (inr (not_know, blind)) in
    elim cases [
      | inl (less, e1, e2, e3) ↦ absurd (omega (arith, less, more))
      | inr (e1, won, at_i, at_j) ↦ (t', won, at_i, at_j)
    ]

-- For two players in any other states, `compareTwoPlayers` returns an error and changes nothing.
pub compare_two_players_refused :
    (i j : ℕ) (t : Table) (p q : Player)
    → get_elem? t.store i ≡ some p
    → get_elem? t.store j ≡ some q
    → ¬ GoesThrough p.state q.state
    → compare_two_players i j t ≡ some (error, t)
unfolding compare_two_players
compare_two_players_refused i j t p q ep eq bad =
    rw (ep, eq) (elim (refused_lem p.state q.state bad) [ inl e ↦ rw e | inr (e, f) ↦ rw (e, f) ])
