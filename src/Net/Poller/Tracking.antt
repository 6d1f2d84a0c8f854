-- ===== src/Net/Poller/Tracking.antt =====
-- What the map, the indices and the entries of a Poller agree on, and that a removal keeps it although it
-- moves an entry.
use mathlib.Core.Path.{subst}
use xjblg.Base.{
  ℕ, zero, suc, ◌-◌, ◌<◌, ◌≡◌, ◌≢◌, refl, sym, ap, ◌∙◌, Option, none, some, some-injective, List,
  [], ◌∷◌, length, set, take, get_elem?, arith, inl, inr,
}
use xjblg.Base.Maps.{put, put-same, put-other, ℕ-cases}
use xjblg.Net.Channel.{Channel}
use xjblg.Net.Poller.{PollFd, Poller, descriptor}

pub get_elem?-lt {ℓ} :
    {A : Type ℓ} (xs : List A) (i : ℕ) (x : A) → get_elem? xs i ≡ some x → i < length xs
get_elem?-lt [] i x h = cc
get_elem?-lt (y ∷ xs) zero x h = omega arith
get_elem?-lt (y ∷ xs) (suc i) x h = let q = get_elem?-lt xs i x h in omega arith

get_elem?-take {ℓ} :
    {A : Type ℓ} (n : ℕ) (xs : List A) (i : ℕ) → i < n → get_elem? (take n xs) i ≡ get_elem? xs i
get_elem?-take zero xs i h = ground arith
get_elem?-take (suc n) [] i h = refl
get_elem?-take (suc n) (x ∷ xs) zero h = refl
get_elem?-take (suc n) (x ∷ xs) (suc i) h = get_elem?-take n xs i (omega arith)

take_lt {ℓ} :
    {A : Type ℓ} (n : ℕ) (xs : List A) (i : ℕ) (x : A) → get_elem? (take n xs) i ≡ some x → i < n
take_lt zero xs i x h = cc
take_lt (suc n) [] i x h = cc
take_lt (suc n) (y ∷ xs) zero x h = omega arith
take_lt (suc n) (y ∷ xs) (suc i) x h = let q = take_lt n xs i x h in omega arith

get_elem?-set_same {ℓ} :
    {A : Type ℓ} (xs : List A) (i : ℕ) (x : A) → i < length xs → get_elem? (set xs i x) i ≡ some x
get_elem?-set_same [] i x h = ground arith
get_elem?-set_same (y ∷ xs) zero x h = refl
get_elem?-set_same (y ∷ xs) (suc i) x h = get_elem?-set_same xs i x (omega arith)

get_elem?-set_other {ℓ} :
    {A : Type ℓ} (xs : List A) (i j : ℕ) (x : A) → j ≢ i → get_elem? (set xs i x) j ≡ get_elem? xs j
get_elem?-set_other [] i j x h = refl
get_elem?-set_other (y ∷ xs) zero zero x h = ground arith
get_elem?-set_other (y ∷ xs) zero (suc j) x h = refl
get_elem?-set_other (y ∷ xs) (suc i) zero x h = refl
get_elem?-set_other (y ∷ xs) (suc i) (suc j) x h = get_elem?-set_other xs i j x (λ e. h (ap suc e))

-- An entry for the channel: its descriptor, negated or not, and what it wants.
pub record IsEntry (c : Channel (Option ℕ)) (e : PollFd) : Type 0 where
  pub names : descriptor e.fd ≡ c.fd
  pub wants : e.events ≡ c.interest

-- Each channel in the map stands under its descriptor and has the place of its entry for its index; each
-- entry belongs to a channel in the map.
pub record Tracks (s : Poller) : Type 0 where
  pub entered :
      (fd p : ℕ)
      → s.channels fd ≡ some p
      → ((s.store p).fd ≡ fd)
        × ((i : ℕ) × (e : PollFd) × ((s.store p).index ≡ some i)
            × (get_elem? s.poll_fds i ≡ some e)
            × IsEntry (s.store p) e)
  pub listed :
      (i : ℕ) (e : PollFd)
      → get_elem? s.poll_fds i ≡ some e
      → (p : ℕ) × (s.channels (descriptor e.fd) ≡ some p) × ((s.store p).index ≡ some i)

-- The entries after the removal of the one at `i`: the last one is at its place.
pub record Removed (i : ℕ) (before after : List PollFd) : Type 0 where
  pub others : (j : ℕ) → j ≢ i → suc j < length before → get_elem? after j ≡ get_elem? before j
  pub moved : suc i < length before → get_elem? after i ≡ get_elem? before (length before - 1)
  pub shorter : (j : ℕ) (e : PollFd) → get_elem? after j ≡ some e → suc j < length before

-- A removal of the last entry.
pub last-Removed :
    (i : ℕ) (es : List PollFd)
    → i < length es
    → i ≡ length es - 1
    → Removed i es (take (length es - 1) es)
last-Removed i es bound last = record {
  others = λ j ne h. get_elem?-take (length es - 1) es j (omega arith);
  moved = λ h. ground arith;
  shorter = λ j e h. let q = take_lt (length es - 1) es j e h in omega arith;
}

-- A removal of an entry that changes places with the last one.
pub swap-Removed :
    (i : ℕ) (es : List PollFd) (e last : PollFd)
    → i < length es
    → i ≢ length es - 1
    → get_elem? es (length es - 1) ≡ some last
    → Removed i es (take (length es - 1) (set (set es i last) (length es - 1) e))
swap-Removed i es e last bound ne at = record {
  others = λ j other h.
      get_elem?-take n swapped j (omega arith)
      ∙ get_elem?-set_other (set es i last) n j e (omega arith)
      ∙ get_elem?-set_other es i j last other;
  moved = λ h.
      get_elem?-take n swapped i (omega arith)
      ∙ get_elem?-set_other (set es i last) n i e ne
      ∙ get_elem?-set_same es i last bound
      ∙ sym at;
  shorter = λ j x h. let q = take_lt n swapped j x h in omega arith;
}
  where
    n : ℕ
    n = length es - 1

    swapped : List PollFd
    swapped = set (set es i last) n e

-- The channels after the removal of the entry `i` of `n`: the one of the last entry has the index `i`.
pub record Reindexed (i n : ℕ) (channels : ℕ → Option ℕ) (before after : ℕ → Channel (Option ℕ))
    : Type 0 where
  pub names : (r : ℕ) → (after r).fd ≡ (before r).fd
  pub keeps : (r : ℕ) (e : PollFd) → IsEntry (before r) e → IsEntry (after r) e
  pub stays : (r j : ℕ) → (before r).index ≡ some j → suc j < n → (after r).index ≡ some j
  pub goes :
      (fd r : ℕ)
      → channels fd ≡ some r
      → (before r).index ≡ some (n - 1)
      → suc i < n
      → (after r).index ≡ some i

module _ (p i : ℕ) (e : PollFd) (s : Poller) (t : Tracks s)
    (held : s.channels (s.store p).fd ≡ some p) (index : (s.store p).index ≡ some i)
    (at : get_elem? s.poll_fds i ≡ some e) where
  abbrev fd : ℕ
  fd = (s.store p).fd

  pub entry_of : IsEntry (s.store p) e
  entry_of =
      let (same, (j, x, idx, there, entry)) = t.entered fd p held in
      let q : some x ≡ some e =
        sym there ∙ ap (get_elem? s.poll_fds) (some-injective (sym idx ∙ index)) ∙ at in
      subst (IsEntry (s.store p)) (some-injective q) entry

  -- No other channel has the entry.
  apart :
      (g r j : ℕ) (x : PollFd)
      → g ≢ fd
      → (s.store r).fd ≡ g
      → get_elem? s.poll_fds j ≡ some x
      → IsEntry (s.store r) x
      → j ≢ i
  apart g r j x ne same there entry eq =
      let q : some x ≡ some e = sym there ∙ ap (get_elem? s.poll_fds) eq ∙ at in
      ne (
        sym same
        ∙ sym entry.names
        ∙ ap (λ (y : PollFd). descriptor y.fd) (some-injective q)
        ∙ entry_of.names)

  -- An entry at another place belongs to another channel.
  pub elsewhere : (g r j : ℕ) → s.channels g ≡ some r → (s.store r).index ≡ some j → j ≢ i → g ≢ fd
  elsewhere g r j h idx ne eq =
      let q : some r ≡ some p = sym h ∙ ap s.channels eq ∙ held in
      ne (some-injective (sym idx ∙ ap (λ x. (s.store x).index) (some-injective q) ∙ index))

  pub Removed-Tracks :
      (s' : Poller)
      → s'.channels ≡ put s.channels fd none
      → Removed i s.poll_fds s'.poll_fds
      → Reindexed i (length s.poll_fds) s.channels s.store s'.store
      → Tracks s'
  Removed-Tracks s' map r x = record { entered = in_map; listed = in_list }
    where
      bound : i < length s.poll_fds
      bound = get_elem?-lt s.poll_fds i e at

      in_map :
          (g q : ℕ)
          → s'.channels g ≡ some q
          → ((s'.store q).fd ≡ g)
            × ((j : ℕ) × (y : PollFd) × ((s'.store q).index ≡ some j)
                × (get_elem? s'.poll_fds j ≡ some y)
                × IsEntry (s'.store q) y)
      in_map g q h = elim (ℕ-cases g fd) [
        | inl same ↦ cc (put-same s.channels fd none, map, same, h)
        | inr ne ↦
            (let h0 : s.channels g ≡ some q =
                sym (put-other s.channels fd none g ne) ∙ ap (λ f. f g) (sym map) ∙ h in
              let (same, (j, y, idx, there, entry)) = t.entered g q h0 in
              let lt = get_elem?-lt s.poll_fds j y there in
              let other = apart g q j y ne same there entry in
              (
                x.names q ∙ same,
                elim (ℕ-cases j (length s.poll_fds - 1)) [
                  | inl last ↦
                      (let later : suc i < length s.poll_fds =
                          omega (arith, last, other, lt, bound) in
                        (
                          i,
                          y,
                          x.goes g q h0 (idx ∙ ap some last) later,
                          r.moved later ∙ ap (get_elem? s.poll_fds) (sym last) ∙ there,
                          x.keeps q y entry,
                        ))
                  | inr before ↦
                      (let earlier : suc j < length s.poll_fds = omega (arith, before, lt) in
                        (
                          j,
                          y,
                          x.stays q j idx earlier,
                          r.others j other earlier ∙ there,
                          x.keeps q y entry,
                        ))
                ],
              ))
      ]

      in_list :
          (j : ℕ) (y : PollFd)
          → get_elem? s'.poll_fds j ≡ some y
          → (q : ℕ) × (s'.channels (descriptor y.fd) ≡ some q) × ((s'.store q).index ≡ some j)
      in_list j y h =
          let earlier = r.shorter j y h in
          elim (ℕ-cases j i) [
            | inl same ↦
                (let later : suc i < length s.poll_fds = omega (arith, earlier, same) in
                  let (q, h0, idx) =
                    t.listed (length s.poll_fds - 1) y
                      (sym (r.moved later) ∙ ap (get_elem? s'.poll_fds) (sym same) ∙ h) in
                  (
                    q,
                    ap (λ f. f (descriptor y.fd)) map
                        ∙ put-other s.channels fd none (descriptor y.fd) (
                            elsewhere (descriptor y.fd) q (length s.poll_fds - 1) h0 idx
                              (omega (arith, later)))
                        ∙ h0,
                    x.goes (descriptor y.fd) q h0 idx later ∙ ap some (sym same),
                  ))
            | inr ne ↦
                (let (q, h0, idx) = t.listed j y (sym (r.others j ne earlier) ∙ h) in
                  (
                    q,
                    ap (λ f. f (descriptor y.fd)) map
                        ∙ put-other s.channels fd none (descriptor y.fd)
                            (elsewhere (descriptor y.fd) q j h0 idx ne)
                        ∙ h0,
                    x.stays q j idx earlier,
                  ))
          ]
