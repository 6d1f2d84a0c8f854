-- ===== src/Net/Poller/Leaving.antt =====
-- A channel leaves a Poller: no assert fails, and what the poller keeps agrees again.
use mathlib.Core.Path.{subst}
use xjblg.Base.{
  ℕ, zero, suc, ◌-◌, ◌<◌, ◌≡◌, ◌≢◌, Bool, refl, sym, ap, ◌∙◌, true, false, Option, none, some,
  some-injective, List, [], ◌∷◌, length, length-set, set, take, ◌==◌, get_elem?, arith, ==-refl,
  ==_iff, Bool-cases, inl, inr,
}
use xjblg.Base.Maps.{put, put-same, put-other, ℕ-cases}
use xjblg.Net.Channel.{Channel, Interest, is_none_event}
use xjblg.Net.Epoller.{holds}
use xjblg.Net.Poller.{
  negsuc, PollFd, Poller, same_int, same_bit, same_interest, set_index, descriptor, pop_back,
  swap_last, drop_entry, remove_channel,
}
use xjblg.Net.Poller.Tracking.{
  get_elem?-lt, Tracks, Removed, last-Removed, swap-Removed, Reindexed, elsewhere, Removed-Tracks,
  entry_of,
}

get_elem?-some {ℓ} :
    {A : Type ℓ} (xs : List A) (i : ℕ) → i < length xs → (x : A) × (get_elem? xs i ≡ some x)
get_elem?-some [] i h = ground arith
get_elem?-some (x ∷ xs) zero h = (x, refl)
get_elem?-some (x ∷ xs) (suc i) h = get_elem?-some xs i (omega arith)

same_bit_refl : (b : Bool) → same_bit b b ≡ true
same_bit_refl true = refl
same_bit_refl false = refl

same_interest_refl : (i : Interest) → same_interest i i ≡ true
same_interest_refl i = rw (same_bit_refl i.reads, same_bit_refl i.writes) refl

module _ (p i : ℕ) (e : PollFd) (s : Poller) (t : Tracks s)
    (held : s.channels (s.store p).fd ≡ some p) (index : (s.store p).index ≡ some i)
    (at : get_elem? s.poll_fds i ≡ some e) where
  abbrev without : Poller
  without = record s { channels = put s.channels (s.store p).fd none }

  -- The channel of the last entry gets the index `i`, and no other channel changes.
  last-Reindexed :
      (last : PollFd) (q : ℕ)
      → get_elem? s.poll_fds (length s.poll_fds - 1) ≡ some last
      → s.channels (descriptor last.fd) ≡ some q
      → (s.store q).index ≡ some (length s.poll_fds - 1)
      → Reindexed i
          (length s.poll_fds)
          s.channels
          s.store
          (put s.store q (record (s.store q) { index = some i }))
  last-Reindexed last q there mapped idx = record {
    names = λ r. elim (ℕ-cases r q) [
      | inl same ↦ rw (same, put-same s.store q c) refl
      | inr ne ↦ rw (put-other s.store q c r ne) refl
    ];
    keeps = λ r x entry. elim (ℕ-cases r q) [
      | inl same ↦ record {
        names = entry.names ∙ rw (same, put-same s.store q c) refl;
        wants = entry.wants ∙ rw (same, put-same s.store q c) refl;
      }
      | inr ne ↦ rw (put-other s.store q c r ne) entry
    ];
    stays = λ r j known h.
        let ne : r ≢ q = λ eq.
          (let w : j ≡ length s.poll_fds - 1 =
              some-injective (sym known ∙ ap (λ x. (s.store x).index) eq ∙ idx) in
            omega (arith, w, h)) in
        rw (put-other s.store q c r ne) known;
    goes = λ g r h known later.
        let (same, (j, x, idx', there', entry)) = t.entered g r h in
        let w : some x ≡ some last =
          sym there' ∙ ap (get_elem? s.poll_fds) (some-injective (sym idx' ∙ known)) ∙ there in
        let w' : g ≡ descriptor last.fd =
          sym same ∙ sym entry.names ∙ ap (λ (y : PollFd). descriptor y.fd) (some-injective w) in
        let rq : r ≡ q = some-injective (sym h ∙ ap s.channels w' ∙ mapped) in
        rw (rq, put-same s.store q c) refl;
  }
    where
      c : Channel (Option ℕ)
      c = record (s.store q) { index = some i }

  dropped-Tracks :
      (s' : Poller) × (drop_entry i e without ≡ some s')
      × Tracks s'
      × (s'.channels ≡ put s.channels (s.store p).fd none)
  unfolding drop_entry pop_back swap_last set_index
  dropped-Tracks =
      let bound = get_elem?-lt s.poll_fds i e at in
      elim (Bool-cases (i == (length s.poll_fds - 1))) [
        | inl at_end ↦
            (let last : i ≡ length s.poll_fds - 1 = (==_iff i (length s.poll_fds - 1)).0 at_end in
              (
                pop_back without,
                rw at_end refl,
                Removed-Tracks p i e s t held index at (pop_back without) refl
                    (last-Removed i s.poll_fds bound last)
                    (record {
                      names = λ r. refl;
                      keeps = λ r x y. y;
                      stays = λ r j y h. y;
                      goes = λ g r h y later. ground (arith, last, later);
                    }),
                refl,
              ))
        | inr before ↦
            (let (last, there) =
                get_elem?-some s.poll_fds (length s.poll_fds - 1) (omega (arith, bound)) in
              let (q, mapped, idx) = t.listed (length s.poll_fds - 1) last there in
              let ne : i ≢ length s.poll_fds - 1 = ground (arith, before) in
              let gone : put s.channels (s.store p).fd none (descriptor last.fd) ≡ some q =
                put-other s.channels (s.store p).fd none (descriptor last.fd) (
                  elsewhere p i e s t held index at (descriptor last.fd) q (length s.poll_fds - 1)
                    mapped idx (λ eq. ne (sym eq)))
                ∙ mapped in
              let s' = pop_back (set_index q i (swap_last i e last without)) in
              (
                s',
                rw (before, there, gone) refl,
                Removed-Tracks p i e s t held index at s' refl
                    (subst (Removed i s.poll_fds)
                      (ap
                        (λ n. take (n - 1) (set (set s.poll_fds i last) (length s.poll_fds - 1) e))
                        (sym (
                          length-set (set s.poll_fds i last) (length s.poll_fds - 1) e
                          ∙ length-set s.poll_fds i last)))
                      (swap-Removed i s.poll_fds e last bound ne there))
                    (last-Reindexed last q there mapped idx),
                refl,
              ))
      ]

-- A channel of the poller that wants nothing, and whose entry is negated, leaves: no assert fails, the map
-- loses it alone, and map, indices and entries agree again although the last entry may
-- have moved to its place.
pub remove_channel-Tracks :
    (p i : ℕ) (e : PollFd) (s : Poller)
    → Tracks s
    → s.channels (s.store p).fd ≡ some p
    → (s.store p).index ≡ some i
    → get_elem? s.poll_fds i ≡ some e
    → e.fd ≡ negsuc (s.store p).fd
    → is_none_event (s.store p).interest ≡ true
    → (s' : Poller) × (remove_channel p s ≡ some s')
      × Tracks s'
      × (s'.channels ≡ put s.channels (s.store p).fd none)
unfolding remove_channel
remove_channel-Tracks p i e s t held index at negated idle =
    let entry = entry_of p i e s t held index at in
    let (s', h, t', map) = dropped-Tracks p i e s t held index at in
    let known : holds p (s.channels (s.store p).fd) ≡ true = rw held (==-refl p) in
    let ignored : same_int e.fd (negsuc (s.store p).fd) ≡ true =
      rw negated (==-refl (s.store p).fd) in
    let wanted : same_interest e.events (s.store p).interest ≡ true =
      rw entry.wants (same_interest_refl (s.store p).interest) in
    (s', rw (known, idle, index, at, ignored, wanted) h, t', map)
