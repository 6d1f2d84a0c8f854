-- ===== src/Net/Poller/Faults.antt =====
-- What goes wrong when a channel leaves a Poller.
use xjblg.Base.{
  ℕ, ◌≡◌, refl, sym, ap, ◌∙◌, false, ◌&&◌, Option, none, some, length, ◌-◌, ◌==◌, get_elem?, ◌>>=◌,
  >>=-eq-some, assert-then, Option-cases, Bool-cases, inl, inr, length-append, some-injective, List,
  [], ◌∷◌, ◌++◌, arith,
}
use xjblg.Base.Maps.{put, put-same, put-other, ℕ-cases}
use xjblg.Net.Channel.{is_none_event, Channel}
use xjblg.Net.Epoller.{holds, is_free}
use xjblg.Net.Poller.{
  PollFd, Poller, same_int, pos, negsuc, same_interest, set_index, add_new, update_old,
  update_channel, update_by, pop_back, swap_last, drop_entry, remove_channel, descriptor,
}

get_elem?-append : (es : List PollFd) (e : PollFd) → get_elem? (es ++ (e ∷ [])) (length es) ≡ some e
get_elem?-append [] e = refl
get_elem?-append (x ∷ es) e = get_elem?-append es e

get_elem?-last :
    (es : List PollFd) (e : PollFd)
    → get_elem? (es ++ (e ∷ [])) (length (es ++ (e ∷ [])) - 1) ≡ some e
get_elem?-last es e =
    ap (get_elem? (es ++ (e ∷ []))) (
      let q : length (es ++ (e ∷ [])) - 1 ≡ length es =
        rw (length-append es (e ∷ [])) (omega arith) in
      q)
    ∙ get_elem?-append es e

gone :
    (p i : ℕ) (s : Poller)
    → (s.store p).index ≡ some i
    → s.channels (s.store p).fd ≡ none
    → update_channel p s ≡ none
unfolding update_channel update_old
gone p i s index free = rw (index, free) refl

-- The same after another channel has got a new index.
moved_gone :
    (p q i j : ℕ) (s : Poller)
    → (s.store p).index ≡ some i
    → s.channels (s.store p).fd ≡ none
    → update_channel p (set_index q j s) ≡ none
unfolding set_index
moved_gone p q i j s index free = elim (ℕ-cases p q) [
  | inl same ↦
      gone p j (set_index q j s)
        (rw (same, put-same s.store q (record (s.store q) { index = some j })) refl)
        (rw (same, put-same s.store q (record (s.store q) { index = some j }), sym same) free)
  | inr other ↦
      gone p i (set_index q j s)
        (rw (put-other s.store q (record (s.store q) { index = some j }) p other) index)
        (rw (put-other s.store q (record (s.store q) { index = some j }) p other) free)
]

dropped_gone :
    (p i j : ℕ) (e : PollFd) (s : Poller)
    → (s.store p).index ≡ some j
    → s.channels (s.store p).fd ≡ none
    → (drop_entry i e s >>= update_channel p) ≡ none
unfolding drop_entry pop_back swap_last set_index
dropped_gone p i j e s index free = elim (Bool-cases (i == (length s.poll_fds - 1))) [
  | inl last ↦ rw last (gone p j (pop_back s) index free)
  | inr before ↦ elim (Option-cases (get_elem? s.poll_fds (length s.poll_fds - 1))) [
    | inl lost ↦ rw (before, lost) refl
    | inr (last, e1) ↦ elim (Option-cases (s.channels (descriptor last.fd))) [
      | inl lost ↦ rw (before, e1, lost) refl
      | inr (q, e2) ↦
          rw (before, e1, e2) (moved_gone p q j i (pop_back (swap_last i e last s)) index free)
    ]
  ]
]

-- A channel that was removed can not be updated again: its index stays, while the map has lost it, so
-- that an assert fails.
pub removed_cannot_return :
    (p : ℕ) (s s' : Poller) → remove_channel p s ≡ some s' → update_channel p s' ≡ none
unfolding remove_channel
removed_cannot_return p s s' h =
    let c = s.store p in
    let (m, h1) = assert-then (holds p (s.channels c.fd)) _ h in
    let (m1, h2) = assert-then (is_none_event c.interest) _ h1 in
    let (i, index, h3) = >>=-eq-some c.index _ h2 in
    let (e, at, h4) = >>=-eq-some (get_elem? s.poll_fds i) _ h3 in
    let (m2, h5) =
      assert-then (same_int e.fd (negsuc c.fd) && same_interest e.events c.interest) _ h4 in
    ap (λ o. o >>= update_channel p) (sym h5)
    ∙ dropped_gone p i i e (record s { channels = put s.channels c.fd none }) index
        (put-same s.channels c.fd none)

not_negated :
    (p i : ℕ) (e : PollFd) (s : Poller)
    → (s.store p).index ≡ some i
    → get_elem? s.poll_fds i ≡ some e
    → same_int e.fd (negsuc (s.store p).fd) ≡ false
    → remove_channel p s ≡ none
unfolding remove_channel
not_negated p i e s index at differs = elim (Bool-cases (holds p (s.channels (s.store p).fd))) [
  | inl held ↦ elim (Bool-cases (is_none_event (s.store p).interest)) [
    | inl idle ↦ rw (held, idle, index, at, differs) refl
    | inr wants ↦ rw (held, wants) refl
  ]
  | inr lost ↦ rw lost refl
]

-- A channel that has just entered the poller can not be removed, and this does not depend on what it
-- wants: its descriptor is not negated, so that an assert fails even where it wants nothing.
pub newcomer_cannot_leave :
    (p : ℕ) (s s' : Poller)
    → (s.store p).index ≡ none
    → update_channel p s ≡ some s'
    → remove_channel p s' ≡ none
unfolding update_channel add_new set_index
newcomer_cannot_leave p s s' new h =
    let c = s.store p in
    let h' : add_new p s ≡ some s' = sym (ap (λ o. update_by o p s) new) ∙ h in
    let (free, e) = assert-then (is_free (s.channels c.fd)) _ h' in
    let entry : PollFd = record { fd = pos c.fd; events = c.interest; revents = none } in
    let fds = s.poll_fds ++ (entry ∷ []) in
    let same = put-same s.store p (record c { index = some (length fds - 1) }) in
    ap (remove_channel p) (sym (some-injective e))
    ∙ not_negated p (length fds - 1) entry _ (ap (λ (x : Channel (Option ℕ)). x.index) same)
        (get_elem?-last s.poll_fds entry) refl
