-- ===== src/Net/Epoller/Sequences.antt =====
-- Every sequence of calls on the poller, and what a wait delivers.
use xjblg.Base.{
  some-injective, assert-then, ℕ, ◌≡◌, refl, sym, ap, ◌∙◌, true, false, Option, none, some,
}
use mathlib.Core.Path.{subst}
use xjblg.Base.Maps.{put, put-same}
use xjblg.Net.Channel.{Interest, without_all, Channel, is_none_event, none_event}
use xjblg.Net.Epoller.{
  Index, new, added, deleted, Kernel, is_new, is_free, init_event_list_size, Epoller, update_by,
  update_channel, remove_by, remove_channel, change, remove,
}
use xjblg.Net.Epoller.Invariant.{watch_of, watch_at, Agrees}
use xjblg.Net.Epoller.Updating.{change-Agrees}
use xjblg.Net.Epoller.Removal.{remove-Agrees}

is_new-new : (i : Index) → is_new i ≡ true → i ≡ new
is_new-new new h = refl
is_new-new added h = cc
is_new-new deleted h = cc

is_free-none : (o : Option ℕ) → is_free o ≡ true → o ≡ none
is_free-none none h = refl
is_free-none (some q) h = cc

module _ (kernel : Kernel) where
  open kernel use {Instance, watched}

  -- An epoll instance that watches nothing, no channel in the map, and every channel new.
  abbrev pub make_epoller : Instance → (ℕ → Channel Index) → Epoller kernel
  make_epoller k store = record {
    channels = λ fd. none;
    store = store;
    instance = k;
    room = init_event_list_size;
  }

  -- `Run s`: calls that return lead from a new poller to `s`.
  pub data Run : Epoller kernel → Type 0 where
    made :
        (k : Instance) (store : ℕ → Channel Index)
        → ((fd : ℕ) → watched k fd ≡ none)
        → ((p : ℕ) → (store p).index ≡ new)
        → Run (make_epoller k store)
    changed :
        {s : Epoller kernel} (f : Interest → Interest) (p : ℕ) (s' : Epoller kernel)
        → Run s
        → change kernel f p s ≡ some s'
        → Run s'
    removed :
        {s : Epoller kernel} (p : ℕ) (s' : Epoller kernel)
        → Run s
        → remove kernel p s ≡ some s'
        → Run s'

  update_new_free :
      (s s' : Epoller kernel) (p : ℕ)
      → update_by kernel new p s ≡ some s'
      → s.channels (s.store p).fd ≡ none
  unfolding update_by
  update_new_free s s' p h =
      is_free-none (s.channels (s.store p).fd)
        (assert-then (is_free (s.channels (s.store p).fd)) _ h).0

  remove_by_old :
      (i : Index) (s s' : Epoller kernel) (p : ℕ)
      → remove_by kernel i p s ≡ some s'
      → is_new i ≡ false
  unfolding remove_by
  remove_by_old new s s' p h = cc
  remove_by_old added s s' p h = refl
  remove_by_old deleted s s' p h = refl

  -- A call that returned has passed the assert that the descriptor of a new channel is free.
  change_was_free :
      (s s' : Epoller kernel) (f : Interest → Interest) (p : ℕ)
      → change kernel f p s ≡ some s'
      → is_new (s.store p).index ≡ true
      → s.channels (s.store p).fd ≡ none
  unfolding change update_channel
  change_was_free s s' f p h fresh =
      let c = record (s.store p) { interest = f (s.store p).interest; added_to_loop = true } in
      let same = put-same s.store p c in
      let t = record s { store = put s.store p c } in
      let is_it : (t.store p).index ≡ new =
        ap (λ x. x.index) same ∙ is_new-new (s.store p).index fresh in
      ap (λ x. s.channels x.fd) (sym same)
      ∙ update_new_free t s' p (subst (λ i. update_by kernel i p t ≡ some s') is_it h)

  -- A call that returned has passed the asserts of `remove`.
  remove_was_in :
      (s s' : Epoller kernel) (p : ℕ)
      → remove kernel p s ≡ some s'
      → (is_new (s.store p).index ≡ false) × (is_none_event (s.store p).interest ≡ true)
  unfolding remove remove_channel
  remove_was_in s s' p h =
      let c = record (s.store p) { added_to_loop = false } in
      let same = put-same s.store p c in
      let (unwanted, rest) = assert-then (is_none_event (s.store p).interest) _ h in
      let (passed, end) = assert-then _ _ rest in
      (ap (λ x. is_new x.index) (sym same) ∙ remove_by_old _ _ s' p end, unwanted)

  -- After every sequence of calls on a new poller that return, the poller agrees with the kernel: a channel
  -- is in the map under its descriptor exactly if its index is not New, and the kernel
  -- watches exactly the descriptors of the channels that are Added, for what those channels want.
  pub Run-Agrees : (s : Epoller kernel) → Run s → Agrees kernel s
  Run-Agrees s (made k store nothing fresh) = record {
    registered = λ fd p h. cc;
    known = λ p h. cc (h, fresh p);
    watches = nothing;
  }
  Run-Agrees s (changed {s = before} f p s' r h) =
      let (s'', ok, b) =
        change-Agrees kernel before p f (Run-Agrees before r) (change_was_free before s' f p h) in
      subst (Agrees kernel) (some-injective (sym ok ∙ h)) b.agrees
  Run-Agrees s (removed {s = before} p s' r h) =
      let (old, unwanted) = remove_was_in before s' p h in
      let (s'', ok, l) = remove-Agrees kernel before p (Run-Agrees before r) old unwanted in
      subst (Agrees kernel) (some-injective (sym ok ∙ h)) l.agrees

  -- Where the poller agrees with the kernel and a channel is Added, disabling everything twice makes
  -- the kernel watch its descriptor again, for no event but those that epoll always reports.
  pub disable_twice_watches :
      (s : Epoller kernel) (p : ℕ)
      → Agrees kernel s
      → (s.store p).index ≡ added
      → (s1 : Epoller kernel) × (s2 : Epoller kernel) × (change kernel without_all p s ≡ some s1)
        × (change kernel without_all p s1 ≡ some s2)
        × (watched s1.instance (s.store p).fd ≡ none)
        × (watched s2.instance (s.store p).fd ≡ some (record { wants = none_event; ptr = p }))
  disable_twice_watches s p v is_added_now =
      let (s1, ok1, b1) = change-Agrees kernel s p without_all v (λ e. cc (e, is_added_now)) in
      let self1 = ap (λ f. f p) b1.stored ∙ put-same s.store p _ in
      let i1 : (s1.store p).index ≡ deleted = ap (λ c. c.index) self1 ∙ rw is_added_now refl in
      let (s2, ok2, b2) = change-Agrees kernel s1 p without_all b1.agrees (λ e. cc (e, i1)) in
      let self2 = ap (λ f. f p) b2.stored ∙ put-same s1.store p _ in
      let i2 : (s2.store p).index ≡ added = ap (λ c. c.index) self2 ∙ rw i1 refl in
      let fd1 : (s1.store p).fd ≡ (s.store p).fd = ap (λ c. c.fd) self1 in
      let fd2 : (s2.store p).fd ≡ (s.store p).fd = ap (λ c. c.fd) self2 ∙ fd1 in
      let at1 = b1.agrees.known p (ap is_new i1) in
      let at2 = b2.agrees.known p (ap is_new i2) in
      (
        s1,
        s2,
        ok1,
        ok2,
        b1.agrees.watches (s.store p).fd
            ∙ ap (λ o. watch_at s1.store o) (ap s1.channels (sym fd1) ∙ at1)
            ∙ rw i1 refl,
        b2.agrees.watches (s.store p).fd
            ∙ ap (λ o. watch_at s2.store o) (ap s2.channels (sym fd2) ∙ at2)
            ∙ ap (watch_of p) self2
            ∙ rw i1 refl,
      )
