-- ===== src/Net/Epoller/Updating.antt =====
-- Updating a channel: `Channel::update` and `EPoller::updateChannel`.
use xjblg.Base.{
  ℕ, ◌≡◌, refl, sym, ap, ◌∙◌, inl, inr, Bool-cases, ==-refl, Bool, true, false, none, some,
  if◌then◌else◌,
}
use xjblg.Base.Maps.{put, put-same, put-put, put-known}
use xjblg.Net.Channel.{Interest, Channel, is_none_event}
use xjblg.Net.Epoller.{
  Index, new, added, deleted, Event, Kernel, is_new, Epoller, set_index, update, update_by,
  update_channel, change,
}
use xjblg.Net.Epoller.Invariant.{watch_of, watch_at, Agrees, entered, entered-Agrees}

-- The index after an update: a channel that wants nothing leaves the kernel if it was Added, and is
-- Added otherwise.
abbrev pub index_after : Index → Bool → Index
index_after added none_left = if none_left then deleted else added
index_after new none_left = added
index_after deleted none_left = added

module _ (kernel : Kernel) where
  open kernel use {Instance, ctl, watched, adds, changes, deletes}

  -- What a call leaves: the poller agrees with the kernel again, and the channel is `c` with its next index.
  pub record Becomes (p : ℕ) (c : Channel Index) (s s' : Epoller kernel) : Type 0 where
    pub agrees : Agrees kernel s'
    pub stored :
        s'.store
        ≡ put s.store p (record c { index = index_after c.index (is_none_event c.interest) })

  module _ (s : Epoller kernel) (p : ℕ) (c : Channel Index) (v : Agrees kernel s)
      (fd : c.fd ≡ (s.store p).fd) where
    -- The channel with an index.
    abbrev at : Index → Channel Index
    at i = record c { index = i }

    abbrev event : Event
    event = record { wants = c.interest; ptr = p }

    entered-Becomes :
        (before i : Index) (k : Instance)
        → i ≡ index_after before (is_none_event c.interest)
        → is_new i ≡ false
        → ((q : ℕ) → s.channels c.fd ≡ some q → q ≡ p)
        → (watched k ≡ put (watched s.instance) c.fd (watch_of p (at i)))
        → Becomes p (at before) s (entered kernel s p (at i) k)
    entered-Becomes before i k next old only w = record {
      agrees = entered-Agrees kernel s p (at i) k v fd old only w;
      stored = ap (λ j. put s.store p (at j)) next;
    }

    here : (i : Index) → i ≡ (s.store p).index → is_new i ≡ false → s.channels c.fd ≡ some p
    here i same old = ap s.channels fd ∙ v.known p (ap is_new (sym same) ∙ old)

    -- What the kernel watches for a channel that is in the map.
    seen :
        (i : Index)
        → i ≡ (s.store p).index
        → is_new i ≡ false
        → watched s.instance c.fd ≡ watch_of p (record (s.store p) { index = i })
    seen i same old =
        v.watches c.fd
        ∙ ap (watch_at s.store) (here i same old)
        ∙ ap (λ j. watch_of p (record (s.store p) { index = j })) (sym same)

    update_new :
        s.channels c.fd ≡ none
        → (s' : Epoller kernel) × (update_by kernel new p
              (record s { store = put s.store p (at new) })
            ≡ some s')
          × Becomes p (at new) s s'
    unfolding update_by update set_index
    update_new free =
        let (k, ok, w) = adds s.instance c.fd event (v.watches c.fd ∙ ap (watch_at s.store) free) in
        (
          entered kernel s p (at added) k,
          rw
              (
                put-same s.store p (at new),
                put-put s.store p (at new) (at added),
                put-same s.store p (at added),
                free,
                ok,
              )
              refl,
          entered-Becomes new added k refl refl (λ q h. cc (h, free)) w,
        )

    update_deleted :
        deleted ≡ (s.store p).index
        → (s' : Epoller kernel) × (update_by kernel deleted p
              (record s { store = put s.store p (at deleted) })
            ≡ some s')
          × Becomes p (at deleted) s s'
    unfolding update_by update set_index
    update_deleted same =
        let own = here deleted same refl in
        let (k, ok, w) = adds s.instance c.fd event (seen deleted same refl) in
        (
          entered kernel s p (at added) k,
          rw
              (
                put-same s.store p (at deleted),
                put-put s.store p (at deleted) (at added),
                put-same s.store p (at added),
                put-known s.channels c.fd (some p) own,
                own,
                ==-refl p,
                ok,
              )
              refl,
          entered-Becomes deleted added k refl refl (λ q h. cc (h, own)) w,
        )

    update_added :
        added ≡ (s.store p).index
        → (s' : Epoller kernel) × (update_by kernel added p
              (record s { store = put s.store p (at added) })
            ≡ some s')
          × Becomes p (at added) s s'
    unfolding update_by update set_index
    update_added same =
        let own = here added same refl in
        elim (Bool-cases (is_none_event c.interest)) [
          | inl none_left ↦
              let (k, ok, w) = deletes s.instance c.fd event _ (seen added same refl) in
              (
                entered kernel s p (at deleted) k,
                rw
                    (
                      put-same s.store p (at added),
                      put-known s.channels c.fd (some p) own,
                      own,
                      ==-refl p,
                      none_left,
                      ok,
                      put-same s.store p (at added),
                      put-put s.store p (at added) (at deleted),
                    )
                    refl,
                entered-Becomes added deleted k (rw none_left refl) refl (λ q h. cc (h, own)) w,
              )
          | inr some_left ↦
              let (k, ok, w) = changes s.instance c.fd event _ (seen added same refl) in
              (
                entered kernel s p (at added) k,
                rw
                    (
                      put-same s.store p (at added),
                      put-known s.channels c.fd (some p) own,
                      own,
                      ==-refl p,
                      some_left,
                      ok,
                    )
                    refl,
                entered-Becomes added added k (rw some_left refl) refl (λ q h. cc (h, own)) w,
              )
        ]

    update_lem :
        (i : Index)
        → i ≡ (s.store p).index
        → (is_new i ≡ true → s.channels c.fd ≡ none)
        → (s' : Epoller kernel) × (update_by kernel i p (record s { store = put s.store p (at i) })
            ≡ some s')
          × Becomes p (at i) s s'
    update_lem new same free = update_new (free refl)
    update_lem added same free = update_added same
    update_lem deleted same free = update_deleted same

  -- Where the poller agrees with the kernel, and a new channel's descriptor belongs to no other channel in
  -- it, enabling or disabling an interest of a channel passes every assert, and the kernel takes it. Then
  -- the poller agrees with the kernel again, so the kernel watches for exactly what the channels that are
  -- Added want; the channel has its new interest and its next index, and the other channels are as before.
  pub change-Agrees :
      (s : Epoller kernel) (p : ℕ) (f : Interest → Interest)
      → Agrees kernel s
      → (is_new (s.store p).index ≡ true → s.channels (s.store p).fd ≡ none)
      → (s' : Epoller kernel) × (change kernel f p s ≡ some s')
        × Becomes p
            (record (s.store p) { interest = f (s.store p).interest; added_to_loop = true })
            s
            s'
  unfolding change update_channel
  change-Agrees s p f v free =
      let c = record (s.store p) { interest = f (s.store p).interest; added_to_loop = true } in
      let (s', ok, b) = update_lem s p c v refl c.index refl free in
      (s', rw (put-same s.store p c) ok, b)
