-- ===== src/Net/Epoller/Removal.antt =====
-- Taking a channel out of the poller: `Channel::remove` and `EPoller::removeChannel`.
use xjblg.Base.{
  some-injective, ==-refl, ℕ, ◌≡◌, refl, sym, ap, ◌∙◌, inl, inr, true, false, none, some,
}
use xjblg.Base.Maps.{put, put-same, put-other, put-put, put-known, put-every, ℕ-cases}
use xjblg.Net.Channel.{Channel, is_none_event}
use xjblg.Net.Epoller.{
  Index, new, added, deleted, Kernel, is_new, Epoller, set_index, update, remove_by, remove_channel,
  remove,
}
use xjblg.Net.Epoller.Invariant.{watch_at, Agrees, other_channel, watch_at-put}

module _ (kernel : Kernel) where
  open kernel use {Instance, ctl, watched, deletes}

  -- The poller after the channel `p` has become `c`, and is out of the map.
  abbrev left : Epoller kernel → ℕ → Channel Index → Instance → Epoller kernel
  left s p c k = record s {
    channels = put s.channels c.fd none;
    store = put s.store p c;
    instance = k;
  }

  left-Agrees :
      (s : Epoller kernel) (p : ℕ) (c : Channel Index) (k : Instance)
      → Agrees kernel s
      → c.fd ≡ (s.store p).fd
      → c.index ≡ new
      → s.channels c.fd ≡ some p
      → (watched k ≡ put (watched s.instance) c.fd none)
      → Agrees kernel (left s p c k)
  left-Agrees s p c k v fd is_out own w = record {
    registered =
        put-every
          (λ j o.
            (q : ℕ)
            → o ≡ some q
            → ((put s.store p c q).fd ≡ j) × (is_new (put s.store p c q).index ≡ false))
          s.channels c.fd none (λ q e. cc)
          (λ j ne q h.
            rw (put-other s.store p c q (other_channel kernel p c.fd v fd j q ne h))
              (v.registered j q h));
    known =
        put-every (λ q x. is_new x.index ≡ false → put s.channels c.fd none x.fd ≡ some q) s.store p
          c (λ h. cc (h, is_out))
          (λ q ne h.
            put-other s.channels c.fd none (s.store q).fd
              (λ e. ne (some-injective (sym (v.known q h) ∙ ap s.channels e ∙ own)))
            ∙ v.known q h);
    watches = λ j. ap (λ f. f j) w ∙ elim (ℕ-cases j c.fd) [
      | inl e ↦ rw (e, put-same (watched s.instance) c.fd none, put-same s.channels c.fd none) refl
      | inr ne ↦
          put-other (watched s.instance) c.fd none j ne
          ∙ v.watches j
          ∙ rw (put-other s.channels c.fd none j ne) (
              sym (
                watch_at-put kernel s.store p c (s.channels j)
                  λ q. other_channel kernel p c.fd v fd j q ne))
    ];
  }

  -- What a removal leaves.
  pub record Leaves (p : ℕ) (s s' : Epoller kernel) : Type 0 where
    pub agrees : Agrees kernel s'
    pub unwatched : watched s'.instance (s.store p).fd ≡ none
    pub gone : s'.channels ≡ put s.channels (s.store p).fd none
    pub stored :
        s'.store ≡ put s.store p (record (s.store p) { index = new; added_to_loop = false })

  module _ (s : Epoller kernel) (p : ℕ) (v : Agrees kernel s) where
    abbrev at : Index → Channel Index
    at i = record (s.store p) { index = i; added_to_loop = false }

    left-Leaves :
        (k : Instance)
        → s.channels (s.store p).fd ≡ some p
        → (watched k ≡ put (watched s.instance) (s.store p).fd none)
        → Leaves p s (left s p (at new) k)
    left-Leaves k own w = record {
      agrees = left-Agrees s p (at new) k v refl refl own w;
      unwatched = ap (λ f. f (s.store p).fd) w ∙ put-same (watched s.instance) (s.store p).fd none;
      gone = refl;
      stored = refl;
    }

    remove_lem :
        (i : Index)
        → i ≡ (s.store p).index
        → is_new i ≡ false
        → s.channels (s.store p).fd ≡ some p
        → (s' : Epoller kernel) × (remove_by kernel i p (record s {
          store = put s.store p (at i);
          channels = put s.channels (s.store p).fd none;
        })
            ≡ some s')
          × Leaves p s s'
    unfolding remove_by update set_index
    remove_lem new same old own = cc
    remove_lem added same old own =
        let seen : watched s.instance (s.store p).fd
            ≡ some (record { wants = (s.store p).interest; ptr = p }) =
          v.watches (s.store p).fd ∙ ap (watch_at s.store) own ∙ rw (sym same) refl in
        let (k, ok, w) =
          deletes s.instance (s.store p).fd (record { wants = (s.store p).interest; ptr = p }) _
            seen in
        (
          left s p (at new) k,
          rw
              (
                put-same s.store p (at added),
                ok,
                put-same s.store p (at added),
                put-put s.store p (at added) (at new),
              )
              refl,
          left-Leaves k own w,
        )
    remove_lem deleted same old own =
        let unseen : watched s.instance (s.store p).fd ≡ none =
          v.watches (s.store p).fd ∙ ap (watch_at s.store) own ∙ rw (sym same) refl in
        (
          left s p (at new) s.instance,
          rw (put-same s.store p (at deleted), put-put s.store p (at deleted) (at new)) refl,
          left-Leaves s.instance own
              (sym (put-known (watched s.instance) (s.store p).fd none unseen)),
        )

  -- Where the poller agrees with the kernel, removing a channel that is in it and wants nothing passes
  -- every assert, and the kernel takes it. Then the poller agrees with the kernel again, the kernel does
  -- not watch the channel's descriptor, which is free in the map, the channel is new, and the other channels are
  -- as before.
  pub remove-Agrees :
      (s : Epoller kernel) (p : ℕ)
      → Agrees kernel s
      → is_new (s.store p).index ≡ false
      → is_none_event (s.store p).interest ≡ true
      → (s' : Epoller kernel) × (remove kernel p s ≡ some s') × Leaves p s s'
  unfolding remove remove_channel
  remove-Agrees s p v old none_left =
      let own = v.known p old in
      let (s', ok, l) = remove_lem s p v (s.store p).index refl old own in
      (
        s',
        rw (none_left, put-same s.store p (at s p v (s.store p).index), own, ==-refl p, none_left)
            ok,
        l,
      )
