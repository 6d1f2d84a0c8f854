-- ===== src/Net/Epoller/Invariant.antt =====
-- What the poller and the kernel agree on, and how the calls keep it.
use mathlib.Core.Path.{subst}
use xjblg.Base.{
  some-injective, ℕ, ◌≡◌, ◌≢◌, refl, sym, ap, ◌∙◌, inl, inr, false, Option, none, some,
  if◌then◌else◌,
}
use xjblg.Base.Maps.{put, put-same, put-other, put-every, ℕ-cases}
use xjblg.Net.Channel.{Channel}
use xjblg.Net.Epoller.{Index, Event, Kernel, is_new, is_added, Epoller}

-- What the kernel is to watch for a channel.
abbrev pub watch_of : ℕ → Channel Index → Option Event
watch_of p c = if is_added c.index then some (record { wants = c.interest; ptr = p }) else none

abbrev pub watch_at : (ℕ → Channel Index) → Option ℕ → Option Event
watch_at store none = none
watch_at store (some p) = watch_of p (store p)

module _ (kernel : Kernel) where
  open kernel use {Instance, watched, adds, changes, deletes}

  -- A channel is in `channels_` under its descriptor exactly if its index is not New, and the
  -- kernel watches exactly the descriptors of the channels that are Added, for what they want.
  pub record Agrees (s : Epoller kernel) : Type 0 where
    pub registered :
        (fd p : ℕ)
        → s.channels fd ≡ some p
        → ((s.store p).fd ≡ fd) × (is_new (s.store p).index ≡ false)
    pub known : (p : ℕ) → is_new (s.store p).index ≡ false → s.channels (s.store p).fd ≡ some p
    pub watches : (fd : ℕ) → watched s.instance fd ≡ watch_at s.store (s.channels fd)

  -- The poller after the channel `p` has become `c`, and is in the map.
  abbrev pub entered : Epoller kernel → ℕ → Channel Index → Instance → Epoller kernel
  entered s p c k = record s {
    channels = put s.channels c.fd (some p);
    store = put s.store p c;
    instance = k;
  }

  pub other_channel :
      {s : Epoller kernel} (p fd : ℕ) (v : Agrees s)
      → fd ≡ (s.store p).fd
      → (j q : ℕ) → j ≢ fd
      → s.channels j ≡ some q
      → q ≢ p
  other_channel {s = s} p fd v e j q ne h qp =
      ne (sym ((v.registered j q h).0) ∙ ap (λ x. (s.store x).fd) qp ∙ sym e)

  pub watch_at-put :
      (store : ℕ → Channel Index) (p : ℕ) (c : Channel Index) (o : Option ℕ)
      → ((q : ℕ) → o ≡ some q → q ≢ p)
      → watch_at (put store p c) o ≡ watch_at store o
  watch_at-put store p c none h = refl
  watch_at-put store p c (some q) h = rw (put-other store p c q (h q refl)) refl

  pub entered-Agrees :
      (s : Epoller kernel) (p : ℕ) (c : Channel Index) (k : Instance)
      → Agrees s
      → c.fd ≡ (s.store p).fd
      → is_new c.index ≡ false
      → ((q : ℕ) → s.channels c.fd ≡ some q → q ≡ p)
      → (watched k ≡ put (watched s.instance) c.fd (watch_of p c))
      → Agrees (entered s p c k)
  entered-Agrees s p c k v fd old only w = record {
    registered =
        put-every
          (λ j o.
            (q : ℕ)
            → o ≡ some q
            → ((put s.store p c q).fd ≡ j) × (is_new (put s.store p c q).index ≡ false))
          s.channels c.fd (some p)
          (λ q e.
            subst
              (λ x. ((put s.store p c x).fd ≡ c.fd) × (is_new (put s.store p c x).index ≡ false))
              (some-injective e) (rw (put-same s.store p c) (refl, old)))
          (λ j ne q h.
            rw (put-other s.store p c q (other_channel p c.fd v fd j q ne h)) (v.registered j q h));
    known =
        put-every (λ q x. is_new x.index ≡ false → put s.channels c.fd (some p) x.fd ≡ some q)
          s.store p c (λ h. put-same s.channels c.fd (some p))
          (λ q ne h.
            put-other s.channels c.fd (some p) (s.store q).fd
              (λ e. ne (only q (subst (λ f. s.channels f ≡ some q) e (v.known q h))))
            ∙ v.known q h);
    watches = λ j. ap (λ f. f j) w ∙ elim (ℕ-cases j c.fd) [
      | inl e ↦
          rw
            (
              e,
              put-same (watched s.instance) c.fd (watch_of p c),
              put-same s.channels c.fd (some p),
              put-same s.store p c,
            )
            refl
      | inr ne ↦
          put-other (watched s.instance) c.fd (watch_of p c) j ne
          ∙ v.watches j
          ∙ rw (put-other s.channels c.fd (some p) j ne)
              (sym (watch_at-put s.store p c (s.channels j) λ q. other_channel p c.fd v fd j q ne))
    ];
  }
