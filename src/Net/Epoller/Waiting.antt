-- ===== src/Net/Epoller/Waiting.antt =====
-- What a wait delivers: `fillActiveChannels` and `poll`.
use xjblg.Base.{
  some-injective, ==-refl, Option-cases, Bool-cases, ℕ, suc, ◌*◌, ◌≤◌, ◌<◌, ◌≡◌, ◌≢◌, refl, sym, ap,
  ◌∙◌, inl, inr, Bool, true, false, Option, none, some, arith, if◌then◌else◌, ◌==◌, List, [], ◌∷◌,
  map, length, get_elem?,
}
use xjblg.Base.Maps.{put-every}
use xjblg.Net.Channel.{Interest, Ready, Channel}
use xjblg.Net.Epoller.{
  Index, Event, Kernel, is_added, Epoller, Report, reports, set_revents, fill_active_channels, poll,
}
use xjblg.Net.Epoller.Invariant.{watch_of, watch_at, Agrees}

-- The events that the last report about a channel names.
pub ready_of : List Report → ℕ → Ready → Ready
ready_of [] q before = before
ready_of (r ∷ rs) q before = ready_of rs q (if q == r.ptr then r.ready else before)

guarded :
    {A : Type 0} (b : Bool) (x : A) {a : A}
    → (if b then some x else none) ≡ some a
    → (b ≡ true) × (x ≡ a)
guarded true x h = (refl, some-injective h)
guarded false x h = cc

watch_of_ptr : (q : ℕ) (c : Channel Index) (e : Event) → watch_of q c ≡ some e → q ≡ e.ptr
watch_of_ptr q c e h = let (is_in, same) = guarded (is_added c.index) _ h in ap (λ x. x.ptr) same

==-other : (a b : ℕ) → a ≢ b → (a == b) ≡ false
==-other a b ne = ground arith

module _ (kernel : Kernel) where
  open kernel use {Instance, watched}

  -- Each report carries the pointer of an event that the instance watches for.
  unfoldable pub Watched : Instance → List Report → Type 0
  Watched k rs =
      (i : ℕ) (r : Report)
      → get_elem? rs i ≡ some r
      → (fd : ℕ) × (wants : Interest) × (watched k fd
          ≡ some (record { wants = wants; ptr = r.ptr }))

  -- A change of the events that are ready is none for the map and the kernel.
  alike :
      (s : Epoller kernel) (p : ℕ) (r : Ready) (q : ℕ)
      → (r' : Ready) × ((set_revents kernel p r s).store q ≡ record (s.store q) { ready = r' })
  unfolding set_revents
  alike s p r =
      put-every (λ q x. (r' : Ready) × (x ≡ record (s.store q) { ready = r' })) s.store p
        (record (s.store p) { ready = r }) (r, refl) (λ q ne. ((s.store q).ready, refl))

  watch_at-revents :
      (s : Epoller kernel) (p : ℕ) (r : Ready) (o : Option ℕ)
      → watch_at s.store o ≡ watch_at (set_revents kernel p r s).store o
  watch_at-revents s p r none = refl
  watch_at-revents s p r (some q) = rw ((alike s p r q).1) refl

  set_revents-Agrees :
      (s : Epoller kernel) (p : ℕ) (r : Ready)
      → Agrees kernel s
      → Agrees kernel (set_revents kernel p r s)
  unfolding set_revents
  set_revents-Agrees s p r v = record {
    registered = λ fd q h. rw ((alike s p r q).1) (v.registered fd q h);
    known = λ q. rw ((alike s p r q).1) (v.known q);
    watches = λ fd. v.watches fd ∙ watch_at-revents s p r (s.channels fd);
  }

  -- A report is about a channel in the map.
  reported_is_in :
      (s : Epoller kernel) (fd p : ℕ) (wants : Interest)
      → Agrees kernel s
      → watched s.instance fd ≡ some (record { wants = wants; ptr = p })
      → s.channels (s.store p).fd ≡ some p
  reported_is_in s fd p wants v seen = elim (Option-cases (s.channels fd)) [
    | inl e ↦ cc (sym seen ∙ v.watches fd ∙ ap (watch_at s.store) e)
    | inr (q, e) ↦
        let e' : watch_of q (s.store q) ≡ some (record { wants = wants; ptr = p }) =
          sym (v.watches fd ∙ ap (watch_at s.store) e) ∙ seen in
        let is_p : q ≡ p = watch_of_ptr q (s.store q) _ e' in
        ap s.channels (ap (λ x. (s.store x).fd) (sym is_p) ∙ (v.registered fd q e).0)
        ∙ e
        ∙ ap some is_p
  ]

  fill_lem :
      (rs : List Report) (s : Epoller kernel)
      → Agrees kernel s
      → Watched s.instance rs
      → (s' : Epoller kernel) × (fill_active_channels kernel rs s ≡ some (map (λ r. r.ptr) rs, s'))
        × Agrees kernel s'
        × ((q : ℕ) → s'.store q ≡ record (s.store q) { ready = ready_of rs q (s.store q).ready })
        × (s'.room ≡ s.room)
  unfolding fill_active_channels ready_of Watched set_revents
  fill_lem [] s v w = (s, refl, v, λ q. refl, refl)
  fill_lem (r ∷ rs) s v w =
      let (fd, wants, seen) = w 0 r refl in
      let own = reported_is_in s fd r.ptr wants v seen in
      let (s', ok, v', st, room) =
        fill_lem rs (set_revents kernel r.ptr r.ready s) (set_revents-Agrees s r.ptr r.ready v)
          (λ i. w (suc i)) in
      (
        s',
        rw (own, ==-refl r.ptr, ok) refl,
        v',
        λ q.
            st q
            ∙ put-every
                (λ q x.
                  record x { ready = ready_of rs q x.ready }
                  ≡ record (s.store q) { ready = ready_of (r ∷ rs) q (s.store q).ready })
                s.store r.ptr (record (s.store r.ptr) { ready = r.ready }) (rw (==-refl r.ptr) refl)
                (λ q ne. rw (==-other q r.ptr ne) refl) q,
        room,
      )

  -- Where the poller agrees with the kernel, and `epoll_wait` reports no more events than `events_` has room
  -- for, each about something watched, a poll passes every assert. It lists the channels of the
  -- reports in order, each channel holds the events of the last report about it and is otherwise as before,
  -- the poller still agrees with the kernel, and `events_` has more room than the reports took.
  pub poll-Agrees :
      (rs : List Report) (s : Epoller kernel)
      → Agrees kernel s
      → Watched s.instance rs
      → length rs ≤ s.room
      → 0 < s.room
      → (s' : Epoller kernel) × (poll kernel (reports rs) s ≡ some (map (λ r. r.ptr) rs, s'))
        × Agrees kernel s'
        × ((q : ℕ) → s'.store q ≡ record (s.store q) { ready = ready_of rs q (s.store q).ready })
        × (length rs < s'.room)
  unfolding poll ready_of
  poll-Agrees [] s v w fits some_room = (s, refl, v, λ q. refl, some_room)
  poll-Agrees (r ∷ rs) s v w fits some_room =
      let (s', ok, v', st, room) = fill_lem (r ∷ rs) s v w in
      elim (Bool-cases (length (r ∷ rs) == s'.room)) [
        | inl full ↦ (
          record s' { room = s'.room * 2 },
          rw (ok, full) refl,
          record { registered = v'.registered; known = v'.known; watches = v'.watches },
          st,
          ground arith,
        )
        | inr spare ↦ (s', rw (ok, spare) refl, v', st, ground arith)
      ]
