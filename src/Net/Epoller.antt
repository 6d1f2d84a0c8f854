-- ===== src/Net/Epoller.antt =====
-- NETLIB/net/Epoll.h and Epoll.cpp: the class EPoller, with the calls of Channel that come to it. A
-- channel is a number, its place in `store`. The kernel is a parameter. `none` is a failed
-- assert, or a call of exit.
pub mod Invariant
pub mod Updating
pub mod Removal
pub mod Sequences
pub mod Waiting
pub mod Examples
use xjblg.Base.{
  ℕ, ◌+◌, ◌*◌, ◌≡◌, Bool, true, false, not, ◌&&◌, ◌||◌, Option, none, some, List, [], ◌∷◌, ◌++◌,
  length, ◌==◌, if◌then◌else◌, ◌>>=◌, ◌>>◌, assert,
}
use xjblg.Base.Maps.{put}
use xjblg.Net.Channel.{
  Interest, Ready, Channel, is_none_event, with_reading, without_reading, with_writing,
  without_writing, without_all,
}

-- `New`, `Added` and `Deleted`.
pub data Index : Type 0 where
  new added deleted : Index

-- `EPOLL_CTL_ADD`, `EPOLL_CTL_MOD` and `EPOLL_CTL_DEL`.
pub data Op : Type 0 where
  ctl_add ctl_mod ctl_del : Op

-- A `struct epoll_event`.
pub record Event : Type 0 where
  pub wants : Interest
  pub ptr : ℕ

-- What the program relies on of epoll(7): the state of the instance, epoll_ctl, where `none` is a
-- failure, and the interest list. A descriptor that is not in the list can be added, one that is in it
-- can be changed or deleted.
pub record Kernel : Type 1 where
  pub Instance : Type 0
  pub ctl : Op → ℕ → Event → Instance → Option Instance
  pub watched : Instance → ℕ → Option Event
  pub adds :
      (k : Instance) (fd : ℕ) (e : Event)
      → watched k fd ≡ none
      → (k' : Instance) × (ctl ctl_add fd e k ≡ some k')
        × (watched k' ≡ put (watched k) fd (some e))
  pub changes :
      (k : Instance) (fd : ℕ) (e before : Event)
      → watched k fd ≡ some before
      → (k' : Instance) × (ctl ctl_mod fd e k ≡ some k')
        × (watched k' ≡ put (watched k) fd (some e))
  pub deletes :
      (k : Instance) (fd : ℕ) (e before : Event)
      → watched k fd ≡ some before
      → (k' : Instance) × (ctl ctl_del fd e k ≡ some k') × (watched k' ≡ put (watched k) fd none)

-- What `epoll_wait` reports: the events, and the pointer that was registered.
pub record Report : Type 0 where
  pub ready : Ready
  pub ptr : ℕ

-- What `epoll_wait` answers.
pub data Waited : Type 0 where
  failed : Waited
  reports : List Report → Waited

-- `initEventListSize`.
abbrev pub init_event_list_size : ℕ
init_event_list_size = 16

abbrev pub is_new : Index → Bool
is_new new = true
is_new _ = false

abbrev pub is_added : Index → Bool
is_added added = true
is_added _ = false

abbrev pub holds : ℕ → Option ℕ → Bool
holds p none = false
holds p (some q) = q == p

abbrev pub is_free : Option ℕ → Bool
is_free none = true
is_free (some q) = false

module _ (kernel : Kernel) where
  open kernel use {Instance, ctl}

  -- `channels_`, the channels there are, the epoll instance, and the size of `events_`.
  pub record Epoller : Type 0 where
    pub channels : ℕ → Option ℕ
    pub store : ℕ → Channel Index
    pub instance : Instance
    pub room : ℕ

  pub set_index : ℕ → Index → Epoller → Epoller
  set_index p i s = record s { store = put s.store p (record (s.store p) { index = i }) }

  pub update : Op → ℕ → Epoller → Option Epoller
  update op p s = do
    k ← ctl op (s.store p).fd (record { wants = (s.store p).interest; ptr = p }) s.instance
    some (record s { instance = k })

  -- The branches of `updateChannel`, by the index of the channel.
  pub update_by : Index → ℕ → Epoller → Option Epoller
  unfolding update set_index
  update_by new p s =
      let fd = (s.store p).fd in
      assert (is_free (s.channels fd))
      >> update ctl_add p (set_index p added (record s { channels = put s.channels fd (some p) }))
  update_by deleted p s =
      assert (holds p (s.channels (s.store p).fd)) >> update ctl_add p (set_index p added s)
  update_by added p s =
      assert (holds p (s.channels (s.store p).fd))
      >> (if is_none_event (s.store p).interest
          then (update ctl_del p s >>= λ s'. some (set_index p deleted s'))
          else update ctl_mod p s)

  pub update_channel : ℕ → Epoller → Option Epoller
  unfolding update_by
  update_channel p s = update_by (s.store p).index p s

  -- The end of `removeChannel`: what happens to the kernel, by the index of the channel.
  pub remove_by : Index → ℕ → Epoller → Option Epoller
  unfolding update set_index
  remove_by new p s = none
  remove_by added p s = update ctl_del p s >>= λ s'. some (set_index p new s')
  remove_by deleted p s = some (set_index p new s)

  pub remove_channel : ℕ → Epoller → Option Epoller
  unfolding remove_by
  remove_channel p s =
      let c = s.store p in
      assert (holds p (s.channels c.fd) && is_none_event c.interest)
      >> remove_by c.index p (record s { channels = put s.channels c.fd none })

  pub has_channel : ℕ → Epoller → Bool
  has_channel p s = holds p (s.channels (s.store p).fd)

  -- `Channel::enableReading` and the like: the bits change, and the loop is told.
  pub change : (Interest → Interest) → ℕ → Epoller → Option Epoller
  unfolding update_channel
  change f p s =
      let c = s.store p in
      update_channel p (record s {
        store = put s.store p (record c { interest = f c.interest; added_to_loop = true });
      })

  -- `Channel::remove`.
  pub remove : ℕ → Epoller → Option Epoller
  unfolding remove_channel
  remove p s =
      let c = s.store p in
      assert (is_none_event c.interest)
      >> remove_channel p (record s { store = put s.store p (record c { added_to_loop = false }) })

  pub set_revents : ℕ → Ready → Epoller → Epoller
  set_revents p r s = record s { store = put s.store p (record (s.store p) { ready = r }) }

  -- `fillActiveChannels`: the active channels are listed in order.
  pub fill_active_channels : List Report → Epoller → Option (List ℕ × Epoller)
  unfolding set_revents
  fill_active_channels [] s = some ([], s)
  fill_active_channels (r ∷ rs) s = do
    assert (holds r.ptr (s.channels (s.store r.ptr).fd))
    (active, s') ← fill_active_channels rs (set_revents r.ptr r.ready s)
    some (r.ptr ∷ active, s')

  -- `poll`: `events_` doubles when it was full.
  pub poll : Waited → Epoller → Option (List ℕ × Epoller)
  unfolding fill_active_channels
  poll failed s = none
  poll (reports []) s = some ([], s)
  poll (reports (r ∷ rs)) s = do
    (active, s') ← fill_active_channels (r ∷ rs) s
    some (active, if length (r ∷ rs) == s'.room then record s' { room = s'.room * 2 } else s')
