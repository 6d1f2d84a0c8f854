-- ===== src/Net/Poller.antt =====
-- NETLIB/net/Epoll.h and Epoll.cpp: the class Poller, over poll(2). A channel is a number, its place
-- in `store`; its `index_` is `none` where it is negative. `none` is a failed assert, a null pointer
-- that is followed, or a call of exit.
pub mod Tracking
pub mod Leaving
pub mod Faults
mod Examples
use xjblg.Base.{
  ℕ, zero, suc, ◌-◌, Bool, true, false, not, ◌&&◌, ◌||◌, Option, none, some, List, [], ◌∷◌, ◌++◌,
  length, get_elem?, set, take, ltb, ◌==◌, if◌then◌else◌, ◌>>=◌, ◌>>◌, assert,
}
use xjblg.Base.Maps.{put}
use xjblg.Net.Channel.{Interest, Ready, Channel, is_none_event}
use xjblg.Net.Epoller.{holds, is_free}

-- A descriptor, or `-fd - 1`, by which a descriptor is ignored.
pub data ℤ : Type 0 where
  pos negsuc : ℕ → ℤ

abbrev pub same_int : ℤ → ℤ → Bool
same_int (pos m) (pos n) = m == n
same_int (negsuc m) (negsuc n) = m == n
same_int _ _ = false

-- A `struct pollfd`; `revents` is `none` until poll(2) has written it, or the code has.
pub record PollFd : Type 0 where
  pub fd : ℤ
  pub events : Interest
  pub revents : Option Ready

-- `channels_`, the channels there are, and `pollfds_`.
pub record Poller : Type 0 where
  pub channels : ℕ → Option ℕ
  pub store : ℕ → Channel (Option ℕ)
  pub poll_fds : List PollFd

-- What poll(2) answers: -1, or the number of entries with events, and the events of each entry.
pub data Polled : Type 0 where
  failed : Polled
  answered : ℕ → List Ready → Polled

abbrev pub same_bit : Bool → Bool → Bool
same_bit true b = b
same_bit false b = not b

-- `pfd.events == channel->events()`.
abbrev pub same_interest : Interest → Interest → Bool
same_interest i j = same_bit i.reads j.reads && same_bit i.writes j.writes

-- `revents > 0`.
abbrev pub is_ready : Ready → Bool
is_ready r = r.hup || r.err || r.readable || r.urgent || r.writable

abbrev pub nothing_came : Ready
nothing_came = record {
  hup = false;
  err = false;
  readable = false;
  urgent = false;
  writable = false;
}

unfoldable pub set_index : ℕ → ℕ → Poller → Poller
set_index p i s = record s { store = put s.store p (record (s.store p) { index = some i }) }

-- The branch of `updateChannel` for a channel whose index is negative.
unfoldable pub add_new : ℕ → Poller → Option Poller
add_new p s =
    let c = s.store p in
    let e : PollFd = record { fd = pos c.fd; events = c.interest; revents = none } in
    let s' : Poller = record s { poll_fds = s.poll_fds ++ (e ∷ []) } in
    let s'' = set_index p (length s'.poll_fds - 1) s' in
    assert (is_free (s.channels c.fd))
    >> some (record s'' { channels = put s.channels c.fd (some p) })

-- The other branch, with the index.
unfoldable pub update_old : ℕ → ℕ → Poller → Option Poller
update_old p i s = do
  let c = s.store p
  assert (holds p (s.channels c.fd))
  e ← get_elem? s.poll_fds i
  assert (same_int e.fd (pos c.fd) || same_int e.fd (negsuc c.fd))
  let fd = if is_none_event c.interest then negsuc c.fd else pos c.fd
  let e' : PollFd = record { fd = fd; events = c.interest; revents = some nothing_came }
  some (record s { poll_fds = set s.poll_fds i e' })

abbrev pub update_by : Option ℕ → ℕ → Poller → Option Poller
update_by none p s = add_new p s
update_by (some i) p s = update_old p i s

unfoldable pub update_channel : ℕ → Poller → Option Poller
update_channel p s = update_by (s.store p).index p s

-- The descriptor in an entry, whether it is ignored or not.
abbrev pub descriptor : ℤ → ℕ
descriptor (pos fd) = fd
descriptor (negsuc fd) = fd

unfoldable pub pop_back : Poller → Poller
pop_back s = record s { poll_fds = take (length s.poll_fds - 1) s.poll_fds }

-- `iter_swap` of the entry with the last one.
unfoldable pub swap_last : ℕ → PollFd → PollFd → Poller → Poller
swap_last i e last s = record s { poll_fds = set (set s.poll_fds i last) (length s.poll_fds - 1) e }

-- The end of `removeChannel`: an entry that is not the last changes places with the last one, whose
-- channel gets its index.
unfoldable pub drop_entry : ℕ → PollFd → Poller → Option Poller
drop_entry i e s = if i == (length s.poll_fds - 1) then some (pop_back s) else (do
  last ← get_elem? s.poll_fds (length s.poll_fds - 1)
  q ← s.channels (descriptor last.fd)
  some (pop_back (set_index q i (swap_last i e last s))))

unfoldable pub remove_channel : ℕ → Poller → Option Poller
remove_channel p s = do
  let c = s.store p
  assert (holds p (s.channels c.fd))
  assert (is_none_event c.interest)
  i ← c.index
  e ← get_elem? s.poll_fds i
  assert (same_int e.fd (negsuc c.fd) && same_interest e.events c.interest)
  drop_entry i e (record s { channels = put s.channels c.fd none })

unfoldable pub has_channel : ℕ → Poller → Bool
has_channel p s = holds p (s.channels (s.store p).fd)

-- `channels_.find(pfd->fd)`, where no key is negative.
unfoldable pub find : ℤ → Poller → Option ℕ
find (pos fd) s = s.channels fd
find (negsuc fd) s = none

unfoldable pub set_revents : ℕ → Ready → Poller → Poller
set_revents p r s = record s { store = put s.store p (record (s.store p) { ready = r }) }

-- The body of the loop of `fillActiveChannels` for an entry with events.
unfoldable pub activate : ℤ → Ready → Poller → Option (ℕ × Poller)
activate fd r s = do
  p ← find fd s
  assert (same_int (pos (s.store p).fd) fd)
  some (p, set_revents p r s)

-- `fillActiveChannels`: the active channels are listed in order, as many as there are events.
unfoldable pub fill_active_channels : ℕ → List PollFd → Poller → Option (List ℕ × Poller)
fill_active_channels n [] s = some ([], s)
fill_active_channels zero (e ∷ es) s = some ([], s)
fill_active_channels (suc n) (e ∷ es) s = do
  r ← e.revents
  elim (is_ready r) [
    | true ↦ do
      (p, s') ← activate e.fd r s
      (active, s'') ← fill_active_channels n es s'
      some (p ∷ active, s'')
    | false ↦ fill_active_channels (suc n) es s
  ]

-- What poll(2) writes into the entries.
unfoldable pub write_revents : List Ready → List PollFd → List PollFd
write_revents [] es = es
write_revents (r ∷ rs) [] = []
write_revents (r ∷ rs) (e ∷ es) = record e { revents = some r } ∷ write_revents rs es

unfoldable pub poll : Polled → Poller → Option (List ℕ × Poller)
poll failed s = none
poll (answered n rs) s =
    let s' : Poller = record s { poll_fds = write_revents rs s.poll_fds } in
    if n == 0 then some ([], s') else fill_active_channels n s'.poll_fds s'
