-- ===== src/Net/Channel.antt =====
-- NETLIB/net/Channel.h and Channel.cpp: what a channel asks the loop for, and the callbacks it makes.
pub mod Dispatch
use xjblg.Base.{ℕ, Bool, true, false, not, ◌&&◌, ◌||◌, List, [], ◌++◌, if◌then◌else◌}

-- `kNoneEvent`, `kReadEvent` and `kWriteEvent` are the values of two bits.
pub record Interest : Type 0 where
  pub reads : Bool
  pub writes : Bool

-- The kinds of event in `revents_`.
pub record Ready : Type 0 where
  pub hup : Bool
  pub err : Bool
  pub readable : Bool
  pub urgent : Bool
  pub writable : Bool

-- `index_` belongs to the poller of the loop; `I` is what the poller keeps in it.
pub record Channel (I : Type 0) : Type 0 where
  pub fd : ℕ
  pub interest : Interest
  pub ready : Ready
  pub index : I
  pub added_to_loop : Bool

abbrev pub none_event : Interest
none_event = record { reads = false; writes = false }

abbrev pub is_none_event : Interest → Bool
is_none_event i = not (i.reads || i.writes)

abbrev pub nothing_ready : Ready
nothing_ready = record {
  hup = false;
  err = false;
  readable = false;
  urgent = false;
  writable = false;
}

-- The constructor, with the `index_` of a channel that is in no poller.
abbrev pub make_channel : {I : Type 0} → I → ℕ → Channel I
make_channel index fd = record {
  fd = fd;
  interest = none_event;
  ready = nothing_ready;
  index = index;
  added_to_loop = false;
}

-- The bit that `enableReading` and the like set or clear.
abbrev pub with_reading : Interest → Interest
with_reading i = record i { reads = true }

abbrev pub without_reading : Interest → Interest
without_reading i = record i { reads = false }

abbrev pub with_writing : Interest → Interest
with_writing i = record i { writes = true }

abbrev pub without_writing : Interest → Interest
without_writing i = record i { writes = false }

abbrev pub without_all : Interest → Interest
without_all i = none_event
