-- ===== src/Net/Channel/Dispatch.antt =====
-- NETLIB/net/Channel.cpp: `handEvent` and `handEventWithGuard`. A callback is its name; the calls are
-- listed in order.
use xjblg.Base.{Bool, not, ◌&&◌, ◌||◌, List, [], ◌∷◌, ◌++◌, if◌then◌else◌}
use xjblg.Net.Channel.{Ready}

pub data Callback : Type 0 where
  on_close on_error on_read on_write : Callback

-- Which callbacks are set.
pub record Callbacks : Type 0 where
  pub close : Bool
  pub error : Bool
  pub read : Bool
  pub write : Bool

abbrev pub call_if : Bool → Callback → List Callback
call_if b cb = if b then cb ∷ [] else []

-- `handEventWithGuard`.
pub hand_event_with_guard : Ready → Callbacks → List Callback
hand_event_with_guard r cbs =
    call_if (r.hup && not r.readable && cbs.close) on_close
    ++ call_if (r.err && cbs.error) on_error
    ++ call_if ((r.readable || r.urgent) && cbs.read) on_read
    ++ call_if (r.writable && cbs.write) on_write

-- `handEvent`: whether the channel is tied, and its owner is still there.
pub hand_event : Bool → Bool → Ready → Callbacks → List Callback
unfolding hand_event_with_guard
hand_event tied alive r cbs =
    if tied
    then (if alive then hand_event_with_guard r cbs else [])
    else hand_event_with_guard r cbs
