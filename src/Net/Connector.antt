-- ===== src/Net/Connector.antt =====
-- NETLIB/net/Connector.h and Connector.cpp. Every call is made in the thread of the loop, so `runInLoop`
-- runs at once and `queueInLoop` leaves a functor behind. `none` is a failed assert, a null pointer, or
-- a call of `connect` that the answers of the kernel do not end.
pub mod Faults
use xjblg.Base.{
  ℕ, zero, suc, ◌+◌, ◌-◌, Bool, true, false, not, ◌||◌, Option, none, some, List, [], ◌∷◌,
  if◌then◌else◌, ◌>>=◌, ◌>>◌, assert,
}

pub data State : Type 0 where
  disconnected connecting connected : State

-- What `connect(2)` answers: it is under way, it may be tried again, or it cannot succeed.
pub data Answer : Type 0 where
  in_progress again fatal : Answer

-- `wanted` is `connect__`, `channel` says that there is one, and `writes` is its interest. `resets` and
-- `stops` count the queued calls of `resetChannel` and `stopInLoop`, `sockets` the open sockets, and `reported` the
-- calls of the connection callback.
pub record Connector : Type 0 where
  pub wanted : Bool
  pub state : State
  pub channel : Bool
  pub writes : Bool
  pub resets : ℕ
  pub stops : ℕ
  pub sockets : ℕ
  pub reported : ℕ

abbrev pub is_disconnected : State → Bool
is_disconnected disconnected = true
is_disconnected _ = false

abbrev pub is_connecting : State → Bool
is_connecting connecting = true
is_connecting _ = false

abbrev pub make_connector : Connector
make_connector = record {
  wanted = false;
  state = disconnected;
  channel = false;
  writes = false;
  resets = 0;
  stops = 0;
  sockets = 0;
  reported = 0;
}

-- `connecting(sockfd)`.
pub start_connecting : Connector → Option Connector
start_connecting c = do
  assert (not c.channel)
  some (record c { state = connecting; channel = true; writes = true })

-- The first half of `retry`: the socket is closed.
abbrev pub close_and_disconnect : Connector → Connector
close_and_disconnect c = record c { sockets = c.sockets - 1; state = disconnected }

-- `connect`, with what the kernel answers to it and to the tries that follow at once. It opens a socket.
pub connect : List Answer → Connector → Option Connector
unfolding start_connecting
connect [] c = none
connect (in_progress ∷ rest) c = start_connecting (record c { sockets = c.sockets + 1 })
connect (again ∷ rest) c =
    let c' = close_and_disconnect (record c { sockets = c.sockets + 1 }) in
    let next = connect rest c' in if c'.wanted then next else some c'
connect (fatal ∷ rest) c = some c

pub start_in_loop : List Answer → Connector → Option Connector
unfolding connect
start_in_loop answers c = do
  assert (is_disconnected c.state)
  if c.wanted then connect answers c else some c

pub start : List Answer → Connector → Option Connector
unfolding start_in_loop
start answers c = start_in_loop answers (record c { wanted = true })

pub restart : List Answer → Connector → Option Connector
unfolding start_in_loop
restart answers c = start_in_loop answers (record c { state = disconnected; wanted = true })

pub retry : List Answer → Connector → Option Connector
unfolding start_in_loop
retry answers c =
    let c' = close_and_disconnect c in if c.wanted then start_in_loop answers c' else some c'

-- `removeAndResetChannel`: the channel leaves the loop, and is reset by a queued call only.
pub remove_and_reset_channel : Connector → Option Connector
remove_and_reset_channel c = do
  assert c.channel
  some (record c { writes = false; resets = c.resets + 1 })

-- The queued `resetChannel`.
pub reset_channel : Connector → Connector
reset_channel c = record c { channel = false; resets = c.resets - 1 }

pub stop : Connector → Connector
stop c = record c { wanted = false; stops = c.stops + 1 }

-- The queued `stopInLoop`.
pub stop_in_loop : List Answer → Connector → Option Connector
unfolding retry remove_and_reset_channel
stop_in_loop answers c =
    let c' = record c { stops = c.stops - 1 } in
    if is_connecting c.state
    then (remove_and_reset_channel (record c' { state = disconnected }) >>= retry answers)
    else some c'

-- `handleWrite`: whether the socket has an error, or is connected to itself. The test `if (connect_)` names the
-- function that wraps `connect(2)`, so it holds always.
pub handle_write : Bool → Bool → List Answer → Connector → Option Connector
unfolding retry remove_and_reset_channel
handle_write err self answers c =
    if is_connecting c.state
    then (remove_and_reset_channel c >>= λ c'.
        if err || self
        then retry answers c'
        else some
            (record c' { state = connected; sockets = c'.sockets - 1; reported = c'.reported + 1 }))
    else (assert (is_disconnected c.state) >> some c)

pub handle_error : List Answer → Connector → Option Connector
unfolding retry remove_and_reset_channel
handle_error answers c =
    if is_connecting c.state then (remove_and_reset_channel c >>= retry answers) else some c
