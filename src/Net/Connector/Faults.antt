-- ===== src/Net/Connector/Faults.antt =====
-- What goes wrong when a connection fails, or is stopped while it is made.
use xjblg.Base.{◌+◌, ◌-◌, ◌≡◌, refl, true, false, none, some, List, ◌∷◌, arith}
use xjblg.Net.Connector.{
  connected, Answer, in_progress, Connector, is_connecting, start_connecting, connect,
  start_in_loop, retry, remove_and_reset_channel, stop, handle_write, handle_error,
}

-- Where a connection is being made and still wanted, an error on its socket, after which `connect` is
-- under way at once, fails the assert in `connecting`: the channel is not reset yet.
pub retry_aborts :
    (c : Connector) (rest : List Answer)
    → is_connecting c.state ≡ true
    → c.channel ≡ true
    → c.wanted ≡ true
    → (handle_error (in_progress ∷ rest) c ≡ none)
      × (handle_write true false (in_progress ∷ rest) c ≡ none)
unfolding handle_error handle_write retry remove_and_reset_channel start_in_loop connect
    start_connecting
retry_aborts c rest s ch w = (ground arith, ground arith)

-- A connection that is made after `stop` was called, and before the queued `stopInLoop` runs, is
-- reported to the connection callback all the same.
pub stopped_is_reported :
    (c : Connector) (answers : List Answer)
    → is_connecting c.state ≡ true
    → c.channel ≡ true
    → (c' : Connector) × (handle_write false false answers (stop c) ≡ some c')
      × (c'.wanted ≡ false)
      × (c'.state ≡ connected)
      × (c'.reported ≡ c.reported + 1)
unfolding handle_write stop remove_and_reset_channel
stopped_is_reported c answers s ch = (
  record c {
    wanted = false;
    stops = c.stops + 1;
    writes = false;
    resets = c.resets + 1;
    state = connected;
    sockets = c.sockets - 1;
    reported = c.reported + 1;
  },
  rw (s, ch) refl,
  refl,
  refl,
  refl,
)
