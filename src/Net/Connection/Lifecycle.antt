-- ===== src/Net/Connection/Lifecycle.antt =====
-- How a connection ends: `handleClose` and `connectDestroyed`.
use xjblg.Base.{◌≡◌, refl, true, false, ◌||◌, none, some, [], ◌∷◌, ◌++◌, arith}
use xjblg.Net.Connection.{
  disconnected, down, closed, Conn, is_connected, is_disconnecting, shutdown, shutdown_in_loop,
  handle_close, connect_destroyed,
}

-- A connection that is up or shutting down closes: it calls back down and then closed, each once, a
-- second close fails, and destroying it then succeeds, takes its channel out of the loop and calls back
-- nothing more.
pub close_then_destroy :
    (c : Conn)
    → (is_connected c.state || is_disconnecting c.state) ≡ true
    → (c' : Conn) × (handle_close c ≡ some c')
      × (c'.log ≡ c.log ++ (down ∷ closed ∷ []))
      × (handle_close c' ≡ none)
      × (d : Conn) × (connect_destroyed c' ≡ some d)
      × (d.added ≡ false)
      × (d.log ≡ c'.log)
unfolding handle_close connect_destroyed
close_then_destroy c here = (
  record c {
    state = disconnected;
    reads = false;
    writes = false;
    added = true;
    log = c.log ++ (down ∷ closed ∷ []);
  },
  rw here refl,
  refl,
  refl,
  record c {
    state = disconnected;
    reads = false;
    writes = false;
    added = false;
    log = c.log ++ (down ∷ closed ∷ []);
  },
  refl,
  refl,
  refl,
)

-- A connection that is up and reads, and on which `shutdown` was called, cannot be destroyed before it
-- closes: the assert in `Channel::remove` fails.
pub shutdown_then_destroy :
    (c : Conn)
    → is_connected c.state ≡ true
    → c.reads ≡ true
    → connect_destroyed (shutdown c) ≡ none
unfolding connect_destroyed shutdown shutdown_in_loop
shutdown_then_destroy c is_up reads = ground arith
