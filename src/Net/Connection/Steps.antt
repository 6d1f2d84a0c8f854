-- ===== src/Net/Connection/Steps.antt =====
-- The calls and events of a connection that send nothing: each keeps the connection sound and the bytes
-- as they were.
use xjblg.Base.{
  some-injective, assert-then, ℕ, ◌≡◌, refl, true, false, not, ◌&&◌, ◌||◌, Option, none, some, List,
  [], ◌∷◌, ◌++◌, arith, ◌==◌, >>=-eq-some, either,
}
use mathlib.Core.Path.{subst}
use native.Mathlib.Decide.{dec_lt}
use xjblg.Net.Buffer.{Buffer}
use xjblg.Net.Buffer.Read.{Answer, buf_read_fd}
use xjblg.Net.Connection.{
  State, disconnected, connecting, connected, disconnecting, Conn, is_connected, is_connecting,
  is_disconnecting, after_read, shutdown, shutdown_in_loop, handle_read, handle_close, force_close,
  start_read, stop_read, connect_established, connect_destroyed, remove_channel, Event, down,
}
use xjblg.Net.Connection.Stream.{IsSound, is_open, is_gone, accepted, waiting}

-- A call that sends nothing leaves the connection sound, and the bytes as they were.
pub record Leaves (c c' : Conn) : Type 0 where
  pub sound : IsSound c'
  pub bytes : accepted c' ≡ accepted c

connecting_is_open : (s : State) → is_connecting s ≡ true → (is_open s ≡ true) × (is_gone s ≡ false)
connecting_is_open connecting h = (refl, refl)
connecting_is_open connected h = cc
connecting_is_open disconnecting h = cc
connecting_is_open disconnected h = cc

connected_not_gone : (s : State) → is_connected s ≡ true → is_gone s ≡ false
connected_not_gone connected h = refl
connected_not_gone connecting h = cc
connected_not_gone disconnecting h = cc
connected_not_gone disconnected h = cc

module _ (c : Conn) (v : IsSound c) where
  unchanged : Leaves c c
  unchanged = record { sound = v; bytes = refl }

  pub shutdown_lem : Leaves c (shutdown c)
  unfolding shutdown shutdown_in_loop
  shutdown_lem =
      either (Leaves c) (is_connected c.state) _ c
        (λ up.
          either (Leaves c) c.writes _ _
            (λ busy. record {
              sound = record {
                output_valid = v.output_valid;
                pending = λ _ _. busy;
                idle = v.idle;
                shut = λ h. ((v.shut h).0, refl);
              };
              bytes = refl;
            })
            (λ quiet. record {
              sound = record {
                output_valid = v.output_valid;
                pending = λ _. v.pending (connected_not_gone c.state up);
                idle = v.idle;
                shut = λ _. (nothing_waits (connected_not_gone c.state up) quiet, refl);
              };
              bytes = refl;
            }))
        (λ _. unchanged)
    where
      nothing_waits : is_gone c.state ≡ false → c.writes ≡ false → waiting c ≡ 0
      nothing_waits here quiet = elim (dec_lt 0 (waiting c)) [
        | yes some_wait ↦ cc (v.pending here some_wait, quiet)
        | no none_waits ↦ omega arith
      ]

  pub start_read_lem : Leaves c (start_read c)
  unfolding start_read
  start_read_lem =
      either (Leaves c) (not c.reading || not c.reads) _ c
        (λ _. record {
          sound = record {
            output_valid = v.output_valid;
            pending = v.pending;
            idle = v.idle;
            shut = v.shut;
          };
          bytes = refl;
        })
        (λ _. unchanged)

  pub stop_read_lem : Leaves c (stop_read c)
  unfolding stop_read
  stop_read_lem =
      either (Leaves c) (c.reading || c.reads) _ c
        (λ _. record {
          sound = record {
            output_valid = v.output_valid;
            pending = v.pending;
            idle = v.idle;
            shut = v.shut;
          };
          bytes = refl;
        })
        (λ _. unchanged)

  pub connect_established_lem : (c' : Conn) → connect_established c ≡ some c' → Leaves c c'
  unfolding connect_established
  connect_established_lem c' h =
      let (new, e) = assert-then (is_connecting c.state) _ h in
      let (is_up, here) = connecting_is_open c.state new in
      subst (Leaves c) (some-injective e) (record {
        sound = record {
          output_valid = v.output_valid;
          pending = λ _. v.pending here;
          idle = v.idle;
          shut = λ s. cc ((v.shut s).1, is_up);
        };
        bytes = refl;
      })

  closed_lem :
      (l : List Event)
      → Leaves c
          (record c { state = disconnected; reads = false; writes = false; added = true; log = l })
  closed_lem l = record {
    sound = record {
      output_valid = v.output_valid;
      pending = λ h. cc;
      idle = λ h. cc;
      shut = λ h. ((v.shut h).0, refl);
    };
    bytes = refl;
  }

  pub handle_close_lem : (c' : Conn) → handle_close c ≡ some c' → Leaves c c'
  unfolding handle_close
  handle_close_lem c' h =
      let (here, e) = assert-then (is_connected c.state || is_disconnecting c.state) _ h in
      subst (Leaves c) (some-injective e) (closed_lem _)

  pub force_close_lem : (c' : Conn) → force_close c ≡ some c' → Leaves c c'
  unfolding force_close handle_close
  force_close_lem c' =
      either (λ (o : Option Conn). o ≡ some c' → Leaves c c')
        (is_connected c.state || is_disconnecting c.state) _ _
        (λ _ e. subst (Leaves c) (some-injective e) (closed_lem _))
        (λ _ e. subst (Leaves c) (some-injective e) unchanged)

  destroyed_lem :
      (l : List Event)
      → Leaves c
          (record c { state = disconnected; reads = false; writes = false; added = false; log = l })
  destroyed_lem l = record {
    sound = record {
      output_valid = v.output_valid;
      pending = λ h. cc;
      idle = λ h. cc;
      shut = λ h. ((v.shut h).0, refl);
    };
    bytes = refl;
  }

  removed_lem : Leaves c (record c { added = false })
  removed_lem = record {
    sound = record {
      output_valid = v.output_valid;
      pending = v.pending;
      idle = v.idle;
      shut = v.shut;
    };
    bytes = refl;
  }

  pub connect_destroyed_lem : (c' : Conn) → connect_destroyed c ≡ some c' → Leaves c c'
  unfolding connect_destroyed
  connect_destroyed_lem c' h0 =
      either (λ (d : Conn). remove_channel d ≡ some c' → Leaves c c') (is_connected c.state) _ c
        (λ _ h.
          subst (Leaves c) (some-injective (assert-then true _ h).1)
            (destroyed_lem (c.log ++ (down ∷ []))))
        (λ _ h.
          subst (Leaves c) (some-injective (assert-then (not c.reads && not c.writes) _ h).1)
            removed_lem)
        h0

  -- A read changes the input buffer and the log only, unless it ends in `handleClose`.
  input_lem : (b : Buffer) (l : List Event) → Leaves c (record c { input = b; log = l })
  input_lem b l = record {
    sound = record {
      output_valid = v.output_valid;
      pending = v.pending;
      idle = v.idle;
      shut = v.shut;
    };
    bytes = refl;
  }

  after_read_lem :
      (n : Option ℕ) (b : Buffer) (c' : Conn) → after_read n b c ≡ some c' → Leaves c c'
  unfolding after_read handle_close
  after_read_lem none b c' h = subst (Leaves c) (some-injective h) (input_lem b _)
  after_read_lem (some k) b c' h0 =
      either (λ (o : Option Conn). o ≡ some c' → Leaves c c') (k == 0) _ _
        (λ _ h.
          let (here, e) = assert-then (is_connected c.state || is_disconnecting c.state) _ h in
          subst (Leaves c) (some-injective e) (record {
            sound = record {
              output_valid = v.output_valid;
              pending = λ h. cc;
              idle = λ h. cc;
              shut = λ h. ((v.shut h).0, refl);
            };
            bytes = refl;
          }))
        (λ _ h. subst (Leaves c) (some-injective h) (input_lem b _)) h0

  pub handle_read_lem :
      (answers : List Answer) (c' : Conn) → handle_read answers c ≡ some c' → Leaves c c'
  unfolding handle_read
  handle_read_lem answers c' h =
      let ((n, b), read, e) = >>=-eq-some (buf_read_fd c.input answers) _ h in
      after_read_lem n b c' e
