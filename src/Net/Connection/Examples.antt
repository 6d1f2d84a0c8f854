-- ===== src/Net/Connection/Examples.antt =====
-- Runs of a connection on concrete bytes.
use xjblg.Base.{ℕ, ◌≡◌, refl, true, false, some, List, [], ◌∷◌, arith}
use xjblg.Net.Buffer.{Buffer}
use xjblg.Net.Buffer.Inv.{IsValid}
use xjblg.Net.Connection.{
  Conn, connected, wrote, make_conn, send, send_in_loop, buffer_rest, handle_write,
  connect_established, up,
}
use xjblg.Net.Connection.Stream.{IsSound, Accepts, accepted, send_lem}
use xjblg.Net.Connection.Drain.{Keeps, handle_write_lem}
use xjblg.Net.Connection.Run.{Run, made, established, sending, accepted-Run}

abbrev empty_buffer : Buffer
empty_buffer = record {
  bytes = 0 ∷ 0 ∷ 0 ∷ 0 ∷ 0 ∷ 0 ∷ 0 ∷ 0 ∷ 0 ∷ 0 ∷ 0 ∷ 0 ∷ [];
  reader = 8;
  writer = 8;
}

empty_buffer-IsValid : IsValid empty_buffer
empty_buffer-IsValid = record {
  ordered = omega arith;
  within = omega arith;
  room = omega arith;
  small = omega arith;
}

-- A connection that is up, and one on which two bytes wait.
abbrev up_conn : Conn
up_conn = record {
  state = connected;
  reading = true;
  reads = true;
  writes = false;
  added = true;
  input = empty_buffer;
  output = empty_buffer;
  wire = [];
  write_shut = false;
  log = [];
}

abbrev two_waiting : Buffer
two_waiting = record {
  bytes = 0 ∷ 0 ∷ 0 ∷ 0 ∷ 0 ∷ 0 ∷ 0 ∷ 0 ∷ b'o' ∷ b'k' ∷ 0 ∷ 0 ∷ [];
  reader = 8;
  writer = 10;
}

two_waiting-IsValid : IsValid two_waiting
two_waiting-IsValid = record {
  ordered = omega arith;
  within = omega arith;
  room = omega arith;
  small = omega arith;
}

abbrev busy_conn : Conn
busy_conn = record up_conn { output = two_waiting; writes = true }

up_conn-IsSound : IsSound up_conn
up_conn-IsSound = record {
  output_valid = empty_buffer-IsValid;
  pending = λ _ h. absurd (omega arith);
  idle = λ h. cc;
  shut = λ h. cc;
}

busy_conn-IsSound : IsSound busy_conn
busy_conn-IsSound = record {
  output_valid = two_waiting-IsValid;
  pending = λ _ h. refl;
  idle = λ h. omega arith;
  shut = λ h. cc;
}

abbrev hey : List ℕ
hey = b'h' ∷ b'e' ∷ b'y' ∷ []

send_lem_example : (c' : Conn) × (send hey (wrote 1) up_conn ≡ some c') × Accepts hey up_conn c'
send_lem_example = send_lem hey (wrote 1) up_conn up_conn-IsSound refl (omega arith)

handle_write_lem_example :
    (c' : Conn) × (handle_write (wrote 1) busy_conn ≡ some c') × Keeps busy_conn c'
handle_write_lem_example = handle_write_lem (wrote 1) busy_conn busy_conn-IsSound (omega arith)

abbrev new_conn : Conn
new_conn = make_conn empty_buffer empty_buffer

abbrev first_up : Conn
first_up = record up_conn { log = up ∷ [] }

-- The kernel takes all the bytes of the first message.
abbrev after_hey : Conn
after_hey = record first_up { wire = hey }

new_conn-up : connect_established new_conn ≡ some first_up
unfolding connect_established make_conn
new_conn-up = refl

hey-sent : send hey (wrote 3) first_up ≡ some after_hey
unfolding send send_in_loop buffer_rest
hey-sent = refl

hey-Run : Run hey after_hey
hey-Run =
    sending hey (wrote 3) after_hey
      (established first_up (made empty_buffer empty_buffer empty_buffer-IsValid refl) new_conn-up)
      refl (omega arith) hey-sent

accepted-Run_example : IsSound after_hey × (accepted after_hey ≡ hey)
accepted-Run_example = accepted-Run hey after_hey hey-Run
