-- ===== src/Net/Connection/Run.antt =====
-- The life of a connection: every sequence of calls and events from its constructor on.
use xjblg.Base.{
  some-injective, ℕ, ◌+◌, ◌≤◌, ◌≡◌, refl, sym, ap, ◌∙◌, true, false, some, List, [], ◌++◌, arith,
  length,
}
use mathlib.Core.Path.{subst}
use xjblg.Net.Buffer.{Buffer, max_size}
use xjblg.Net.Buffer.Inv.{IsValid, contents}
use xjblg.Net.Buffer.Read.{Answer}
use xjblg.Net.Connection.{
  Conn, Wrote, taken, make_conn, is_connected, send, shutdown, handle_write, handle_read,
  handle_close, force_close, start_read, stop_read, connect_established, connect_destroyed,
}
use xjblg.Net.Connection.Stream.{IsSound, accepted, waiting, send_lem}
use xjblg.Net.Connection.Drain.{handle_write_lem}
use xjblg.Net.Connection.Steps.{
  Leaves, shutdown_lem, start_read_lem, stop_read_lem, connect_established_lem, handle_close_lem,
  force_close_lem, connect_destroyed_lem, handle_read_lem,
}

-- `Run sent c`: a connection that was made over two buffers, the output buffer valid and empty, can
-- come to `c` after the bytes `sent` were handed over while it was connected.
pub data Run : List ℕ → Conn → Type 0 where
  made :
      (input output : Buffer)
      → IsValid output
      → contents output ≡ []
      → Run [] (make_conn input output)
  established :
      {sent : List ℕ} {c : Conn} (c' : Conn)
      → Run sent c
      → connect_established c ≡ some c'
      → Run sent c'
  sending :
      {sent : List ℕ} {c : Conn} (bs : List ℕ) (answer : Wrote) (c' : Conn)
      → Run sent c
      → is_connected c.state ≡ true
      → c.output.writer + length bs ≤ max_size
      → send bs answer c ≡ some c'
      → Run (sent ++ bs) c'
  dropped :
      {sent : List ℕ} {c : Conn} (bs : List ℕ) (answer : Wrote) (c' : Conn)
      → Run sent c
      → is_connected c.state ≡ false
      → send bs answer c ≡ some c'
      → Run sent c'
  read_event :
      {sent : List ℕ} {c : Conn} (answers : List Answer) (c' : Conn)
      → Run sent c
      → handle_read answers c ≡ some c'
      → Run sent c'
  write_event :
      {sent : List ℕ} {c : Conn} (answer : Wrote) (c' : Conn)
      → Run sent c
      → taken answer ≤ waiting c
      → handle_write answer c ≡ some c'
      → Run sent c'
  close_event :
      {sent : List ℕ} {c : Conn} (c' : Conn) → Run sent c → handle_close c ≡ some c' → Run sent c'
  shutting : {sent : List ℕ} {c : Conn} → Run sent c → Run sent (shutdown c)
  forced :
      {sent : List ℕ} {c : Conn} (c' : Conn) → Run sent c → force_close c ≡ some c' → Run sent c'
  started : {sent : List ℕ} {c : Conn} → Run sent c → Run sent (start_read c)
  stopped : {sent : List ℕ} {c : Conn} → Run sent c → Run sent (stop_read c)
  destroyed :
      {sent : List ℕ} {c : Conn} (c' : Conn)
      → Run sent c
      → connect_destroyed c ≡ some c'
      → Run sent c'

after :
    {sent : List ℕ} {c c' : Conn}
    → IsSound c × (accepted c ≡ sent)
    → (IsSound c → Leaves c c')
    → IsSound c' × (accepted c' ≡ sent)
after (v, e) f = let l = f v in (l.sound, l.bytes ∙ e)

new-IsSound : (i o : Buffer) → IsValid o → contents o ≡ [] → IsSound (make_conn i o)
unfolding make_conn
new-IsSound i o v e = record {
  output_valid = v;
  pending = λ _ h. absurd (omega (arith, h, ap length e));
  idle = λ h. cc;
  shut = λ h. cc;
}

dropped_same :
    (bs : List ℕ) (answer : Wrote) (c c' : Conn)
    → is_connected c.state ≡ false
    → send bs answer c ≡ some c'
    → c ≡ c'
unfolding send
dropped_same bs answer c c' off h = some-injective (sym (rw off refl) ∙ h)

-- In every sequence of calls and events that return, from the constructor on over a valid, empty output
-- buffer, where the data of each `send` fits the size limit of that buffer and the kernel takes no more
-- than the bytes that wait: the connection is sound, and what the kernel has taken, followed by what
-- waits in the output buffer, is exactly what was handed over while it was connected, in that order.
pub accepted-Run : (sent : List ℕ) (c : Conn) → Run sent c → IsSound c × (accepted c ≡ sent)
unfolding make_conn
accepted-Run sent c (made i o v e) = (new-IsSound i o v e, e)
accepted-Run sent c (established c' r h) =
    after (accepted-Run _ _ r) (λ v. connect_established_lem _ v c' h)
accepted-Run sent c (sending bs answer c' r up room h) =
    let (v, e) = accepted-Run _ _ r in
    let (d, is_made, good) = send_lem bs answer _ v up room in
    let same : d ≡ c' = some-injective (sym is_made ∙ h) in
    (subst IsSound same good.sound, sym (ap accepted same) ∙ good.bytes ∙ ap (λ ds. ds ++ bs) e)
accepted-Run sent c (dropped bs answer c' r off h) =
    let (v, e) = accepted-Run _ _ r in
    let same = dropped_same bs answer _ c' off h in
    (subst IsSound same v, sym (ap accepted same) ∙ e)
accepted-Run sent c (read_event answers c' r h) =
    after (accepted-Run _ _ r) (λ v. handle_read_lem _ v answers c' h)
accepted-Run sent c (write_event answer c' r within h) =
    let (v, e) = accepted-Run _ _ r in
    let (d, is_made, good) = handle_write_lem answer _ v within in
    let same : d ≡ c' = some-injective (sym is_made ∙ h) in
    (subst IsSound same good.sound, sym (ap accepted same) ∙ good.bytes ∙ e)
accepted-Run sent c (close_event c' r h) =
    after (accepted-Run _ _ r) (λ v. handle_close_lem _ v c' h)
accepted-Run sent c (shutting r) = after (accepted-Run _ _ r) (λ v. shutdown_lem _ v)
accepted-Run sent c (forced c' r h) = after (accepted-Run _ _ r) (λ v. force_close_lem _ v c' h)
accepted-Run sent c (started r) = after (accepted-Run _ _ r) (λ v. start_read_lem _ v)
accepted-Run sent c (stopped r) = after (accepted-Run _ _ r) (λ v. stop_read_lem _ v)
accepted-Run sent c (destroyed c' r h) =
    after (accepted-Run _ _ r) (λ v. connect_destroyed_lem _ v c' h)
