-- ===== src/Net/Connection.antt =====
-- NETLIB/net/TcpConnection.h and TcpConnection.cpp, with the interest of its Channel. Every call is
-- made in the thread of the loop, so `runInLoop` runs at once. What the kernel answers to a write is
-- an argument; the callbacks of the user are left as a log. `none` is a failed assert.
pub mod Examples
pub mod Stream
pub mod Drain
pub mod Steps
pub mod Run
pub mod Lifecycle
use xjblg.Base.{
  ℕ, ◌+◌, ◌-◌, Bool, true, false, not, ◌&&◌, ◌||◌, Option, none, some, List, [], ◌∷◌, ◌++◌, length,
  take, drop, ltb, leb, ◌==◌, if◌then◌else◌, ◌>>=◌, ◌>>◌, assert,
}
use xjblg.Net.Buffer.{Buffer, range, readable_bytes, append, retrieve, retrieve_all}
use xjblg.Net.Buffer.Read.{Answer, buf_read_fd}

pub data State : Type 0 where
  disconnected connecting connected disconnecting : State

-- What is called back: a connection that is up or down, a message of so many bytes, the close
-- callback of the owner.
pub data Event : Type 0 where
  up down closed : Event
  message : ℕ → Event

-- `reads` and `writes` are the bits of `events_` of the channel, and `added` is `addedToLoop_`. `wire`
-- is what the kernel has taken, and `write_shut` says that `shutdown(SHUT_WR)` was called.
pub record Conn : Type 0 where
  pub state : State
  pub reading : Bool
  pub reads : Bool
  pub writes : Bool
  pub added : Bool
  pub input : Buffer
  pub output : Buffer
  pub wire : List ℕ
  pub write_shut : Bool
  pub log : List Event

abbrev pub is_connected : State → Bool
is_connected connected = true
is_connected _ = false

abbrev pub is_connecting : State → Bool
is_connecting connecting = true
is_connecting _ = false

abbrev pub is_disconnecting : State → Bool
is_disconnecting disconnecting = true
is_disconnecting _ = false

-- `Channel::enableReading` and the like; each calls `update`.
abbrev pub enable_reading : Conn → Conn
enable_reading c = record c { reads = true; added = true }

abbrev pub disable_reading : Conn → Conn
disable_reading c = record c { reads = false; added = true }

abbrev pub enable_writing : Conn → Conn
enable_writing c = record c { writes = true; added = true }

abbrev pub disable_writing : Conn → Conn
disable_writing c = record c { writes = false; added = true }

abbrev pub disable_all : Conn → Conn
disable_all c = record c { reads = false; writes = false; added = true }

-- `Channel::remove`.
abbrev pub remove_channel : Conn → Option Conn
remove_channel c = assert (not c.reads && not c.writes) >> some (record c { added = false })

-- The answer of a write: -1, or how many bytes were taken.
pub data Wrote : Type 0 where
  failed : Wrote
  wrote : ℕ → Wrote

abbrev pub taken : Wrote → ℕ
taken failed = 0
taken (wrote n) = n

-- The second half of `sendInLoop`, when the kernel has taken `n` bytes: the rest goes to the output
-- buffer.
unfoldable pub buffer_rest : ℕ → List ℕ → Conn → Option Conn
buffer_rest n bs c =
    let c' = record c { wire = c.wire ++ take n bs } in
    if ltb n (length bs)
    then (append (drop n bs) c.output >>= λ out.
        let c'' = record c' { output = out } in some (if c.writes then c'' else enable_writing c''))
    else some c'

-- `sendInLoop(data, len)`: it writes at once where nothing waits.
unfoldable pub send_in_loop : List ℕ → Wrote → Conn → Option Conn
unfolding buffer_rest
send_in_loop bs answer c =
    buffer_rest (if not c.writes && readable_bytes c.output == 0 then taken answer else 0) bs c

-- `send(data)`.
unfoldable pub send : List ℕ → Wrote → Conn → Option Conn
unfolding send_in_loop
send bs answer c = if is_connected c.state then send_in_loop bs answer c else some c

-- `send(Buffer*)` sends the readable bytes and empties the buffer.
unfoldable pub send_buffer : Buffer → Wrote → Conn → Option (Conn × Buffer)
unfolding send_in_loop
send_buffer msg answer c =
    if is_connected c.state
    then (send_in_loop (range msg msg.reader msg.writer) answer c >>= λ c'.
        some (c', retrieve_all msg))
    else some (c, msg)

unfoldable pub shutdown_in_loop : Conn → Conn
shutdown_in_loop c = if c.writes then c else record c { write_shut = true }

unfoldable pub shutdown : Conn → Conn
unfolding shutdown_in_loop
shutdown c =
    if is_connected c.state then shutdown_in_loop (record c { state = disconnecting }) else c

unfoldable pub handle_close : Conn → Option Conn
handle_close c = do
  assert (is_connected c.state || is_disconnecting c.state)
  let c' = disable_all (record c { state = disconnected })
  some (record c' { log = c.log ++ (down ∷ closed ∷ []) })

unfoldable pub force_close : Conn → Option Conn
unfolding handle_close
force_close c =
    if is_connected c.state || is_disconnecting c.state
    then handle_close (record c { state = disconnecting })
    else some c

unfoldable pub start_read : Conn → Conn
start_read c =
    if not c.reading || not c.reads then record (enable_reading c) { reading = true } else c

unfoldable pub stop_read : Conn → Conn
stop_read c = if c.reading || c.reads then record (disable_reading c) { reading = false } else c

unfoldable pub connect_established : Conn → Option Conn
connect_established c = do
  assert (is_connecting c.state)
  some (record (enable_reading (record c { state = connected })) { log = c.log ++ (up ∷ []) })

unfoldable pub connect_destroyed : Conn → Option Conn
connect_destroyed c = remove_channel (
    if is_connected c.state
    then record (disable_all (record c { state = disconnected })) { log = c.log ++ (down ∷ []) }
    else c)

-- The three branches of `handleRead`, after a read that returned `n` and left the buffer `b`.
unfoldable pub after_read : Option ℕ → Buffer → Conn → Option Conn
unfolding handle_close
after_read none b c = some (record c { input = b })
after_read (some k) b c =
    if k == 0
    then handle_close (record c { input = b })
    else some (record c { input = b; log = c.log ++ (message k ∷ []) })

-- `handleRead`, with the answers of the kernel to the reads of `bufReadFd`.
unfoldable pub handle_read : List Answer → Conn → Option Conn
unfolding after_read
handle_read answers c = do (n, b) ← buf_read_fd c.input answers; after_read n b c

-- `handleWrite`, with the answer of the kernel to its write.
unfoldable pub handle_write : Wrote → Conn → Option Conn
unfolding shutdown_in_loop
handle_write answer c =
    if c.writes && ltb 0 (taken answer)
    then (retrieve (taken answer) c.output >>= λ out.
        let c' = record c {
          output = out;
          wire = c.wire ++ take (taken answer) (range c.output c.output.reader c.output.writer);
        } in
        some (
          if readable_bytes out == 0
          then (let c'' = disable_writing c' in
              if is_disconnecting c.state then shutdown_in_loop c'' else c'')
          else c'))
    else some c

-- The constructor, over two new buffers.
unfoldable pub make_conn : Buffer → Buffer → Conn
make_conn input output = record {
  state = connecting;
  reading = true;
  reads = false;
  writes = false;
  added = false;
  input = input;
  output = output;
  wire = [];
  write_shut = false;
  log = [];
}
