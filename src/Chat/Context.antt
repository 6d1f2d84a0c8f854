-- ===== src/Chat/Context.antt =====
-- NETLIB/application/chat/ChatContext.h and ChatContext.cpp: the messages in the input buffer of a
-- connection; and how NETLIB/application/chat/ChatServer.cpp and ChatClient.cpp frame a message.
use xjblg.Base.{
  ℕ, zero, suc, ◌+◌, ◌*◌, ◌/◌, ◌%◌, ◌^◌, Bool, true, false, ◌||◌, ◌&&◌, Option, none, some, List,
  [], ◌∷◌, ◌++◌, length, ltb, leb, if◌then◌else◌, ◌>>=◌,
}
use xjblg.Base.Text.{Text}
use xjblg.Base.Words.{add_size}
use xjblg.Base.Dict
use xjblg.Net.Buffer.{Buffer, initial_size, readable_bytes, range, make, append, prepend, retrieve}
use xjblg.Chat.Json.{Items, parse_json}
use xjblg.Chat.Message.{code_key, seq_key, sender_key, recver_key, time_key, body_key}

-- The fields of a message, as the callback finds them.
pub record Fields : Type 0 where
  pub code : Text
  pub seq : Text
  pub sender : Text
  pub recver : Text
  pub time : Text
  pub body : Text

-- `size` is `length`, the four bytes as a number below 2^32.
pub record ChatContext : Type 0 where
  pub size : ℕ
  pub fields : Fields
  pub items : Items

-- A call of the message callback, or of `shutdown` of the connection.
pub data Event : Type 0 where
  delivered : Fields → Event
  shut : Event

abbrev pub header_length : ℕ
header_length = 4

-- The bytes of a 32-bit number, the highest first, and back.
unfoldable pub host_to_network : ℕ → List ℕ
host_to_network n = (n / 16777216) % 256 ∷ (n / 65536) % 256 ∷ (n / 256) % 256 ∷ n % 256 ∷ []

unfoldable pub network_to_host : List ℕ → ℕ
network_to_host (a ∷ b ∷ c ∷ d ∷ _) = a * 16777216 + b * 65536 + c * 256 + d
network_to_host _ = 0

-- `jsonItem[key]`: a key that is missing is added with an empty text.
unfoldable pub item : Text → Items → Text × Items
item key items = elim (Dict.lookup key items) [
  | some v ↦ (v, items)
  | none ↦ ([], Dict.insert key [] items)
]

unfoldable pub read_fields : Items → Fields × Items
unfolding item
read_fields items =
    let (code, m1) = item code_key items in
    let (seq, m2) = item seq_key m1 in
    let (sender, m3) = item sender_key m2 in
    let (recver, m4) = item recver_key m3 in
    let (time, m5) = item time_key m4 in
    let (body, m6) = item body_key m5 in
    (
      record { code = code; seq = seq; sender = sender; recver = recver; time = time; body = body },
      m6,
    )

-- `length > 65536 || length < 0` on the signed 32-bit number with these bits.
abbrev pub bad_length : ℕ → Bool
bad_length n = (ltb n (2 ^ 31) && ltb 65536 n) || leb (2 ^ 31) n

pub record Round : Type 0 where
  pub more : Bool
  pub context : ChatContext
  pub buffer : Buffer
  pub events : List Event

-- The callback is called with the fields that were read.
abbrev pub deliver : Fields × Items → ChatContext → Buffer → Round
deliver (f, m) c b = record {
  more = true;
  context = record c { fields = f; items = m };
  buffer = b;
  events = delivered f ∷ [];
}

-- What follows `parseJson` on a whole message.
unfoldable pub parsed_round : Bool × Items → ChatContext → Buffer → Round
unfolding read_fields
parsed_round (true, items) c b = deliver (read_fields items) c b
parsed_round (false, items) c b = record {
  more = true;
  context = record c { items = items };
  buffer = b;
  events = shut ∷ [];
}

-- The body of the loop of `onMessage`.
unfoldable pub frame_round : ChatContext → Buffer → Option Round
unfolding network_to_host parsed_round
frame_round c b =
    let n = network_to_host (range b b.reader (add_size b.reader header_length)) in
    let c' = record c { size = n } in
    if bad_length n
    then some (record { more = false; context = c'; buffer = b; events = shut ∷ [] })
    else if leb (add_size header_length n) (readable_bytes b)
    then (do
      b' ← retrieve header_length b
      let msg = range b' b'.reader (add_size b'.reader n)
      b'' ← retrieve n b'
      result ← parse_json msg c.items
      some (parsed_round result c' b''))
    else some (record { more = false; context = c'; buffer = b; events = [] })

-- `onMessage`, on fuel: the events in order, and what it leaves.
unfoldable pub message_loop : ℕ → ChatContext → Buffer → Option (List Event × ChatContext × Buffer)
message_loop zero c b = none
message_loop (suc fuel) c b =
    if leb header_length (readable_bytes b)
    then (frame_round c b >>= λ r.
        let rest = message_loop fuel r.context r.buffer in
        if r.more
        then (rest >>= λ (events, c', b'). some (r.events ++ events, c', b'))
        else some (r.events, r.context, r.buffer))
    else some ([], c, b)

-- Each round that goes on takes four bytes at least, so this fuel is enough.
unfoldable pub on_message : ChatContext → Buffer → Option (List Event × ChatContext × Buffer)
on_message c b = message_loop (readable_bytes b + 1) c b

-- The buffer that `sendMessage` sends: a new one, with the message, and its length in front.
unfoldable pub frame : Text → Option Buffer
unfolding host_to_network
frame msg = do
  b ← make initial_size
  b' ← append msg b
  prepend (host_to_network (length msg % 2 ^ 32)) b'
