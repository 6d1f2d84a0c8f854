-- ===== src/Chat/Received.antt =====
-- A conversation: messages that are encoded and framed, sent one behind another, come out of `onMessage`
-- one by one.
use xjblg.Base.{
  ℕ, zero, suc, ◌+◌, ◌≤◌, ◌<◌, ◌≡◌, ap, ◌∙◌, true, false, some, List, [], ◌∷◌, ◌++◌, arith, length,
  length-append, leb, le→leb,
}
use xjblg.Base.Text.{Text, Lacks, str_eq}
use xjblg.Base.Dict
use xjblg.Net.Buffer.{Buffer, readable_bytes}
use xjblg.Net.Buffer.Inv.{IsValid, contents}
use xjblg.Net.Buffer.Consume.{readable_bytes-contents}
use xjblg.Chat.Json.{Items}
use xjblg.Chat.Message.{
  code_key, seq_key, sender_key, recver_key, time_key, body_key, encode_message,
}
use xjblg.Chat.Parsed.{store_message, parse-encode_text}
use xjblg.Chat.Context.{
  Fields, ChatContext, Event, delivered, header_length, host_to_network, item, read_fields, deliver,
  parsed_round, frame_round, message_loop, on_message,
}
use xjblg.Chat.Frames.{framed, frame_round-framed}

abbrev pub stored : Fields → Items → Items
stored f items = store_message f.code f.seq f.sender f.recver f.time f.body items

pub item-found : (key v : Text) (m : Items) → Dict.lookup key m ≡ some v → item key m ≡ (v, m)
unfolding item
item-found key v m e = rw (item, e)

module _ (f : Fields) (items : Items) where
  abbrev pub m1 : Items
  m1 = Dict.insert code_key f.code items

  abbrev pub m2 : Items
  m2 = Dict.insert seq_key f.seq m1

  abbrev pub m3 : Items
  m3 = Dict.insert sender_key f.sender m2

  abbrev pub m4 : Items
  m4 = Dict.insert recver_key f.recver m3

  abbrev pub m5 : Items
  m5 = Dict.insert time_key f.time m4

  pub body_stored : Dict.lookup body_key (stored f items) ≡ some f.body
  unfolding str_eq
  body_stored = Dict.lookup-insert body_key body_key f.body m5

  pub time_stored : Dict.lookup time_key (stored f items) ≡ some f.time
  unfolding str_eq
  time_stored =
      Dict.lookup-insert body_key time_key f.body m5
      ∙ Dict.lookup-insert time_key time_key f.time m4

  pub recver_stored : Dict.lookup recver_key (stored f items) ≡ some f.recver
  unfolding str_eq
  recver_stored =
      Dict.lookup-insert body_key recver_key f.body m5
      ∙ Dict.lookup-insert time_key recver_key f.time m4
      ∙ Dict.lookup-insert recver_key recver_key f.recver m3

  pub sender_stored : Dict.lookup sender_key (stored f items) ≡ some f.sender
  unfolding str_eq
  sender_stored =
      Dict.lookup-insert body_key sender_key f.body m5
      ∙ Dict.lookup-insert time_key sender_key f.time m4
      ∙ Dict.lookup-insert recver_key sender_key f.recver m3
      ∙ Dict.lookup-insert sender_key sender_key f.sender m2

  pub seq_stored : Dict.lookup seq_key (stored f items) ≡ some f.seq
  unfolding str_eq
  seq_stored =
      Dict.lookup-insert body_key seq_key f.body m5
      ∙ Dict.lookup-insert time_key seq_key f.time m4
      ∙ Dict.lookup-insert recver_key seq_key f.recver m3
      ∙ Dict.lookup-insert sender_key seq_key f.sender m2
      ∙ Dict.lookup-insert seq_key seq_key f.seq m1

  pub code_stored : Dict.lookup code_key (stored f items) ≡ some f.code
  unfolding str_eq
  code_stored =
      Dict.lookup-insert body_key code_key f.body m5
      ∙ Dict.lookup-insert time_key code_key f.time m4
      ∙ Dict.lookup-insert recver_key code_key f.recver m3
      ∙ Dict.lookup-insert sender_key code_key f.sender m2
      ∙ Dict.lookup-insert seq_key code_key f.seq m1
      ∙ Dict.lookup-insert code_key code_key f.code items

  pub read_fields-stored : read_fields (stored f items) ≡ (f, stored f items)
  unfolding read_fields
  read_fields-stored = rw (
    item-found code_key f.code (stored f items) code_stored,
    item-found seq_key f.seq (stored f items) seq_stored,
    item-found sender_key f.sender (stored f items) sender_stored,
    item-found recver_key f.recver (stored f items) recver_stored,
    item-found time_key f.time (stored f items) time_stored,
    item-found body_key f.body (stored f items) body_stored,
  )

abbrev pub encoded : Fields → Text
encoded f = encode_message f.code f.seq f.sender f.recver f.time f.body false

-- Texts without a '"', and not too long together.
abbrev pub IsClean : Fields → Type 0
IsClean f =
    (Lacks b'"' f.code
      × Lacks b'"' f.seq
      × Lacks b'"' f.sender
      × Lacks b'"' f.recver
      × Lacks b'"' f.time)
    × Lacks b'"' f.body
    × (length (encoded f) ≤ 65536)

abbrev pub AreClean : List Fields → Type 0
AreClean [] = Unit
AreClean (f ∷ fs) = IsClean f × AreClean fs

-- The messages one behind another, and what follows.
abbrev pub stream : List Fields → List ℕ → List ℕ
stream [] tail = tail
stream (f ∷ fs) tail = framed (encoded f) ++ stream fs tail

abbrev pub deliveries : List Fields → List Event
deliveries [] = []
deliveries (f ∷ fs) = delivered f ∷ deliveries fs

length-stream : (fs : List Fields) (tail : List ℕ) → length fs ≤ length (stream fs tail)
unfolding host_to_network
length-stream [] tail = omega arith
length-stream (f ∷ fs) tail =
    omega (arith, length-stream fs tail, length-append (encoded f) (stream fs tail))

-- One round delivers the first message.
frame_round-encoded :
    (f : Fields) (rest : List ℕ) (c : ChatContext) (b : Buffer)
    → IsClean f
    → IsValid b
    → contents b ≡ framed (encoded f) ++ rest
    → (c' : ChatContext) × (b' : Buffer) × (frame_round c b
        ≡ some (record { more = true; context = c'; buffer = b'; events = delivered f ∷ [] }))
      × IsValid b'
      × (contents b' ≡ rest)
unfolding parsed_round
frame_round-encoded f rest c b (lack, body_lacks, small) v e =
    let (b', went, v', left) =
      frame_round-framed c b (encoded f) rest (true, stored f c.items) v e small
        (parse-encode_text f.code f.seq f.sender f.recver f.time lack f.body c.items body_lacks) in
    (
      record { size = length (encoded f); fields = f; items = stored f c.items },
      b',
      went
          ∙ ap
              (λ (p : Fields × Items). some (deliver p (record c { size = length (encoded f) }) b'))
              (read_fields-stored f c.items),
      v',
      left,
    )

message_loop-stream :
    (fs : List Fields) (tail : List ℕ) (fuel : ℕ) (c : ChatContext) (b : Buffer)
    → AreClean fs
    → IsValid b
    → contents b ≡ stream fs tail
    → length tail < header_length
    → length fs < fuel
    → (c' : ChatContext) × (b' : Buffer) × (message_loop fuel c b ≡ some (deliveries fs, c', b'))
      × IsValid b'
      × (contents b' ≡ tail)
unfolding message_loop host_to_network
message_loop-stream fs tail zero c b cl v e short h = absurd (omega arith)
message_loop-stream [] tail (suc fuel) c b cl v e short h =
    let few : leb header_length (readable_bytes b) ≡ false =
      ground (arith, readable_bytes-contents b v, ap length e) in
    (c, b, rw few, v, e)
message_loop-stream (f ∷ fs) tail (suc fuel) c b (cl, cls) v e short h =
    let (c1, b1, went, v1, left) = frame_round-encoded f (stream fs tail) c b cl v e in
    let (c2, b2, others, v2, left') =
      message_loop-stream fs tail fuel c1 b1 cls v1 left short (omega arith) in
    let enough : leb header_length (readable_bytes b) ≡ true =
      le→leb _ _ (omega (arith, readable_bytes-contents b v, ap length e)) in
    (c2, b2, rw (enough, went, others), v2, left')

-- A valid buffer holds encoded and framed messages one behind another, their texts without a '"' and
-- each message of at most 65536 bytes, and then less than a length of four bytes. One call of
-- `onMessage` then delivers exactly these messages, in order, and leaves a valid buffer with the bytes
-- behind them.
pub on_message-stream :
    (fs : List Fields) (tail : List ℕ) (c : ChatContext) (b : Buffer)
    → AreClean fs
    → IsValid b
    → contents b ≡ stream fs tail
    → length tail < header_length
    → (c' : ChatContext) × (b' : Buffer) × (on_message c b ≡ some (deliveries fs, c', b'))
      × IsValid b'
      × (contents b' ≡ tail)
unfolding on_message
on_message-stream fs tail c b cl v e short =
    message_loop-stream fs tail (readable_bytes b + 1) c b cl v e short
      (omega (arith, length-stream fs tail, readable_bytes-contents b v, ap length e))
