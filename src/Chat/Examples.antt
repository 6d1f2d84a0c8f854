-- ===== src/Chat/Examples.antt =====
-- Runs of the message parser on concrete messages.
use xjblg.Base.{ℕ, ◌≡◌, refl, Bool, false, Option, none, some, [], ◌∷◌, arith}
use xjblg.Base.Text.{Text, str_eq}
use xjblg.Net.Buffer.{Buffer}
use xjblg.Net.Buffer.Inv.{IsValid, contents}
use xjblg.Chat.Json.{Items, item_loop, item_round, parse_json}
use xjblg.Chat.Message.{encode_message, code_key, seq_key}
use xjblg.Chat.Parsing.{item_loop_ends}
use xjblg.Chat.Context.{Fields, ChatContext, host_to_network, on_message}
use xjblg.Chat.Received.{stream, deliveries, IsClean, on_message-stream}

abbrev a : Text
a = b'a' ∷ []

item_loop_ends_example :
    (b : Option ℕ) × (ret : Bool) × (items' : Items) × (item_loop 3 none
        (b'{' ∷ b'"' ∷ b'a' ∷ [])
        []
      ≡ some (b, ret, items'))
item_loop_ends_example = item_loop_ends 3 none (b'{' ∷ b'"' ∷ b'a' ∷ []) [] (omega arith)

-- "}{" is rejected at its second byte.
abbrev closed_open : Text
closed_open = b'}' ∷ b'{' ∷ []

closed_open-rejected : parse_json closed_open ((a, a) ∷ []) ≡ some (false, [])
unfolding parse_json item_loop item_round
closed_open-rejected = refl

codes_differ : str_eq code_key seq_key ≡ false
unfolding str_eq
codes_differ = refl

abbrev fields : Fields
fields = record { code = a; seq = a; sender = a; recver = a; time = a; body = a }

abbrev no_context : ChatContext
no_context = record {
  size = 0;
  fields = record { code = []; seq = []; sender = []; recver = []; time = []; body = [] };
  items = [];
}

-- Two messages and the first byte of a third.
abbrev arrived : Buffer
arrived = record {
  bytes = 0 ∷ 0 ∷ 0 ∷ 0 ∷ 0 ∷ 0 ∷ 0 ∷ 0 ∷ stream (fields ∷ fields ∷ []) (0 ∷ []);
  reader = 8;
  writer = 157;
}

arrived-IsValid : IsValid arrived
unfolding host_to_network encode_message
arrived-IsValid = record {
  ordered = omega arith;
  within = omega arith;
  room = omega arith;
  small = omega arith;
}

contents-arrived : contents arrived ≡ stream (fields ∷ fields ∷ []) (0 ∷ [])
unfolding host_to_network encode_message
contents-arrived = refl

fields-IsClean : IsClean fields
unfolding encode_message
fields-IsClean =
    ((omega arith, omega arith, omega arith, omega arith, omega arith), omega arith, omega arith)

on_message-stream_example :
    (c' : ChatContext) × (b' : Buffer) × (on_message no_context arrived
      ≡ some (deliveries (fields ∷ fields ∷ []), c', b'))
    × IsValid b'
    × (contents b' ≡ 0 ∷ [])
on_message-stream_example =
    on_message-stream (fields ∷ fields ∷ []) (0 ∷ []) no_context arrived
      (fields-IsClean, (fields-IsClean, tt)) arrived-IsValid contents-arrived (omega arith)
