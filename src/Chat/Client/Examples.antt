-- ===== src/Chat/Client/Examples.antt =====
-- A concrete acknowledgement.
use xjblg.Base.{◌+◌, ◌≡◌, refl, true, false, some, [], ◌∷◌, ◌++◌, arith}
use xjblg.Base.Text.{Text, str_eq}
use xjblg.Base.Bytes.{bytes, encode_char}
use xjblg.Base.Dict
use xjblg.Chat.Json.{Items, parse_json}
use xjblg.Chat.Context.{Fields, read_fields}
use xjblg.Chat.Client.{Clock, ChatClient, server_id, on_context_message}
use xjblg.Chat.Client.Acks.{ack, acknowledged}
use xjblg.Chat.Server.{Server}
use xjblg.Chat.Server.Events.{ack_code, on_request, step, timeout}
use xjblg.Chat.Server.Resending.{IsQuoteless}
use xjblg.Chat.Server.Examples.{world, bob, amy, hello, code, zero_seq, printed, on_its_way}

abbrev clock : Clock
clock = record { seq_at = λ n. (b'0' + n) ∷ []; time_at = λ n. b't' ∷ [] }

abbrev client : ChatClient
client = record { user_id = bob; password = hello; connection = some 1; calls = 0; sent = [] }

abbrev arrived : Fields
arrived = record {
  code = code;
  seq = zero_seq;
  sender = amy;
  recver = bob;
  time = zero_seq;
  body = hello;
}

in_window : Dict.lookup zero_seq on_its_way.message_window ≡ some (bob, printed)
unfolding Dict.lookup str_eq
in_window = refl

clean : IsQuoteless (ack clock client zero_seq)
unfolding ack_code server_id bytes encode_char
clean = omega arith

acknowledged_example :
    (s' : ChatClient) × (message : Text) × (items' : Items) × (server' : Server world)
    × (server'' : Server world) × (on_context_message clock arrived client ≡ some (tt, s'))
    × (s'.sent ≡ [] ++ ((1, message) ∷ []))
    × (parse_json message [] ≡ some (true, items'))
    × (on_request world 3 (read_fields items').0 on_its_way ≡ some (tt, server'))
    × (server'
        ≡ record on_its_way { message_window = Dict.erase zero_seq on_its_way.message_window })
    × (step world (timeout zero_seq false) server' ≡ some (tt, server''))
    × (server''.effects ≡ on_its_way.effects)
    × (server''.store ≡ on_its_way.store)
    × (server''.user_conn_maps ≡ on_its_way.user_conn_maps)
acknowledged_example =
    acknowledged clock 1 arrived client [] world 3 on_its_way (bob, printed) false refl clean
      in_window
