-- ===== src/Chat/Client/Acks.antt =====
-- The acknowledgement of a message, from the client to the window of the server.
use xjblg.Base.{
  ℕ, suc, ◌≡◌, refl, ap, ◌∙◌, Bool, true, none, some, [], ◌∷◌, ◌++◌, Bool-cases, inl, inr,
}
use xjblg.Base.Text.{Text, str_eq, str_eq_refl}
use xjblg.Base.Bytes.{bytes, encode_char}
use xjblg.Base.Dict
use xjblg.Chat.Json.{Items, parse_json}
use xjblg.Chat.Context.{Fields, read_fields}
use xjblg.Chat.Parsed.{parse-encode_text}
use xjblg.Chat.Received.{stored, encoded, read_fields-stored}
use xjblg.Chat.Exec.{pure, gets, modify, require, ◌>>=◌}
use xjblg.Chat.Client.{
  Clock, ChatClient, next_seq, now, hand_over, send_message, send_own, on_context_message,
  server_id,
}
use xjblg.Chat.Server.{World, Server, is_some}
use xjblg.Chat.Server.Resending.{IsQuoteless}
use xjblg.Chat.Server.Actions.{erase_message, do_ack_action}
use xjblg.Chat.Server.Events.{
  login_code, ack_code, on_request, timeout, is_pending, remove_timer, give_up,
  handle_not_ack_message, step,
}

-- The acknowledgement of the number `n`, as the fields that the server reads.
abbrev pub ack : Clock → ChatClient → Text → Fields
ack clock s n = record {
  code = ack_code;
  seq = clock.seq_at (suc s.calls);
  sender = s.user_id;
  recver = server_id;
  time = clock.time_at s.calls;
  body = n;
}

ack_sent :
    (clock : Clock) (c : ℕ) (m : Fields) (s : ChatClient)
    → s.connection ≡ some c
    → on_context_message clock m s
      ≡ some (
        tt,
        record s {
          calls = suc (suc s.calls);
          sent = s.sent ++ ((c, encoded (ack clock s m.seq)) ∷ []);
        },
      )
unfolding on_context_message send_own send_message next_seq now hand_over ack_code bytes encode_char
    ◌>>=◌ gets modify
ack_sent clock c m s conn = rw conn refl

acked :
    (w : World) (conn : ℕ) (f : Fields) (s : Server w) (v : Text × Text)
    → f.code ≡ ack_code
    → Dict.lookup f.body s.message_window ≡ some v
    → on_request w conn f s
      ≡ some (tt, record s { message_window = Dict.erase f.body s.message_window })
unfolding on_request do_ack_action erase_message ◌>>=◌ gets modify require is_some ack_code
    login_code bytes encode_char str_eq
acked w conn f s v code known = rw (code, known) refl

-- A timeout of a number that is not in the window does nothing but to take the timer.
late_timeout :
    (w : World) (n : Text) (heart : Bool) (s : Server w)
    → Dict.lookup n s.message_window ≡ none
    → (s' : Server w) × (step w (timeout n heart) s ≡ some (tt, s'))
      × (s'.effects ≡ s.effects)
      × (s'.store ≡ s.store)
      × (s'.user_conn_maps ≡ s.user_conn_maps)
unfolding step handle_not_ack_message give_up ◌>>=◌ gets modify pure
late_timeout w n heart s gone = elim (Bool-cases (is_pending n heart s.timers)) [
  | inl pending ↦ (
    record s { timers = remove_timer n heart s.timers },
    rw (pending, gone) refl,
    refl,
    refl,
    refl,
  )
  | inr free ↦ (s, rw free refl, refl, refl, refl)
]

-- A connected client whose id, times and numbers have no '"' gets a message, whose number has none either
-- and is in the window of the server. It sends one message, which `parseJson` reads at the server
-- whatever the items held before; the server takes the number out of its window and keeps all else. A
-- timeout of that number then sends nothing, stores nothing and leaves the connections as they are.
pub acknowledged :
    (clock : Clock) (c : ℕ) (m : Fields) (s : ChatClient) (items : Items)
    → (w : World) (conn : ℕ) (server : Server w) (v : Text × Text) (heart : Bool)
    → s.connection ≡ some c
    → IsQuoteless (ack clock s m.seq)
    → Dict.lookup m.seq server.message_window ≡ some v
    → (s' : ChatClient) × (message : Text) × (items' : Items) × (server' : Server w)
      × (server'' : Server w) × (on_context_message clock m s ≡ some (tt, s'))
      × (s'.sent ≡ s.sent ++ ((c, message) ∷ []))
      × (parse_json message items ≡ some (true, items'))
      × (on_request w conn (read_fields items').0 server ≡ some (tt, server'))
      × (server' ≡ record server { message_window = Dict.erase m.seq server.message_window })
      × (step w (timeout m.seq heart) server' ≡ some (tt, server''))
      × (server''.effects ≡ server.effects)
      × (server''.store ≡ server.store)
      × (server''.user_conn_maps ≡ server.user_conn_maps)
acknowledged clock c m s items w conn server v heart connected q known =
    let f = ack clock s m.seq in
    let server' : Server w = record server {
      message_window = Dict.erase m.seq server.message_window;
    } in
    let gone : Dict.lookup m.seq server'.message_window ≡ none =
      Dict.lookup-erase m.seq m.seq server.message_window ∙ rw (str_eq_refl m.seq) refl in
    let (server'', late, effects, store, online) = late_timeout w m.seq heart server' gone in
    let client : ChatClient = record s {
      calls = suc (suc s.calls);
      sent = s.sent ++ ((c, encoded f) ∷ []);
    } in
    (
      client,
      encoded f,
      stored f items,
      server',
      server'',
      ack_sent clock c m s connected,
      refl,
      parse-encode_text f.code f.seq f.sender f.recver f.time q.0 f.body items q.1,
      ap (λ (p : Fields × Items). on_request w conn p.0 server) (read_fields-stored f items)
          ∙ acked w conn f server v refl known,
      refl,
      late,
      effects,
      store,
      online,
    )
