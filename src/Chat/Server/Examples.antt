-- ===== src/Chat/Server/Examples.antt =====
-- Concrete runs of the chat server.
use xjblg.Base.{
  ◌+◌, ◌≡◌, refl, inl, inr, true, false, ◌&&◌, ◌||◌, none, some, List, [], ◌∷◌, length, ltb,
  if◌then◌else◌, Bool-cases,
}
use xjblg.Base.Text.{Text, str_eq}
use xjblg.Base.Bytes.{bytes, encode_char}
use xjblg.Base.Dict
use xjblg.Base.Maps.{put}
use xjblg.Chat.Exec.{pure, gets, modify, require, each, ◌>>=◌}
use xjblg.Chat.Message.{encode_message}
use xjblg.Chat.Model.{Mysql}
use xjblg.Chat.Redis.{Redis, is_member}
use xjblg.Chat.Redis
use xjblg.Chat.Server.{
  World, Server, sent, shut, heart_code, is_some, lock, shutdown, emit, cache_message, get_seq,
  insert_message_to_window, encode, run_after, dispatch, send_message,
}
use xjblg.Chat.Server.Login.{erase_conn}
use xjblg.Chat.Server.Actions.{erase_message}
use xjblg.Chat.Server.Waiting.{IsWaiting, IsCached, Kept}
use xjblg.Chat.Server.Delivery.{settled, none_settled}
use xjblg.Chat.Server.Events.{
  Event, opened, timeout, same_bool, is_pending, remove_timer, close_found, close_overtime_conn,
  give_up, handle_not_ack_message, set_live, step, run,
}
use xjblg.Chat.Server.Sent.{sent_message-Kept, timeout_caches}

-- Sets of messages as a function.
abbrev pub Sets : Type 0
Sets = Text → List Text

abbrev pub add_to : Text → Text → Sets → Sets
add_to key element s j = if str_eq key j then element ∷ s j else s j

abbrev pub empty_set : Text → Sets → Sets
empty_set key s j = if str_eq key j then [] else s j

pub add_to-member :
    (key element k e : Text) (s : Sets)
    → is_member e (add_to key element s k)
      ≡ ((str_eq key k && str_eq element e) || is_member e (s k))
unfolding is_member
add_to-member key element k e s = elim (Bool-cases (str_eq key k)) [
  | inl same ↦ rw same refl
  | inr other ↦ rw other refl
]

abbrev pub sets : Redis
sets = record {
  Store = Sets;
  sadd = add_to;
  smembers = λ k s. s k;
  scard = λ k s. length (s k);
  exists = λ k s. ltb 0 (length (s k));
  del = empty_set;
  adds = add_to-member;
  deletes = λ key k s. refl;
  counts = λ k s. refl;
  knows = λ k s. refl;
}

-- A database that knows one user, 11.
abbrev pub eleven : Text
eleven = b'1' ∷ b'1' ∷ []

abbrev no_rows : Mysql
no_rows = record { Db = Unit {0}; run = λ sql db. some (some [], db) }

abbrev pub world : World
world = record {
  mysql = no_rows;
  redis = sets;
  seq_at = λ n. (b'0' + n) ∷ [];
  time_at = λ n. b't' ∷ [];
}

abbrev pub code : Text
code = b'2' ∷ b'0' ∷ b'0' ∷ b'1' ∷ []

abbrev pub bob : Text
bob = b'b' ∷ []

abbrev pub amy : Text
amy = b'a' ∷ []

abbrev pub hello : Text
hello = b'h' ∷ b'i' ∷ []

-- Bob is online on the connection 3.
abbrev pub at_start : Server world
at_start = record {
  model = record { user_id = []; username = []; db = tt };
  store = λ k. [];
  calls = 0;
  user_conn_maps = (bob, 3) ∷ [];
  message_window = [];
  json_item = [];
  live = λ c. true;
  timers = [];
  effects = [];
}

abbrev pub zero_seq : Text
zero_seq = b'0' ∷ []

abbrev pub printed : Text
printed = encode_message code zero_seq amy bob zero_seq hello false

abbrev pub on_its_way : Server world
on_its_way = record at_start {
  calls = 1;
  message_window = (zero_seq, (bob, printed)) ∷ [];
  timers = (zero_seq, false) ∷ [];
  effects = sent 3 printed ∷ [];
}

sends :
    send_message world (some 3) code amy bob zero_seq hello false at_start ≡ some (tt, on_its_way)
unfolding send_message encode get_seq insert_message_to_window dispatch run_after emit Dict.lookup
    Dict.insert ◌>>=◌ gets modify require pure is_some str_eq heart_code bytes encode_char
    encode_message
sends = refl

abbrev events : List Event
events = opened 7 ∷ timeout zero_seq false ∷ []

abbrev timed_out : Server world
timed_out = record at_start {
  calls = 1;
  user_conn_maps = [];
  store = add_to bob printed (λ k. []);
  live = put (λ c. true) 7 true;
  effects = sent 3 printed ∷ shut 3 ∷ [];
}

runs : run world events on_its_way ≡ some (tt, timed_out)
unfolding run each step set_live handle_not_ack_message give_up close_overtime_conn close_found lock
    shutdown emit cache_message Redis.cache_message erase_conn erase_message is_pending remove_timer
    same_bool Dict.lookup Dict.erase ◌>>=◌ gets modify pure str_eq put
runs = refl

not_settled : none_settled world zero_seq bob printed events ≡ true
unfolding none_settled settled
not_settled = refl

plain_code : str_eq code heart_code ≡ false
unfolding str_eq heart_code bytes encode_char
plain_code = refl

not_pending : is_pending zero_seq true at_start.timers ≡ false
unfolding is_pending
not_pending = refl

sent_message-Kept_example : Kept world zero_seq bob printed timed_out
sent_message-Kept_example =
    sent_message-Kept world code amy bob zero_seq hello false at_start (some 3) events on_its_way
      timed_out plain_code not_pending sends not_settled runs

on_its_way-IsWaiting : IsWaiting world zero_seq bob printed on_its_way
unfolding Dict.lookup is_pending same_bool str_eq
on_its_way-IsWaiting = record { in_window = refl; has_timer = refl; no_heart = refl }

bob_online : Dict.lookup bob on_its_way.user_conn_maps ≡ some 3
unfolding Dict.lookup str_eq
bob_online = refl

timeout_caches_example :
    (s' : Server world) × (step world (timeout zero_seq false) on_its_way ≡ some (tt, s'))
    × IsCached world bob printed s'
    × (Dict.lookup zero_seq s'.message_window ≡ none)
    × (Dict.lookup bob s'.user_conn_maps ≡ none)
timeout_caches_example =
    timeout_caches world zero_seq bob printed on_its_way on_its_way-IsWaiting
      (inr (3, bob_online, refl))
