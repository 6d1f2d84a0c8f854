-- ===== src/Chat/Server/LoginExamples.antt =====
-- Concrete logins, and messages that waited for them.
use xjblg.Base.{
  ◌≡◌, refl, inr, true, false, not, Option, none, some, [], ◌∷◌, ◌++◌, map, arith, if◌then◌else◌,
}
use xjblg.Base.Text.{Text, str_eq, str_lt}
use xjblg.Base.Maps.{put}
use xjblg.Base.Bytes.{bytes, encode_char}
use xjblg.Base.Dict
use xjblg.Chat.Json.{parse_json, colon_round, item_loop, item_round, key_round, value_round}
use xjblg.Chat.Context.{Fields}
use xjblg.Chat.Received.{encoded}
use xjblg.Chat.Exec.{pure, gets, lift, modify, require, each, ◌>>=◌}
use xjblg.Chat.Model.{
  Row, userid_key, username_key, valid_user, query, execute, user_answer, get_string, user_text,
  get_user_friends, pairs_of,
}
use xjblg.Chat.Model.Answers.{parse_json-friends, store_pairs}
use xjblg.Chat.Redis
use xjblg.Chat.Server.{
  World, Server, sent, is_some, on_model, with_model, get_user_state, conn_of, lock, emit, tell,
  get_now_time, send_message, encode, get_seq, insert_message_to_window, dispatch, run_after,
  system_id, heart_code,
}
use xjblg.Chat.Server.Login.{
  login_valid, read_user, names_user, do_login_action, admit, evict, erase_conn, dismiss,
  insert_conn, welcome, do_online_notify_action, notify_friend, success_code,
  send_offline_message_action,
}
use xjblg.Chat.Server.Actions.{user_friends_to_string, pair_texts}
use xjblg.Chat.Server.Passwords.{somebody, login_valid_decides}
use xjblg.Chat.Server.Places.{login_replaces}
use xjblg.Chat.Server.Resending.{resent, offline_messages_resent}
use xjblg.Chat.Server.Requoted.{waiting_list, requoted, list_resent_aborts}
use xjblg.Chat.Server.Events.{timeout, step, is_pending}
use xjblg.Chat.Server.Examples.{sets, bob, amy, hello, code, zero_seq, eleven, world, at_start}

abbrev greeting : Fields
greeting = record {
  code = code;
  seq = b'9' ∷ [];
  sender = amy;
  recver = bob;
  time = zero_seq;
  body = hello;
}

-- One message waits for Bob.
abbrev waiting : Server world
waiting = record at_start { store = λ k. if str_eq bob k then encoded greeting ∷ [] else [] }

waits : sets.smembers bob waiting.store ≡ map encoded (greeting ∷ [])
unfolding str_eq
waits = refl

new : is_some {A = Text × Text} (Dict.lookup zero_seq []) ≡ false
unfolding Dict.lookup is_some
new = refl

offline_messages_resent_example :
    (s' : Server world) × (send_offline_message_action world 3 bob waiting ≡ some (tt, s'))
    × (s'.effects ≡ [] ++ resent world 3 0 (greeting ∷ []))
    × (sets.smembers bob s'.store ≡ [])
offline_messages_resent_example =
    offline_messages_resent world 3 bob (greeting ∷ []) waiting waits (omega arith) (new, tt)

-- A list of one friend waits for Bob.
abbrev list_waits : Server world
list_waits = record at_start {
  store =
      λ k. if str_eq bob k then waiting_list world greeting b'1' (b'1' ∷ []) amy [] ∷ [] else [];
}

list_resent_aborts_example :
    (s' : Server world) × (s'' : Server world) × (send_offline_message_action world 3 bob list_waits
      ≡ some (tt, s'))
    × (s'.effects ≡ [] ++ (sent 3 (requoted world greeting b'1' (b'1' ∷ []) amy [] zero_seq) ∷ []))
    × (step world (timeout zero_seq false) s' ≡ some (tt, s''))
    × (send_offline_message_action world 4 bob s'' ≡ none)
unfolding str_eq Dict.lookup is_some is_pending heart_code bytes encode_char pair_texts
list_resent_aborts_example =
    list_resent_aborts world greeting b'1' (b'1' ∷ []) amy [] 3 4 list_waits refl (omega arith)
      (omega arith) (omega arith) (omega arith) refl refl refl (inr (3, refl, refl))

parse_json-friends_example :
    parse_json (user_friends_to_string ((eleven, amy) ∷ (bob, bob) ∷ [])) []
    ≡ some (true, store_pairs ((eleven, amy) ∷ (bob, bob) ∷ []) [])
parse_json-friends_example = parse_json-friends eleven amy ((bob, bob) ∷ []) [] (omega arith)

-- A database that answers every query with the user 11.
abbrev row : Row
row = (userid_key, eleven) ∷ (username_key, amy) ∷ []

abbrev one_user : World
one_user = record world {
  mysql = record { Db = Unit {0}; run = λ sql db. some (some (row ∷ []), db) };
}

abbrev before : Server one_user
before = record {
  model = record { user_id = []; username = []; db = tt };
  store = λ k. [];
  calls = 0;
  user_conn_maps = (eleven, 3) ∷ [];
  message_window = [];
  json_item = [];
  live = λ c. true;
  timers = [];
  effects = [];
}

has_id : Dict.lookup userid_key row ≡ some eleven
unfolding Dict.lookup str_eq userid_key bytes encode_char
has_id = refl

has_name : Dict.lookup username_key row ≡ some amy
unfolding Dict.lookup str_eq userid_key username_key bytes encode_char
has_name = refl

login_valid_decides_example :
    (s' : Server one_user) × (login_valid one_user eleven hello before
      ≡ some (not (str_eq eleven (b'0' ∷ [])), s'))
    × (s'.effects ≡ [])
login_valid_decides_example =
    login_valid_decides one_user eleven hello before tt (row ∷ []) (not (str_eq eleven (b'0' ∷ [])))
      refl (somebody row eleven amy has_id has_name (omega arith) (omega arith))

abbrev state_of : {A : Type 0} → Option (A × Server one_user) → Server one_user → Server one_user
state_of none s = s
state_of (some (a, s)) _ = s

abbrev checked : Server one_user
checked = record before {
  model = record { user_id = eleven; username = amy; db = tt };
  json_item = (userid_key, eleven) ∷ (username_key, amy) ∷ [];
}

logs_in : login_valid one_user eleven hello before ≡ some (true, checked)
unfolding login_valid ◌>>=◌ on_model with_model valid_user query execute lift user_answer get_string
    Dict.lookup str_eq userid_key username_key modify pure read_user gets bytes encode_char
    Dict.insert str_lt colon_round item_loop item_round key_round parse_json value_round user_text
    names_user
logs_in = refl

abbrev logged_in : Server one_user
logged_in = state_of (do_login_action one_user 5 eleven hello before) before

comes_in : do_login_action one_user 5 eleven hello before ≡ some (tt, logged_in)
unfolding do_login_action login_valid ◌>>=◌ on_model with_model valid_user query execute lift
    user_answer get_string Dict.lookup str_eq userid_key username_key modify pure read_user gets
    bytes encode_char Dict.insert str_lt colon_round item_loop item_round key_round parse_json
    value_round user_text names_user admit get_user_state evict conn_of lock erase_conn Dict.erase
    dismiss emit tell get_now_time send_message encode get_seq insert_message_to_window dispatch
    run_after insert_conn welcome send_offline_message_action Redis.get_cache_message_size
    do_online_notify_action get_user_friends pairs_of each notify_friend is_some require
    success_code system_id heart_code put
comes_in = refl

login_replaces_example :
    Dict.lookup eleven logged_in.user_conn_maps
    ≡ (if str_eq eleven eleven then some 5 else Dict.lookup eleven before.user_conn_maps)
login_replaces_example =
    login_replaces one_user 5 eleven hello before checked logged_in logs_in comes_in eleven
