-- ===== src/Chat/Server/Login.antt =====
-- NETLIB/application/chat/ChatServer.cpp: how a user logs in: the check of the password, the connection that
-- loses its place, the messages that waited, and what the friends are told.
use xjblg.Base.{ℕ, Bool, false, not, Option, none, some, List, [], ◌∷◌, ◌++◌, ltb, if◌then◌else◌}
use xjblg.Base.Text.{Text, str_eq}
use xjblg.Base.Bytes.{bytes}
use xjblg.Base.Dict
use xjblg.Chat.Json.{Items, parse_json}
use xjblg.Chat.Message.{code_key, sender_key, recver_key, time_key, body_key}
use xjblg.Chat.Context.{item}
use xjblg.Chat.Exec.{Exec, pure, gets, lift, modify, require, each, ◌>>=◌, ◌>>◌}
use xjblg.Chat.Model
use xjblg.Chat.Model.{userid_key}
use xjblg.Chat.Redis
use xjblg.Chat.Server.{
  World, Server, shut, heart_code, is_some, on_model, emit, send_message, get_user_state, conn_of,
  tell,
}

-- "1000".
unfoldable pub success_code : Text
unfolding bytes
success_code = bytes "1000"

-- Whether the items name a user other than "0".
unfoldable pub names_user : Option Text → Bool
unfolding bytes
names_user none = false
names_user (some id) = not (str_eq id (bytes "0"))

-- `item` after the fields were read, which adds those that are missing.
unfoldable pub after_resend : Items → Items
after_resend m =
    (item body_key (item time_key (item recver_key (item sender_key (item code_key m).1).1).1).1).1

module _ (w : World) where
  abbrev Action : Type 0
  Action = Exec (Server w) (Unit {0})

  -- `jsonItem_.parseJson` on the answer of the model, and the look at "userid".
  unfoldable pub read_user : Text → Exec (Server w) Bool
  read_user answer = do
    items ← gets (λ (s : Server w). s.json_item)
    (ok, items') ← lift (parse_json answer items)
    modify (λ (s : Server w). record s { json_item = items' })
    pure (names_user (Dict.lookup userid_key items'))

  unfoldable pub login_valid : Text → Text → Exec (Server w) Bool
  login_valid user password = do
    answer ← on_model w (Model.valid_user w.mysql user password)
    read_user answer

  -- What an online friend is told.
  unfoldable pub notify_friend : Text → Text × Text → Action
  notify_friend note (f, name) = do
    online ← get_user_state w f
    if online then (do conn ← conn_of w f; tell w conn success_code f note false) else pure tt

  unfoldable pub do_offline_notify_action : Text → Action
  unfolding bytes
  do_offline_notify_action user = do
    friends ← on_model w (Model.get_user_friends w.mysql user)
    each (notify_friend (bytes "您的朋友已下线！:" ++ user)) friends

  unfoldable pub do_online_notify_action : Text → Action
  unfolding bytes
  do_online_notify_action user = do
    friends ← on_model w (Model.get_user_friends w.mysql user)
    each (notify_friend (bytes "您的朋友已上线！:" ++ user)) friends

  -- One message that waited is sent again, by the items that `parseJson` leaves.
  unfoldable pub resend : ℕ → Items → Action
  resend c m =
      let (code, m1) = item code_key m in
      let (sender, m2) = item sender_key m1 in
      let (recver, m3) = item recver_key m2 in
      let (time, m4) = item time_key m3 in
      let (body, m5) = item body_key m4 in
      send_message w (some c) code sender recver time body false

  -- The loop over the messages that waited; `abort` where one is not parsed.
  unfoldable pub resend_all : ℕ → Items → List Text → Action
  resend_all c items [] = pure tt
  resend_all c items (message ∷ messages) = do
    (ok, items') ← lift (parse_json message items)
    require ok
    resend c items'
    resend_all c (after_resend items') messages

  unfoldable pub remove_cached : Text → Action
  remove_cached user =
      modify (λ (s : Server w). record s {
        store = Redis.remove_all_cache_messages w.redis user s.store;
      })

  unfoldable pub send_offline_message_action : ℕ → Text → Action
  send_offline_message_action c user = do
    size ← gets (λ (s : Server w). Redis.get_cache_message_size w.redis user s.store)
    if ltb 0 size
        then (do
          messages ← gets (λ (s : Server w). Redis.get_cache_message w.redis [] user s.store)
          remove_cached user
          resend_all c [] messages)
        else pure tt

  unfoldable pub erase_conn : Text → Action
  erase_conn user =
      modify (λ (s : Server w). record s { user_conn_maps = Dict.erase user s.user_conn_maps })

  -- `userConnMaps_.insert`, which leaves an entry of the user as it is.
  unfoldable pub insert_conn : Text → ℕ → Action
  insert_conn user c = modify (λ (s : Server w).
      if is_some (Dict.lookup user s.user_conn_maps)
      then s
      else record s { user_conn_maps = Dict.insert user c s.user_conn_maps })

  -- The old connection, if it is still there, is told and shut down.
  unfoldable pub dismiss : Option ℕ → Text → Action
  unfolding bytes
  dismiss none user = pure tt
  dismiss (some c) user = do
    tell w (some c) (bytes "1012") user (bytes "被挤占下线") false
    emit w (shut c)

  -- A user who is online already loses the old connection.
  unfoldable pub evict : Text → Action
  evict user = do conn ← conn_of w user; erase_conn user; dismiss conn user

  -- What the user is sent once the connection is in the map.
  unfoldable pub welcome : ℕ → Text → Action
  unfolding bytes
  welcome c user = do
    tell w (some c) success_code user (bytes "登录成功") false
    send_offline_message_action c user
    do_online_notify_action user

  -- The branch for a valid password.
  unfoldable pub admit : ℕ → Text → Action
  admit c user = do
    online ← get_user_state w user
    if online then evict user else pure tt
    insert_conn user c
    welcome c user

  unfoldable pub do_login_action : ℕ → Text → Text → Action
  unfolding bytes
  do_login_action c user password = do
    valid ← login_valid user password
    if valid
        then admit c user
        else (do tell w (some c) heart_code user (bytes "登录失败(用户名或密码错误)") false; emit w (shut c))
