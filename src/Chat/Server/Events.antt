-- ===== src/Chat/Server/Events.antt =====
-- NETLIB/application/chat/ChatServer.cpp: the callbacks of the server: a request, the end of a connection, a
-- message that is not acknowledged in time, and the heartbeat; and sequences of them.
use xjblg.Base.{
  ℕ, Bool, true, false, not, ◌&&◌, Option, none, some, List, [], ◌∷◌, length, ltb, ◌==◌,
  if◌then◌else◌,
}
use xjblg.Base.Text.{Text, str_eq}
use xjblg.Base.Bytes.{bytes}
use xjblg.Base.Dict
use xjblg.Base.Maps.{put}
use xjblg.Chat.Context.{Fields}
use xjblg.Chat.Exec.{Exec, pure, gets, modify, each, ◌>>=◌, ◌>>◌}
use xjblg.Chat.Server.{
  World, Server, shut, system_id, heart_code, emit, lock, shutdown, cache_message, get_now_time,
  send_message,
}
use xjblg.Chat.Server.Login.{do_login_action, do_offline_notify_action, erase_conn}
use xjblg.Chat.Server.Actions.{
  do_ack_action, do_get_friends_list_action, do_add_friend_action, do_get_user_message_action,
  do_agree_req_of_add_friend, do_refuse_req_of_add_friend, do_get_my_friend_req_action,
  do_delete_friend_action, do_send_message_action, erase_message,
}

-- What happens to the server: a connection is made, or its object goes away; a message of a connection
-- was parsed; a connection is down; a call that `runAfter` or `runEvery` registered is made.
pub data Event : Type 0 where
  opened : (conn : ℕ) → Event
  destroyed : (conn : ℕ) → Event
  request : (conn : ℕ) (message : Fields) → Event
  down : (conn : ℕ) → Event
  timeout : (seq : Text) (heart : Bool) → Event
  heartbeat : Event

-- Equality of Boolean values.
unfoldable pub same_bool : Bool → Bool → Bool
same_bool true b = b
same_bool false b = not b

unfoldable pub is_pending : Text → Bool → List (Text × Bool) → Bool
is_pending seq heart [] = false
is_pending seq heart ((s, h) ∷ rest) =
    if str_eq s seq && same_bool h heart then true else is_pending seq heart rest

-- Without the first that has these arguments.
unfoldable pub remove_timer : Text → Bool → List (Text × Bool) → List (Text × Bool)
remove_timer seq heart [] = []
remove_timer seq heart ((s, h) ∷ rest) =
    if str_eq s seq && same_bool h heart then rest else (s, h) ∷ remove_timer seq heart rest

-- The first user whose connection is `c` and still there.
unfoldable pub user_of : ℕ → (ℕ → Bool) → List (Text × ℕ) → Option Text
user_of c live [] = none
user_of c live ((user, d) ∷ rest) = if live d && d == c then some user else user_of c live rest

-- "1001" and "1111".
unfoldable pub login_code : Text
unfolding bytes
login_code = bytes "1001"

unfoldable pub ack_code : Text
unfolding bytes
ack_code = bytes "1111"

module _ (w : World) where
  abbrev Action : Type 0
  Action = Exec (Server w) (Unit {0})

  unfoldable pub on_request : ℕ → Fields → Action
  unfolding bytes
  on_request c m =
      if str_eq m.code login_code
      then do_login_action w c m.sender m.body
      else if str_eq m.code ack_code
      then do_ack_action w m.body
      else if str_eq m.code (bytes "1002")
      then do_get_friends_list_action w c m.sender
      else if str_eq m.code (bytes "1005")
      then do_add_friend_action w c m.sender m.body
      else if str_eq m.code (bytes "1006")
      then do_get_user_message_action w c m.sender m.body
      else if str_eq m.code (bytes "1007")
      then do_agree_req_of_add_friend w c m.sender m.body
      else if str_eq m.code (bytes "1008")
      then do_refuse_req_of_add_friend w c m.sender m.body
      else if str_eq m.code (bytes "1009")
      then do_get_my_friend_req_action w c m.sender
      else if str_eq m.code (bytes "1010")
      then do_delete_friend_action w c m.sender m.body
      else if str_eq m.code heart_code
      then pure tt
      else if str_eq m.code (bytes "2001")
      then do_send_message_action w c m.code m.sender m.recver m.time m.body
      else emit w (shut c)

  -- A user whose id is empty is erased, and no friend is told.
  unfoldable pub leave : Option Text → Action
  leave none = pure tt
  leave (some user) = do
    erase_conn w user
    if ltb 0 (length user) then do_offline_notify_action w user else pure tt

  -- `onConnection` of a connection that is down.
  unfoldable pub on_connection_down : ℕ → Action
  on_connection_down c = do
    user ← gets (λ (s : Server w). user_of c s.live s.user_conn_maps)
    leave user

  -- `closeOvertimeConn`: where the object is gone, the program follows a null pointer.
  unfoldable pub close_found : Text → Option ℕ → Action
  close_found user none = pure tt
  close_found user (some c) = do conn ← lock w c; erase_conn w user; shutdown w conn

  unfoldable pub close_overtime_conn : Text → Action
  close_overtime_conn user = do
    found ← gets (λ (s : Server w). Dict.lookup user s.user_conn_maps)
    close_found user found

  unfoldable pub give_up : Text → Bool → Option (Text × Text) → Action
  give_up seq heart none = pure tt
  give_up seq heart (some (recver, message)) = do
    if heart then pure tt else cache_message w recver message
    close_overtime_conn recver
    erase_message w seq

  unfoldable pub handle_not_ack_message : Text → Bool → Action
  handle_not_ack_message seq heart = do
    found ← gets (λ (s : Server w). Dict.lookup seq s.message_window)
    give_up seq heart found

  unfoldable pub send_heart : Text × ℕ → Action
  unfolding bytes
  send_heart (user, c) = do
    conn ← lock w c
    time ← get_now_time w
    send_message w conn heart_code system_id user time (bytes "heart") false

  unfoldable pub send_heart_packet : Action
  send_heart_packet = do
    entries ← gets (λ (s : Server w). s.user_conn_maps)
    each send_heart entries

  unfoldable pub set_live : ℕ → Bool → Action
  set_live c b = modify (λ (s : Server w). record s { live = put s.live c b })

  -- A timeout that is not registered does not happen.
  unfoldable pub step : Event → Action
  step (opened c) = set_live c true
  step (destroyed c) = set_live c false
  step (request c m) = on_request c m
  step (down c) = on_connection_down c
  step (timeout seq heart) = do
    pending ← gets (λ (s : Server w). is_pending seq heart s.timers)
    if pending
        then (do
          modify (λ (s : Server w). record s { timers = remove_timer seq heart s.timers })
          handle_not_ack_message seq heart)
        else pure tt
  step heartbeat = send_heart_packet

  unfoldable pub run : List Event → Action
  run events = each step events
