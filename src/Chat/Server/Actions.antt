-- ===== src/Chat/Server/Actions.antt =====
-- NETLIB/application/chat/ChatServer.cpp: what the server does for the requests other than to log in.
use xjblg.Base.{ℕ, Bool, true, false, some, List, [], ◌∷◌, ◌++◌, if◌then◌else◌}
use xjblg.Base.Text.{Text, str_eq}
use xjblg.Base.Bytes.{bytes}
use xjblg.Base.Dict
use xjblg.Chat.Exec.{Exec, pure, gets, modify, require, ◌>>=◌, ◌>>◌}
use xjblg.Chat.Model
use xjblg.Chat.Model.{FriendState, friend}
use xjblg.Chat.Server.{World, Server, system_id, is_some, on_model, get_now_time, send_to, tell}
use xjblg.Chat.Server.Login.{success_code, read_user}

-- "1007" and "1008".
unfoldable pub agree_code : Text
unfolding bytes
agree_code = bytes "1007"

unfoldable pub refuse_code : Text
unfolding bytes
refuse_code = bytes "1008"

-- The items of a list of pairs, without the braces.
unfoldable pub pair_texts : List (Text × Text) → Text
pair_texts [] = []
pair_texts ((a, b) ∷ []) = b'"' ∷ (a ++ (b'"' ∷ b':' ∷ b'"' ∷ (b ++ (b'"' ∷ []))))
pair_texts ((a, b) ∷ next ∷ rest) =
    b'"' ∷ (a ++ (b'"' ∷ b':' ∷ b'"' ∷ (b ++ (b'"' ∷ b',' ∷ pair_texts (next ∷ rest)))))

unfoldable pub user_friends_to_string : List (Text × Text) → Text
user_friends_to_string friends = b'{' ∷ (pair_texts friends ++ (b'}' ∷ []))

unfoldable pub is_friend : FriendState → Bool
is_friend friend = true
is_friend _ = false

module _ (w : World) where
  abbrev Action : Type 0
  Action = Exec (Server w) (Unit {0})

  unfoldable pub check_user_is_exist : Text → Exec (Server w) Bool
  check_user_is_exist user = do
    answer ← on_model w (Model.get_user_info w.mysql user)
    read_user w answer

  unfoldable pub check_is_friend : Text → Text → Exec (Server w) Bool
  check_is_friend user1 user2 =
      if str_eq user1 system_id
      then pure true
      else (do state ← on_model w (Model.check_friend w.mysql user1 user2); pure (is_friend state))

  unfoldable pub agree_request : Text → Text → Exec (Server w) Bool
  agree_request user apply = do
    asked ← on_model w (Model.check_request_of_add_friend w.mysql user apply)
    if asked
        then (do on_model w (Model.agree_request_of_add_friend w.mysql user apply); pure true)
        else pure false

  unfoldable pub do_get_friends_list_action : ℕ → Text → Action
  unfolding bytes
  do_get_friends_list_action c user = do
    friends ← on_model w (Model.get_user_friends w.mysql user)
    tell w (some c) (bytes "1020") user (user_friends_to_string friends) true

  -- What follows for users that are no friends, by whether the request was made already.
  unfoldable pub ask_friend : ℕ → Text → Text → Bool → Action
  unfolding bytes
  ask_friend c user added true =
      tell w (some c) success_code user (bytes "您已申请加对方为好友，请等待对方验证！") false
  ask_friend c user added false = do
    tell w (some c) success_code user (bytes "已发送好友申请!") false
    on_model w (Model.add_friend w.mysql user added)
    time ← get_now_time w
    send_to w (bytes "1005") system_id added time (user ++ bytes "申请加您为好友!") false

  unfoldable pub do_add_friend_action : ℕ → Text → Text → Action
  unfolding bytes
  do_add_friend_action c user added = do
    exist ← check_user_is_exist added
    if exist
        then (do
          friends ← check_is_friend user added
          if friends then tell w (some c) success_code user (bytes "该用户已经是您的好友!") false else (do
            asked ← on_model w (Model.check_request_of_add_friend w.mysql added user)
            ask_friend c user added asked))
        else tell w (some c) success_code user (bytes "该用户不存在!") false

  unfoldable pub do_get_user_message_action : ℕ → Text → Text → Action
  unfolding bytes
  do_get_user_message_action c user search = do
    exist ← check_user_is_exist search
    if exist
        then (do
          answer ← on_model w (Model.get_user_info w.mysql search)
          tell w (some c) success_code user answer true)
        else tell w (some c) success_code user (bytes "该用户不存在!") false

  unfoldable pub do_agree_req_of_add_friend : ℕ → Text → Text → Action
  unfolding bytes
  do_agree_req_of_add_friend c user apply = do
    agreed ← agree_request user apply
    if agreed
        then (do
          tell w (some c) agree_code user (bytes "您已同意好友请求！" ++ apply) false
          time ← get_now_time w
          send_to w agree_code system_id apply time (user ++ bytes "已同意您的好友请求!") false)
        else tell w (some c) agree_code user (apply ++ bytes "没有申请添加您为好友!") false

  unfoldable pub do_refuse_req_of_add_friend : ℕ → Text → Text → Action
  unfolding bytes
  do_refuse_req_of_add_friend c user apply = do
    asked ← on_model w (Model.check_request_of_add_friend w.mysql user apply)
    if asked
        then (do
          on_model w (Model.refuse_request_of_add_friend w.mysql user apply)
          time ← get_now_time w
          send_to w refuse_code system_id apply time (user ++ bytes "拒绝了您的好友请求!") false)
        else tell w (some c) agree_code user (apply ++ bytes "没有申请添加您为好友!") false

  unfoldable pub do_send_message_action : ℕ → Text → Text → Text → Text → Text → Action
  unfolding bytes
  do_send_message_action c code sender recver time message = do
    friends ← check_is_friend sender recver
    if friends
        then send_to w code sender recver time message false
        else tell w (some c) (bytes "1013") sender (recver ++ bytes "不是您的好友") false

  unfoldable pub do_get_my_friend_req_action : ℕ → Text → Action
  do_get_my_friend_req_action c user = do
    asked ← on_model w (Model.get_add_req_list w.mysql user)
    asking ← on_model w (Model.get_added_req_list w.mysql user)
    tell w (some c) success_code user (user_friends_to_string asked) true
    tell w (some c) success_code user (user_friends_to_string asking) true

  unfoldable pub do_delete_friend_action : ℕ → Text → Text → Action
  unfolding bytes
  do_delete_friend_action c user other = do
    friends ← check_is_friend user other
    if friends
        then (do
          on_model w (Model.delete_friend w.mysql user other)
          tell w (some c) success_code user (bytes "删除成功!") false)
        else tell w (some c) success_code user (other ++ bytes "不是您的好友！") false

  unfoldable pub erase_message : Text → Action
  erase_message seq =
      modify (λ (s : Server w). record s { message_window = Dict.erase seq s.message_window })

  unfoldable pub do_ack_action : Text → Action
  do_ack_action seq = do
    known ← gets (λ (s : Server w). is_some (Dict.lookup seq s.message_window))
    require known
    erase_message seq
