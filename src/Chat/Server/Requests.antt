-- ===== src/Chat/Server/Requests.antt =====
-- No request but its acknowledgement, or a login of its receiver, takes a message of the chat server out of
-- the window or out of the messages that wait.
use xjblg.Base.{ℕ, ◌≡◌, refl, inl, inr, Bool, true, false, ◌&&◌, ◌||◌, arith, if◌then◌else◌}
use xjblg.Base.Text.{Text, str_eq}
use xjblg.Base.Dict
use xjblg.Chat.Context.{Fields}
use xjblg.Chat.Exec.{Exec}
use xjblg.Chat.Server.{World, Server}
use xjblg.Chat.Server.Keeps.{Keeps, Keeps-modify, keeps_rules}
use xjblg.Chat.Server.Waiting.{Kept, on_model-Kept, get_now_time-Kept, emit-Kept}
use xjblg.Chat.Server.Kept.{tell-Kept, send_to-Kept, read_user-Kept, do_login_action-Kept}
use xjblg.Chat.Server.Actions.{
  check_user_is_exist, check_is_friend, agree_request, do_get_friends_list_action, ask_friend,
  do_add_friend_action, do_get_user_message_action, do_agree_req_of_add_friend,
  do_refuse_req_of_add_friend, do_send_message_action, do_get_my_friend_req_action,
  do_delete_friend_action, erase_message, do_ack_action,
}
use xjblg.Chat.Server.Events.{login_code, ack_code, on_request}

module _ (w : World) (seq recver message : Text) where
  abbrev K : Server w → Type 0
  K = Kept w seq recver message

  ruleset kept_rules =
      (keeps_rules, on_model-Kept, get_now_time-Kept, tell-Kept, send_to-Kept, read_user-Kept)

  check_user_is_exist-Kept : (user : Text) → Keeps K (check_user_is_exist w user)
  unfolding check_user_is_exist
  check_user_is_exist-Kept user = search kept_rules

  check_is_friend-Kept : (user other : Text) → Keeps K (check_is_friend w user other)
  unfolding check_is_friend
  check_is_friend-Kept user other = search kept_rules

  agree_request-Kept : (user other : Text) → Keeps K (agree_request w user other)
  unfolding agree_request
  agree_request-Kept user other = search kept_rules

  do_get_friends_list_action-Kept :
      (c : ℕ) (user : Text) → Keeps K (do_get_friends_list_action w c user)
  unfolding do_get_friends_list_action
  do_get_friends_list_action-Kept c user = search kept_rules

  ask_friend-Kept :
      (c : ℕ) (user added : Text) (asked : Bool) → Keeps K (ask_friend w c user added asked)
  unfolding ask_friend
  ask_friend-Kept c user added true = search kept_rules
  ask_friend-Kept c user added false = search kept_rules

  do_add_friend_action-Kept :
      (c : ℕ) (user added : Text) → Keeps K (do_add_friend_action w c user added)
  unfolding do_add_friend_action
  do_add_friend_action-Kept c user added =
      search (kept_rules, check_user_is_exist-Kept, check_is_friend-Kept, ask_friend-Kept) depth 12

  do_get_user_message_action-Kept :
      (c : ℕ) (user other : Text) → Keeps K (do_get_user_message_action w c user other)
  unfolding do_get_user_message_action
  do_get_user_message_action-Kept c user other = search (kept_rules, check_user_is_exist-Kept)

  do_agree_req_of_add_friend-Kept :
      (c : ℕ) (user other : Text) → Keeps K (do_agree_req_of_add_friend w c user other)
  unfolding do_agree_req_of_add_friend
  do_agree_req_of_add_friend-Kept c user other = search (kept_rules, agree_request-Kept)

  do_refuse_req_of_add_friend-Kept :
      (c : ℕ) (user other : Text) → Keeps K (do_refuse_req_of_add_friend w c user other)
  unfolding do_refuse_req_of_add_friend
  do_refuse_req_of_add_friend-Kept c user other = search kept_rules

  do_send_message_action-Kept :
      (c : ℕ) (code sender r time body : Text)
      → Keeps K (do_send_message_action w c code sender r time body)
  unfolding do_send_message_action
  do_send_message_action-Kept c code sender r time body = search (kept_rules, check_is_friend-Kept)

  do_get_my_friend_req_action-Kept :
      (c : ℕ) (user : Text) → Keeps K (do_get_my_friend_req_action w c user)
  unfolding do_get_my_friend_req_action
  do_get_my_friend_req_action-Kept c user = search kept_rules

  do_delete_friend_action-Kept :
      (c : ℕ) (user other : Text) → Keeps K (do_delete_friend_action w c user other)
  unfolding do_delete_friend_action
  do_delete_friend_action-Kept c user other = search (kept_rules, check_is_friend-Kept)

  -- Only the number that is acknowledged leaves the window.
  pub erase_message-Kept : (n : Text) → str_eq n seq ≡ false → Keeps K (erase_message w n)
  unfolding erase_message
  erase_message-Kept n other = Keeps-modify _ erased
    where
      erased :
          (s : Server w) → K s → K (record s { message_window = Dict.erase n s.message_window })
      erased s (inl v) = inl (record {
        in_window = rw (Dict.lookup-erase n seq s.message_window, other) v.in_window;
        has_timer = v.has_timer;
        no_heart = v.no_heart;
      })
      erased s (inr v) = inr v

  do_ack_action-Kept : (n : Text) → str_eq n seq ≡ false → Keeps K (do_ack_action w n)
  unfolding do_ack_action
  do_ack_action-Kept n other = search (keeps_rules, erase_message-Kept)

  Keeps-when :
      (b : Bool) (m n : Exec (Server w) (Unit {0}))
      → (b ≡ true → Keeps K m)
      → Keeps K n
      → Keeps K (if b then m else n)
  Keeps-when true m n km kn = km refl
  Keeps-when false m n km kn = kn

  -- Whether a request takes the message out: its receiver logs in, or it is acknowledged.
  unfoldable pub settles : Fields → Bool
  settles m =
      (str_eq m.code login_code && str_eq m.sender recver)
      || (str_eq m.code ack_code && str_eq m.body seq)

  pub on_request-Kept : (c : ℕ) (m : Fields) → settles m ≡ false → Keeps K (on_request w c m)
  unfolding on_request settles
  on_request-Kept c m h =
      Keeps-when (str_eq m.code login_code) _ _
        (λ e. do_login_action-Kept w seq recver message c m.sender m.body (ground arith))
        (Keeps-when (str_eq m.code ack_code) _ _ (λ e. do_ack_action-Kept m.body (ground arith))
          (search
            (
              keeps_rules, do_get_friends_list_action-Kept, do_add_friend_action-Kept,
              do_get_user_message_action-Kept, do_agree_req_of_add_friend-Kept,
              do_refuse_req_of_add_friend-Kept, do_get_my_friend_req_action-Kept,
              do_delete_friend_action-Kept, do_send_message_action-Kept, emit-Kept,
            )
            depth 16))
