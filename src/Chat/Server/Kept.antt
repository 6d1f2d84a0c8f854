-- ===== src/Chat/Server/Kept.antt =====
-- What a login, and the calls that it is made of, do to a message that is in the window or waits in Redis.
use xjblg.Base.{ℕ, ◌≡◌, refl, inl, inr, Bool, false, Option, none, some, List, [], ◌∷◌, Bool-cases}
use xjblg.Base.Text.{Text, str_eq}
use xjblg.Base.Dict
use xjblg.Chat.Json.{Items}
use xjblg.Chat.Exec.{modify}
use xjblg.Chat.Redis
use xjblg.Chat.Redis.{is_member}
use xjblg.Chat.Server.{World, Server, is_some, get_user_state, conn_of, send_to, tell}
use xjblg.Chat.Server.Keeps.{Keeps, Keeps-modify, keeps_rules}
use xjblg.Chat.Server.Waiting.{
  Kept, again, on_model-Kept, get_now_time-Kept, emit-Kept, lock-Kept, send_message-Kept,
}
use xjblg.Chat.Server.Login.{
  read_user, login_valid, notify_friend, do_offline_notify_action, do_online_notify_action, resend,
  resend_all, remove_cached, send_offline_message_action, erase_conn, insert_conn, dismiss, evict,
  welcome, admit, do_login_action,
}

module _ (w : World) (seq recver message : Text) where
  abbrev K : Server w → Type 0
  K = Kept w seq recver message

  pub get_user_state-Kept : (user : Text) → Keeps K (get_user_state w user)
  unfolding get_user_state
  get_user_state-Kept user = search keeps_rules

  pub conn_of-Kept : (user : Text) → Keeps K (conn_of w user)
  unfolding conn_of
  conn_of-Kept user = search (keeps_rules, lock-Kept)

  pub tell-Kept :
      (conn : Option ℕ) (code user body : Text) (is_list : Bool)
      → Keeps K (tell w conn code user body is_list)
  unfolding tell
  tell-Kept conn code user body is_list = search (keeps_rules, get_now_time-Kept, send_message-Kept)

  pub send_to-Kept :
      (code sender r time body : Text) (is_list : Bool)
      → Keeps K (send_to w code sender r time body is_list)
  unfolding send_to
  send_to-Kept code sender r time body is_list =
      search (keeps_rules, get_user_state-Kept, conn_of-Kept, send_message-Kept)

  pub set_items-Kept :
      (items : Items) → Keeps K (modify (λ (s : Server w). record s { json_item = items }))
  set_items-Kept items =
      Keeps-modify _
        λ s h. again w seq recver message s (record s { json_item = items }) refl refl refl h

  pub read_user-Kept : (answer : Text) → Keeps K (read_user w answer)
  unfolding read_user
  read_user-Kept answer = search (keeps_rules, set_items-Kept)

  pub login_valid-Kept : (user password : Text) → Keeps K (login_valid w user password)
  unfolding login_valid
  login_valid-Kept user password = search (keeps_rules, on_model-Kept, read_user-Kept)

  notify_friend-Kept : (note : Text) (f : Text × Text) → Keeps K (notify_friend w note f)
  unfolding notify_friend
  notify_friend-Kept note (f, name) =
      search (keeps_rules, get_user_state-Kept, conn_of-Kept, tell-Kept)

  pub do_offline_notify_action-Kept : (user : Text) → Keeps K (do_offline_notify_action w user)
  unfolding do_offline_notify_action
  do_offline_notify_action-Kept user = search (keeps_rules, on_model-Kept, notify_friend-Kept)

  do_online_notify_action-Kept : (user : Text) → Keeps K (do_online_notify_action w user)
  unfolding do_online_notify_action
  do_online_notify_action-Kept user = search (keeps_rules, on_model-Kept, notify_friend-Kept)

  pub erase_conn-Kept : (user : Text) → Keeps K (erase_conn w user)
  unfolding erase_conn
  erase_conn-Kept user = Keeps-modify _ λ s h.
      let t : Server w = record s { user_conn_maps = Dict.erase user s.user_conn_maps } in
      again w seq recver message s t refl refl refl h

  insert_conn-Kept : (user : Text) (c : ℕ) → Keeps K (insert_conn w user c)
  unfolding insert_conn
  insert_conn-Kept user c = Keeps-modify _ λ s h.
      let t : Server w = record s { user_conn_maps = Dict.insert user c s.user_conn_maps } in
      elim (Bool-cases (is_some (Dict.lookup user s.user_conn_maps))) [
        | inl known ↦ rw known h
        | inr new ↦ rw new (again w seq recver message s t refl refl refl h)
      ]

  dismiss-Kept : (conn : Option ℕ) (user : Text) → Keeps K (dismiss w conn user)
  unfolding dismiss
  dismiss-Kept none user = search keeps_rules
  dismiss-Kept (some c) user = search (keeps_rules, tell-Kept, emit-Kept)

  evict-Kept : (user : Text) → Keeps K (evict w user)
  unfolding evict
  evict-Kept user = search (keeps_rules, conn_of-Kept, erase_conn-Kept, dismiss-Kept)

  resend-Kept : (c : ℕ) (items : Items) → Keeps K (resend w c items)
  unfolding resend
  resend-Kept c items = search (keeps_rules, send_message-Kept)

  resend_all-Kept : (c : ℕ) (items : Items) (l : List Text) → Keeps K (resend_all w c items l)
  unfolding resend_all
  resend_all-Kept c items [] = search keeps_rules
  resend_all-Kept c items (m ∷ l) =
      search (keeps_rules, resend-Kept, λ (i : Items). resend_all-Kept c i l)

  -- Only the messages of the user who logs in are taken out of Redis.
  remove_cached-Kept : (user : Text) → str_eq user recver ≡ false → Keeps K (remove_cached w user)
  unfolding remove_cached Redis.remove_all_cache_messages
  remove_cached-Kept user other = Keeps-modify _ emptied
    where
      emptied : (s : Server w) → K s → K (record s { store = w.redis.del user s.store })
      emptied s (inl v) =
          inl (record { in_window = v.in_window; has_timer = v.has_timer; no_heart = v.no_heart })
      emptied s (inr v) = inr (rw (w.redis.deletes user recver s.store, other) v)

  send_offline_message_action-Kept :
      (c : ℕ) (user : Text)
      → str_eq user recver ≡ false
      → Keeps K (send_offline_message_action w c user)
  unfolding send_offline_message_action
  send_offline_message_action-Kept c user other =
      search (keeps_rules, remove_cached-Kept, resend_all-Kept)

  welcome-Kept : (c : ℕ) (user : Text) → str_eq user recver ≡ false → Keeps K (welcome w c user)
  unfolding welcome
  welcome-Kept c user other =
      search
        (keeps_rules, tell-Kept, send_offline_message_action-Kept, do_online_notify_action-Kept)
        depth 12

  admit-Kept : (c : ℕ) (user : Text) → str_eq user recver ≡ false → Keeps K (admit w c user)
  unfolding admit
  admit-Kept c user other =
      search (keeps_rules, get_user_state-Kept, evict-Kept, insert_conn-Kept, welcome-Kept) depth 12

  pub do_login_action-Kept :
      (c : ℕ) (user password : Text)
      → str_eq user recver ≡ false
      → Keeps K (do_login_action w c user password)
  unfolding do_login_action
  do_login_action-Kept c user password other =
      search (keeps_rules, login_valid-Kept, admit-Kept, tell-Kept, emit-Kept) depth 12
