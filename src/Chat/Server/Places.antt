-- ===== src/Chat/Server/Places.antt =====
-- Who is online after a login: the map from users to connections.
use xjblg.Base.{
  ℕ, suc, ◌≡◌, refl, sym, ap, ◌∙◌, inl, inr, Bool, true, false, Option, none, some, List, [], ◌∷◌,
  if◌then◌else◌, Bool-cases,
}
use xjblg.Base.Text.{Text, str_eq, str_eq_refl, str_eq_sound}
use xjblg.Base.Dict
use xjblg.Chat.Json.{Items}
use xjblg.Chat.Exec.{Exec, pure, gets, modify, ◌>>=◌}
use xjblg.Chat.Model.{UserModel}
use xjblg.Chat.Server.{
  World, Server, Effect, is_some, with_model, on_model, get_seq, get_now_time, emit, lock,
  cache_message, insert_message_to_window, encode, run_after, dispatch, send_message,
  get_user_state, conn_of, tell,
}
use xjblg.Chat.Server.Keeps.{Keeps, Keeps-modify, continue-eq-some, keeps_rules}
use xjblg.Chat.Server.Login.{
  read_user, login_valid, notify_friend, do_online_notify_action, resend, resend_all, remove_cached,
  send_offline_message_action, erase_conn, insert_conn, dismiss, evict, welcome, admit,
  do_login_action,
}

module _ (w : World) (conns : List (Text × ℕ)) where
  -- The map is this one.
  abbrev pub Online : Server w → Type 0
  Online s = s.user_conn_maps ≡ conns

  with_model-Online :
      {A : Type 0} (o : Option (A × UserModel w.mysql)) (s s' : Server w) (a : A)
      → Online s
      → with_model w o s ≡ some (a, s')
      → Online s'
  unfolding with_model
  with_model-Online none s s' a h e = cc
  with_model-Online (some (b, m)) s s' a h e =
      let same : record s { model = m } ≡ s' = cc in
      sym (ap (λ (t : Server w). t.user_conn_maps) same) ∙ h

  on_model-Online : {A : Type 0} (m : Exec (UserModel w.mysql) A) → Keeps Online (on_model w m)
  unfolding on_model
  on_model-Online m = record { behind = λ s s' a h e. with_model-Online (m s.model) s s' a h e }

  get_now_time-Online : Keeps Online (get_now_time w)
  unfolding get_now_time
  get_now_time-Online = record {
    behind = λ s s' a h e.
        let same : record s { calls = suc s.calls } ≡ s' = cc in
        sym (ap (λ (t : Server w). t.user_conn_maps) same) ∙ h;
  }

  get_seq-Online : Keeps Online (get_seq w)
  unfolding get_seq
  get_seq-Online = record {
    behind = λ s s' a h e.
        let same : record s { calls = suc s.calls } ≡ s' = cc in
        sym (ap (λ (t : Server w). t.user_conn_maps) same) ∙ h;
  }

  emit-Online : (e : Effect) → Keeps Online (emit w e)
  unfolding emit
  emit-Online e = Keeps-modify _ λ s h. h

  entered-Online :
      (seq recver message : Text)
      → Keeps Online (
          modify (λ (s : Server w). record s {
            message_window = Dict.insert seq (recver, message) s.message_window;
          }))
  entered-Online seq recver message = Keeps-modify _ λ s h. h

  window-Online :
      (seq recver message : Text) → Keeps Online (insert_message_to_window w seq recver message)
  unfolding insert_message_to_window
  window-Online seq recver message = search (keeps_rules, entered-Online)

  run_after-Online : (seq : Text) (heart : Bool) → Keeps Online (run_after w seq heart)
  unfolding run_after
  run_after-Online seq heart = Keeps-modify _ λ s h. h

  dispatch-Online :
      (conn : Option ℕ) (code recver : Text) (p : Text × Text)
      → Keeps Online (dispatch w conn code recver p)
  unfolding dispatch cache_message
  dispatch-Online none code recver (seq, message) = Keeps-modify _ λ s h. h
  dispatch-Online (some c) code recver (seq, message) =
      search (keeps_rules, run_after-Online, emit-Online)

  send_message-Online :
      (conn : Option ℕ) (code sender recver time body : Text) (is_list : Bool)
      → Keeps Online (send_message w conn code sender recver time body is_list)
  unfolding send_message encode
  send_message-Online conn code sender recver time body is_list =
      search (keeps_rules, get_seq-Online, window-Online, dispatch-Online) depth 12

  tell-Online :
      (conn : Option ℕ) (code user body : Text) (is_list : Bool)
      → Keeps Online (tell w conn code user body is_list)
  unfolding tell
  tell-Online conn code user body is_list =
      search (keeps_rules, get_now_time-Online, send_message-Online)

  notify_friend-Online : (note : Text) (f : Text × Text) → Keeps Online (notify_friend w note f)
  unfolding notify_friend get_user_state conn_of lock
  notify_friend-Online note (f, name) = search (keeps_rules, tell-Online) depth 12

  do_online_notify_action-Online : (user : Text) → Keeps Online (do_online_notify_action w user)
  unfolding do_online_notify_action
  do_online_notify_action-Online user = search (keeps_rules, on_model-Online, notify_friend-Online)

  resend_all-Online :
      (c : ℕ) (items : Items) (l : List Text) → Keeps Online (resend_all w c items l)
  unfolding resend_all resend
  resend_all-Online c items [] = search keeps_rules
  resend_all-Online c items (m ∷ l) =
      search (keeps_rules, send_message-Online, λ (i : Items). resend_all-Online c i l)

  remove_cached-Online : (user : Text) → Keeps Online (remove_cached w user)
  unfolding remove_cached
  remove_cached-Online user = Keeps-modify _ λ s h. h

  send_offline_message_action-Online :
      (c : ℕ) (user : Text) → Keeps Online (send_offline_message_action w c user)
  unfolding send_offline_message_action
  send_offline_message_action-Online c user =
      search (keeps_rules, remove_cached-Online, resend_all-Online) depth 12

  set_items-Online :
      (items : Items) → Keeps Online (modify (λ (s : Server w). record s { json_item = items }))
  set_items-Online items = Keeps-modify _ λ s h. h

  login_valid-Online : (user password : Text) → Keeps Online (login_valid w user password)
  unfolding login_valid read_user
  login_valid-Online user password =
      search (keeps_rules, on_model-Online, set_items-Online) depth 12

  dismiss-Online : (conn : Option ℕ) (user : Text) → Keeps Online (dismiss w conn user)
  unfolding dismiss
  dismiss-Online none user = search keeps_rules
  dismiss-Online (some c) user = search (keeps_rules, tell-Online, emit-Online)

  conn_of-Online : (user : Text) → Keeps Online (conn_of w user)
  unfolding conn_of lock
  conn_of-Online user = search keeps_rules

module _ (w : World) (user : Text) where
  evict_lem :
      (s s' : Server w)
      → evict w user s ≡ some (tt, s')
      → s'.user_conn_maps ≡ Dict.erase user s.user_conn_maps
  unfolding evict erase_conn modify ◌>>=◌
  evict_lem s s' e =
      let (conn, t, e1, e2) = continue-eq-some (conn_of w user s) _ e in
      let same : t.user_conn_maps ≡ s.user_conn_maps =
        (conn_of-Online w s.user_conn_maps user).behind s t conn refl e1 in
      let erased = Dict.erase user t.user_conn_maps in
      (dismiss-Online w erased conn user).behind (record t { user_conn_maps = erased }) s' tt refl
        e2
      ∙ ap (Dict.erase user) same

  make_room_by :
      (o : Option ℕ) (s s' : Server w)
      → Dict.lookup user s.user_conn_maps ≡ o
      → (if is_some o then evict w user else pure tt) s ≡ some (tt, s')
      → (j : Text)
      → Dict.lookup j s'.user_conn_maps
        ≡ (if str_eq user j then none else Dict.lookup j s.user_conn_maps)
  unfolding is_some pure
  make_room_by none s s' o e j =
      let same : s ≡ s' = cc in
      sym (ap (λ (t : Server w). Dict.lookup j t.user_conn_maps) same)
      ∙ elim (Bool-cases (str_eq user j)) [
        | inl it ↦ rw it (rw (sym (str_eq_sound user j it)) o)
        | inr other ↦ rw other refl
      ]
  make_room_by (some d) s s' o e j =
      ap (Dict.lookup j) (evict_lem s s' e) ∙ Dict.lookup-erase user j s.user_conn_maps

  -- What the first part of `admit` leaves: no connection of the user, and the others.
  make_room :
      (s s' : Server w)
      → (if is_some (Dict.lookup user s.user_conn_maps) then evict w user else pure tt) s
        ≡ some (tt, s')
      → (j : Text)
      → Dict.lookup j s'.user_conn_maps
        ≡ (if str_eq user j then none else Dict.lookup j s.user_conn_maps)
  make_room s s' e j = make_room_by (Dict.lookup user s.user_conn_maps) s s' refl e j

  welcome-Online : (conns : List (Text × ℕ)) (c : ℕ) → Keeps (Online w conns) (welcome w c user)
  unfolding welcome
  welcome-Online conns c =
      search
        (
          keeps_rules, tell-Online, send_offline_message_action-Online,
          do_online_notify_action-Online,
        )
        depth 12

  admit_lem :
      (c : ℕ) (s s' : Server w)
      → admit w c user s ≡ some (tt, s')
      → (j : Text)
      → Dict.lookup j s'.user_conn_maps
        ≡ (if str_eq user j then some c else Dict.lookup j s.user_conn_maps)
  unfolding admit get_user_state insert_conn ◌>>=◌ gets modify is_some
  admit_lem c s s' e j =
      let (u, t, e1, e2) =
        continue-eq-some
          ((if is_some (Dict.lookup user s.user_conn_maps) then evict w user else pure tt) s) _ e in
      let room : Dict.lookup user t.user_conn_maps ≡ none =
        make_room s t e1 user ∙ rw (str_eq_refl user) refl in
      let t' : Server w =
        if is_some (Dict.lookup user t.user_conn_maps)
        then t
        else record t { user_conn_maps = Dict.insert user c t.user_conn_maps } in
      let conns = Dict.insert user c t.user_conn_maps in
      let entered : t'.user_conn_maps ≡ conns = rw room refl in
      ap (Dict.lookup j) ((welcome-Online conns c).behind t' s' tt entered e2)
      ∙ Dict.lookup-insert user j c t.user_conn_maps
      ∙ elim (Bool-cases (str_eq user j)) [
        | inl it ↦ rw it refl
        | inr other ↦ rw other (make_room s t e1 j ∙ rw other refl)
      ]

taken_branch :
    {S A : Type 0} (b : Bool) (m n : Exec S A) (s : S) {r : A × S}
    → b ≡ true
    → (if b then m else n) s ≡ some r
    → m s ≡ some r
taken_branch true m n s h e = e
taken_branch false m n s h e = cc

-- A login that returns, with a user and a password for which `loginValid` answers true: the user's
-- connection is then the new one, whether there was one before or not, and the connections of all other
-- users are as before.
pub login_replaces :
    (w : World) (c : ℕ) (user password : Text) (s s1 s' : Server w)
    → login_valid w user password s ≡ some (true, s1)
    → do_login_action w c user password s ≡ some (tt, s')
    → (j : Text)
    → Dict.lookup j s'.user_conn_maps
      ≡ (if str_eq user j then some c else Dict.lookup j s.user_conn_maps)
unfolding do_login_action ◌>>=◌
login_replaces w c user password s s1 s' valid e j =
    let (b, t, e1, e2) = continue-eq-some (login_valid w user password s) _ e in
    let e3 = taken_branch b (admit w c user) _ t (cc) e2 in
    let kept : t.user_conn_maps ≡ s.user_conn_maps =
      (login_valid-Online w s.user_conn_maps user password).behind s t b refl e1 in
    admit_lem w user c t s' e3 j
    ∙ ap (λ (m : List (Text × ℕ)). if str_eq user j then some c else Dict.lookup j m) kept
