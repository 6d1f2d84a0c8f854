-- ===== src/Chat/Server.antt =====
-- NETLIB/application/chat/ChatServer.h and ChatServer.cpp: the state of the chat server, and the calls
-- that every action is made of. A connection is a number. What a connection does with the calls is
-- modelled in Net/Connection, so `effects` only lists them.
pub mod Keeps
pub mod Login
pub mod Waiting
pub mod Kept
pub mod Requests
pub mod Timeouts
pub mod Passwords
pub mod Places
pub mod Resending
pub mod Requoted
pub mod Delivery
pub mod Sent
pub mod Examples
mod LoginExamples
pub mod Actions
pub mod Events
use xjblg.Base.{
  ℕ, suc, Bool, true, false, ◌&&◌, ◌||◌, Option, none, some, List, [], ◌∷◌, ◌++◌, if◌then◌else◌,
}
use xjblg.Base.Text.{Text, str_eq}
use xjblg.Base.Bytes.{bytes}
use xjblg.Base.Dict
use xjblg.Chat.Json.{Items}
use xjblg.Chat.Message.{encode_message}
use xjblg.Chat.Exec.{Exec, pure, raise, gets, lift, modify, require, ◌>>=◌, ◌>>◌}
use xjblg.Chat.Model.{Mysql, UserModel}
use xjblg.Chat.Redis.{Redis}
use xjblg.Chat.Redis

-- What surrounds the server: the databases, and what `getSeq` and `getNowTime` return at their calls,
-- counted from the start of the server.
pub record World : Type 1 where
  pub mysql : Mysql
  pub redis : Redis
  pub seq_at : ℕ → Text
  pub time_at : ℕ → Text

-- A call of `send` with a message in its frame, or of `shutdown`.
pub data Effect : Type 0 where
  sent : (conn : ℕ) (message : Text) → Effect
  shut : (conn : ℕ) → Effect

-- `systemId`.
unfoldable pub system_id : Text
unfolding bytes
system_id = bytes "10000000"

-- "1011", the code of a heartbeat.
unfoldable pub heart_code : Text
unfolding bytes
heart_code = bytes "1011"

unfoldable pub is_some {ℓ} : {A : Type ℓ} → Option A → Bool
is_some none = false
is_some (some a) = true

module _ (w : World) where
  -- `live` tells which connection objects still exist: what `lock` of a weak pointer looks at. `timers`
  -- holds the arguments of the calls of `handleNotAckMessage` that `runAfter` has still to make.
  pub record Server : Type 0 where
    pub model : UserModel w.mysql
    pub store : Redis.Store w.redis
    pub calls : ℕ
    pub user_conn_maps : List (Text × ℕ)
    pub message_window : List (Text × (Text × Text))
    pub json_item : Items
    pub live : ℕ → Bool
    pub timers : List (Text × Bool)
    pub effects : List Effect

  unfoldable pub with_model :
      {A : Type 0} → Option (A × UserModel w.mysql) → Server → Option (A × Server)
  with_model none s = none
  with_model (some (a, model')) s = some (a, record s { model = model' })

  -- A call of `userModel_`.
  unfoldable pub on_model : {A : Type 0} → Exec (UserModel w.mysql) A → Exec Server A
  on_model m s = with_model (m s.model) s

  unfoldable pub get_seq : Exec Server Text
  get_seq s = some (w.seq_at s.calls, record s { calls = suc s.calls })

  unfoldable pub get_now_time : Exec Server Text
  get_now_time s = some (w.time_at s.calls, record s { calls = suc s.calls })

  unfoldable pub emit : Effect → Exec Server (Unit {0})
  emit e = modify (λ (s : Server). record s { effects = s.effects ++ (e ∷ []) })

  -- `lock` of a weak pointer.
  unfoldable pub lock : ℕ → Exec Server (Option ℕ)
  lock c = gets (λ (s : Server). if s.live c then some c else none)

  -- `shutdown` of a pointer that may be null.
  unfoldable pub shutdown : Option ℕ → Exec Server (Unit {0})
  shutdown none = raise
  shutdown (some c) = emit (shut c)

  unfoldable pub cache_message : Text → Text → Exec Server (Unit {0})
  cache_message recver message =
      modify
        (λ (s : Server). record s { store = Redis.cache_message w.redis recver message s.store })

  unfoldable pub insert_message_to_window : Text → Text → Text → Exec Server (Unit {0})
  insert_message_to_window seq recver message = do
    taken ← gets (λ (s : Server). is_some (Dict.lookup seq s.message_window))
    require (if taken then false else true)
    modify (λ (s : Server). record s {
      message_window = Dict.insert seq (recver, message) s.message_window;
    })

  unfoldable pub encode : Text → Text → Text → Text → Text → Bool → Exec Server (Text × Text)
  encode code sender recver time body body_is_list = do
    seq ← get_seq
    let message = encode_message code seq sender recver time body body_is_list
    insert_message_to_window seq recver message
    pure (seq, message)

  -- `runAfter(30, handleNotAckMessage(seq, heart))`.
  unfoldable pub run_after : Text → Bool → Exec Server (Unit {0})
  run_after seq heart = modify (λ (s : Server). record s { timers = (seq, heart) ∷ s.timers })

  -- What `sendMessage` does with the encoded message.
  unfoldable pub dispatch : Option ℕ → Text → Text → Text × Text → Exec Server (Unit {0})
  dispatch none code recver (seq, message) = cache_message recver message
  dispatch (some c) code recver (seq, message) = do
    run_after seq (str_eq code heart_code)
    emit (sent c message)

  -- `sendMessage` to a connection, or to none.
  unfoldable pub send_message :
      Option ℕ → Text → Text → Text → Text → Text → Bool → Exec Server (Unit {0})
  send_message conn code sender recver time body body_is_list = do
    context ← encode code sender recver time body body_is_list
    dispatch conn code recver context

  unfoldable pub get_user_state : Text → Exec Server Bool
  get_user_state user = gets (λ (s : Server). is_some (Dict.lookup user s.user_conn_maps))

  -- The connection of a user, found in the map and locked.
  unfoldable pub conn_of : Text → Exec Server (Option ℕ)
  conn_of user = do
    found ← gets (λ (s : Server). Dict.lookup user s.user_conn_maps)
    c ← lift found
    lock c

  -- `sendMessage` to a user.
  unfoldable pub send_to : Text → Text → Text → Text → Text → Bool → Exec Server (Unit {0})
  send_to code sender recver time body body_is_list = do
    online ← get_user_state recver
    conn ← if online then conn_of recver else pure none
    send_message conn code sender recver time body body_is_list

  -- `sendMessage(conn, code, systemId, user, getNowTime(), body, bodyIsList)`.
  unfoldable pub tell : Option ℕ → Text → Text → Text → Bool → Exec Server (Unit {0})
  tell conn code user body body_is_list = do
    time ← get_now_time
    send_message conn code system_id user time body body_is_list
