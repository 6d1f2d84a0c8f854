-- ===== src/Chat/Server/Sent.antt =====
-- The promise of the chat server: a message that is handed to `sendMessage` reaches its receiver, or waits for
-- the next login, unless it is acknowledged.
use mathlib.Core.Path.{subst}
use xjblg.Base.{
  ap, ℕ, ◌≡◌, refl, ◌∙◌, ◌⊎◌, inl, inr, Bool, true, false, Option, none, some, List, ◌∷◌, ◌++◌, [],
}
use xjblg.Base.Text.{Text, str_eq, str_eq_refl}
use xjblg.Base.Dict
use xjblg.Chat.Message.{encode_message}
use xjblg.Chat.Exec.{pure, gets, modify, ◌>>=◌}
use xjblg.Chat.Redis
use xjblg.Chat.Redis.{is_member}
use xjblg.Chat.Server.{
  World, Server, sent, shut, heart_code, emit, lock, shutdown, cache_message, run_after, encode,
  dispatch, send_message,
}
use xjblg.Chat.Server.Login.{erase_conn}
use xjblg.Chat.Server.Actions.{erase_message}
use xjblg.Chat.Server.Keeps.{continue-eq-some}
use xjblg.Chat.Server.Waiting.{IsWaiting, IsCached, Kept, with_message, encode-returns}
use xjblg.Chat.Server.Events.{
  Event, timeout, same_bool, is_pending, close_found, close_overtime_conn, step, run,
}
use xjblg.Chat.Server.Delivery.{stored, stored-Cached, timeout-eq, none_settled, run-Kept}

module _ (w : World) (code sender recver time body : Text) (is_list : Bool) (s : Server w) where
  abbrev number : Text
  number = w.seq_at s.calls

  abbrev text : Text
  text = encode_message code number sender recver time body is_list

  dispatched_new :
      (conn : Option ℕ) (s' : Server w)
      → str_eq code heart_code ≡ false
      → is_pending number true s.timers ≡ false
      → dispatch w conn code recver (number, text) (with_message w number recver text s)
        ≡ some (tt, s')
      → Kept w number recver text s'
  unfolding dispatch run_after emit cache_message Redis.cache_message ◌>>=◌ modify is_pending
      same_bool
  dispatched_new none s' plain fresh e =
      let t : Server w = record (with_message w number recver text s) {
        store = w.redis.sadd recver text s.store;
      } in
      let k : Kept w number recver text t = inr (
        w.redis.adds recver text recver text s.store
        ∙ rw (str_eq_refl recver, str_eq_refl text) refl) in
      subst (Kept w number recver text) (cc) k
  dispatched_new (some c) s' plain fresh e =
      let t : Server w = record (with_message w number recver text s) {
        timers = (number, str_eq code heart_code) ∷ s.timers;
        effects = s.effects ++ (sent c text ∷ []);
      } in
      let k : Kept w number recver text t = inl (record {
        in_window =
            Dict.lookup-insert number number (recver, text) s.message_window
            ∙ rw (str_eq_refl number) refl;
        has_timer = rw (str_eq_refl number, plain) refl;
        no_heart = rw (str_eq_refl number, plain) fresh;
      }) in
      subst (Kept w number recver text) (cc) k

  send_message-new :
      (conn : Option ℕ) (s' : Server w)
      → str_eq code heart_code ≡ false
      → is_pending number true s.timers ≡ false
      → send_message w conn code sender recver time body is_list s ≡ some (tt, s')
      → Kept w number recver text s'
  unfolding send_message ◌>>=◌
  send_message-new conn s' plain fresh e =
      let (p, t, e1, e2) = continue-eq-some (encode w code sender recver time body is_list s) _ e in
      let (new, same_pair, same_state) =
        encode-returns w code sender recver time body is_list s t p e1 in
      dispatched_new conn s' plain fresh (cc)

  -- A message, other than a heartbeat, is handed to `sendMessage` while no timer of a heartbeat with its
  -- number is pending, and the server then goes through any events: connections that come and go,
  -- requests, timeouts and heartbeats. As long as no request acknowledges its number, and its receiver does
  -- not log in, and the calls return, the message is in the window with the timer that will store it, or
  -- it is among the messages in Redis that wait for its receiver.
  pub sent_message-Kept :
      (conn : Option ℕ) (events : List Event) (s1 s2 : Server w)
      → str_eq code heart_code ≡ false
      → is_pending number true s.timers ≡ false
      → send_message w conn code sender recver time body is_list s ≡ some (tt, s1)
      → none_settled w number recver text events ≡ true
      → run w events s1 ≡ some (tt, s2)
      → Kept w number recver text s2
  sent_message-Kept conn events s1 s2 plain fresh e settled_none r =
      (run-Kept w number recver text events settled_none).behind s1 s2 tt
        (send_message-new conn s1 plain fresh e) r

module _ (w : World) (seq recver message : Text) where
  -- The receiver is offline, or the connection is still there.
  abbrev pub IsReachable : Server w → Type 0
  IsReachable s =
      (Dict.lookup recver s.user_conn_maps ≡ none)
      ⊎ ((c : ℕ) × (Dict.lookup recver s.user_conn_maps ≡ some c) × (s.live c ≡ true))

  -- The message is stored, and nothing else.
  pub timeout_stores :
      (s : Server w)
      → IsWaiting w seq recver message s
      → IsReachable s
      → (s' : Server w) × (step w (timeout seq false) s ≡ some (tt, s'))
        × (s'.store ≡ Redis.cache_message w.redis recver message s.store)
        × (Dict.lookup seq s'.message_window ≡ none)
        × (Dict.lookup recver s'.user_conn_maps ≡ none)
  unfolding close_overtime_conn close_found lock erase_conn erase_message shutdown emit ◌>>=◌ gets
      modify pure
  timeout_stores s v (inl gone) =
      let t = stored w seq recver message s in
      (
        record t { message_window = Dict.erase seq s.message_window },
        timeout-eq w seq recver message s v ∙ rw gone refl,
        refl,
        Dict.lookup-erase seq seq s.message_window ∙ rw (str_eq_refl seq) refl,
        gone,
      )
  timeout_stores s v (inr (c, known, live)) =
      let t = stored w seq recver message s in
      (
        record t {
          message_window = Dict.erase seq s.message_window;
          user_conn_maps = Dict.erase recver s.user_conn_maps;
          effects = s.effects ++ (shut c ∷ []);
        },
        timeout-eq w seq recver message s v ∙ rw (known, live) refl,
        refl,
        Dict.lookup-erase seq seq s.message_window ∙ rw (str_eq_refl seq) refl,
        Dict.lookup-erase recver recver s.user_conn_maps ∙ rw (str_eq_refl recver) refl,
      )

  -- When the timer of a message runs out that is still in the window, and its receiver is offline or has a
  -- connection that still exists, the call returns: the message then waits in Redis, it is no longer in
  -- the window, and the receiver is offline.
  pub timeout_caches :
      (s : Server w)
      → IsWaiting w seq recver message s
      → IsReachable s
      → (s' : Server w) × (step w (timeout seq false) s ≡ some (tt, s'))
        × IsCached w recver message s'
        × (Dict.lookup seq s'.message_window ≡ none)
        × (Dict.lookup recver s'.user_conn_maps ≡ none)
  timeout_caches s v reachable =
      let (s', ok, store, window, online) = timeout_stores s v reachable in
      (
        s',
        ok,
        ap (λ st. is_member message (w.redis.smembers recver st)) store
            ∙ stored-Cached w seq recver message s,
        window,
        online,
      )
