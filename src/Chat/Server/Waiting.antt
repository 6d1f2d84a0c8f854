-- ===== src/Chat/Server/Waiting.antt =====
-- A message of the chat server between `sendMessage` and its acknowledgement: it is in the window with a
-- timer, or among the messages that wait for its receiver. What the calls do to it.
use mathlib.Core.Path.{subst}
use xjblg.Base.{
  ℕ, suc, ◌≡◌, refl, sym, ◌∙◌, ◌⊎◌, inl, inr, Bool, true, false, Option, none, some, List, [], ◌∷◌,
  ◌++◌, arith, if◌then◌else◌, Bool-cases,
}
use xjblg.Base.Text.{Text, str_eq, str_eq_sound}
use xjblg.Base.Dict
use xjblg.Chat.Message.{encode_message}
use xjblg.Chat.Exec.{Exec, pure, gets, modify, require, continue, ◌>>=◌}
use xjblg.Chat.Model.{UserModel}
use xjblg.Chat.Redis.{is_member}
use xjblg.Chat.Redis
use xjblg.Chat.Server.{
  World, Server, Effect, sent, shut, heart_code, is_some, with_model, on_model, get_seq,
  get_now_time, emit, lock, shutdown, cache_message, insert_message_to_window, encode, run_after,
  dispatch, send_message,
}
use xjblg.Chat.Server.Keeps.{Keeps, Keeps-modify, continue-eq-some, keeps_rules}
use xjblg.Chat.Server.Events.{is_pending}

-- An entry of the window is not overwritten by a message with a new number.
insert-other :
    (seq j : Text) (v x : Text × Text) (m : List (Text × (Text × Text)))
    → is_some (Dict.lookup seq m) ≡ false
    → Dict.lookup j m ≡ some x
    → (str_eq seq j ≡ false) × (Dict.lookup j (Dict.insert seq v m) ≡ some x)
unfolding is_some
insert-other seq j v x m new known = elim (Bool-cases (str_eq seq j)) [
  | inl same ↦ cc (str_eq_sound seq j same)
  | inr other ↦ (other, rw (Dict.lookup-insert, other) known)
]

module _ (w : World) where
  -- The call that `runAfter` registered will put the message among those that wait.
  pub record IsWaiting (seq recver message : Text) (s : Server w) : Type 0 where
    pub in_window : Dict.lookup seq s.message_window ≡ some (recver, message)
    pub has_timer : is_pending seq false s.timers ≡ true
    pub no_heart : is_pending seq true s.timers ≡ false

  abbrev pub IsCached : Text → Text → Server w → Type 0
  IsCached recver message s = is_member message (w.redis.smembers recver s.store) ≡ true

  abbrev pub Kept : Text → Text → Text → Server w → Type 0
  Kept seq recver message s = IsWaiting seq recver message s ⊎ IsCached recver message s

module _ (w : World) (seq recver message : Text) where
  abbrev K : Server w → Type 0
  K = Kept w seq recver message

  -- Only the window, the timers and the sets of Redis count.
  pub again :
      (s s' : Server w)
      → s'.message_window ≡ s.message_window
      → s'.timers ≡ s.timers
      → s'.store ≡ s.store
      → K s
      → K s'
  again s s' a b c (inl v) = inl (record {
    in_window = rw a v.in_window;
    has_timer = rw b v.has_timer;
    no_heart = rw b v.no_heart;
  })
  again s s' a b c (inr v) =
      inr (subst (λ t. is_member message (w.redis.smembers recver t) ≡ true) (sym c) v)

  on_model-found :
      {A : Type 0} (o : Option (A × UserModel w.mysql)) (s s' : Server w) (a : A)
      → K s
      → with_model w o s ≡ some (a, s')
      → K s'
  unfolding with_model
  on_model-found none s s' a h e = cc
  on_model-found (some (b, model')) s s' a h e =
      let k : K (record s { model = model' }) =
        again s (record s { model = model' }) refl refl refl h in
      subst K (cc) k

  pub on_model-Kept : {A : Type 0} (m : Exec (UserModel w.mysql) A) → Keeps K (on_model w m)
  unfolding on_model
  on_model-Kept m = record { behind = λ s s' a h e. on_model-found (m s.model) s s' a h e }

  pub get_now_time-Kept : Keeps K (get_now_time w)
  unfolding get_now_time
  get_now_time-Kept = record {
    behind =
        λ s s' a h e. subst K (cc) (again s (record s { calls = suc s.calls }) refl refl refl h);
  }

  pub emit-Kept : (e : Effect) → Keeps K (emit w e)
  unfolding emit
  emit-Kept e =
      Keeps-modify _ λ s h. again s (record s { effects = s.effects ++ (e ∷ []) }) refl refl refl h

  pub shutdown-Kept : (c : Option ℕ) → Keeps K (shutdown w c)
  unfolding shutdown
  shutdown-Kept none = search keeps_rules
  shutdown-Kept (some c) = emit-Kept (shut c)

  pub lock-Kept : (c : ℕ) → Keeps K (lock w c)
  unfolding lock
  lock-Kept c = search keeps_rules

  pub cache_message-Kept : (user m : Text) → Keeps K (cache_message w user m)
  unfolding cache_message Redis.cache_message
  cache_message-Kept user m = Keeps-modify _ stored
    where
      stored :
          (s : Server w) → K s → K (record s { store = Redis.cache_message w.redis user m s.store })
      stored s (inl v) =
          inl (record { in_window = v.in_window; has_timer = v.has_timer; no_heart = v.no_heart })
      stored s (inr v) = inr (w.redis.adds user m recver message s.store ∙ rw v (ground arith))

-- What `encode` did, if it returned: the number was new to the window.
module _ (w : World) where
  abbrev pub with_message : Text → Text → Text → Server w → Server w
  with_message seq recver message s = record s {
    calls = suc s.calls;
    message_window = Dict.insert seq (recver, message) s.message_window;
  }

  past_require :
      {A B : Type 0} (taken : Bool) (s : Server w)
      → (f : Unit {0} → Exec (Server w) A) → (g : A → Exec (Server w) B) → {r : B × Server w}
      → continue (continue (require (if taken then false else true) s) f) g ≡ some r
      → (taken ≡ false) × (continue (f tt s) g ≡ some r)
  unfolding require
  past_require true s f g h = cc
  past_require false s f g h = (refl, h)

  pub encode-returns :
      (code sender recver time body : Text) (is_list : Bool) (s s' : Server w) (p : Text × Text)
      → encode w code sender recver time body is_list s ≡ some (p, s')
      → let seq = w.seq_at s.calls in
        let message = encode_message code seq sender recver time body is_list in
        (is_some (Dict.lookup seq s.message_window) ≡ false)
        × (p ≡ (seq, message))
        × (s' ≡ with_message seq recver message s)
  unfolding encode get_seq insert_message_to_window ◌>>=◌ gets modify pure
  encode-returns code sender recver time body is_list s s' p e =
      let seq = w.seq_at s.calls in
      let (new, e') = past_require _ (record s { calls = suc s.calls }) _ _ e in (new, cc, cc)

module _ (w : World) (seq recver message : Text) where
  abbrev Safe : Server w → Type 0
  Safe = Kept w seq recver message

  module _ (n r m : Text) (s : Server w)
      (new : is_some (Dict.lookup n s.message_window) ≡ false) where
    -- A message with a new number, put into the window without and with a timer.
    inserted : Safe s → Safe (with_message w n r m s)
    inserted (inl v) = inl (record {
      in_window = (insert-other n seq (r, m) (recver, message) s.message_window new v.in_window).1;
      has_timer = v.has_timer;
      no_heart = v.no_heart;
    })
    inserted (inr v) = inr v

    timed :
        (heart : Bool)
        → Safe s
        → Safe (record (with_message w n r m s) { timers = (n, heart) ∷ s.timers })
    unfolding is_pending
    timed heart (inl v) =
        let (other, known) =
          insert-other n seq (r, m) (recver, message) s.message_window new v.in_window in
        inl (record {
          in_window = known;
          has_timer = rw other v.has_timer;
          no_heart = rw other v.no_heart;
        })
    timed heart (inr v) = inr v

    dispatched :
        (conn : Option ℕ) (code : Text) (s' : Server w)
        → Safe s
        → dispatch w conn code r (n, m) (with_message w n r m s) ≡ some (tt, s')
        → Safe s'
    unfolding dispatch run_after ◌>>=◌ modify
    dispatched none code s' h e =
        (cache_message-Kept w seq recver message r m).behind (with_message w n r m s) s' tt
          (inserted h) e
    dispatched (some c) code s' h e =
        let heart = str_eq code heart_code in
        let t : Server w = record (with_message w n r m s) { timers = (n, heart) ∷ s.timers } in
        (emit-Kept w seq recver message (sent c m)).behind t s' tt (timed heart h) e

  pub send_message-Kept :
      (conn : Option ℕ) (code sender r time body : Text) (is_list : Bool)
      → Keeps Safe (send_message w conn code sender r time body is_list)
  unfolding send_message ◌>>=◌
  send_message-Kept conn code sender r time body is_list = record {
    behind = λ s s' a h e.
        let (p, t, e1, e2) = continue-eq-some (encode w code sender r time body is_list s) _ e in
        let (new, same_pair, same_state) =
          encode-returns w code sender r time body is_list s t p e1 in
        let m = encode_message code (w.seq_at s.calls) sender r time body is_list in
        dispatched (w.seq_at s.calls) r m s new conn code s' h (cc);
  }
