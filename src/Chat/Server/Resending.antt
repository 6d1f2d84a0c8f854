-- ===== src/Chat/Server/Resending.antt =====
-- The messages that waited for a user are sent again at the login: `sendOfflineMessageAction`.
use mathlib.Core.List.{append_assoc, append-nil}
use xjblg.Base.{
  ℕ, suc, ◌≡◌, refl, sym, ap, ◌∙◌, true, false, some, List, [], ◌∷◌, ◌++◌, map, arith, length, ltb,
  lt→ltb,
}
use xjblg.Base.Text.{Text, Lacks, str_eq, str_eq_refl}
use xjblg.Base.Dict
use xjblg.Chat.Json.{Items}
use xjblg.Chat.Message.{code_key, sender_key, recver_key, time_key, body_key, encode_message}
use xjblg.Chat.Context.{Fields, item}
use xjblg.Chat.Parsed.{parse-encode_text}
use xjblg.Chat.Received.{
  stored, item-found, code_stored, sender_stored, recver_stored, time_stored, body_stored, encoded,
}
use xjblg.Chat.Exec.{pure, gets, lift, modify, require, ◌>>=◌}
use xjblg.Chat.Redis
use xjblg.Chat.Server.{
  World, Server, Effect, sent, heart_code, is_some, get_seq, insert_message_to_window, encode,
  run_after, emit, dispatch, send_message,
}
use xjblg.Chat.Server.Login.{
  resend, after_resend, resend_all, remove_cached, send_offline_message_action,
}

-- No field has a '"'.
abbrev pub IsQuoteless : Fields → Type 0
IsQuoteless f =
    (Lacks b'"' f.code
      × Lacks b'"' f.seq
      × Lacks b'"' f.sender
      × Lacks b'"' f.recver
      × Lacks b'"' f.time)
    × Lacks b'"' f.body

abbrev pub AreQuoteless : List Fields → Type 0
AreQuoteless [] = Unit
AreQuoteless (f ∷ fs) = IsQuoteless f × AreQuoteless fs

pub after_resend-stored : (f : Fields) (m : Items) → after_resend (stored f m) ≡ stored f m
unfolding after_resend
after_resend-stored f m =
    let left : (key v : Text)
        → Dict.lookup key (stored f m) ≡ some v
        → (item key (stored f m)).1 ≡ stored f m =
      λ key v e. ap (λ p. p.1) (item-found key v (stored f m) e) in
    ap (λ t. (item body_key (item time_key (item recver_key (item sender_key t).1).1).1).1)
      (left code_key f.code (code_stored f m))
    ∙ ap (λ t. (item body_key (item time_key (item recver_key t).1).1).1)
        (left sender_key f.sender (sender_stored f m))
    ∙ ap (λ t. (item body_key (item time_key t).1).1) (left recver_key f.recver (recver_stored f m))
    ∙ ap (λ t. (item body_key t).1) (left time_key f.time (time_stored f m))
    ∙ left body_key f.body (body_stored f m)

module _ (w : World) (c : ℕ) where
  -- The message with the fields, under a new number.
  abbrev pub renewed : ℕ → Fields → Text
  renewed n f = encode_message f.code (w.seq_at n) f.sender f.recver f.time f.body false

  abbrev pub resent : ℕ → List Fields → List Effect
  resent n [] = []
  resent n (f ∷ fs) = sent c (renewed n f) ∷ resent (suc n) fs

  -- The numbers that are drawn are new to the window.
  abbrev pub AreNew : ℕ → List Fields → List (Text × (Text × Text)) → Type 0
  AreNew n [] window = Unit
  AreNew n (f ∷ fs) window =
      (is_some (Dict.lookup (w.seq_at n) window) ≡ false)
      × AreNew (suc n) fs (Dict.insert (w.seq_at n) (f.recver, renewed n f) window)

  abbrev pub after_send : Fields → Server w → Server w
  after_send f s = record s {
    calls = suc s.calls;
    message_window = Dict.insert (w.seq_at s.calls) (f.recver, renewed s.calls f) s.message_window;
    timers = (w.seq_at s.calls, str_eq f.code heart_code) ∷ s.timers;
    effects = s.effects ++ (sent c (renewed s.calls f) ∷ []);
  }

  pub resend-stored :
      (f : Fields) (m : Items) (s : Server w)
      → is_some (Dict.lookup (w.seq_at s.calls) s.message_window) ≡ false
      → resend w c (stored f m) s ≡ some (tt, after_send f s)
  unfolding resend send_message encode get_seq insert_message_to_window dispatch run_after emit
      ◌>>=◌ gets modify require pure
  resend-stored f m s new = rw (
    item-found code_key f.code (stored f m) (code_stored f m),
    item-found sender_key f.sender (stored f m) (sender_stored f m),
    item-found recver_key f.recver (stored f m) (recver_stored f m),
    item-found time_key f.time (stored f m) (time_stored f m),
    item-found body_key f.body (stored f m) (body_stored f m),
    new,
  )

  resend_all-encoded :
      (fs : List Fields) (m : Items) (s : Server w)
      → AreQuoteless fs
      → AreNew s.calls fs s.message_window
      → (s' : Server w) × (resend_all w c m (map encoded fs) s ≡ some (tt, s'))
        × (s'.effects ≡ s.effects ++ resent s.calls fs)
        × (s'.store ≡ s.store)
  unfolding resend_all ◌>>=◌ lift require pure
  resend_all-encoded [] m s q new = (s, refl, sym (append-nil s.effects), refl)
  resend_all-encoded (f ∷ fs) m s q new =
      let t = after_send f s in
      let (s', e, effects, store) = resend_all-encoded fs (stored f m) t q.1 new.1 in
      (
        s',
        rw
            (
              parse-encode_text f.code f.seq f.sender f.recver f.time q.0.0 f.body m q.0.1,
              resend-stored f m s new.0,
              after_resend-stored f m,
            )
            e,
        effects
            ∙ append_assoc s.effects (sent c (renewed s.calls f) ∷ []) (resent (suc s.calls) fs),
        store,
      )

  -- The messages that wait in Redis for a user were printed from fields without a '"', not as lists, and the
  -- numbers that `getSeq` draws are new to the window: `sendOfflineMessageAction` then returns, it has
  -- sent each of them to the connection, in the order in which Redis lists them, with all its fields but
  -- a new number, and none waits any more.
  pub offline_messages_resent :
      (user : Text) (fs : List Fields) (s : Server w)
      → w.redis.smembers user s.store ≡ map encoded fs
      → AreQuoteless fs
      → AreNew s.calls fs s.message_window
      → (s' : Server w) × (send_offline_message_action w c user s ≡ some (tt, s'))
        × (s'.effects ≡ s.effects ++ resent s.calls fs)
        × (w.redis.smembers user s'.store ≡ [])
  unfolding send_offline_message_action remove_cached Redis.get_cache_message_size
      Redis.get_cache_message Redis.remove_all_cache_messages ◌>>=◌ gets modify pure
  offline_messages_resent user [] s waits q new =
      (s, rw (w.redis.counts user s.store, waits) refl, sym (append-nil s.effects), waits)
  offline_messages_resent user (f ∷ fs) s waits q new =
      let t : Server w = record s { store = w.redis.del user s.store } in
      let more : ltb 0 (length (map encoded (f ∷ fs))) ≡ true = lt→ltb 0 _ (omega arith) in
      let (s', e, effects, store) = resend_all-encoded (f ∷ fs) [] t q new in
      (
        s',
        rw (w.redis.counts user s.store, waits, more, w.redis.knows user s.store, waits, more) e,
        effects,
        ap (w.redis.smembers user) store
            ∙ w.redis.deletes user user s.store
            ∙ rw (str_eq_refl user) refl,
      )
