-- ===== src/Chat/Server/Requoted.antt =====
-- What becomes of a list in the body of a message that was not acknowledged: it is sent again between
-- quotation marks, and is then no longer read.
use xjblg.Base.{
  ℕ, suc, ◌-◌, Bool, true, ◌||◌, ◌⊎◌, inl, refl, sym, ap, ltb, lt→ltb, ◌≡◌, ◌≢◌, ◌∙◌, inr, false,
  Option, none, some, List, [], ◌∷◌, ◌++◌, arith, length,
}
use xjblg.Base.Text.{Text, Lacks, str_eq, str_eq_refl, str_eq_sound}
use xjblg.Chat.Json.{Items, item_round, item_loop, parse_json}
use xjblg.Chat.Message.{body_key, text_field, encode_message}
use xjblg.Chat.Context.{Fields}
use xjblg.Chat.Parsed.{
  parse-encode_list, up_to_time, length-up_to_time, item_loop-up_to_time, item_loop-text,
  length-text_field,
}
use xjblg.Chat.Exec.{lift, require, pure, gets, modify, ◌>>=◌}
use xjblg.Chat.Server.{World, Server, sent, heart_code, is_some}
use xjblg.Chat.Server.Login.{resend_all, remove_cached, send_offline_message_action}
use xjblg.Base.Dict
use xjblg.Chat.Redis
use xjblg.Chat.Redis.{is_member}
use xjblg.Chat.Server.Waiting.{IsWaiting}
use xjblg.Chat.Server.Sent.{IsReachable, timeout_stores}
use xjblg.Chat.Server.Events.{same_bool, is_pending, timeout, step}
use xjblg.Chat.Server.Resending.{after_send, resend-stored}
use xjblg.Chat.Server.Actions.{pair_texts, user_friends_to_string}

-- No byte with which a round of the loop of `parseJson` can begin.
abbrev pub IsPlain : ℕ → Type 0
IsPlain d = (d ≢ b'{') × (d ≢ b',') × (d ≢ b'}')

item_loop-plain :
    (fuel : ℕ) (before : Option ℕ) (d : ℕ) (rest : Text) (items : Items)
    → IsPlain d
    → item_loop (suc fuel) before (d ∷ rest) items ≡ some (before, false, items)
unfolding item_loop item_round
item_loop-plain fuel before d rest items p = ground arith

-- The text of a list with a friend, as the body between quotation marks.
parse_json-requoted :
    (code seq sender recver time : Text) (d : ℕ) (rest : Text) (items : Items)
    → (Lacks b'"' code × Lacks b'"' seq × Lacks b'"' sender × Lacks b'"' recver × Lacks b'"' time)
    → IsPlain d
    → parse_json (encode_message code seq sender recver time (b'{' ∷ b'"' ∷ d ∷ rest) false) items
      ≡ some (false, [])
unfolding parse_json encode_message
parse_json-requoted code seq sender recver time d rest items lack p =
    let tail : Text = rest ++ (b'"' ∷ b'}' ∷ []) in
    let last = text_field b',' body_key (b'{' ∷ []) (d ∷ tail) in
    let whole = up_to_time code seq sender recver time last in
    let n = length whole - 7 in
    let fuel : length whole ≡ suc (suc (suc (suc (suc (suc (suc n)))))) = omega (
      arith,
      length-up_to_time code seq sender recver time lack last,
      length-text_field b',' body_key (b'{' ∷ []) (d ∷ tail),
    ) in
    rw (
      fuel,
      item_loop-up_to_time code seq sender recver time lack (suc (suc n)) last items
          ∙ item_loop-text (suc n) (some b'"') b',' body_key (b'{' ∷ []) (d ∷ tail) _ (inr refl)
              (omega arith) (omega arith)
          ∙ item_loop-plain n (some b'"') d tail _ p,
    )

-- Where a list of at least one friend, whose id begins with a byte other than a brace or a comma, waits as
-- the text of a message, sending the messages again aborts.
requoted_aborts :
    (w : World) (c : ℕ) (f : Fields) (seq : Text) (d : ℕ) (id name : Text)
    → (friends : List (Text × Text)) (messages : List Text) (m : Items) (s : Server w)
    → (Lacks b'"' f.code
        × Lacks b'"' seq
        × Lacks b'"' f.sender
        × Lacks b'"' f.recver
        × Lacks b'"' f.time)
    → f.body ≡ user_friends_to_string ((d ∷ id, name) ∷ friends)
    → IsPlain d
    → resend_all w c m
        (encode_message f.code seq f.sender f.recver f.time f.body false ∷ messages)
        s
      ≡ none
unfolding resend_all user_friends_to_string pair_texts ◌>>=◌ lift require
requoted_aborts w c f seq d id name [] messages m s lack body p =
    rw (body, parse_json-requoted f.code seq f.sender f.recver f.time d _ m lack p)
requoted_aborts w c f seq d id name (g ∷ friends) messages m s lack body p =
    rw (body, parse_json-requoted f.code seq f.sender f.recver f.time d _ m lack p)

or_cases : (a b : Bool) → (a || b) ≡ true → (a ≡ true) ⊎ (b ≡ true)
or_cases true b h = inl refl
or_cases false b h = inr h

-- A set with one element is listed with it at its front.
sole_member :
    (m : Text) (xs : List Text)
    → ((e : Text) → is_member e xs ≡ (str_eq m e || false))
    → (rest : List Text) × (xs ≡ m ∷ rest)
unfolding is_member
sole_member m [] only = absurd (cc (only m, true_or))
  where
    true_or : (str_eq m m || false) ≡ true
    true_or = rw (str_eq_refl m) refl
sole_member m (x ∷ xs) only =
    let here : is_member x (x ∷ xs) ≡ true = rw (is_member, str_eq_refl x) refl in
    elim (or_cases (str_eq m x) false (sym (only x) ∙ here)) [
      | inl same ↦ (xs, ap (λ y. y ∷ xs) (sym (str_eq_sound m x same)))
      | inr never ↦ cc
    ]

module _ (w : World) (f : Fields) (d : ℕ) (id name : Text) (friends : List (Text × Text)) where
  abbrev pub listed : Text
  listed = user_friends_to_string ((d ∷ id, name) ∷ friends)

  -- The message as it waits: with the list for its body.
  abbrev pub waiting_list : Text
  waiting_list = encode_message f.code f.seq f.sender f.recver f.time listed true

  abbrev fields : Fields
  fields = record f { body = listed }

  first_login :
      (c : ℕ) (s : Server w)
      → w.redis.smembers f.recver s.store ≡ waiting_list ∷ []
      → (Lacks b'"' f.code
          × Lacks b'"' f.seq
          × Lacks b'"' f.sender
          × Lacks b'"' f.recver
          × Lacks b'"' f.time)
      → Lacks b'}' (pair_texts ((d ∷ id, name) ∷ friends))
      → is_some (Dict.lookup (w.seq_at s.calls) s.message_window) ≡ false
      → send_offline_message_action w c f.recver s
        ≡ some (tt, after_send w c fields (record s { store = w.redis.del f.recver s.store }))
  unfolding send_offline_message_action remove_cached resend_all Redis.get_cache_message_size
      Redis.get_cache_message Redis.remove_all_cache_messages ◌>>=◌ gets modify pure lift require
      user_friends_to_string
  first_login c s waits lack no_brace new =
      let t : Server w = record s { store = w.redis.del f.recver s.store } in
      let one : ltb 0 1 ≡ true = refl in
      rw
        (
          w.redis.counts f.recver s.store,
          waits,
          w.redis.knows f.recver s.store,
          waits,
          parse-encode_list f.code f.seq f.sender f.recver f.time lack
              (pair_texts ((d ∷ id, name) ∷ friends)) [] no_brace,
          resend-stored w c fields [] t new,
        )
        refl

  second_login :
      (c : ℕ) (seq : Text) (rest : List Text) (s : Server w)
      → w.redis.smembers f.recver s.store
        ≡ encode_message f.code seq f.sender f.recver f.time listed false ∷ rest
      → (Lacks b'"' f.code
          × Lacks b'"' seq
          × Lacks b'"' f.sender
          × Lacks b'"' f.recver
          × Lacks b'"' f.time)
      → IsPlain d
      → send_offline_message_action w c f.recver s ≡ none
  unfolding send_offline_message_action remove_cached Redis.get_cache_message_size
      Redis.get_cache_message Redis.remove_all_cache_messages ◌>>=◌ gets modify pure
  second_login c seq rest s waits lack plain =
      let t : Server w = record s { store = w.redis.del f.recver s.store } in
      let more : ltb 0 (suc (length rest)) ≡ true = lt→ltb 0 _ (omega arith) in
      rw (w.redis.counts f.recver s.store, waits, more, w.redis.knows f.recver s.store, waits, more)
        (requoted_aborts w c fields seq d id name friends rest [] t lack refl plain)

  -- The message as it is sent again: with the list as text.
  abbrev pub requoted : Text → Text
  requoted seq = encode_message f.code seq f.sender f.recver f.time listed false

  -- A message whose body is the list of at least one friend, whose id begins with a byte other than a brace
  -- or a comma, and that has no '"' in its other fields and no closing brace in the list, is all that
  -- waits in Redis for its receiver. `sendOfflineMessageAction` then sends it again with the list as text.
  -- If that message is not acknowledged before its timer runs out, while the receiver is offline or has a
  -- connection that still exists, the timeout returns, and `sendOfflineMessageAction` for the next login
  -- aborts the server. The number that `getSeq` draws has no '"', and neither the window nor a heartbeat
  -- has it.
  pub list_resent_aborts :
      (c next : ℕ) (s : Server w)
      → w.redis.smembers f.recver s.store ≡ waiting_list ∷ []
      → (Lacks b'"' f.code
          × Lacks b'"' f.seq
          × Lacks b'"' f.sender
          × Lacks b'"' f.recver
          × Lacks b'"' f.time)
      → Lacks b'}' (pair_texts ((d ∷ id, name) ∷ friends))
      → IsPlain d
      → Lacks b'"' (w.seq_at s.calls)
      → is_some (Dict.lookup (w.seq_at s.calls) s.message_window) ≡ false
      → is_pending (w.seq_at s.calls) true s.timers ≡ false
      → str_eq f.code heart_code ≡ false
      → IsReachable w (w.seq_at s.calls) f.recver (requoted (w.seq_at s.calls)) s
      → (s' : Server w) × (s'' : Server w) × (send_offline_message_action w c f.recver s
          ≡ some (tt, s'))
        × (s'.effects ≡ s.effects ++ (sent c (requoted (w.seq_at s.calls)) ∷ []))
        × (step w (timeout (w.seq_at s.calls) false) s' ≡ some (tt, s''))
        × (send_offline_message_action w next f.recver s'' ≡ none)
  unfolding is_pending same_bool Redis.cache_message is_member
  list_resent_aborts c next s waits lack no_brace plain quoteless new no_heart no_heart_code
        reachable =
      let seq = w.seq_at s.calls in
      let s' = after_send w c fields (record s { store = w.redis.del f.recver s.store }) in
      let waiting : IsWaiting w seq f.recver (requoted seq) s' = record {
        in_window =
            Dict.lookup-insert seq seq (f.recver, requoted seq) s.message_window
            ∙ rw (str_eq_refl seq) refl;
        has_timer = rw (str_eq_refl seq, no_heart_code) refl;
        no_heart = rw (str_eq_refl seq, no_heart_code) no_heart;
      } in
      let (s'', ok, store, _, _) =
        timeout_stores w seq f.recver (requoted seq) s' waiting reachable in
      let (rest, listed_first) =
        sole_member (requoted seq) (w.redis.smembers f.recver s''.store) (λ e.
          ap (λ st. is_member e (w.redis.smembers f.recver st)) store
          ∙ w.redis.adds f.recver (requoted seq) f.recver e (w.redis.del f.recver s.store)
          ∙ rw
              (
                str_eq_refl f.recver,
                w.redis.deletes f.recver f.recver s.store,
                str_eq_refl f.recver,
              )
              refl) in
      (
        s',
        s'',
        first_login c s waits lack no_brace new,
        refl,
        ok,
        second_login next seq rest s'' listed_first (lack.0, quoteless, lack.2, lack.3, lack.4)
            plain,
      )
