-- ===== src/Chat/Server/Delivery.antt =====
-- What becomes of a message that the chat server has sent: it stays in the window, with a timer, or it is
-- among the messages that wait for its receiver, until it is acknowledged or the receiver logs in.
use mathlib.Core.Path.{subst}
use xjblg.Base.{
  ℕ, ◌≡◌, refl, sym, ◌∙◌, ap, inl, inr, Bool, true, false, not, ◌&&◌, Option, none, some, List, [],
  ◌∷◌, arith, Bool-cases,
}
use xjblg.Base.Text.{Text, str_eq, str_eq_sound, str_eq_refl}
use xjblg.Base.Maps.{put}
use xjblg.Chat.Exec.{pure, gets, modify, each, ◌>>=◌}
use xjblg.Chat.Redis.{is_member}
use xjblg.Chat.Redis
use xjblg.Chat.Server.{World, Server, cache_message}
use xjblg.Chat.Server.Actions.{erase_message}
use xjblg.Chat.Server.Keeps.{Keeps, Keeps-modify, Keeps-bind, keeps_rules}
use xjblg.Chat.Server.Waiting.{
  IsWaiting, IsCached, Kept, again, get_now_time-Kept, lock-Kept, send_message-Kept,
}
use xjblg.Chat.Server.Kept.{do_offline_notify_action-Kept, erase_conn-Kept}
use xjblg.Chat.Server.Requests.{settles, on_request-Kept}
use xjblg.Chat.Server.Timeouts.{
  other_timeout-Kept, timeout-Cached, close_overtime_conn-Cached, erase_message-Cached,
}
use xjblg.Chat.Server.Events.{
  Event, opened, destroyed, request, down, timeout, heartbeat, remove_timer, leave,
  on_connection_down, close_overtime_conn, give_up, handle_not_ack_message, send_heart,
  send_heart_packet, set_live, step, run,
}

module _ (w : World) (seq recver message : Text) where
  abbrev K : Server w → Type 0
  K = Kept w seq recver message

  -- The state in which the timeout has put the message among those that wait.
  abbrev pub stored : Server w → Server w
  stored s = record s {
    timers = remove_timer seq false s.timers;
    store = Redis.cache_message w.redis recver message s.store;
  }

  pub stored-Cached : (s : Server w) → IsCached w recver message (stored s)
  unfolding Redis.cache_message
  stored-Cached s =
      w.redis.adds recver message recver message s.store
      ∙ rw (str_eq_refl recver, str_eq_refl message) refl

  pub timeout-eq :
      (s : Server w)
      → IsWaiting w seq recver message s
      → step w (timeout seq false) s
        ≡ (close_overtime_conn w recver >>= λ _. erase_message w seq) (stored s)
  unfolding step handle_not_ack_message give_up cache_message ◌>>=◌ gets modify
  timeout-eq s v = rw (v.has_timer, v.in_window) refl

  waiting_timeout :
      (s s' : Server w)
      → IsWaiting w seq recver message s
      → step w (timeout seq false) s ≡ some (tt, s')
      → IsCached w recver message s'
  waiting_timeout s s' v e =
      (Keeps-bind (close_overtime_conn w recver) (λ _. erase_message w seq)
          (close_overtime_conn-Cached w seq recver message recver)
          (λ _. erase_message-Cached w seq recver message seq)).behind
        (stored s) s' tt (stored-Cached s) (sym (timeout-eq s v) ∙ e)

  heart-eq :
      (s : Server w) → IsWaiting w seq recver message s → step w (timeout seq true) s ≡ some (tt, s)
  unfolding step ◌>>=◌ gets pure
  heart-eq s v = rw v.no_heart refl

  same_timeout-Kept :
      (heart : Bool) (s s' : Server w) → K s → step w (timeout seq heart) s ≡ some (tt, s') → K s'
  same_timeout-Kept true s s' (inl v) e = let same = heart-eq s v in subst K (cc) (inl v)
  same_timeout-Kept false s s' (inl v) e = inr (waiting_timeout s s' v e)
  same_timeout-Kept heart s s' (inr v) e =
      inr ((timeout-Cached w seq recver message seq heart).behind s s' tt v e)

  timeout-Kept : (n : Text) (heart : Bool) → Keeps K (step w (timeout n heart))
  timeout-Kept n heart = record {
    behind = λ s s' a h e. elim (Bool-cases (str_eq n seq)) [
      | inl same ↦
          let p : seq ≡ n = sym (str_eq_sound n seq same) in
          same_timeout-Kept heart s s' h (ap (λ t. step w (timeout t heart) s) p ∙ e)
      | inr other ↦ (other_timeout-Kept w seq recver message n heart other).behind s s' a h e
    ];
  }

  leave-Kept : (user : Option Text) → Keeps K (leave w user)
  unfolding leave
  leave-Kept none = search keeps_rules
  leave-Kept (some user) = search (keeps_rules, erase_conn-Kept, do_offline_notify_action-Kept)

  send_heart-Kept : (entry : Text × ℕ) → Keeps K (send_heart w entry)
  unfolding send_heart
  send_heart-Kept (user, c) =
      search (keeps_rules, lock-Kept, get_now_time-Kept, send_message-Kept) depth 12

  set_live-Kept : (c : ℕ) (b : Bool) → Keeps K (set_live w c b)
  unfolding set_live
  set_live-Kept c b = Keeps-modify _ λ s h.
      let t : Server w = record s { live = put s.live c b } in
      again w seq recver message s t refl refl refl h

  -- Whether an event takes the message out: it is acknowledged, or its receiver logs in.
  unfoldable pub settled : Event → Bool
  settled (request c m) = settles w seq recver message m
  settled e = false

  step-Kept : (e : Event) → settled e ≡ false → Keeps K (step w e)
  unfolding step settled on_connection_down send_heart_packet
  step-Kept (opened c) h = search set_live-Kept
  step-Kept (destroyed c) h = search set_live-Kept
  step-Kept (request c m) h = on_request-Kept w seq recver message c m h
  step-Kept (down c) h = search (keeps_rules, leave-Kept)
  step-Kept (timeout n heart) h = timeout-Kept n heart
  step-Kept heartbeat h = search (keeps_rules, send_heart-Kept)

  unfoldable pub none_settled : List Event → Bool
  none_settled [] = true
  none_settled (e ∷ events) = not (settled e) && none_settled events

  pub run-Kept : (events : List Event) → none_settled events ≡ true → Keeps K (run w events)
  unfolding run each none_settled
  run-Kept [] h = search keeps_rules
  run-Kept (e ∷ events) h =
      Keeps-bind (step w e) (λ _. run w events) (step-Kept e (ground arith))
        (λ _. run-Kept events (ground arith))
