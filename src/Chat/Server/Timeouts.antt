-- ===== src/Chat/Server/Timeouts.antt =====
-- A message of the chat server that is not acknowledged in time is put among those that wait for its
-- receiver.
use xjblg.Base.{
  ℕ, ◌≡◌, refl, sym, ◌∙◌, inl, inr, Bool, true, false, Option, none, some, List, [], ◌∷◌, arith,
  Bool-cases,
}
use xjblg.Base.Text.{Text, str_eq, str_eq_sound}
use xjblg.Chat.Exec.{modify}
use xjblg.Chat.Redis.{is_member}
use xjblg.Chat.Redis
use xjblg.Chat.Server.{World, Server, emit, lock, shutdown, cache_message}
use xjblg.Chat.Server.Login.{erase_conn}
use xjblg.Chat.Server.Actions.{erase_message}
use xjblg.Chat.Server.Keeps.{Keeps, Keeps-modify, keeps_rules}
use xjblg.Chat.Server.Waiting.{IsCached, Kept, lock-Kept, shutdown-Kept, cache_message-Kept}
use xjblg.Chat.Server.Kept.{erase_conn-Kept}
use xjblg.Chat.Server.Requests.{erase_message-Kept}
use xjblg.Chat.Server.Events.{
  same_bool, is_pending, remove_timer, close_found, close_overtime_conn, give_up,
  handle_not_ack_message, step, timeout,
}

-- Taking one timer out leaves the others.
same_bool_sound : (a b : Bool) → same_bool a b ≡ true → a ≡ b
unfolding same_bool
same_bool_sound true b h = sym h
same_bool_sound false b h = ground arith

remove_timer-other :
    (n seq : Text) (heart h : Bool) (l : List (Text × Bool))
    → str_eq n seq ≡ false
    → is_pending seq h (remove_timer n heart l) ≡ is_pending seq h l
unfolding remove_timer is_pending
remove_timer-other n seq heart h [] other = refl
remove_timer-other n seq heart h ((t, g) ∷ l) other = elim (Bool-cases (str_eq t n)) [
  | inl same ↦
      let differs : str_eq t seq ≡ false = rw (str_eq_sound t n same) other in
      let ih = remove_timer-other n seq heart h l other in rw (same, differs) (ground arith)
  | inr e ↦ let ih = remove_timer-other n seq heart h l other in rw e (ground arith)
]

module _ (w : World) (seq recver message : Text) where
  abbrev K : Server w → Type 0
  K = Kept w seq recver message

  abbrev C : Server w → Type 0
  C = IsCached w recver message

  close_found-Kept : (user : Text) (c : Option ℕ) → Keeps K (close_found w user c)
  unfolding close_found
  close_found-Kept user none = search keeps_rules
  close_found-Kept user (some c) = search (keeps_rules, lock-Kept, erase_conn-Kept, shutdown-Kept)

  close_overtime_conn-Kept : (user : Text) → Keeps K (close_overtime_conn w user)
  unfolding close_overtime_conn
  close_overtime_conn-Kept user = search (keeps_rules, close_found-Kept)

  give_up-Kept :
      (n : Text) (heart : Bool) (found : Option (Text × Text))
      → str_eq n seq ≡ false
      → Keeps K (give_up w n heart found)
  unfolding give_up
  give_up-Kept n heart none other = search keeps_rules
  give_up-Kept n heart (some (r, m)) other =
      search (keeps_rules, cache_message-Kept, close_overtime_conn-Kept, erase_message-Kept) depth
        12

  handle_other-Kept :
      (n : Text) (heart : Bool) → str_eq n seq ≡ false → Keeps K (handle_not_ack_message w n heart)
  unfolding handle_not_ack_message
  handle_other-Kept n heart other = search (keeps_rules, give_up-Kept)

  take_timer-Kept :
      (n : Text) (heart : Bool)
      → str_eq n seq ≡ false
      → Keeps K (modify (λ (s : Server w). record s { timers = remove_timer n heart s.timers }))
  take_timer-Kept n heart other = Keeps-modify _ taken
    where
      taken : (s : Server w) → K s → K (record s { timers = remove_timer n heart s.timers })
      taken s (inl v) = inl (record {
        in_window = v.in_window;
        has_timer = remove_timer-other n seq heart false s.timers other ∙ v.has_timer;
        no_heart = remove_timer-other n seq heart true s.timers other ∙ v.no_heart;
      })
      taken s (inr v) = inr v

  pub other_timeout-Kept :
      (n : Text) (heart : Bool) → str_eq n seq ≡ false → Keeps K (step w (timeout n heart))
  unfolding step
  other_timeout-Kept n heart other =
      search (keeps_rules, take_timer-Kept, handle_other-Kept) depth 12

  -- Once the message waits in Redis, no timeout takes it out.
  pub erase_message-Cached : (n : Text) → Keeps C (erase_message w n)
  unfolding erase_message
  erase_message-Cached n = Keeps-modify _ λ s h. h

  erase_conn-Cached : (user : Text) → Keeps C (erase_conn w user)
  unfolding erase_conn
  erase_conn-Cached user = Keeps-modify _ λ s h. h

  shutdown-Cached : (c : Option ℕ) → Keeps C (shutdown w c)
  unfolding shutdown emit
  shutdown-Cached none = search keeps_rules
  shutdown-Cached (some c) = Keeps-modify _ λ s h. h

  cache_message-Cached : (user m : Text) → Keeps C (cache_message w user m)
  unfolding cache_message Redis.cache_message
  cache_message-Cached user m =
      Keeps-modify _ λ s h. w.redis.adds user m recver message s.store ∙ rw h (ground arith)

  close_found-Cached : (user : Text) (c : Option ℕ) → Keeps C (close_found w user c)
  unfolding close_found lock
  close_found-Cached user none = search keeps_rules
  close_found-Cached user (some c) = search (keeps_rules, erase_conn-Cached, shutdown-Cached)

  pub close_overtime_conn-Cached : (user : Text) → Keeps C (close_overtime_conn w user)
  unfolding close_overtime_conn
  close_overtime_conn-Cached user = search (keeps_rules, close_found-Cached)

  give_up-Cached :
      (n : Text) (heart : Bool) (found : Option (Text × Text)) → Keeps C (give_up w n heart found)
  unfolding give_up
  give_up-Cached n heart none = search keeps_rules
  give_up-Cached n heart (some (r, m)) =
      search (keeps_rules, cache_message-Cached, close_overtime_conn-Cached, erase_message-Cached)
        depth 12

  take_timer-Cached :
      (n : Text) (heart : Bool)
      → Keeps C (modify (λ (s : Server w). record s { timers = remove_timer n heart s.timers }))
  take_timer-Cached n heart = Keeps-modify _ λ s h. h

  pub timeout-Cached : (n : Text) (heart : Bool) → Keeps C (step w (timeout n heart))
  unfolding step handle_not_ack_message
  timeout-Cached n heart = search (keeps_rules, take_timer-Cached, give_up-Cached) depth 12
