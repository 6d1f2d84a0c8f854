-- ===== src/Chat/Client.antt =====
-- NETLIB/application/chat/ChatClient.h and ChatClient.cpp: the chat client, which acknowledges each message
-- that it gets. Its connection is a number, and `sent` lists the messages that it was given.
pub mod Acks
mod Examples
use xjblg.Base.{
  ℕ, suc, Bool, true, false, Option, none, some, List, [], ◌∷◌, ◌++◌, ◌==◌, if◌then◌else◌,
}
use xjblg.Base.Text.{Text}
use xjblg.Base.Bytes.{bytes}
use xjblg.Chat.Message.{encode_message}
use xjblg.Chat.Context.{Fields}
use xjblg.Chat.Exec.{Exec, raise, gets, modify, ◌>>=◌, ◌>>◌}

-- What `getSeq` and `getNowTime` return at their calls, counted from the start of the client.
pub record Clock : Type 0 where
  pub seq_at : ℕ → Text
  pub time_at : ℕ → Text

pub record ChatClient : Type 0 where
  pub user_id : Text
  pub password : Text
  pub connection : Option ℕ
  pub calls : ℕ
  pub sent : List (ℕ × Text)

unfoldable pub server_id : Text
unfolding bytes
server_id = bytes "10000000"

-- The first byte of a line, which is the NUL of `std::string` where the line is empty.
unfoldable pub first_byte : Text → ℕ
first_byte [] = 0
first_byte (c ∷ s) = c

-- `line.substr(1)`, which is called on lines that are not empty.
unfoldable pub after_first : Text → Text
after_first [] = []
after_first (c ∷ s) = s

module _ (clock : Clock) where
  open clock use {seq_at, time_at}

  abbrev Action : Type 0
  Action = Exec ChatClient (Unit {0})

  unfoldable pub next_seq : Exec ChatClient Text
  next_seq s = some (seq_at s.calls, record s { calls = suc s.calls })

  unfoldable pub now : Exec ChatClient Text
  now s = some (time_at s.calls, record s { calls = suc s.calls })

  -- `connection_->send`, where a null pointer ends the program.
  unfoldable pub hand_over : Option ℕ → Text → Action
  hand_over none message = raise
  hand_over (some c) message =
      modify (λ (s : ChatClient). record s { sent = s.sent ++ ((c, message) ∷ []) })

  unfoldable pub send_message : Text → Text → Text → Text → Text → Action
  send_message code sender recver time body = do
    seq ← next_seq
    conn ← gets (λ (s : ChatClient). s.connection)
    hand_over conn (encode_message code seq sender recver time body false)

  -- `sendMessage(code, userId_, recver, getNowTime(), body)`.
  unfoldable pub send_own : Text → Text → Text → Action
  send_own code recver body = do
    user ← gets (λ (s : ChatClient). s.user_id)
    time ← now
    send_message code user recver time body

  -- `onConnection`, with the connection or without one.
  unfoldable pub on_connection : Option ℕ → Action
  unfolding bytes
  on_connection none = modify (λ (s : ChatClient). record s { connection = none })
  on_connection (some c) = do
    modify (λ (s : ChatClient). record s { connection = some c })
    password ← gets (λ (s : ChatClient). s.password)
    send_own (bytes "1001") server_id password

  -- `onContextMessage`, without what it prints.
  unfoldable pub on_context_message : Fields → Action
  unfolding bytes
  on_context_message m = send_own (bytes "1111") server_id m.seq

  -- `send`, for a line of the user.
  unfoldable pub send_line : Text → Action
  unfolding bytes
  send_line line =
      if first_byte line == b'l'
      then send_own (bytes "1002") server_id line
      else if first_byte line == b'a'
      then send_own (bytes "1005") server_id (after_first line)
      else if first_byte line == b'd'
      then send_own (bytes "1010") server_id (after_first line)
      else if first_byte line == b'u'
      then send_own (bytes "1006") server_id (after_first line)
      else if first_byte line == b'g'
      then send_own (bytes "1007") server_id (after_first line)
      else if first_byte line == b'r'
      then send_own (bytes "1008") server_id (after_first line)
      else if first_byte line == b'z'
      then send_own (bytes "1009") server_id (after_first line)
      else send_own (bytes "2001") (bytes "22222222") line

  unfoldable pub send_message_to : Text → Text → Action
  unfolding bytes
  send_message_to message recver = send_own (bytes "2001") recver message
