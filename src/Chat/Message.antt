-- ===== src/Chat/Message.antt =====
-- NETLIB/application/chat/ChatServer.cpp: `encodeMessage`. The sequence number is what `getSeq` returns.
use xjblg.Base.{ℕ, Bool, [], ◌∷◌, ◌++◌, if◌then◌else◌}
use xjblg.Base.Text.{Text}

-- "code", "seq", "sender", "recver", "time", "body"
abbrev pub code_key : Text
code_key = b'c' ∷ b'o' ∷ b'd' ∷ b'e' ∷ []

abbrev pub seq_key : Text
seq_key = b's' ∷ b'e' ∷ b'q' ∷ []

abbrev pub sender_key : Text
sender_key = b's' ∷ b'e' ∷ b'n' ∷ b'd' ∷ b'e' ∷ b'r' ∷ []

abbrev pub recver_key : Text
recver_key = b'r' ∷ b'e' ∷ b'c' ∷ b'v' ∷ b'e' ∷ b'r' ∷ []

abbrev pub time_key : Text
time_key = b't' ∷ b'i' ∷ b'm' ∷ b'e' ∷ []

abbrev pub body_key : Text
body_key = b'b' ∷ b'o' ∷ b'd' ∷ b'y' ∷ []

-- A separator, then "key":"value".
abbrev pub text_field : ℕ → Text → Text → Text → Text
text_field sep key value rest =
    sep ∷ b'"' ∷ (key ++ (b'"' ∷ b':' ∷ b'"' ∷ (value ++ (b'"' ∷ rest))))

-- A separator, then "key":value.
abbrev pub list_field : ℕ → Text → Text → Text → Text
list_field sep key value rest = sep ∷ b'"' ∷ (key ++ (b'"' ∷ b':' ∷ (value ++ rest)))

unfoldable pub encode_message : Text → Text → Text → Text → Text → Text → Bool → Text
encode_message code seq sender recver time body body_is_list = text_field b'{' code_key code (
    text_field b',' seq_key seq (
      text_field b',' sender_key sender (
        text_field b',' recver_key recver (
          text_field b',' time_key time (
            if body_is_list
            then list_field b',' body_key body (b'}' ∷ [])
            else text_field b',' body_key body (b'}' ∷ []))))))
