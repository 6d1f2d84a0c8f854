-- ===== src/Net/Examples.antt =====
-- Runs of the buffer, the connector and the pool of loops on concrete bytes.
use xjblg.Base.{ℕ, ◌<◌, ◌≡◌, refl, true, false, none, some, List, [], ◌∷◌, ◌++◌, arith, length}
use xjblg.Net.Buffer.{Buffer, append, search_crlf, find_crlf}
use xjblg.Net.Buffer.Inv.{IsValid, contents, append_lem}
use xjblg.Net.Buffer.Search.{FirstCrlf, find_crlf_lem}
use xjblg.Net.Buffer.Read.{got, buf_read_fd, buf_read_fd_lem}
use xjblg.Net.Connector.{
  Connector, make_connector, connecting, in_progress, handle_error, handle_write,
}
use xjblg.Net.Connector.Faults.{retry_aborts}

-- Eight bytes in front, "GET\r\nab", and two bytes to write.
abbrev sample : Buffer
sample = record {
  bytes =
      0 ∷ 0 ∷ 0 ∷ 0 ∷ 0 ∷ 0 ∷ 0 ∷ 0 ∷ b'G' ∷ b'E' ∷ b'T' ∷ b'\r' ∷ b'\n' ∷ b'a' ∷ b'b' ∷ 0 ∷ 0 ∷ [];
  reader = 8;
  writer = 15;
}

sample-IsValid : IsValid sample
sample-IsValid = record {
  ordered = omega arith;
  within = omega arith;
  room = omega arith;
  small = omega arith;
}

abbrev hi : List ℕ
hi = b'h' ∷ b'i' ∷ b'!' ∷ []

append_lem_example :
    (b' : Buffer) × (append hi sample ≡ some b')
    × IsValid b'
    × (contents b' ≡ contents sample ++ hi)
append_lem_example = append_lem sample hi sample-IsValid (omega arith)

find_crlf_lem_example : FirstCrlf sample.reader (contents sample) (find_crlf sample)
find_crlf_lem_example = find_crlf_lem sample

found_at : find_crlf sample ≡ some 11
unfolding find_crlf search_crlf
found_at = refl

buf_read_fd_lem_example :
    (b' : Buffer) × (buf_read_fd sample (got (b'c' ∷ []) ∷ []) ≡ some (some 1, b'))
    × IsValid b'
    × (contents b' ≡ contents sample ++ (b'c' ∷ []))
    × (b'.writer < length b'.bytes)
buf_read_fd_lem_example =
    buf_read_fd_lem sample (got (b'c' ∷ []) ∷ []) sample-IsValid (omega arith)
      (omega arith, λ h. refl, λ h. absurd (omega arith)) (omega arith) (omega arith)

-- A connector whose connection is being made.
abbrev making : Connector
making = record make_connector {
  wanted = true;
  state = connecting;
  channel = true;
  writes = true;
  sockets = 1;
}

retry_aborts_example :
    (handle_error (in_progress ∷ []) making ≡ none)
    × (handle_write true false (in_progress ∷ []) making ≡ none)
retry_aborts_example = retry_aborts making [] refl refl refl
