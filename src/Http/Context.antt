-- ===== src/Http/Context.antt =====
-- NETLIB/application/http/HttpContext.h and HttpContext.cpp: the request parser, on a Buffer.
use xjblg.Base.{
  ℕ, zero, suc, ◌+◌, Bool, true, false, ◌&&◌, Option, none, some, [], ◌∷◌, length, take, get_elem?,
  ltb, ◌==◌, if◌then◌else◌, ◌>>=◌,
}
use xjblg.Base.Text.{Text, str_eq, split_at, stoi_size}
use xjblg.Base.Words.{add_size}
use xjblg.Net.Buffer.{Buffer, find_crlf, range, readable_bytes, retrieve_until, retrieve_all}
use xjblg.Http.Request.{
  HttpRequest, empty_request, Method, get, post, http10, http11, set_method, add_header, get_header,
  swap_requests,
}

pub data ParseState : Type 0 where
  request_line headers body got_all : ParseState

pub record HttpContext : Type 0 where
  pub state : ParseState
  pub req : HttpRequest

abbrev pub fresh_context : HttpContext
fresh_context = record { state = request_line; req = empty_request }

-- "HTTP/1."
abbrev pub version_prefix : Text
version_prefix = b'H' ∷ b'T' ∷ b'T' ∷ b'P' ∷ b'/' ∷ b'1' ∷ b'.' ∷ []

-- The last part of `processRequestLine`: the bytes behind the second space.
unfoldable pub read_version : Text → HttpRequest → Bool × HttpRequest
read_version s req =
    if length s == 8 && str_eq (take 7 s) version_prefix
    then elim (get_elem? s 7) [
      | none ↦ (false, req)
      | some c ↦
          if c == b'1'
          then (true, record req { version = http11 })
          else if c == b'0'
          then (true, record req { version = http10 })
          else (false, req)
    ]
    else (false, req)

-- `setPath` and `setQuery`: the query keeps its question mark.
unfoldable pub set_target : Text → HttpRequest → HttpRequest
set_target s req = elim ((split_at b'?' s).1) [
  | [] ↦ record req { path = (split_at b'?' s).0 }
  | c ∷ cs ↦ record req { path = (split_at b'?' s).0; query = c ∷ cs }
]

-- The target and what follows it, behind the first space.
unfoldable pub read_target : Text → HttpRequest → Bool × HttpRequest
unfolding read_version set_target
read_target s req = elim ((split_at b' ' s).1) [
  | [] ↦ (false, req)
  | c ∷ version ↦ read_version version (set_target (split_at b' ' s).0 req)
]

-- `processRequestLine` over the bytes of the line.
unfoldable pub process_request_line : Text → HttpRequest → Option (Bool × HttpRequest)
unfolding read_target
process_request_line line req = elim ((split_at b' ' line).1) [
  | [] ↦ some (false, req)
  | c ∷ target ↦
      (set_method (split_at b' ' line).0 req >>= λ (valid, r).
      some (if valid then read_target target r else (false, r)))
]

-- What one round of the loop leaves: `ok`, `hasMore`, the context and the buffer.
pub record Round : Type 0 where
  pub valid : Bool
  pub more : Bool
  pub context : HttpContext
  pub buffer : Buffer

abbrev halt : HttpContext → Buffer → Round
halt c b = record { valid = true; more = false; context = c; buffer = b }

unfoldable pub line_round : HttpContext → Buffer → Option Round
line_round c b = elim (find_crlf b) [
  | none ↦ some (halt c b)
  | some crlf ↦
      (process_request_line (range b b.reader crlf) c.req >>= λ (valid, r).
      if valid
      then (retrieve_until (add_size crlf 2) b >>= λ b'. some (record {
        valid = true;
        more = true;
        context = record { state = headers; req = r };
        buffer = b';
      }))
      else some
          (record { valid = false; more = false; context = record c { req = r }; buffer = b }))
]

-- The state after a header line without a colon, and whether the loop goes on.
unfoldable pub end_of_headers : Method → ParseState × Bool
end_of_headers get = (got_all, false)
end_of_headers post = (body, true)
end_of_headers _ = (headers, true)

unfoldable pub header_line : Text → HttpContext → HttpContext × Bool
unfolding end_of_headers
header_line line c = elim ((split_at b':' line).1) [
  | [] ↦ let (s, more) = end_of_headers c.req.method in (record c { state = s }, more)
  | colon ∷ value ↦ (record c { req = add_header (split_at b':' line).0 value c.req }, true)
]

unfoldable pub header_round : HttpContext → Buffer → Option Round
header_round c b = elim (find_crlf b) [
  | none ↦ some (halt c b)
  | some crlf ↦
      (retrieve_until (add_size crlf 2) b >>= λ b'.
      let (c', more) = header_line (range b b.reader crlf) c in
      some (record { valid = true; more = more; context = c'; buffer = b' }))
]

-- "Content-Length"
abbrev pub content_length : Text
content_length =
    b'C' ∷ b'o' ∷ b'n' ∷ b't' ∷ b'e' ∷ b'n' ∷ b't' ∷ b'-' ∷ b'L' ∷ b'e' ∷ b'n' ∷ b'g' ∷ b't' ∷ b'h'
    ∷ []

unfoldable pub body_round : HttpContext → Buffer → Option Round
body_round c b = stoi_size (get_header content_length c.req) >>= λ n.
    if ltb (readable_bytes b) n
    then some (halt c b)
    else some (
        halt (record { state = got_all; req = record c.req { body = range b b.reader b.writer } })
          (retrieve_all b))

unfoldable pub round : ParseState → HttpContext → Buffer → Option Round
unfolding line_round header_round body_round
round request_line c b = line_round c b
round headers c b = header_round c b
round body c b = body_round c b
round got_all c b = some (halt c b)

-- How a run of the loop ends: the fuel ran out, or it returned, or an assert failed or a call threw.
pub data Run : Type 0 where
  out_of_fuel aborted : Run
  returned : Bool → HttpContext → Buffer → Run

-- What follows a round: the rest of the loop, or its end.
abbrev pub after_round : Option Round → (HttpContext → Buffer → Run) → Run
after_round none rest = aborted
after_round (some r) rest =
    if r.more then rest r.context r.buffer else returned r.valid r.context r.buffer

-- The loop of `parseRequest`, on fuel. The result is `ok`, the context and the buffer.
unfoldable pub parse_loop : ℕ → HttpContext → Buffer → Run
parse_loop zero c b = out_of_fuel
parse_loop (suc fuel) c b = after_round (round c.state c b) (parse_loop fuel)

abbrev pub outcome : Run → Option (Bool × HttpContext × Buffer)
outcome (returned ok c b) = some (ok, c, b)
outcome _ = none

-- Each round that goes on takes two bytes at least, so this fuel is enough.
unfoldable pub parse_request : HttpContext → Buffer → Option (Bool × HttpContext × Buffer)
parse_request c b = outcome (parse_loop (readable_bytes b + 2) c b)

unfoldable pub reset : HttpContext → HttpContext
reset c = record { state = request_line; req = (swap_requests c.req empty_request).0 }
