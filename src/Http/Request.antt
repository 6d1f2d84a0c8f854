-- ===== src/Http/Request.antt =====
-- NETLIB/application/http/HttpRequest.h. A `const char*` range is the bytes in it.
use xjblg.Base.{
  Bool, true, false, not, Option, none, some, List, [], ◌∷◌, if◌then◌else◌, ◌>>◌, assert,
}
use xjblg.Base.Text.{Text, str_eq, skip_space, trim_end}
use xjblg.Base.Dict

pub data Method : Type 0 where
  invalid get post head put delete : Method

pub data Version : Type 0 where
  unknown http10 http11 : Version

pub record HttpRequest : Type 0 where
  pub method : Method
  pub version : Version
  pub path : Text
  pub query : Text
  pub headers : List (Text × Text)
  pub body : Text

abbrev pub empty_request : HttpRequest
empty_request = record {
  method = invalid;
  version = unknown;
  path = [];
  query = [];
  headers = [];
  body = [];
}

abbrev pub is_invalid : Method → Bool
is_invalid invalid = true
is_invalid _ = false

-- "GET", "POST", "HEAD", "PUT", "DELETE".
abbrev pub get_text : Text
get_text = b'G' ∷ b'E' ∷ b'T' ∷ []

abbrev pub post_text : Text
post_text = b'P' ∷ b'O' ∷ b'S' ∷ b'T' ∷ []

abbrev pub head_text : Text
head_text = b'H' ∷ b'E' ∷ b'A' ∷ b'D' ∷ []

abbrev pub put_text : Text
put_text = b'P' ∷ b'U' ∷ b'T' ∷ []

abbrev pub delete_text : Text
delete_text = b'D' ∷ b'E' ∷ b'L' ∷ b'E' ∷ b'T' ∷ b'E' ∷ []

unfoldable pub method_of : Text → Method
method_of m =
    if str_eq m get_text
    then get
    else if str_eq m post_text
    then post
    else if str_eq m head_text
    then head
    else if str_eq m put_text
    then put
    else if str_eq m delete_text
    then delete
    else invalid

-- `methodString`; `none` stands for "UNKNOWN".
unfoldable pub method_string : Method → Option Text
method_string get = some get_text
method_string post = some post_text
method_string head = some head_text
method_string put = some put_text
method_string delete = some delete_text
method_string invalid = none

-- `setMethod(const char*, const char*)`: a second call on a request with a method fails its assert.
unfoldable pub set_method : Text → HttpRequest → Option (Bool × HttpRequest)
unfolding method_of
set_method m req = do
  assert (is_invalid req.method)
  let r = record req { method = method_of m }
  some (not (is_invalid r.method), r)

-- `addHeader(start, colon, end)`: the bytes before the colon and those behind it.
unfoldable pub add_header : Text → Text → HttpRequest → HttpRequest
add_header field value req = record req {
  headers = Dict.insert field (trim_end (skip_space value)) req.headers;
}

abbrev pub value_or_empty : Option Text → Text
value_or_empty none = []
value_or_empty (some v) = v

unfoldable pub get_header : Text → HttpRequest → Text
get_header field req = value_or_empty (Dict.lookup field req.headers)

-- `swap`: all but the body changes place.
unfoldable pub swap_requests : HttpRequest → HttpRequest → HttpRequest × HttpRequest
swap_requests r s = (record s { body = r.body }, record r { body = s.body })
