-- ===== src/Http/Examples.antt =====
-- Runs of the request parser on concrete bytes.
use xjblg.Base.{◌≢◌, ◌≡◌, refl, true, false, none, some, [], ◌∷◌, arith}
use xjblg.Base.Text.{Text, str_eq}
use xjblg.Net.Buffer.{Buffer, find_crlf, search_crlf, retrieve, retrieve_until, retrieve_all}
use xjblg.Net.Buffer.Inv.{IsValid, contents}
use xjblg.Http.Request.{empty_request, head, get, http11, set_method, method_of}
use xjblg.Http.Context.{
  HttpContext, fresh_context, headers, got_all, Round, line_round, header_line, header_round, round,
  returned, out_of_fuel, outcome, parse_loop, parse_request, process_request_line, end_of_headers,
  read_target,
}
use xjblg.Http.RoundTrip.{print_get, store_fields, parse-print_get}
use xjblg.Http.Progress.{parse_request-fuel}
use xjblg.Http.Faults.{other_methods_unfinished, rejected_line_aborts}

abbrev front : Text → Text
front s = 0 ∷ 0 ∷ 0 ∷ 0 ∷ 0 ∷ 0 ∷ 0 ∷ 0 ∷ s

-- "GET /a?b HTTP/1.1", "X: y" and a byte of the next request.
abbrev sample : Text
sample = print_get (b'/' ∷ b'a' ∷ []) (b'?' ∷ b'b' ∷ []) ((b'X' ∷ [], b'y' ∷ []) ∷ []) (b'G' ∷ [])

abbrev sample_buffer : Buffer
sample_buffer = record { bytes = front sample; reader = 8; writer = 36 }

sample_buffer-IsValid : IsValid sample_buffer
sample_buffer-IsValid = record {
  ordered = omega arith;
  within = omega arith;
  room = omega arith;
  small = omega arith;
}

parse-print_get_example :
    (b' : Buffer) × (parse_request fresh_context sample_buffer
      ≡ some (
        true,
        record {
          state = got_all;
          req = record {
            method = get;
            version = http11;
            path = b'/' ∷ b'a' ∷ [];
            query = b'?' ∷ b'b' ∷ [];
            headers = store_fields ((b'X' ∷ [], b'y' ∷ []) ∷ []) [];
            body = [];
          };
        },
        b',
      ))
    × IsValid b'
    × (contents b' ≡ b'G' ∷ [])
parse-print_get_example =
    parse-print_get (b'/' ∷ b'a' ∷ []) (b'?' ∷ b'b' ∷ []) ((b'X' ∷ [], b'y' ∷ []) ∷ []) (b'G' ∷ [])
      sample_buffer (omega arith, omega arith, omega arith) (omega arith, omega arith, omega arith)
      ((omega arith, omega arith, omega arith, (refl, refl)), tt) sample_buffer-IsValid refl

parse_request-fuel_example :
    (parse_loop 40 fresh_context sample_buffer ≢ out_of_fuel)
    × (outcome (parse_loop 40 fresh_context sample_buffer)
        ≡ parse_request fresh_context sample_buffer)
parse_request-fuel_example =
    parse_request-fuel 40 fresh_context sample_buffer sample_buffer-IsValid (omega arith)

-- A HEAD request whose first line is read, and its empty line.
abbrev head_context : HttpContext
head_context = record {
  state = headers;
  req = record empty_request { method = head; version = http11 };
}

abbrev empty_line : Buffer
empty_line = record { bytes = front (b'\r' ∷ b'\n' ∷ []); reader = 8; writer = 10 }

abbrev nothing_left : Buffer
nothing_left = record empty_line { writer = 8 }

head_unfinished : parse_loop 4 head_context empty_line ≡ returned true head_context nothing_left
unfolding parse_loop round header_round header_line end_of_headers find_crlf search_crlf
    retrieve_until retrieve retrieve_all
head_unfinished = refl

other_methods_unfinished_example : (head_context.state ≡ headers) × (head_context.req.method ≡ head)
other_methods_unfinished_example =
    other_methods_unfinished 4 head_context empty_line true head_context nothing_left refl (cc, cc)
      head_unfinished

-- "GET /" is rejected, since it has no version.
abbrev short_line : Buffer
short_line = record {
  bytes = front (b'G' ∷ b'E' ∷ b'T' ∷ b' ' ∷ b'/' ∷ b'\r' ∷ b'\n' ∷ []);
  reader = 8;
  writer = 15;
}

abbrev rejected : Round
rejected = record {
  valid = false;
  more = false;
  context = record fresh_context { req = record empty_request { method = get } };
  buffer = short_line;
}

short_line-rejected : line_round fresh_context short_line ≡ some rejected
unfolding line_round process_request_line set_method method_of str_eq read_target find_crlf
    search_crlf
short_line-rejected = refl

rejected_line_aborts_example :
    (parse_request fresh_context short_line ≡ some (false, rejected.context, short_line))
    × (parse_request rejected.context short_line ≡ none)
rejected_line_aborts_example =
    rejected_line_aborts fresh_context short_line rejected refl refl short_line-rejected refl cc
