-- ===== src/Http/RoundTrip.antt =====
-- A GET request that is printed by the rules and then parsed.
use xjblg.Base.{
  ℕ, zero, suc, ◌+◌, ◌<◌, ◌≡◌, refl, sym, ap, ◌∙◌, true, false, some, List, [], ◌∷◌, ◌++◌, arith,
  length,
}
use mathlib.Core.List.{append-nil}
use xjblg.Base.Dict
use xjblg.Base.Text.{
  Text, Lacks, Lacks-append, Trimmed, split_at, split_at-found, split_at-Lacks, str_eq,
}
use xjblg.Net.Buffer.{Buffer, readable_bytes}
use xjblg.Net.Buffer.Inv.{IsValid, contents}
use xjblg.Net.Buffer.Lines.{take_line}
use xjblg.Http.Request.{
  HttpRequest, empty_request, get, http11, get_text, add_header, set_method, method_of,
}
use xjblg.Http.Context.{
  HttpContext, fresh_context, headers, got_all, version_prefix, read_version, set_target,
  read_target, process_request_line, header_line, line_round, header_round, round, returned,
  outcome, parse_loop, parse_request, end_of_headers,
}
use xjblg.Http.Progress.{parse_request-fuel}

-- `field: value`.
abbrev pub field_line : Text × Text → Text
field_line (k, v) = k ++ (b':' ∷ b' ' ∷ v)

-- The header lines, the empty line, and what follows.
abbrev pub print_headers : List (Text × Text) → Text → Text
print_headers [] rest = b'\r' ∷ b'\n' ∷ rest
print_headers (h ∷ hs) rest = field_line h ++ (b'\r' ∷ b'\n' ∷ print_headers hs rest)

-- A field name without a colon, a value without white space at its ends, neither with a '\r'.
abbrev pub IsField : Text × Text → Type 0
IsField (k, v) = Lacks b':' k × Lacks b'\r' k × Lacks b'\r' v × Trimmed v

abbrev pub AreFields : List (Text × Text) → Type 0
AreFields [] = Unit
AreFields (h ∷ hs) = IsField h × AreFields hs

abbrev pub store_fields : List (Text × Text) → List (Text × Text) → List (Text × Text)
store_fields [] m = m
store_fields ((k, v) ∷ hs) m = store_fields hs (Dict.insert k v m)

-- A query is empty or begins with its question mark.
abbrev pub IsQuery : Text → Type 0
IsQuery [] = Unit
IsQuery (c ∷ cs) = (c ≡ b'?') × Lacks b' ' cs × Lacks b'\r' cs

abbrev pub first_line : Text → Text → Text
first_line path query =
    get_text ++ (b' ' ∷ ((path ++ query) ++ (b' ' ∷ (version_prefix ++ (b'1' ∷ [])))))

abbrev pub print_get : Text → Text → List (Text × Text) → Text → Text
print_get path query hs rest = first_line path query ++ (b'\r' ∷ b'\n' ∷ print_headers hs rest)

header_line-field :
    (k v : Text) (c : HttpContext)
    → IsField (k, v)
    → header_line (field_line (k, v)) c
      ≡ (record c { req = record c.req { headers = Dict.insert k v c.req.headers } }, true)
unfolding header_line add_header
header_line-field k v c (colon, _, _, (front, back)) =
    let e : split_at b':' (field_line (k, v)) ≡ (k, b':' ∷ b' ' ∷ v) =
      split_at-found b':' k (b' ' ∷ v) colon in
    rw (header_line, e) (rw (ap (λ p. p.0) e, front, back))

-- One round over a header line.
header_round-line :
    (c : HttpContext) (b : Buffer) (line rest : Text)
    → IsValid b
    → contents b ≡ line ++ (b'\r' ∷ b'\n' ∷ rest)
    → Lacks b'\r' line
    → (b' : Buffer) × (header_round c b
        ≡ some (record {
          valid = true;
          more = (header_line line c).1;
          context = (header_line line c).0;
          buffer = b';
        }))
      × IsValid b'
      × (contents b' ≡ rest)
unfolding header_round
header_round-line c b line rest v e l =
    let (p, b', found, text, got, v', left) = take_line b line rest v e l in
    (b', rw (found, header_round) (rw (got, text)), v', left)

abbrev at_headers : HttpRequest → HttpContext
at_headers req = record { state = headers; req = req }

-- The header lines of a GET request are stored one after another, and the empty line ends it.
parse_headers :
    (hs : List (Text × Text)) (rest : Text) (fuel : ℕ) (req : HttpRequest) (b : Buffer)
    → AreFields hs
    → IsValid b
    → contents b ≡ print_headers hs rest
    → req.method ≡ get
    → length hs < fuel
    → (b' : Buffer) × (parse_loop fuel (at_headers req) b
        ≡ returned true
            (record { state = got_all; req = record req { headers = store_fields hs req.headers } })
            b')
      × IsValid b'
      × (contents b' ≡ rest)
unfolding parse_loop round header_line
parse_headers hs rest zero req b fs v e m h = absurd (omega arith)
parse_headers [] rest (suc fuel) req b fs v e m h =
    let (b', went, v', left) = header_round-line (at_headers req) b [] rest v e tt in
    let done : end_of_headers req.method ≡ (got_all, false) =
      ap end_of_headers m ∙ (unfold end_of_headers in refl) in
    (b', rw (went, done), v', left)
parse_headers ((k, w) ∷ hs) rest (suc fuel) req b (f, fs) v e m h =
    let lacks : Lacks b'\r' (field_line (k, w)) =
      Lacks-append b'\r' k (b':' ∷ b' ' ∷ w) f.1 (omega arith, (omega arith, f.2)) in
    let (b', went, v', left) =
      header_round-line (at_headers req) b (field_line (k, w)) (print_headers hs rest) v e lacks in
    let req' : HttpRequest = record req { headers = Dict.insert k w req.headers } in
    let (b'', parsed, v'', left') = parse_headers hs rest fuel req' b' fs v' left m (omega arith) in
    (b'', rw (went, header_line-field k w (at_headers req) f) parsed, v'', left')

module _ (path query : Text) (no_space : Lacks b' ' path) (no_mark : Lacks b'?' path)
    (is_query : IsQuery query) where
  split_target :
      (rest : Text)
      → split_at b' ' ((path ++ query) ++ (b' ' ∷ rest)) ≡ (path ++ query, b' ' ∷ rest)
  split_target rest =
      split_at-found b' ' (path ++ query) rest
        (Lacks-append b' ' path query no_space (query_lacks query is_query))
    where
      query_lacks : (q : Text) → IsQuery q → Lacks b' ' q
      query_lacks [] i = tt
      query_lacks (c ∷ cs) (e, l, _) = (omega arith, l)

  read_target_lem :
      (version : Text) (req : HttpRequest)
      → read_target ((path ++ query) ++ (b' ' ∷ version)) req
        ≡ read_version version (set_target (path ++ query) req)
  unfolding read_target
  read_target_lem version req =
      let e : split_at b' ' ((path ++ query) ++ (b' ' ∷ version))
          ≡ (path ++ query, b' ' ∷ version) =
        split_target version in
      rw (read_target, e)
        (ap (λ (s : Text). read_version version (set_target s req)) (ap (λ p. p.0) e))

  -- The target is taken apart at its question mark.
  set_target_lem :
      (q : Text) (req : HttpRequest)
      → IsQuery q
      → req.query ≡ []
      → set_target (path ++ q) req ≡ record req { path = path; query = q }
  unfolding set_target
  set_target_lem [] req i none_yet =
      let e : split_at b'?' (path ++ []) ≡ (path, []) =
        ap (split_at b'?') (append-nil path) ∙ split_at-Lacks b'?' path no_mark in
      rw (set_target, e) (rw (ap (λ p. p.0) e, none_yet))
  set_target_lem (c ∷ cs) req (is_mark, _, _) none_yet =
      let e : split_at b'?' (path ++ (c ∷ cs)) ≡ (path, c ∷ cs) =
        rw is_mark (split_at-found b'?' path cs no_mark) in
      rw (set_target, e) (rw (ap (λ p. p.0) e))

  -- The first line of a GET request is taken apart into its target and version.
  process_first_line :
      process_request_line (first_line path query) empty_request
      ≡ some (
        true,
        record empty_request { method = get; version = http11; path = path; query = query },
      )
  unfolding process_request_line read_version set_method method_of str_eq
  process_first_line = rw (
    read_target_lem (version_prefix ++ (b'1' ∷ [])) (record empty_request { method = get }),
    set_target_lem query (record empty_request { method = get }) is_query refl,
  )

abbrev first_request : Text → Text → HttpRequest
first_request path query = record empty_request {
  method = get;
  version = http11;
  path = path;
  query = query;
}

first_line-Lacks :
    (path query : Text) → Lacks b'\r' path → IsQuery query → Lacks b'\r' (first_line path query)
first_line-Lacks path query no_cr is_query =
    Lacks-append b'\r' get_text
      (b' ' ∷ ((path ++ query) ++ (b' ' ∷ (version_prefix ++ (b'1' ∷ []))))) (omega arith)
      (
        omega arith,
        Lacks-append b'\r' (path ++ query) (b' ' ∷ (version_prefix ++ (b'1' ∷ [])))
            (Lacks-append b'\r' path query no_cr (of_query query is_query)) (omega arith),
      )
  where
    of_query : (q : Text) → IsQuery q → Lacks b'\r' q
    of_query [] i = tt
    of_query (c ∷ cs) (e, _, l) = (omega arith, l)

-- The round over the first line.
line_round-first :
    (path query : Text)
    → Lacks b' ' path
    → Lacks b'?' path
    → Lacks b'\r' path
    → IsQuery query
    → (b : Buffer) (rest : Text) → IsValid b
    → contents b ≡ first_line path query ++ (b'\r' ∷ b'\n' ∷ rest)
    → (b' : Buffer) × (line_round fresh_context b
        ≡ some (record {
          valid = true;
          more = true;
          context = at_headers (first_request path query);
          buffer = b';
        }))
      × IsValid b'
      × (contents b' ≡ rest)
unfolding line_round
line_round-first path query no_space no_mark no_cr is_query b rest v e =
    let (p, b', found, text, got, v', left) =
      take_line b (first_line path query) rest v e (first_line-Lacks path query no_cr is_query) in
    (
      b',
      rw (found, line_round)
          (rw (text, process_first_line path query no_space no_mark is_query, got)),
      v',
      left,
    )

first_round :
    (fuel : ℕ) (b b' : Buffer) (path query : Text)
    → (line_round fresh_context b
        ≡ some (record {
          valid = true;
          more = true;
          context = at_headers (first_request path query);
          buffer = b';
        }))
    → parse_loop (suc fuel) fresh_context b
      ≡ parse_loop fuel (at_headers (first_request path query)) b'
unfolding parse_loop round
first_round fuel b b' path query went = rw went

-- A GET request is printed from a path without a space, '?' or '\r', a query that is empty or begins
-- with '?' and has no space or '\r' behind it, header fields whose names have no ':' or '\r' and whose
-- values have no '\r' and no white space at their ends, and a rest, and is what a valid buffer holds.
-- One call of `parseRequest` on a fresh context then returns true and gets all of it: the method,
-- version, path, query and fields that were printed. The rest stays in the buffer, which is valid.
pub parse-print_get :
    (path query : Text) (hs : List (Text × Text)) (rest : Text) (b : Buffer)
    → Lacks b' ' path × Lacks b'?' path × Lacks b'\r' path
    → IsQuery query
    → AreFields hs
    → IsValid b
    → contents b ≡ print_get path query hs rest
    → (b' : Buffer) × (parse_request fresh_context b
        ≡ some (
          true,
          record {
            state = got_all;
            req = record {
              method = get;
              version = http11;
              path = path;
              query = query;
              headers = store_fields hs [];
              body = [];
            };
          },
          b',
        ))
      × IsValid b'
      × (contents b' ≡ rest)
parse-print_get path query hs rest b (no_space, no_mark, no_cr) is_query fs v e =
    let fuel : ℕ = readable_bytes b + length hs + 1 in
    let (b', went, v', left) =
      line_round-first path query no_space no_mark no_cr is_query b (print_headers hs rest) v e in
    let (b'', parsed, v'', left') =
      parse_headers hs rest fuel (first_request path query) b' fs v' left refl (omega arith) in
    (
      b'',
      sym (parse_request-fuel (suc fuel) fresh_context b v (omega arith)).1
          ∙ ap outcome (first_round fuel b b' path query went ∙ parsed),
      v'',
      left',
    )
