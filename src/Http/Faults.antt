-- ===== src/Http/Faults.antt =====
-- Two ways in which `parseRequest` does not do what it is for: requests that never end, and a
-- rejected line that the next call reads again.
use xjblg.Base.{
  ℕ, zero, suc, ◌+◌, ◌≡◌, refl, sym, ap, ◌∙◌, ◌≢◌, ◌⊎◌, inl, inr, Bool, true, false, none, some, [],
  ◌∷◌, arith, Option-cases, Bool-cases,
}
use xjblg.Base.Text.{Text, split_at}
use xjblg.Base.Words.{add_size}
use xjblg.Net.Buffer.{Buffer, find_crlf, retrieve_until, range, readable_bytes}
use xjblg.Http.Request.{HttpRequest, Method, invalid, get, post, set_method, add_header}
use xjblg.Http.Context.{
  HttpContext, request_line, headers, Round, line_round, header_line, header_round, round, returned,
  aborted, after_round, parse_loop, parse_request, process_request_line, end_of_headers,
}

-- The methods for which the parser knows no end of the headers.
abbrev pub IsOther : Method → Type 0
IsOther m = (m ≢ get) × (m ≢ post)

header_line-other :
    (line : Text) (c : HttpContext)
    → c.state ≡ headers
    → IsOther c.req.method
    → ((header_line line c).0.state ≡ headers)
      × ((header_line line c).0.req.method ≡ c.req.method)
      × ((header_line line c).1 ≡ true)
unfolding header_line add_header end_of_headers
header_line-other line c s (no_get, no_post) = ground arith

header_round-other :
    (c : HttpContext) (b : Buffer) (r : Round)
    → c.state ≡ headers
    → IsOther c.req.method
    → header_round c b ≡ some r
    → (r.context.state ≡ headers) × (r.context.req.method ≡ c.req.method)
unfolding header_round
header_round-other c b r s other h = elim (Option-cases (find_crlf b)) [
  | inl e ↦ ground arith
  | inr (p, e) ↦ elim (Option-cases (retrieve_until (add_size p 2) b)) [
    | inl e' ↦ ground arith
    | inr (b', e') ↦ ground (arith, header_line-other (range b b.reader p) c s other)
  ]
]

-- A run that returns has done its first round.
ran :
    (fuel : ℕ) (c : HttpContext) (b : Buffer) (ok : Bool) (c' : HttpContext) (b' : Buffer)
    → parse_loop (suc fuel) c b ≡ returned ok c' b'
    → (r : Round) × (round c.state c b ≡ some r)
      × (after_round (some r) (parse_loop fuel) ≡ returned ok c' b')
unfolding parse_loop
ran fuel c b ok c' b' h = elim (Option-cases (round c.state c b)) [
  | inl e ↦ cc (sym (ap (λ o. after_round o (parse_loop fuel)) e) ∙ h)
  | inr (r, e) ↦ (r, e, sym (ap (λ o. after_round o (parse_loop fuel)) e) ∙ h)
]

-- In the state `Headers` of a request that is neither GET nor POST, a run of the loop of `parseRequest`
-- that returns, with any fuel and on any buffer, is still in the state `Headers` and keeps the method.
pub other_methods_unfinished :
    (fuel : ℕ) (c : HttpContext) (b : Buffer) (ok : Bool) (c' : HttpContext) (b' : Buffer)
    → c.state ≡ headers
    → IsOther c.req.method
    → parse_loop fuel c b ≡ returned ok c' b'
    → (c'.state ≡ headers) × (c'.req.method ≡ c.req.method)
unfolding parse_loop
other_methods_unfinished zero c b ok c' b' s other h = cc
other_methods_unfinished (suc fuel) c b ok c' b' s other h =
    let (r, e, h') = ran fuel c b ok c' b' h in
    let e' : header_round c b ≡ some r = unfold round in (sym (ap (λ st. round st c b) s) ∙ e) in
    let (s', m) = header_round-other c b r s other e' in
    elim (Bool-cases r.more) [
      | inl more ↦
          let (s'', m') =
            other_methods_unfinished fuel r.context r.buffer ok c' b' s' (rw m other)
              (ground (arith, h', more)) in
          (s'', m' ∙ m)
      | inr done ↦ ground (arith, h', done)
    ]

set_method-twice : (m : Text) (r : HttpRequest) → r.method ≢ invalid → set_method m r ≡ none
unfolding set_method
set_method-twice m r n = ground arith

List-cases : (s : Text) → (s ≡ []) ⊎ ((c : ℕ) × (cs : Text) × (s ≡ c ∷ cs))
List-cases [] = inl refl
List-cases (c ∷ cs) = inr (c, cs, refl)

process_twice :
    (line : Text) (req r : HttpRequest)
    → req.method ≡ invalid
    → process_request_line line req ≡ some (false, r)
    → r.method ≢ invalid
    → process_request_line line r ≡ none
unfolding process_request_line
process_twice line req r m h n = elim (List-cases (split_at b' ' line).1) [
  | inl e ↦ absurd (n (ground (arith, h, e, m)))
  | inr (c, target, e) ↦ rw (process_request_line, e) (rw (set_method-twice _ r n))
]

rejected_at :
    (c : HttpContext) (b : Buffer) (r : Round) (p : ℕ)
    → c.state ≡ request_line
    → c.req.method ≡ invalid
    → find_crlf b ≡ some p
    → line_round c b ≡ some r
    → r.valid ≡ false
    → r.context.req.method ≢ invalid
    → (r.buffer ≡ b)
      × (r.context.state ≡ request_line)
      × (r.more ≡ false)
      × (line_round r.context b ≡ none)
unfolding line_round
rejected_at c b r p s m e h bad n =
    let line : Text = range b b.reader p in
    elim (Option-cases (process_request_line line c.req)) [
      | inl e' ↦ absurd (ground arith)
      | inr ((true, q), e') ↦ elim (Option-cases (retrieve_until (add_size p 2) b)) [
        | inl e'' ↦ absurd (ground arith)
        | inr (b', e'') ↦ absurd (ground arith)
      ]
      | inr ((false, q), e') ↦
          let to : r
              ≡ record { valid = false; more = false; context = record c { req = q }; buffer = b } =
            ground arith in
          let n' : q.method ≢ invalid = rw to at n in
          rw to (refl, s, refl, rw (e, line_round) (rw (process_twice line c.req q m e' n')))
    ]

line_round-rejected :
    (c : HttpContext) (b : Buffer) (r : Round)
    → c.state ≡ request_line
    → c.req.method ≡ invalid
    → line_round c b ≡ some r
    → r.valid ≡ false
    → r.context.req.method ≢ invalid
    → (r.buffer ≡ b)
      × (r.context.state ≡ request_line)
      × (r.more ≡ false)
      × (line_round r.context b ≡ none)
unfolding line_round
line_round-rejected c b r s m h bad n = elim (Option-cases (find_crlf b)) [
  | inl e ↦ absurd (ground arith)
  | inr (p, e) ↦ let line : Text = range b b.reader p in rejected_at c b r p s m e h bad n
]

one_round :
    (fuel : ℕ) (c : HttpContext) (b : Buffer)
    → c.state ≡ request_line
    → ((r : Round)
        → line_round c b ≡ some r
        → r.more ≡ false
        → parse_loop (suc fuel) c b ≡ returned r.valid r.context r.buffer)
      × (line_round c b ≡ none → parse_loop (suc fuel) c b ≡ aborted)
unfolding parse_loop round
one_round fuel c b s = (λ r e done. simp (s, e, done), λ e. simp (s, e))

-- In a context that waits for the first line and has no method, a line that the parser rejects after it
-- has stored a method makes `parseRequest` return false and stays in the buffer, and the next call
-- fails the assert of `setMethod`.
pub rejected_line_aborts :
    (c : HttpContext) (b : Buffer) (r : Round)
    → c.state ≡ request_line
    → c.req.method ≡ invalid
    → line_round c b ≡ some r
    → r.valid ≡ false
    → r.context.req.method ≢ invalid
    → (parse_request c b ≡ some (false, r.context, b)) × (parse_request r.context b ≡ none)
unfolding parse_request
rejected_line_aborts c b r s m h bad n =
    let (same, s', done, again) = line_round-rejected c b r s m h bad n in
    let fuel : (readable_bytes b + 2) ≡ suc (readable_bytes b + 1) = omega arith in
    rw
      (
        fuel,
        (one_round (readable_bytes b + 1) c b s).0 r h done,
        same,
        bad,
        (one_round (readable_bytes b + 1) r.context b s').1 again,
      )
      (refl, refl)
