-- ===== src/Http/Progress.antt =====
-- The loop of `parseRequest` takes bytes out in every round that goes on, so it ends.
use xjblg.Base.{
  ℕ, zero, suc, ◌+◌, ◌≤◌, ◌<◌, ◌≡◌, ◌≢◌, ap, inl, inr, true, some, arith, length, length-drop,
  Option-cases, Bool-cases, >>=-eq-some, ltb,
}
use xjblg.Base.Text.{stoi_size}
use xjblg.Net.Buffer.{Buffer, find_crlf, readable_bytes}
use xjblg.Net.Buffer.Inv.{IsValid, contents}
use xjblg.Net.Buffer.Consume.{readable_bytes-contents, retrieve_all-IsValid}
use xjblg.Net.Buffer.Lines.{found_line}
use xjblg.Http.Request.{get_header}
use xjblg.Http.Context.{
  HttpContext, ParseState, request_line, headers, body, got_all, Round, content_length, line_round,
  header_round, body_round, round, out_of_fuel, outcome, parse_loop, parse_request,
}

-- A round keeps the buffer valid, and takes two bytes at least if the loop goes on.
record Shrinks (b : Buffer) (r : Round) : Type 0 where
  valid : IsValid r.buffer
  fewer : r.more ≡ true → length (contents r.buffer) + 2 ≤ length (contents b)

line_round-Shrinks :
    (c : HttpContext) (b : Buffer) (r : Round) → IsValid b → line_round c b ≡ some r → Shrinks b r
unfolding line_round
line_round-Shrinks c b r v h = elim (Option-cases (find_crlf b)) [
  | inl e ↦ record { valid = ground arith; fewer = ground arith }
  | inr (p, e) ↦
      let (k, b', at_k, fits, text, got, v', rest) = found_line b p v e in
      let left : length (contents b') + 2 ≤ length (contents b) =
        omega (arith, ap length rest, length-drop (k + 2) (contents b)) in
      record { valid = ground (arith, got, v'); fewer = ground (arith, got, left) }
]

header_round-Shrinks :
    (c : HttpContext) (b : Buffer) (r : Round) → IsValid b → header_round c b ≡ some r → Shrinks b r
unfolding header_round
header_round-Shrinks c b r v h = elim (Option-cases (find_crlf b)) [
  | inl e ↦ record { valid = ground arith; fewer = ground arith }
  | inr (p, e) ↦
      let (k, b', at_k, fits, text, got, v', rest) = found_line b p v e in
      let left : length (contents b') + 2 ≤ length (contents b) =
        omega (arith, ap length rest, length-drop (k + 2) (contents b)) in
      record { valid = ground (arith, got, v'); fewer = ground (arith, got, left) }
]

body_round-Shrinks :
    (c : HttpContext) (b : Buffer) (r : Round) → IsValid b → body_round c b ≡ some r → Shrinks b r
unfolding body_round
body_round-Shrinks c b r v h =
    let (n, _, h') = >>=-eq-some (stoi_size (get_header content_length c.req)) _ h in
    elim (Bool-cases (ltb (readable_bytes b) n)) [
      | inl short ↦ record { valid = ground arith; fewer = ground arith }
      | inr enough ↦ record {
        valid = ground (arith, (retrieve_all-IsValid b v).0);
        fewer = ground arith;
      }
    ]

round-Shrinks :
    (s : ParseState) (c : HttpContext) (b : Buffer) (r : Round)
    → IsValid b
    → round s c b ≡ some r
    → Shrinks b r
unfolding round
round-Shrinks request_line c b r v h = line_round-Shrinks c b r v h
round-Shrinks headers c b r v h = header_round-Shrinks c b r v h
round-Shrinks body c b r v h = body_round-Shrinks c b r v h
round-Shrinks got_all c b r v h = record { valid = ground arith; fewer = ground arith }

-- Any two amounts of fuel that exceed the number of readable bytes give the same result.
parse_loop-fuel :
    (m n : ℕ) (c : HttpContext) (b : Buffer)
    → IsValid b
    → length (contents b) < m
    → length (contents b) < n
    → parse_loop m c b ≡ parse_loop n c b
unfolding parse_loop
parse_loop-fuel zero n c b v h k = absurd (omega arith)
parse_loop-fuel (suc m) zero c b v h k = absurd (omega arith)
parse_loop-fuel (suc m) (suc n) c b v h k = elim (Option-cases (round c.state c b)) [
  | inl e ↦ rw e
  | inr (r, e) ↦
      let s : Shrinks b r = round-Shrinks c.state c b r v e in
      elim (Bool-cases r.more) [
        | inl more ↦
            let fewer : length (contents r.buffer) + 2 ≤ length (contents b) = s.fewer more in
            rw (e, more)
              (parse_loop-fuel m n r.context r.buffer s.valid (omega arith) (omega arith))
        | inr done ↦ rw (e, done)
      ]
]

-- With more fuel than readable bytes, the fuel does not run out.
parse_loop_ends :
    (m : ℕ) (c : HttpContext) (b : Buffer)
    → IsValid b
    → length (contents b) < m
    → parse_loop m c b ≢ out_of_fuel
unfolding parse_loop
parse_loop_ends zero c b v h = absurd (omega arith)
parse_loop_ends (suc m) c b v h = elim (Option-cases (round c.state c b)) [
  | inl e ↦ rw e (λ q. cc)
  | inr (r, e) ↦
      let s : Shrinks b r = round-Shrinks c.state c b r v e in
      elim (Bool-cases r.more) [
        | inl more ↦
            let fewer : length (contents r.buffer) + 2 ≤ length (contents b) = s.fewer more in
            rw (e, more) (parse_loop_ends m r.context r.buffer s.valid (omega arith))
        | inr done ↦ rw (e, done) (λ q. cc)
      ]
]

-- On a valid buffer the loop of `parseRequest` ends: with any fuel above the number of readable bytes it
-- returns or fails an assert and is not out of fuel, and its outcome is that of `parseRequest`.
pub parse_request-fuel :
    (n : ℕ) (c : HttpContext) (b : Buffer)
    → IsValid b
    → readable_bytes b < n
    → (parse_loop n c b ≢ out_of_fuel) × (outcome (parse_loop n c b) ≡ parse_request c b)
unfolding parse_request
parse_request-fuel n c b v h = (
  parse_loop_ends n c b v (omega (arith, readable_bytes-contents b v)),
  ap outcome (
      parse_loop-fuel n (readable_bytes b + 2) c b v (omega (arith, readable_bytes-contents b v))
        (omega (arith, readable_bytes-contents b v))),
)
