-- ===== src/Net/Connection/Drain.antt =====
-- The write event of a connection: bytes go from the output buffer to the kernel in order.
use xjblg.Base.{
  ℕ, ◌≤◌, ◌<◌, ◌≡◌, refl, sym, ap, ◌∙◌, inl, inr, Bool, true, false, ◌&&◌, some, ◌++◌, arith,
  length, take, drop, take-append-drop, ltb, ==_iff, ◌==◌, Bool-cases,
}
use mathlib.Core.List.{append_assoc}
use xjblg.Net.Buffer.{Buffer, readable_bytes}
use xjblg.Net.Buffer.Inv.{IsValid, contents}
use xjblg.Net.Buffer.Consume.{readable_bytes-contents, retrieve_lem}
use xjblg.Net.Connection.{
  State, disconnected, connecting, connected, disconnecting, Conn, Wrote, taken, is_disconnecting,
  shutdown_in_loop, handle_write,
}
use xjblg.Net.Connection.Stream.{IsSound, is_open, accepted, waiting}

leaving : (s : State) → is_disconnecting s ≡ true → is_open s ≡ false
leaving disconnecting h = refl
leaving disconnected h = refl
leaving connecting h = cc
leaving connected h = cc

contents-none : (b : Buffer) → IsValid b → (readable_bytes b == 0) ≡ true → length (contents b) ≡ 0
contents-none b v h = sym (readable_bytes-contents b v) ∙ (==_iff _ _).0 h

contents-more : (b : Buffer) → IsValid b → (readable_bytes b == 0) ≡ false → 0 < length (contents b)
contents-more b v h = ground (arith, readable_bytes-contents b v)

and-first : (a b : Bool) → (a && b) ≡ true → a ≡ true
and-first true b h = refl
and-first false b h = cc

-- What an event of the loop leaves: the bytes and the state as they were.
pub record Keeps (c c' : Conn) : Type 0 where
  pub sound : IsSound c'
  pub bytes : accepted c' ≡ accepted c
  pub state : c'.state ≡ c.state

module _ (c : Conn) (v : IsSound c) (writing : c.writes ≡ true) where
  still_open : c.write_shut ≡ true → ⊥
  still_open h = absurd (omega (arith, v.idle writing, (v.shut h).0))

  module _ (n : ℕ) (out : Buffer) (ov : IsValid out)
      (rest : contents out ≡ drop n (contents c.output)) where
    wire_order :
        (c.wire ++ take n (contents c.output)) ++ contents out ≡ c.wire ++ contents c.output
    wire_order =
        ap (λ ds. (c.wire ++ take n (contents c.output)) ++ ds) rest
        ∙ append_assoc c.wire (take n (contents c.output)) (drop n (contents c.output))
        ∙ ap (◌++◌ c.wire) (take-append-drop n (contents c.output))

    some_left :
        0 < length (contents out)
        → Keeps c (record c { output = out; wire = c.wire ++ take n (contents c.output) })
    some_left more = record {
      sound = record {
        output_valid = ov;
        pending = λ _ _. writing;
        idle = λ _. more;
        shut = λ h. absurd (still_open h);
      };
      bytes = wire_order;
      state = refl;
    }

    none_left :
        (s : Bool)
        → (s ≡ true → is_open c.state ≡ false)
        → length (contents out) ≡ 0
        → Keeps c (record c {
          output = out;
          wire = c.wire ++ take n (contents c.output);
          writes = false;
          added = true;
          write_shut = s;
        })
    none_left s gone zero = record {
      sound = record {
        output_valid = ov;
        pending = λ _ h. absurd (omega (arith, h, zero));
        idle = λ h. cc;
        shut = λ h. (zero, gone h);
      };
      bytes = wire_order;
      state = refl;
    }

-- On a sound connection, when the kernel takes no more than the bytes that wait, the write event
-- succeeds: what was accepted to be sent is the same bytes in the same order, the state is the same,
-- and the connection is sound, so the write side is shut only when no byte waits.
pub handle_write_lem :
    (answer : Wrote) (c : Conn)
    → IsSound c
    → taken answer ≤ waiting c
    → (c' : Conn) × (handle_write answer c ≡ some c') × Keeps c c'
unfolding handle_write shutdown_in_loop
handle_write_lem answer c v within = elim (Bool-cases (c.writes && ltb 0 (taken answer))) [
  | inr quiet ↦ (c, rw (quiet) refl, record { sound = v; bytes = refl; state = refl })
  | inl busy ↦
      let wr = and-first c.writes (ltb 0 (taken answer)) busy in
      let n = taken answer in
      let (out, got, ov, rest) = retrieve_lem c.output n v.output_valid within in
      elim (Bool-cases (readable_bytes out == 0)) [
        | inr more ↦ (
          record c { output = out; wire = c.wire ++ take n (contents c.output) },
          rw (busy, got, more),
          some_left c v wr n out ov rest (contents-more out ov more),
        )
        | inl zero ↦ elim (Bool-cases (is_disconnecting c.state)) [
          | inl going ↦ (
            record c {
              output = out;
              wire = c.wire ++ take n (contents c.output);
              writes = false;
              added = true;
              write_shut = true;
            },
            rw (busy, got, zero, going),
            none_left c v wr n out ov rest true (λ _. leaving c.state going)
                (contents-none out ov zero),
          )
          | inr staying ↦ (
            record c {
              output = out;
              wire = c.wire ++ take n (contents c.output);
              writes = false;
              added = true;
            },
            rw (busy, got, zero, staying),
            none_left c v wr n out ov rest c.write_shut (λ h. absurd (still_open c v wr h))
                (contents-none out ov zero),
          )
        ]
      ]
]
