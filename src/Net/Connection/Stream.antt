-- ===== src/Net/Connection/Stream.antt =====
-- The bytes of a connection: what was sent is what the kernel has taken and then what waits in the
-- output buffer, in order.
use xjblg.Base.{
  ℕ, ◌+◌, ◌≤◌, ◌<◌, ◌≡◌, refl, sym, ap, ◌∙◌, inl, inr, Bool, true, false, not, ◌&&◌, some, List, [],
  ◌∷◌, ◌++◌, arith, length, take, drop, length-append, length-drop, take-append-drop, drop-all, ltb,
  lt→ltb, ==_iff, ◌⊎◌, ◌==◌, if◌then◌else◌, either, Bool-cases,
}
use native.Mathlib.Decide.{dec_lt}
use mathlib.Core.List.{append-nil, append_assoc}
use xjblg.Net.Buffer.{max_size, readable_bytes}
use xjblg.Net.Buffer.Inv.{IsValid, contents, append_lem}
use xjblg.Net.Buffer.Consume.{readable_bytes-contents}
use xjblg.Net.Connection.{
  State, disconnected, connecting, connected, disconnecting, Conn, Wrote, taken, is_connected,
  buffer_rest, send_in_loop, send,
}

-- Everything that was handed over to be sent, in order.
abbrev pub accepted : Conn → List ℕ
accepted c = c.wire ++ contents c.output

abbrev pub waiting : Conn → ℕ
waiting c = length (contents c.output)

abbrev pub is_open : State → Bool
is_open connecting = true
is_open connected = true
is_open _ = false

abbrev pub is_gone : State → Bool
is_gone disconnected = true
is_gone _ = false

connected_is_open : (s : State) → is_connected s ≡ true → is_open s ≡ true
connected_is_open connected h = refl
connected_is_open connecting h = cc
connected_is_open disconnecting h = cc
connected_is_open disconnected h = cc

pub record IsSound (c : Conn) : Type 0 where
  pub output_valid : IsValid c.output
  -- Until the connection is closed, waiting bytes have their write event.
  pub pending : is_gone c.state ≡ false → 0 < waiting c → c.writes ≡ true
  pub idle : c.writes ≡ true → 0 < waiting c
  -- The write side is shut only behind the last byte, and then nothing is sent any more.
  pub shut : c.write_shut ≡ true → (waiting c ≡ 0) × (is_open c.state ≡ false)

length-zero : (cs : List ℕ) → length cs ≡ 0 → cs ≡ []
length-zero [] h = refl
length-zero (c ∷ cs) h = absurd (omega arith)

-- What a call that hands over `bs` leaves.
pub record Accepts (bs : List ℕ) (c c' : Conn) : Type 0 where
  pub sound : IsSound c'
  pub bytes : accepted c' ≡ accepted c ++ bs
  pub state : c'.state ≡ c.state

in_order :
    (n : ℕ) (bs w o : List ℕ)
    → (n ≡ 0) ⊎ (length o ≡ 0)
    → (w ++ take n bs) ++ (o ++ drop n bs) ≡ (w ++ o) ++ bs
in_order n bs w o (inl e) =
    let t : take n bs ≡ [] = ap (λ m. take m bs) e in
    let d : drop n bs ≡ bs = ap (λ m. drop m bs) e in
    rw (t, d, append-nil w) (sym (append_assoc w o bs))
in_order n bs w o (inr e) =
    rw (length-zero o e, append-nil w)
      (append_assoc w (take n bs) (drop n bs) ∙ ap (◌++◌ w) (take-append-drop n bs))

not-ltb : (a b : ℕ) → b ≤ a → ltb a b ≡ false
not-ltb a b e = ground arith

module _ (n : ℕ) (bs : List ℕ) (c : Conn) (v : IsSound c) (up : is_connected c.state ≡ true) where
  not_shut : c.write_shut ≡ true → ⊥
  not_shut h = cc ((v.shut h).1, connected_is_open c.state up)

  buffer_rest-part :
      (n ≡ 0) ⊎ (waiting c ≡ 0)
      → n < length bs
      → c.output.writer + length bs ≤ max_size
      → (c' : Conn) × (buffer_rest n bs c ≡ some c') × Accepts bs c c'
  unfolding buffer_rest
  buffer_rest-part order part room =
      let (out, made, ov, cs) =
        append_lem c.output (drop n bs) v.output_valid (omega (arith, length-drop n bs)) in
      let more : 0 < length (contents out) =
        omega
          (arith, ap length cs, length-append (contents c.output) (drop n bs), length-drop n bs) in
      let written = record c { wire = c.wire ++ take n bs; output = out } in
      let order' =
        ap (λ ds. (c.wire ++ take n bs) ++ ds) cs
        ∙ in_order n bs c.wire (contents c.output) order in
      (
        if c.writes then written else record written { writes = true; added = true },
        rw (lt→ltb n (length bs) part, made),
        either (Accepts bs c) c.writes _ _
            (λ busy. record {
              sound = record {
                output_valid = ov;
                pending = λ _ _. busy;
                idle = λ _. more;
                shut = λ h. absurd (not_shut h);
              };
              bytes = order';
              state = refl;
            })
            (λ quiet. record {
              sound = record {
                output_valid = ov;
                pending = λ _ _. refl;
                idle = λ _. more;
                shut = λ h. absurd (not_shut h);
              };
              bytes = order';
              state = refl;
            }),
      )

  buffer_rest-all :
      (n ≡ 0) ⊎ (waiting c ≡ 0)
      → length bs ≤ n
      → (c' : Conn) × (buffer_rest n bs c ≡ some c') × Accepts bs c c'
  unfolding buffer_rest
  buffer_rest-all order all = (
    record c { wire = c.wire ++ take n bs },
    rw (not-ltb n (length bs) all),
    record {
      sound = record {
        output_valid = v.output_valid;
        pending = v.pending;
        idle = v.idle;
        shut = v.shut;
      };
      bytes =
          ap (λ ds. (c.wire ++ take n bs) ++ ds) (sym nothing_left)
          ∙ in_order n bs c.wire (contents c.output) order;
      state = refl;
    },
  )
    where
      nothing_left : contents c.output ++ drop n bs ≡ contents c.output
      nothing_left = rw (drop-all n bs all) (append-nil (contents c.output))

  buffer_rest_lem :
      (n ≡ 0) ⊎ (waiting c ≡ 0)
      → c.output.writer + length bs ≤ max_size
      → (c' : Conn) × (buffer_rest n bs c ≡ some c') × Accepts bs c c'
  buffer_rest_lem order room = elim (dec_lt n (length bs)) [
    | yes part ↦ buffer_rest-part order part room
    | no all ↦ buffer_rest-all order (omega arith)
  ]

first_write-order : (w : Bool) (r k : ℕ) → ((if not w && r == 0 then k else 0) ≡ 0) ⊎ (r ≡ 0)
first_write-order true r k = inl refl
first_write-order false r k = elim (Bool-cases (r == 0)) [
  | inl e ↦ inr ((==_iff r 0).0 e)
  | inr e ↦ inl (rw e refl)
]

-- On a sound connection that is up, with the output buffer's write index and the length of the data
-- together inside the size limit, `send` succeeds whatever the kernel answers to its write. It leaves
-- the connection sound, in its state, and what the kernel has taken followed by what waits is what it
-- was, followed by the data.
pub send_lem :
    (bs : List ℕ) (answer : Wrote) (c : Conn)
    → IsSound c
    → is_connected c.state ≡ true
    → c.output.writer + length bs ≤ max_size
    → (c' : Conn) × (send bs answer c ≡ some c') × Accepts bs c c'
unfolding send send_in_loop
send_lem bs answer c v up room =
    let n = if not c.writes && readable_bytes c.output == 0 then taken answer else 0 in
    let (c', made, good) =
      buffer_rest_lem n bs c v up
        (elim (first_write-order c.writes (readable_bytes c.output) (taken answer)) [
          | inl e ↦ inl e
          | inr e ↦ inr (sym (readable_bytes-contents c.output v.output_valid) ∙ e)
        ])
        room in
    (c', rw (up, made), good)
