-- ===== src/Chat/Frames.antt =====
-- Messages that are framed, sent one behind another, and taken apart again by `onMessage`.
use xjblg.Base.{
  ℕ, ◌+◌, ◌-◌, ◌≤◌, ◌<◌, ◌≡◌, refl, sym, ap, ◌∙◌, Bool, true, false, some, List, [], ◌∷◌, ◌++◌,
  arith, length, take, drop, length-append, leb, le→leb, take-take,
}
use xjblg.Base.Text.{Text}
use xjblg.Base.Words.{add_size}
use xjblg.Net.Buffer.{Buffer, readable_bytes, range}
use xjblg.Net.Buffer.Inv.{IsValid, contents, length-contents}
use xjblg.Net.Buffer.Consume.{readable_bytes-contents, retrieve_lem}
use xjblg.Chat.Json.{Items, parse_json}
use xjblg.Chat.Context.{
  ChatContext, header_length, host_to_network, network_to_host, bad_length, parsed_round,
  frame_round,
}

network-host :
    (n : ℕ) (rest : List ℕ) → n < 4294967296 → network_to_host (host_to_network n ++ rest) ≡ n
unfolding network_to_host host_to_network
network-host n rest h = omega arith

-- The bytes of a framed message.
abbrev pub framed : Text → List ℕ
framed msg = host_to_network (length msg) ++ msg

take-length_append : (xs ys : Text) → take (length xs) (xs ++ ys) ≡ xs
take-length_append [] ys = refl
take-length_append (x ∷ xs) ys = ap (◌∷◌ x) (take-length_append xs ys)

drop-length_append : (xs ys : Text) → drop (length xs) (xs ++ ys) ≡ ys
drop-length_append [] ys = refl
drop-length_append (x ∷ xs) ys = drop-length_append xs ys

-- The first readable bytes, as `peek` shows them.
range-front :
    (b : Buffer) (k : ℕ)
    → IsValid b
    → k ≤ length (contents b)
    → range b b.reader (add_size b.reader k) ≡ take k (contents b)
range-front b k v h =
    ap (λ n. take n (drop b.reader b.bytes))
      (let e : add_size b.reader k - b.reader ≡ k =
          omega (arith, v.ordered, v.within, v.small, length-contents b v) in
        e)
    ∙ sym (
        take-take k (b.writer - b.reader) (drop b.reader b.bytes)
          (omega (arith, length-contents b v)))

-- One round over a framed message.
pub frame_round-framed :
    (c : ChatContext) (b : Buffer) (msg rest : Text) (result : Bool × Items)
    → IsValid b
    → contents b ≡ framed msg ++ rest
    → length msg ≤ 65536
    → parse_json msg c.items ≡ some result
    → (b' : Buffer) × (frame_round c b
        ≡ some (parsed_round result (record c { size = length msg }) b'))
      × IsValid b'
      × (contents b' ≡ rest)
unfolding frame_round host_to_network network_to_host
frame_round-framed c b msg rest result v e small parsed =
    let len : length (contents b) ≡ 4 + length msg + length rest =
      ap length e ∙ omega (arith, length-append msg rest) in
    let (b1, got1, v1, rest1) = retrieve_lem b 4 v (omega arith) in
    let e1 : contents b1 ≡ msg ++ rest = rest1 ∙ ap (drop 4) e in
    let (b2, got2, v2, rest2) =
      retrieve_lem b1 (length msg) v1 (omega (arith, ap length e1, length-append msg rest)) in
    let n_is : network_to_host (range b b.reader (add_size b.reader header_length)) ≡ length msg =
      ap network_to_host (range-front b 4 v (omega arith) ∙ ap (take 4) e)
      ∙ network-host (length msg) [] (omega arith) in
    let good : bad_length (length msg) ≡ false = ground arith in
    let whole : leb (add_size header_length (length msg)) (readable_bytes b) ≡ true =
      le→leb _ _ (omega (arith, readable_bytes-contents b v)) in
    let msg_is : range b1 b1.reader (add_size b1.reader (length msg)) ≡ msg =
      range-front b1 (length msg) v1 (omega (arith, ap length e1, length-append msg rest))
      ∙ ap (take (length msg)) e1
      ∙ take-length_append msg rest in
    (
      b2,
      rw (n_is, good, whole, got1) (rw (msg_is, got2, parsed)),
      v2,
      rest2 ∙ ap (drop (length msg)) e1 ∙ drop-length_append msg rest,
    )
