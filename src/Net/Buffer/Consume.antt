-- ===== src/Net/Buffer/Consume.antt =====
-- The operations of Buffer that take bytes out, put bytes in front, or move them to new storage.
use xjblg.Base.{
  ◌^◌, ℕ, ◌+◌, ◌-◌, ◌≤◌, ◌<◌, ◌≡◌, refl, sym, ◌∙◌, ap, ◌≢◌, ◌⊎◌, inl, inr, none, some, List, [],
  ◌++◌, arith, length, take, drop, overwrite, replicate, length-drop, length-overwrite,
  length-replicate, drop-take, drop-all, drop-drop, take-take, drop-overwrite, take-overwrite_front,
  ltb, Bool-cases, le→leb,
}
use xjblg.Base.Words.{as_int, add_size, sub_size}
use native.Mathlib.Decide.{dec_le, ℕ_discrete}
use xjblg.Net.Buffer.{
  Buffer, initial_size, max_size, readable_bytes, range, make, retrieve, retrieve_until,
  retrieve_all, retrieve_as_string, prepend, shrink, to_string_piece, get_all,
}
use xjblg.Net.Buffer.Inv.{IsValid, contents, length-contents, ensure_writable_bytes_lem, append_lem}

pub readable_bytes-contents : (b : Buffer) → IsValid b → readable_bytes b ≡ length (contents b)
readable_bytes-contents b v = omega (arith, length-contents b v, v.ordered, v.within, v.small)

abbrev pub fresh : Buffer
fresh = record { bytes = replicate 1032 0; reader = 8; writer = 8 }

pub fresh-IsValid : IsValid fresh
fresh-IsValid = record {
  ordered = omega arith;
  within = omega (arith, length-replicate 1032 (let z : ℕ = 0 in z));
  room = omega (arith, length-replicate 1032 (let z : ℕ = 0 in z));
  small = omega (arith, length-replicate 1032 (let z : ℕ = 0 in z));
}

-- The constructor, called with an initial size, either gets the default size and gives a valid, empty
-- buffer, or gets another one and its assert fails.
pub make_outcome :
    (n : ℕ)
    → ((n ≡ initial_size) × (b : Buffer) × (make n ≡ some b) × IsValid b × (contents b ≡ []))
      ⊎ ((n ≢ initial_size) × (make n ≡ none))
unfolding make
make_outcome n = elim (ℕ_discrete n initial_size) [
  | yes e ↦ inl (e, fresh, ground arith, fresh-IsValid, refl)
  | no ne ↦ inr (ne, ground arith)
]

module _ (b : Buffer) (len : ℕ) (v : IsValid b) where
  contents-advanced :
      b.reader + len ≤ b.writer
      → take (b.writer - (b.reader + len)) (drop (b.reader + len) b.bytes) ≡ drop len (contents b)
  contents-advanced h =
      ap (take (b.writer - (b.reader + len)))
        (sym (drop-drop len b.reader (b.reader + len) b.bytes (omega arith)))
      ∙ ap (λ n. take n (drop len (drop b.reader b.bytes)))
          (let e : b.writer - (b.reader + len) ≡ b.writer - b.reader - len = omega arith in e)
      ∙ sym (drop-take len (b.writer - b.reader) (drop b.reader b.bytes))

  -- `retrieve(len)` drops the first `len` readable bytes where there are so many.
  pub retrieve_lem :
      len ≤ length (contents b)
      → (b' : Buffer) × (retrieve len b ≡ some b')
        × IsValid b'
        × (contents b' ≡ drop len (contents b))
  unfolding retrieve retrieve_all
  retrieve_lem h = elim (Bool-cases (ltb len (readable_bytes b))) [
    | inl part ↦ (
      record b { reader = b.reader + len },
      ground (arith, v.ordered, v.within, v.small, length-contents b v),
      record {
        ordered = ground (arith, v.ordered, v.within, v.small, length-contents b v);
        within = v.within;
        room = v.room;
        small = v.small;
      },
      contents-advanced (ground (arith, v.ordered, v.within, v.small, length-contents b v)),
    )
    | inr all ↦ (
      retrieve_all b,
      ground (arith, v.ordered, v.within, v.small, length-contents b v),
      record { ordered = omega arith; within = v.room; room = v.room; small = v.small },
      sym (
          drop-all len (contents b)
            (ground (arith, v.ordered, v.within, v.small, length-contents b v))),
    )
  ]

  -- On a valid buffer, `retrieve(len)` either finds `len` readable bytes, drops exactly these and
  -- leaves a valid buffer, or there are fewer and its assert fails.
  pub retrieve_outcome :
      ((len ≤ length (contents b))
        × (b' : Buffer) × (retrieve len b ≡ some b')
        × IsValid b'
        × (contents b' ≡ drop len (contents b)))
      ⊎ ((length (contents b) < len) × (retrieve len b ≡ none))
  unfolding retrieve
  retrieve_outcome = elim (dec_le len (length (contents b))) [
    | yes h ↦ let (b', got, v', rest) = retrieve_lem h in inl (h, b', got, v', rest)
    | no h ↦ inr (omega arith, ground (arith, v.ordered, v.within, v.small, length-contents b v))
  ]

  -- On a valid buffer with `len` readable bytes, `retrieveAsString(len)` returns the first `len` of
  -- them, drops exactly these, and leaves a valid buffer.
  pub retrieve_as_string_lem :
      len ≤ length (contents b)
      → (b' : Buffer) × (retrieve_as_string len b ≡ some (take len (contents b), b'))
        × IsValid b'
        × (contents b' ≡ drop len (contents b))
  unfolding retrieve_as_string
  retrieve_as_string_lem h =
      let (b', got, v', rest) = retrieve_lem h in
      (
        b',
        rw (read, got) (ground (arith, v.ordered, v.within, v.small, length-contents b v)),
        v',
        rest,
      )
    where
      read : range b b.reader (add_size b.reader len) ≡ take len (contents b)
      read =
          ap (λ n. take n (drop b.reader b.bytes))
            (let e : add_size b.reader len - b.reader ≡ len =
                omega (arith, v.ordered, v.within, v.small, length-contents b v) in
              e)
          ∙ sym (
              take-take len (b.writer - b.reader) (drop b.reader b.bytes)
                (omega (arith, length-contents b v)))

module _ (b : Buffer) (bs : List ℕ) (v : IsValid b) where
  -- `prepend` puts the data in front of the readable bytes where it fits before them.
  pub prepend_lem :
      length bs ≤ b.reader
      → (b' : Buffer) × (prepend bs b ≡ some b') × IsValid b' × (contents b' ≡ bs ++ contents b)
  unfolding prepend
  prepend_lem h = (
    record b { bytes = overwrite b.bytes (b.reader - length bs) bs; reader = b.reader - length bs },
    (let e : sub_size b.reader (length bs) ≡ b.reader - length bs =
          omega (arith, v.ordered, v.within, v.small) in
        rw (le→leb (length bs) b.reader h, e)),
    record {
      ordered = omega (arith, v.ordered);
      within = omega (arith, v.within, length-overwrite b.bytes (b.reader - length bs) bs);
      room = omega (arith, v.room, length-overwrite b.bytes (b.reader - length bs) bs);
      small = omega (arith, v.small, length-overwrite b.bytes (b.reader - length bs) bs);
    },
    ap (take (b.writer - (b.reader - length bs))) (
          drop-overwrite (b.reader - length bs) (b.reader - length bs) b.bytes bs (omega arith)
          ∙ ap (λ n. overwrite (drop (b.reader - length bs) b.bytes) n bs)
              (let e : b.reader - length bs - (b.reader - length bs) ≡ 0 = omega arith in e))
        ∙ take-overwrite_front (b.writer - b.reader) (b.writer - (b.reader - length bs))
            (drop (b.reader - length bs) b.bytes) bs (omega (arith, v.ordered))
            (omega (arith, v.ordered, v.within, length-drop (b.reader - length bs) b.bytes))
        ∙ ap (λ cs. bs ++ take (b.writer - b.reader) cs)
            (drop-drop (length bs) (b.reader - length bs) b.reader b.bytes (omega arith)),
  )

  -- On a valid buffer, `prepend` either has room before the readable bytes, puts the data in front of
  -- them and leaves a valid buffer, or the data is longer than that and its assert fails.
  pub prepend_outcome :
      ((length bs ≤ b.reader)
        × (b' : Buffer) × (prepend bs b ≡ some b')
        × IsValid b'
        × (contents b' ≡ bs ++ contents b))
      ⊎ ((b.reader < length bs) × (prepend bs b ≡ none))
  unfolding prepend
  prepend_outcome = elim (dec_le (length bs) b.reader) [
    | yes h ↦ let (b', got, v', rest) = prepend_lem h in inl (h, b', got, v', rest)
    | no h ↦ inr (omega arith, ground arith)
  ]

-- `getAllStringFromBuffer` is the readable bytes.
pub get_all-contents : (b : Buffer) → IsValid b → get_all b ≡ contents b
unfolding get_all
get_all-contents b v =
    ap (λ n. take n (drop b.reader b.bytes))
      (let e : add_size b.reader (readable_bytes b) - b.reader ≡ b.writer - b.reader =
          omega (arith, v.ordered, v.within, v.small) in
        e)

-- Below 2^31 readable bytes, `toStringPiece` is all of them.
to_string_piece_lem :
    (b : Buffer) → IsValid b → length (contents b) < 2 ^ 31 → to_string_piece b ≡ some (get_all b)
unfolding to_string_piece get_all
to_string_piece_lem b v h =
    let e : as_int (readable_bytes b) ≡ readable_bytes b =
      ground (arith, readable_bytes-contents b v, h) in
    rw (e, le→leb (readable_bytes b) (readable_bytes b) (omega arith)) refl

-- On a valid buffer with less than 2^31 readable bytes, when the readable bytes, the reserve and the
-- bytes kept free in front fit the size limit, `shrink` returns, and leaves a valid buffer with the
-- same readable bytes.
pub shrink_lem :
    (b : Buffer) (reserve : ℕ)
    → IsValid b
    → length (contents b) + reserve + 8 ≤ max_size
    → length (contents b) < 2 ^ 31
    → (b' : Buffer) × (shrink reserve b ≡ some b') × IsValid b' × (contents b' ≡ contents b)
unfolding shrink
shrink_lem b reserve v h few =
    let total : ℕ = add_size (readable_bytes b) reserve in
    let e : total ≡ length (contents b) + reserve = omega (arith, readable_bytes-contents b v) in
    let (f, made, vf, same, free) =
      ensure_writable_bytes_lem fresh total fresh-IsValid (omega arith) in
    let (b', got, v', cs) =
      append_lem f (get_all b) vf (omega (arith, ap length (get_all-contents b v), vf.small)) in
    (
      b',
      rw (made, to_string_piece_lem b v few) got,
      v',
      cs ∙ ap (λ ds. ds ++ get_all b) same ∙ get_all-contents b v,
    )

-- `retrieveUntil(end)` drops the readable bytes before `end`.
pub retrieve_until_lem :
    (b : Buffer) (last k : ℕ)
    → IsValid b
    → last ≡ b.reader + k
    → k ≤ length (contents b)
    → (b' : Buffer) × (retrieve_until last b ≡ some b')
      × IsValid b'
      × (contents b' ≡ drop k (contents b))
unfolding retrieve_until
retrieve_until_lem b last k v e h =
    let (b', got, v', rest) = retrieve_lem b k v h in
    let len : length (contents b) ≡ b.writer - b.reader = length-contents b v in
    let e' : sub_size last b.reader ≡ k = omega (arith, v.ordered, v.within, v.small) in
    (
      b',
      rw (le→leb b.reader last (omega arith), le→leb last b.writer (omega (arith, v.ordered)), e')
          got,
      v',
      rest,
    )

-- `retrieveAll` empties the buffer.
pub retrieve_all-IsValid :
    (b : Buffer) → IsValid b → IsValid (retrieve_all b) × (contents (retrieve_all b) ≡ [])
unfolding retrieve_all
retrieve_all-IsValid b v =
    (record { ordered = omega arith; within = v.room; room = v.room; small = v.small }, refl)
