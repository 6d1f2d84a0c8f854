-- ===== src/Net/Buffer/Inv.antt =====
-- The representation invariant of Buffer, and the operations that make room, as changes of the
-- readable bytes.
use xjblg.Base.{
  sym, some-injective, ◌⊎◌, ℕ, ◌+◌, ◌-◌, ◌≤◌, ◌<◌, ◌≡◌, refl, ◌∙◌, ap, inl, inr, some, List, ◌++◌,
  arith, length, take, drop, replicate, overwrite, length-append, length-take, length-drop,
  length-replicate, length-overwrite, take-all, drop-append, take-append, drop-overwrite,
  take-overwrite, take-overwrite_front, ltb, Bool-cases,
}
use mathlib.Core.List.{append-nil}
use xjblg.Base.Words.{add_size}
use xjblg.Net.Buffer.{
  Buffer, cheap_prepend, max_size, writable_bytes, prependable_bytes, range, make_space,
  ensure_writable_bytes, append,
}

pub record IsValid (b : Buffer) : Type 0 where
  pub ordered : b.reader ≤ b.writer
  pub within : b.writer ≤ length b.bytes
  pub room : cheap_prepend ≤ length b.bytes
  pub small : length b.bytes ≤ max_size

-- The bytes that a reader sees.
abbrev pub contents : Buffer → List ℕ
contents b = range b b.reader b.writer

pub length-contents : (b : Buffer) → IsValid b → length (contents b) ≡ b.writer - b.reader
length-contents b v =
    omega (
      arith,
      length-take (b.writer - b.reader) (drop b.reader b.bytes),
      length-drop b.reader b.bytes,
    )

-- Storage that is only extended shows the same bytes.
range-append :
    (r w : ℕ) (bs cs : List ℕ)
    → r ≤ w
    → w ≤ length bs
    → take (w - r) (drop r (bs ++ cs)) ≡ take (w - r) (drop r bs)
range-append r w bs cs h k =
    ap (take (w - r)) (drop-append r bs cs (omega arith))
    ∙ take-append (w - r) (drop r bs) cs (omega (arith, length-drop r bs))

module _ (b : Buffer) (len : ℕ) (v : IsValid b) (lack : length b.bytes - b.writer < len) where
  abbrev grown : Buffer
  grown = record b {
    bytes = take (b.writer + len) b.bytes ++ replicate (b.writer + len - length b.bytes) 0;
  }

  grown-bytes : grown.bytes ≡ b.bytes ++ replicate (b.writer + len - length b.bytes) 0
  grown-bytes =
      ap (λ bs. bs ++ replicate (b.writer + len - length b.bytes) 0)
        (take-all (b.writer + len) b.bytes (omega arith))

  abbrev moved : Buffer
  moved = record {
    bytes = overwrite b.bytes cheap_prepend (contents b);
    reader = cheap_prepend;
    writer = b.writer - b.reader + cheap_prepend;
  }

  length-grown : length grown.bytes ≡ b.writer + len
  length-grown = omega (
    arith,
    ap length grown-bytes,
    length-append b.bytes (replicate (b.writer + len - length b.bytes) 0),
    length-replicate (b.writer + len - length b.bytes) (let z : ℕ = 0 in z),
  )

  contents-grown : contents grown ≡ contents b
  contents-grown =
      ap (λ bs. take (b.writer - b.reader) (drop b.reader bs)) grown-bytes
      ∙ range-append b.reader b.writer b.bytes _ v.ordered v.within

  contents-moved :
      b.writer - b.reader + cheap_prepend ≤ length b.bytes → contents moved ≡ contents b
  contents-moved fits =
      ap (take (b.writer - b.reader + cheap_prepend - cheap_prepend))
        (drop-overwrite cheap_prepend cheap_prepend b.bytes (contents b) (omega arith))
      ∙ take-overwrite_front 0 (b.writer - b.reader + cheap_prepend - cheap_prepend)
          (drop cheap_prepend b.bytes) (contents b) (omega (arith, length-contents b v))
          (omega (arith, length-contents b v, length-drop cheap_prepend b.bytes))
      ∙ append-nil (contents b)

  length-moved : length moved.bytes ≡ length b.bytes
  length-moved = length-overwrite b.bytes cheap_prepend (contents b)

  -- On a valid buffer where less than `len` bytes are writable and the write index may grow by `len`,
  -- `makeSpace(len)` returns, keeps the readable bytes, leaves `len` bytes writable and a valid buffer,
  -- and does not move the write index up.
  pub make_space_lem :
      b.writer + len ≤ max_size
      → (b' : Buffer) × (make_space len b ≡ some b')
        × IsValid b'
        × (contents b' ≡ contents b)
        × (b'.writer + len ≤ length b'.bytes)
        × (b'.writer ≤ b.writer)
  unfolding make_space
  make_space_lem fits =
      elim (Bool-cases
        (ltb (add_size (writable_bytes b) (prependable_bytes b)) (add_size len cheap_prepend))) [
          | inl short ↦ (
            grown,
            ground arith,
            record {
              ordered = v.ordered;
              within = omega (arith, length-grown);
              room = omega (arith, v.within, v.room, length-grown);
              small = omega (arith, length-grown);
            },
            contents-grown,
            omega (arith, length-grown),
            omega arith,
          )
          | inr enough ↦ (
            moved,
            ground arith,
            record {
              ordered = omega arith;
              within = ground (arith, length-moved);
              room = omega (arith, v.room, length-moved);
              small = omega (arith, v.small, length-moved);
            },
            contents-moved (ground arith),
            ground (arith, length-moved),
            ground arith,
          )
        ]

  -- The storage grows to the new write position, or keeps its size.
  pub make_space-length :
      b.writer + len ≤ max_size
      → (b' : Buffer) → make_space len b ≡ some b'
      → (length b'.bytes ≡ b.writer + len) ⊎ (length b'.bytes ≡ length b.bytes)
  unfolding make_space
  make_space-length fits b' h =
      elim (Bool-cases
        (ltb (add_size (writable_bytes b) (prependable_bytes b)) (add_size len cheap_prepend))) [
          | inl short ↦
              (let e : make_space len b ≡ some grown = ground arith in
                inl
                  (ap (λ (c : Buffer). length c.bytes) (some-injective (sym h ∙ e)) ∙ length-grown))
          | inr enough ↦
              (let e : make_space len b ≡ some moved = ground arith in
                inr
                  (ap (λ (c : Buffer). length c.bytes) (some-injective (sym h ∙ e)) ∙ length-moved))
        ]

-- On a valid buffer whose write index may grow by `len`, `ensureWritableBytes(len)` returns, keeps the
-- readable bytes, and leaves `len` bytes writable and a valid buffer.
pub ensure_writable_bytes_lem :
    (b : Buffer) (len : ℕ)
    → IsValid b
    → b.writer + len ≤ max_size
    → (b' : Buffer) × (ensure_writable_bytes len b ≡ some b')
      × IsValid b'
      × (contents b' ≡ contents b)
      × (b'.writer + len ≤ length b'.bytes)
unfolding ensure_writable_bytes
ensure_writable_bytes_lem b len v fits = elim (Bool-cases (ltb (writable_bytes b) len)) [
  | inl lack ↦
      let (b', made, v', same, free, _) = make_space_lem b len v (ground arith) fits in
      (b', rw (lack, made) (ground (arith, v'.within, v'.small)), v', same, free)
  | inr enough ↦ (b, ground arith, v, refl, ground arith)
]

module _ (b : Buffer) (bs : List ℕ) (v : IsValid b)
    (free : b.writer + length bs ≤ length b.bytes) where
  -- The buffer after `bs` is copied to the write position and counted as written.
  abbrev pub written : Buffer
  written = record b { bytes = overwrite b.bytes b.writer bs; writer = b.writer + length bs }

  pub written-IsValid : IsValid written
  written-IsValid = record {
    ordered = omega (arith, v.ordered);
    within = omega (arith, free, length-overwrite b.bytes b.writer bs);
    room = omega (arith, v.room, length-overwrite b.bytes b.writer bs);
    small = omega (arith, v.small, length-overwrite b.bytes b.writer bs);
  }

  pub contents-written : contents written ≡ contents b ++ bs
  contents-written =
      ap (take (b.writer + length bs - b.reader))
        (drop-overwrite b.reader b.writer b.bytes bs v.ordered)
      ∙ take-overwrite (b.writer - b.reader) (b.writer + length bs - b.reader)
          (drop b.reader b.bytes) bs (omega (arith, v.ordered))
          (omega (arith, v.ordered, length-drop b.reader b.bytes))

-- On a valid buffer whose write index may grow by the length of the data, `append` returns, adds exactly
-- the data behind the readable bytes, and leaves a valid buffer.
pub append_lem :
    (b : Buffer) (bs : List ℕ)
    → IsValid b
    → b.writer + length bs ≤ max_size
    → (b' : Buffer) × (append bs b ≡ some b') × IsValid b' × (contents b' ≡ contents b ++ bs)
unfolding append
append_lem b bs v fits =
    let (b', made, v', same, free) = ensure_writable_bytes_lem b (length bs) v fits in
    (
      written b' bs v' free,
      rw made (ground (arith, v'.within, v'.small, free, length-overwrite b'.bytes b'.writer bs)),
      written-IsValid b' bs v' free,
      contents-written b' bs v' free ∙ ap (λ cs. cs ++ bs) same,
    )
