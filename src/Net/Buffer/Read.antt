-- ===== src/Net/Buffer/Read.antt =====
-- `readFd` and `bufReadFd` (and `bufReadFdOnIO`, the same text): reading from a socket.
-- The kernel is a parameter: the list of what its successive read calls answer.
use xjblg.Base.{
  ◌^◌, ltb→lt, false, ℕ, ◌+◌, ◌≤◌, ◌<◌, ◌≡◌, refl, sym, ◌∙◌, ap, inl, inr, Option, none, some, List,
  [], ◌∷◌, ◌++◌, arith, length, take, drop, overwrite, length-overwrite, ==_iff, true,
  length-append, length-drop, length-take, ltb, leb, ◌==◌, if◌then◌else◌, ◌>>=◌, Bool-cases,
  take-append-drop,
}
use mathlib.Core.Path.{subst}
use mathlib.Core.List.{append-nil, append_assoc}
use xjblg.Base.Words.{as_int, add_size}
use xjblg.Net.Buffer.{Buffer, max_size, writable_bytes, make_space, append}
use xjblg.Net.Buffer.Inv.{
  IsValid, contents, written, written-IsValid, contents-written, make_space_lem, make_space-length,
  append_lem,
}

-- The answer of a read: -1, or the bytes that were read.
pub data Answer : Type 0 where
  failed : Answer
  got : List ℕ → Answer

-- The bytes that the kernel put at the write position, counted as written.
abbrev pub filled : Buffer → List ℕ → Buffer
filled b bs = record b {
  bytes = overwrite b.bytes b.writer bs;
  writer = add_size b.writer (length bs);
}

abbrev extra_size : ℕ
extra_size = 65536

-- `readv` into the writable bytes, then into `extrabuf`. The first result is `n`, or `none` for -1.
pub read_fd : Buffer → Answer → Option (Option ℕ × Buffer)
read_fd b failed = some (none, b)
read_fd b (got bs) =
    if leb (length bs) (writable_bytes b) then some (some (length bs), filled b bs) else (do
      b' ← append (drop (writable_bytes b) bs) (record b {
        bytes = overwrite b.bytes b.writer (take (writable_bytes b) bs);
        writer = length b.bytes;
      })
      some (some (length bs), b'))

-- `int writable = writableBytes()` as `read` and the comparisons take it.
abbrev pub asked : Buffer → ℕ
asked b = as_int (writable_bytes b)

-- A read that fills what was asked for makes room and reads again; what the later reads return is
-- not looked at. A read that the list does not answer does not return.
pub buf_read_fd : Buffer → List Answer → Option (Option ℕ × Buffer)
buf_read_fd b [] = none
buf_read_fd b (failed ∷ rest) = some (none, b)
buf_read_fd b (got bs ∷ rest) =
    if ltb (length bs) (asked b)
    then some (some (length bs), filled b bs)
    else (if length bs == asked b
        then (do
          b' ← make_space extra_size (filled b bs)
          (m, b'') ← buf_read_fd b' rest
          some (some (length bs), b''))
        else some (some (length bs), b))

-- All bytes that the kernel hands over.
abbrev pub received : List Answer → List ℕ
received [] = []
received (failed ∷ rest) = received rest
received (got bs ∷ rest) = bs ++ received rest

-- What the first read returned.
abbrev pub first_answer : List Answer → Option ℕ
first_answer [] = none
first_answer (failed ∷ rest) = none
first_answer (got bs ∷ rest) = some (length bs)

-- The list answers every read that `bufReadFd` makes and no more, each within the size asked for.
abbrev pub Fits : Buffer → List Answer → Type 0
Fits b [] = ⊥
Fits b (failed ∷ rest) = rest ≡ []
Fits b (got bs ∷ rest) =
    (length bs ≤ asked b)
    × (length bs < asked b → rest ≡ [])
    × (length bs ≡ asked b
        → (b' : Buffer) → make_space extra_size (filled b bs) ≡ some b'
        → Fits b' rest)

filled-written :
    (b : Buffer) (bs : List ℕ) (v : IsValid b) (free : b.writer + length bs ≤ length b.bytes)
    → filled b bs ≡ written b bs v free
filled-written b bs v free =
    ap (λ w. record b { bytes = overwrite b.bytes b.writer bs; writer = w })
      (let e : add_size b.writer (length bs) ≡ b.writer + length bs =
          omega (arith, v.within, v.small) in
        e)

-- After a read within the writable bytes the readable bytes end in what was read.
pub filled_lem :
    (b : Buffer) (bs : List ℕ)
    → IsValid b
    → length bs ≤ writable_bytes b
    → IsValid (filled b bs)
      × (contents (filled b bs) ≡ contents b ++ bs)
      × ((filled b bs).writer ≡ b.writer + length bs)
filled_lem b bs v h =
    subst
      (λ (c : Buffer).
        IsValid c × (contents c ≡ contents b ++ bs) × (c.writer ≡ b.writer + length bs))
      (sym (filled-written b bs v free))
      (written-IsValid b bs v free, contents-written b bs v free, refl)
  where
    free : b.writer + length bs ≤ length b.bytes
    free = omega (arith, v.within, v.small)

-- The writable bytes are filled by `part`, and `append` adds the rest.
spill :
    (b : Buffer) (part more : List ℕ)
    → IsValid b
    → length part ≡ writable_bytes b
    → length b.bytes + length more ≤ max_size
    → (b' : Buffer) × (append more
          (record b { bytes = overwrite b.bytes b.writer part; writer = length b.bytes })
        ≡ some b')
      × IsValid b'
      × (contents b' ≡ contents b ++ (part ++ more))
spill b part more v e fits =
    let full : Buffer = record b {
      bytes = overwrite b.bytes b.writer part;
      writer = length b.bytes;
    } in
    let free : b.writer + length part ≤ length b.bytes = omega (arith, v.within, v.small) in
    let at_end : b.writer + length part ≡ length b.bytes = omega (arith, v.within, v.small) in
    let same : written b part v free ≡ full =
      ap (λ w. record b { bytes = overwrite b.bytes b.writer part; writer = w }) at_end in
    let (b', made, v', cs) =
      append_lem full more (subst IsValid same (written-IsValid b part v free)) fits in
    (
      b',
      made,
      v',
      cs
          ∙ ap (λ ds. ds ++ more) (sym (ap contents same) ∙ contents-written b part v free)
          ∙ append_assoc (contents b) part more,
    )

-- On a valid buffer, where the storage and what one read returned are together inside the size limit,
-- `readFd` returns the length read and adds the bytes behind the readable bytes, whether they fit the
-- writable bytes or spill into `extrabuf`, and the buffer stays valid.
pub read_fd_lem :
    (b : Buffer) (bs : List ℕ)
    → IsValid b
    → length b.bytes + length bs ≤ max_size
    → (b' : Buffer) × (read_fd b (got bs) ≡ some (some (length bs), b'))
      × IsValid b'
      × (contents b' ≡ contents b ++ bs)
unfolding read_fd
read_fd_lem b bs v fits = elim (Bool-cases (leb (length bs) (writable_bytes b))) [
  | inl inside ↦
      let (v', cs, _) = filled_lem b bs v (ground arith) in (filled b bs, rw inside, v', cs)
  | inr spills ↦
      let w : ℕ = writable_bytes b in
      let (b', made, v', cs) =
        spill b (take w bs) (drop w bs) v (ground (arith, length-take w bs))
          (omega (arith, length-drop w bs)) in
      (b', rw (spills, made), v', cs ∙ ap (◌++◌ (contents b)) (take-append-drop w bs))
]

-- A read that fills the writable bytes is followed by room for `extra_size` more.
refill :
    (b : Buffer) (bs : List ℕ)
    → IsValid b
    → length bs ≡ writable_bytes b
    → b.writer + length bs + extra_size ≤ max_size
    → (b' : Buffer) × (make_space extra_size (filled b bs) ≡ some b')
      × IsValid b'
      × (contents b' ≡ contents b ++ bs)
      × (b'.writer < length b'.bytes)
      × (b'.writer ≤ b.writer + length bs)
refill b bs v e fits =
    let (v', cs, at_end) = filled_lem b bs v (omega arith) in
    let (b', made, v'', same, free, down) =
      make_space_lem (filled b bs) extra_size v'
        (omega (arith, v.within, v.small, length-overwrite b.bytes b.writer bs)) (omega arith) in
    (b', made, v'', same ∙ cs, omega arith, omega arith)

-- Below 2^31 bytes of storage the `int` holds the number of writable bytes.
asked_lem : (b : Buffer) → IsValid b → length b.bytes < 2 ^ 31 → asked b ≡ writable_bytes b
asked_lem b v h = ground (arith, v.within, v.small, h)

-- The storage stays small while the write position with room for more does.
room_stays :
    (b b' : Buffer) (bs : List ℕ)
    → IsValid b
    → length bs ≡ writable_bytes b
    → length b.bytes < 2 ^ 31
    → b.writer + length bs + extra_size < 2 ^ 31
    → make_space extra_size (filled b bs) ≡ some b'
    → length b'.bytes < 2 ^ 31
room_stays b b' bs v h small fits made =
    let (v', cs, at_end) = filled_lem b bs v (omega (arith, h)) in
    let same : length (filled b bs).bytes ≡ length b.bytes = length-overwrite b.bytes b.writer bs in
    elim (make_space-length (filled b bs) extra_size v'
      (omega (arith, v.within, v.small, same, h, at_end)) (omega (arith, fits, at_end)) b' made) [
        | inl e ↦ omega (arith, e, at_end, fits)
        | inr e ↦ omega (arith, e, same, small)
      ]

not_less : (m n : ℕ) → m ≤ n → ltb m n ≡ false → m ≡ n
not_less m n h k = ground arith

buf_read_fd_all :
    (b : Buffer) (answers : List Answer)
    → IsValid b
    → Fits b answers
    → length b.bytes < 2 ^ 31
    → b.writer + length (received answers) + extra_size < 2 ^ 31
    → (b' : Buffer) × (buf_read_fd b answers ≡ some (first_answer answers, b'))
      × IsValid b'
      × (contents b' ≡ contents b ++ received answers)
      × (b.writer < length b.bytes → b'.writer < length b'.bytes)
unfolding buf_read_fd
buf_read_fd_all b [] v f small h = absurd f
buf_read_fd_all b (failed ∷ rest) v f small h =
    (b, refl, v, sym (ap (λ r. contents b ++ received r) f ∙ append-nil (contents b)), λ p. p)
buf_read_fd_all b (got bs ∷ rest) v (fits, short, full) small h =
    let q : asked b ≡ writable_bytes b = asked_lem b v small in
    let inside : length bs ≤ writable_bytes b = omega (arith, fits, q) in
    elim (Bool-cases (ltb (length bs) (asked b))) [
      | inl less ↦
          let (v', cs, at_end) = filled_lem b bs v inside in
          let lt : length bs < asked b = ltb→lt (length bs) (asked b) less in
          (
            filled b bs,
            rw less,
            v',
            cs
                ∙ sym (
                    ap (λ r. contents b ++ (bs ++ received r)) (short lt)
                    ∙ ap (◌++◌ (contents b)) (append-nil bs)),
            λ p. omega (arith, v.within, v.small, length-overwrite b.bytes b.writer bs),
          )
      | inr filled_up ↦
          let e : length bs ≡ asked b = not_less (length bs) (asked b) fits filled_up in
          let same : (length bs == asked b) ≡ true = (==_iff _ _).1 e in
          let total : length (bs ++ received rest) ≡ length bs + length (received rest) =
            length-append bs (received rest) in
          let (b', made, v', cs, room, down) = refill b bs v (e ∙ q) (omega arith) in
          let small' = room_stays b b' bs v (e ∙ q) small (omega arith) made in
          let (b'', got_rest, v'', cs', room') =
            buf_read_fd_all b' rest v' (full e b' made) small' (omega arith) in
          (
            b'',
            rw (filled_up, same, made, got_rest),
            v'',
            cs' ∙ ap (λ ds. ds ++ received rest) cs ∙ append_assoc (contents b) bs (received rest),
            λ p. room' room,
          )
    ]

-- On a valid buffer with writable bytes, when each read is answered within the size asked for, and the
-- storage and all the bytes with room for more are below 2^31, `bufReadFd` returns what the first read
-- returned and adds all the bytes that were read, in order, behind the readable bytes. The buffer
-- stays valid and keeps writable bytes.
pub buf_read_fd_lem :
    (b : Buffer) (answers : List Answer)
    → IsValid b
    → b.writer < length b.bytes
    → Fits b answers
    → length b.bytes < 2 ^ 31
    → b.writer + length (received answers) + extra_size < 2 ^ 31
    → (b' : Buffer) × (buf_read_fd b answers ≡ some (first_answer answers, b'))
      × IsValid b'
      × (contents b' ≡ contents b ++ received answers)
      × (b'.writer < length b'.bytes)
buf_read_fd_lem b answers v room fits small total =
    let (b', made, v', cs, stays) = buf_read_fd_all b answers v fits small total in
    (b', made, v', cs, stays room)
