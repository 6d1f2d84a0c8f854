-- ===== src/Net/Buffer.antt =====
-- NETLIB/net/Buffer.h and Buffer.cpp: the byte buffer of a connection.
-- A pointer into the storage is its index; `none` is a failed assert or `std::length_error`.
pub mod Inv
pub mod Consume
pub mod Search
pub mod Lines
pub mod Read
use xjblg.Base.{
  ℕ, ◌+◌, ◌-◌, ◌^◌, ◌&&◌, Option, none, some, List, [], ◌∷◌, ◌++◌, length, take, drop, replicate,
  overwrite, ltb, leb, ◌==◌, if◌then◌else◌, ◌>>=◌, ◌>>◌, assert,
}
use xjblg.Base.Words.{add_size, sub_size, as_int}

-- `buffer_`, `readerIndex_`, `writerIndex_`.
pub record Buffer : Type 0 where
  pub bytes : List ℕ
  pub reader : ℕ
  pub writer : ℕ

abbrev pub cheap_prepend : ℕ
cheap_prepend = 8

abbrev pub initial_size : ℕ
initial_size = 1024

-- `std::vector<char>::max_size()`.
abbrev pub max_size : ℕ
max_size = 2 ^ 63 - 1

-- The constructor. Only the assert reads its argument.
pub make : ℕ → Option Buffer
make initial = do
  assert (initial == initial_size)
  some (record {
    bytes = replicate (cheap_prepend + initial_size) 0;
    reader = cheap_prepend;
    writer = cheap_prepend;
  })

abbrev pub readable_bytes : Buffer → ℕ
readable_bytes b = sub_size b.writer b.reader

abbrev pub writable_bytes : Buffer → ℕ
writable_bytes b = sub_size (length b.bytes) b.writer

abbrev pub prependable_bytes : Buffer → ℕ
prependable_bytes b = b.reader

-- `[first, last)` of the storage.
abbrev pub range : Buffer → ℕ → ℕ → List ℕ
range b first last = take (last - first) (drop first b.bytes)

-- `std::vector::resize`.
resize : ℕ → List ℕ → Option (List ℕ)
resize n bs = if ltb max_size n then none else some (take n bs ++ replicate (n - length bs) 0)

pub make_space : ℕ → Buffer → Option Buffer
unfolding resize
make_space len b =
    if ltb (add_size (writable_bytes b) (prependable_bytes b)) (add_size len cheap_prepend)
    then (do bs ← resize (add_size b.writer len) b.bytes; some (record b { bytes = bs }))
    else (do
      assert (ltb cheap_prepend b.reader)
      let readable = readable_bytes b
      let moved = record b {
        bytes = overwrite b.bytes cheap_prepend (range b b.reader b.writer);
        reader = cheap_prepend;
        writer = add_size readable cheap_prepend;
      }
      assert (readable == readable_bytes moved)
      some moved)

pub ensure_writable_bytes : ℕ → Buffer → Option Buffer
ensure_writable_bytes len b = do
  b' ← if ltb (writable_bytes b) len then make_space len b else some b
  assert (leb len (writable_bytes b'))
  some b'

pub has_written : ℕ → Buffer → Option Buffer
has_written len b = do
  assert (leb len (writable_bytes b))
  some (record b { writer = add_size b.writer len })

-- `append(const char*, size_t)`.
pub append : List ℕ → Buffer → Option Buffer
unfolding has_written
append bs b = do
  b' ← ensure_writable_bytes (length bs) b
  has_written (length bs) (record b' { bytes = overwrite b'.bytes b'.writer bs })

unfoldable pub retrieve_all : Buffer → Buffer
retrieve_all b = record b { reader = cheap_prepend; writer = cheap_prepend }

unfoldable pub retrieve : ℕ → Buffer → Option Buffer
unfolding retrieve_all
retrieve len b = do
  assert (leb len (readable_bytes b))
  some (
      if ltb len (readable_bytes b)
      then record b { reader = add_size b.reader len }
      else retrieve_all b)

-- `retrieveInt64`, `retrieveInt32`, `retrieveInt16` and `retrieveInt8`.
retrieve_int64 : Buffer → Option Buffer
retrieve_int64 b = retrieve 8 b

retrieve_int32 : Buffer → Option Buffer
retrieve_int32 b = retrieve 4 b

retrieve_int16 : Buffer → Option Buffer
retrieve_int16 b = retrieve 2 b

retrieve_int8 : Buffer → Option Buffer
retrieve_int8 b = retrieve 1 b

abbrev swap_buffers : Buffer → Buffer → Buffer × Buffer
swap_buffers b c = (c, b)

unfoldable pub retrieve_until : ℕ → Buffer → Option Buffer
unfolding retrieve
retrieve_until last b = do
  assert (leb b.reader last)
  assert (leb last b.writer)
  retrieve (sub_size last b.reader) b

-- `getAllStringFromBuffer`, also what `toStringPiece` refers to.
pub get_all : Buffer → List ℕ
get_all b = range b b.reader (add_size b.reader (readable_bytes b))

pub retrieve_as_string : ℕ → Buffer → Option (List ℕ × Buffer)
unfolding retrieve
retrieve_as_string len b = do
  assert (leb len (readable_bytes b))
  b' ← retrieve len b
  some (range b b.reader (add_size b.reader len), b')

pub retrieve_all_as_string : Buffer → Option (List ℕ × Buffer)
unfolding retrieve_as_string
retrieve_all_as_string b = retrieve_as_string (readable_bytes b) b

pub unwrite : ℕ → Buffer → Option Buffer
unwrite len b = do
  assert (leb len (readable_bytes b))
  some (record b { writer = sub_size b.writer len })

pub prepend : List ℕ → Buffer → Option Buffer
prepend bs b = do
  assert (leb (length bs) (prependable_bytes b))
  let r = sub_size b.reader (length bs)
  some (record b { bytes = overwrite b.bytes r bs; reader = r })

-- `toStringPiece`, whose length is an `int`; a length beyond the readable bytes is a read out of bounds.
unfoldable pub to_string_piece : Buffer → Option (List ℕ)
to_string_piece b = do
  let len = as_int (readable_bytes b)
  assert (leb len (readable_bytes b))
  some (range b b.reader (add_size b.reader len))

pub shrink : ℕ → Buffer → Option Buffer
unfolding make to_string_piece
shrink reserve b = do
  other ← make initial_size
  other' ← ensure_writable_bytes (add_size (readable_bytes b) reserve) other
  text ← to_string_piece b
  append text other'

-- `std::search` for "\r\n" in a range that starts at index `i`.
unfoldable pub search_crlf : ℕ → List ℕ → Option ℕ
search_crlf i [] = none
search_crlf i (c ∷ []) = none
search_crlf i (c ∷ d ∷ cs) =
    let rest = search_crlf (i + 1) (d ∷ cs) in if c == b'\r' && d == b'\n' then some i else rest

unfoldable pub find_crlf : Buffer → Option ℕ
unfolding search_crlf
find_crlf b = search_crlf b.reader (range b b.reader b.writer)

-- `memchr` for a byte in a range that starts at index `i`.
search_byte : ℕ → ℕ → List ℕ → Option ℕ
search_byte x i [] = none
search_byte x i (c ∷ cs) = let rest = search_byte x (i + 1) cs in if c == x then some i else rest

pub find_eol : Buffer → Option ℕ
unfolding search_byte
find_eol b = search_byte b'\n' b.reader (range b b.reader (add_size b.reader (readable_bytes b)))
