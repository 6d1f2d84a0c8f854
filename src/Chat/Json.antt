-- ===== src/Chat/Json.antt =====
-- NETLIB/function.h and function.cpp: `JsonItem::parseJson`. The text is the bytes of a `std::string`, which
-- has a NUL behind its last byte.
use xjblg.Base.{
  ℕ, zero, suc, Bool, true, false, ◌||◌, ◌&&◌, Option, none, some, List, [], ◌∷◌, ◌++◌, length,
  ◌==◌, if◌then◌else◌, ◌>>=◌,
}
use xjblg.Base.Text.{Text, split_at}
use xjblg.Base.Dict

abbrev pub Items : Type 0
Items = List (Text × Text)

-- What one round of the loop leaves: it fails, or it goes on at `rest` with the items. `before` is the
-- byte in front of `start`, which is `none` at the first byte of the text.
pub data Round : Type 0 where
  fails : (before : Option ℕ) → Round
  goes_on : (before : Option ℕ) (rest : Text) (items : Items) → Round

-- A value, at the byte behind the colon.
unfoldable pub value_round : Text → Text → Items → Round
value_round key [] items = fails (some b':')
value_round key (c ∷ s) items =
    if c == b'"'
    then elim (split_at b'"' s).1 [
      | [] ↦ fails (some b'"')
      | q ∷ rest ↦ goes_on (some q) rest (Dict.insert key (split_at b'"' s).0 items)
    ]
    else if c == b'{'
    then elim (split_at b'}' (c ∷ s)).1 [
      | [] ↦ fails (some b':')
      | q ∷ rest ↦
          goes_on (some q) rest (Dict.insert key ((split_at b'}' (c ∷ s)).0 ++ (q ∷ [])) items)
    ]
    else fails (some b':')

-- The byte that has to be a colon.
unfoldable pub colon_round : Text → Text → Items → Round
unfolding value_round
colon_round key [] items = fails (some b'"')
colon_round key (c ∷ s) items = if c == b':' then value_round key s items else fails (some b'"')

-- A key, at its first byte.
unfoldable pub key_round : Text → Items → Round
unfolding colon_round
key_round s items = elim (split_at b'"' s).1 [
  | [] ↦ fails (some b'"')
  | q ∷ rest ↦ colon_round (split_at b'"' s).0 rest items
]

-- One round of the loop, at the byte `c`.
unfoldable pub item_round : Option ℕ → ℕ → Text → Items → Round
unfolding key_round
item_round before c s items =
    if c == b'{' || c == b','
    then elim s [
      | [] ↦ fails before
      | q ∷ rest ↦ if q == b'"' then key_round rest items else fails before
    ]
    else if c == b'}'
    then goes_on (some c) s items
    else fails before

-- The loop, on fuel. The result is the byte in front of `start`, `ret` and the items.
unfoldable pub item_loop : ℕ → Option ℕ → Text → Items → Option (Option ℕ × Bool × Items)
item_loop fuel before [] items = some (before, true, items)
item_loop zero before (c ∷ s) items = none
item_loop (suc fuel) before (c ∷ s) items = elim (item_round before c s items) [
  | fails b ↦ some (b, false, items)
  | goes_on b rest items' ↦ item_loop fuel b rest items'
]

-- `parseJson`. It reads the byte in front of `start` at the end; where the loop has not moved, that byte
-- lies in front of the text, and the result is `none`.
unfoldable pub parse_json : Text → Items → Option (Bool × Items)
parse_json s items = do
  (before, ret, items') ← item_loop (length s) none s items
  last ← before
  some (if ret && last == b'}' then (true, items') else (false, []))
