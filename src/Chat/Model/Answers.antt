-- ===== src/Chat/Model/Answers.antt =====
-- What the chat server reads out of the answers of ChatModel.cpp: the texts that are printed for a user, and
-- for a list of friends, and `JsonItem::parseJson` on them.
use mathlib.Core.List.{append_assoc}
use xjblg.Base.{
  ℕ, suc, ◌+◌, ◌-◌, ◌≤◌, ◌≡◌, refl, ◌∙◌, inl, inr, true, none, some, List, [], ◌∷◌, ◌++◌, arith,
  length,
}
use xjblg.Base.Text.{Text, Lacks}
use xjblg.Base.Bytes.{bytes, encode_char}
use xjblg.Base.Dict
use xjblg.Chat.Json.{Items, item_loop, parse_json}
use xjblg.Chat.Message.{text_field}
use xjblg.Chat.Parsed.{item_loop-text, item_loop-end, length-text_field}
use xjblg.Chat.Model.{userid_key, username_key, user_text, no_user}
use xjblg.Chat.Server.Actions.{pair_texts, user_friends_to_string}

user_text-eq :
    (id name : Text)
    → user_text id name
      ≡ text_field b'{' userid_key id (text_field b',' username_key name (b'}' ∷ []))
unfolding user_text userid_key username_key bytes encode_char
user_text-eq id name = refl

userid_key-Lacks : Lacks b'"' userid_key
unfolding userid_key bytes encode_char
userid_key-Lacks = omega arith

username_key-Lacks : Lacks b'"' username_key
unfolding username_key bytes encode_char
username_key-Lacks = omega arith

-- A printed user is parsed, and the two fields are stored over what the items held.
pub parse_json-user_text :
    (id name : Text) (items : Items)
    → Lacks b'"' id
    → Lacks b'"' name
    → parse_json (user_text id name) items
      ≡ some (true, Dict.insert username_key name (Dict.insert userid_key id items))
unfolding parse_json
parse_json-user_text id name items no_quote no_quote' =
    let last = text_field b',' username_key name (b'}' ∷ []) in
    let first = text_field b'{' userid_key id last in
    let n = length first - 3 in
    let fuel : length first ≡ suc (suc (suc n)) = omega (
      arith,
      length-text_field b'{' userid_key id last,
      length-text_field b',' username_key name (b'}' ∷ []),
    ) in
    rw (
      user_text-eq id name,
      fuel,
      item_loop-text _ none b'{' userid_key id last items (inl refl) userid_key-Lacks no_quote
          ∙ item_loop-text _ (some b'"') b',' username_key name (b'}' ∷ []) _ (inr refl)
              username_key-Lacks no_quote'
          ∙ item_loop-end n (some b'"') _,
    )

-- The answer for a user who is not there.
pub parse_json-no_user :
    (items : Items)
    → parse_json no_user items ≡ some (true, Dict.insert userid_key (b'0' ∷ []) items)
unfolding no_user bytes encode_char parse_json userid_key
parse_json-no_user items =
    let read : item_loop 14 none no_user items
        ≡ some (some b'}', true, Dict.insert userid_key (b'0' ∷ []) items) =
      item_loop-text 13 none b'{' userid_key (b'0' ∷ []) (b'}' ∷ []) items (inl refl)
        userid_key-Lacks (omega arith)
      ∙ item_loop-end 12 (some b'"') _ in
    rw read refl

abbrev LackQuotes : List (Text × Text) → Type 0
LackQuotes [] = Unit
LackQuotes ((a, b) ∷ rest) = Lacks b'"' a × Lacks b'"' b × LackQuotes rest

-- The items after the pairs are stored, one behind another.
abbrev pub store_pairs : List (Text × Text) → Items → Items
store_pairs [] items = items
store_pairs ((a, b) ∷ rest) items = store_pairs rest (Dict.insert a b items)

-- What follows the first pair.
abbrev tail_text : List (Text × Text) → Text
tail_text [] = b'}' ∷ []
tail_text ((a, b) ∷ rest) = text_field b',' a b (tail_text rest)

pair_texts-eq :
    (sep : ℕ) (a b : Text) (rest : List (Text × Text))
    → sep ∷ (pair_texts ((a, b) ∷ rest) ++ (b'}' ∷ [])) ≡ text_field sep a b (tail_text rest)
unfolding pair_texts
pair_texts-eq sep a b [] = simp append_assoc
pair_texts-eq sep a b ((c, d) ∷ rest) = simp (append_assoc, pair_texts-eq b',' c d rest)

-- Fuel for what follows the first pair.
abbrev fuel_for : List (Text × Text) → ℕ → ℕ
fuel_for [] n = suc n
fuel_for (p ∷ rest) n = suc (fuel_for rest n)

fuel_for-eq : (rest : List (Text × Text)) (n : ℕ) → fuel_for rest n ≡ suc (length rest + n)
fuel_for-eq [] n = omega arith
fuel_for-eq (p ∷ rest) n = omega (arith, fuel_for-eq rest n)

item_loop-tail :
    (fuel : ℕ) (rest : List (Text × Text)) (items : Items)
    → LackQuotes rest
    → item_loop (fuel_for rest fuel) (some b'"') (tail_text rest) items
      ≡ some (some b'}', true, store_pairs rest items)
item_loop-tail fuel [] items l = item_loop-end fuel (some b'"') items
item_loop-tail fuel ((a, b) ∷ rest) items l =
    item_loop-text (fuel_for rest fuel) (some b'"') b',' a b (tail_text rest) items (inr refl) l.0
      l.1
    ∙ item_loop-tail fuel rest (Dict.insert a b items) l.2

length-tail_text : (rest : List (Text × Text)) → suc (length rest) ≤ length (tail_text rest)
length-tail_text [] = omega arith
length-tail_text ((a, b) ∷ rest) =
    omega (arith, length-tail_text rest, length-text_field b',' a b (tail_text rest))

friends-eq :
    (a b : Text) (rest : List (Text × Text))
    → user_friends_to_string ((a, b) ∷ rest) ≡ text_field b'{' a b (tail_text rest)
unfolding user_friends_to_string
friends-eq a b rest = pair_texts-eq b'{' a b rest

-- A list of at least one friend, whose ids and names have no '"', is printed by `userFriendsToString`:
-- `parseJson` reads it, returns true, and stores each name under its id, the later ones over the
-- earlier ones and over what the items held.
pub parse_json-friends :
    (a b : Text) (rest : List (Text × Text)) (items : Items)
    → LackQuotes ((a, b) ∷ rest)
    → parse_json (user_friends_to_string ((a, b) ∷ rest)) items
      ≡ some (true, store_pairs ((a, b) ∷ rest) items)
unfolding parse_json
parse_json-friends a b rest items l =
    let text = text_field b'{' a b (tail_text rest) in
    let n = length text - (2 + length rest) in
    let fuel : length text ≡ suc (fuel_for rest n) = omega (
      arith,
      fuel_for-eq rest n,
      length-tail_text rest,
      length-text_field b'{' a b (tail_text rest),
    ) in
    rw (
      friends-eq a b rest,
      fuel,
      item_loop-text _ none b'{' a b (tail_text rest) items (inl refl) l.0 l.1
          ∙ item_loop-tail n rest (Dict.insert a b items) l.2,
    )
