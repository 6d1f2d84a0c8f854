-- ===== src/Chat/Parsed.antt =====
-- A message that `encodeMessage` printed and `parseJson` reads.
use xjblg.Base.{
  ℕ, zero, suc, ◌+◌, ◌-◌, ◌≤◌, ◌≡◌, refl, ap, ◌∙◌, ◌⊎◌, inl, inr, true, false, Option, none, some,
  [], ◌∷◌, ◌++◌, arith, length, length-append,
}
use mathlib.Core.List.{append_assoc}
use xjblg.Base.Text.{Text, Lacks, split_at, split_at-found}
use xjblg.Base.Dict
use xjblg.Chat.Json.{
  Items, goes_on, value_round, colon_round, key_round, item_round, item_loop, parse_json,
}
use xjblg.Chat.Message.{
  code_key, seq_key, sender_key, recver_key, time_key, body_key, text_field, list_field,
  encode_message,
}

abbrev pub IsSeparator : ℕ → Type 0
IsSeparator c = (c ≡ b'{') ⊎ (c ≡ b',')

value_round-text :
    (key value rest : Text) (items : Items)
    → Lacks b'"' value
    → value_round key (b'"' ∷ (value ++ (b'"' ∷ rest))) items
      ≡ goes_on (some b'"') rest (Dict.insert key value items)
unfolding value_round
value_round-text key value rest items l =
    let e : split_at b'"' (value ++ (b'"' ∷ rest)) ≡ (value, b'"' ∷ rest) =
      split_at-found b'"' value rest l in
    rw (value_round, e) (rw (ap (λ p. p.0) e))

key_round-found :
    (key s : Text) (items : Items)
    → Lacks b'"' key
    → key_round (key ++ (b'"' ∷ b':' ∷ s)) items ≡ value_round key s items
unfolding key_round colon_round
key_round-found key s items l =
    let e : split_at b'"' (key ++ (b'"' ∷ b':' ∷ s)) ≡ (key, b'"' ∷ b':' ∷ s) =
      split_at-found b'"' key (b':' ∷ s) l in
    rw (key_round, e) (ap (λ (k : Text). value_round k s items) (ap (λ p. p.0) e))

item_round-key :
    (before : Option ℕ) (sep : ℕ) (rest : Text) (items : Items)
    → IsSeparator sep
    → item_round before sep (b'"' ∷ rest) items ≡ key_round rest items
unfolding item_round
item_round-key before sep rest items h = elim h [ inl e ↦ rw e refl | inr e ↦ rw e refl ]

item_loop-step :
    (fuel : ℕ) (before b : Option ℕ) (c : ℕ) (s rest : Text) (items items' : Items)
    → item_round before c s items ≡ goes_on b rest items'
    → item_loop (suc fuel) before (c ∷ s) items ≡ item_loop fuel b rest items'
unfolding item_loop
item_loop-step fuel before b c s rest items items' e = rw (item_loop, e)

-- One round over a field with a text.
pub item_loop-text :
    (fuel : ℕ) (before : Option ℕ) (sep : ℕ) (key value rest : Text) (items : Items)
    → IsSeparator sep
    → Lacks b'"' key
    → Lacks b'"' value
    → item_loop (suc fuel) before (text_field sep key value rest) items
      ≡ item_loop fuel (some b'"') rest (Dict.insert key value items)
item_loop-text fuel before sep key value rest items h k v =
    item_loop-step fuel before (some b'"') sep _ rest items (Dict.insert key value items) (
      item_round-key before sep (key ++ (b'"' ∷ b':' ∷ b'"' ∷ (value ++ (b'"' ∷ rest)))) items h
      ∙ key_round-found key (b'"' ∷ (value ++ (b'"' ∷ rest))) items k
      ∙ value_round-text key value rest items v)

-- A list of fields in braces: it ends at the first closing brace.
abbrev pub in_braces : Text → Text
in_braces inner = b'{' ∷ (inner ++ (b'}' ∷ []))

value_round-list :
    (key inner rest : Text) (items : Items)
    → Lacks b'}' inner
    → value_round key (in_braces inner ++ rest) items
      ≡ goes_on (some b'}') rest (Dict.insert key (in_braces inner) items)
unfolding value_round
value_round-list key inner rest items l =
    let e : split_at b'}' ((inner ++ (b'}' ∷ [])) ++ rest) ≡ (inner, b'}' ∷ rest) =
      ap (split_at b'}') (append_assoc inner (b'}' ∷ []) rest) ∙ split_at-found b'}' inner rest l in
    rw (value_round, e) (rw (ap (λ p. p.0) e))

item_loop-list :
    (fuel : ℕ) (before : Option ℕ) (sep : ℕ) (key inner rest : Text) (items : Items)
    → IsSeparator sep
    → Lacks b'"' key
    → Lacks b'}' inner
    → item_loop (suc fuel) before (list_field sep key (in_braces inner) rest) items
      ≡ item_loop fuel (some b'}') rest (Dict.insert key (in_braces inner) items)
item_loop-list fuel before sep key inner rest items h k v =
    item_loop-step fuel before (some b'}') sep _ rest items
      (Dict.insert key (in_braces inner) items)
      (item_round-key before sep (key ++ (b'"' ∷ b':' ∷ (in_braces inner ++ rest))) items h
        ∙ key_round-found key (in_braces inner ++ rest) items k
        ∙ value_round-list key inner rest items v)

pub item_loop-end :
    (fuel : ℕ) (before : Option ℕ) (items : Items)
    → item_loop (suc fuel) before (b'}' ∷ []) items ≡ some (some b'}', true, items)
unfolding item_loop item_round
item_loop-end zero before items = refl
item_loop-end (suc fuel) before items = refl

pub length-text_field :
    (sep : ℕ) (key value rest : Text) → suc (length rest) ≤ length (text_field sep key value rest)
length-text_field sep key value rest = omega (
  arith,
  length-append key (b'"' ∷ b':' ∷ b'"' ∷ (value ++ (b'"' ∷ rest))),
  length-append value (b'"' ∷ rest),
)

length-list_field :
    (sep : ℕ) (key value rest : Text) → suc (length rest) ≤ length (list_field sep key value rest)
length-list_field sep key value rest =
    omega (arith, length-append key (b'"' ∷ b':' ∷ (value ++ rest)), length-append value rest)

-- The items after a message with the given fields and the body as it is stored.
abbrev pub store_message : Text → Text → Text → Text → Text → Text → Items → Items
store_message code seq sender recver time body items = Dict.insert body_key body (
    Dict.insert time_key time (
      Dict.insert recver_key recver (
        Dict.insert sender_key sender (Dict.insert seq_key seq (Dict.insert code_key code items)))))

-- The fields in front of the body.
abbrev pub up_to_time : Text → Text → Text → Text → Text → Text → Text
up_to_time code seq sender recver time rest = text_field b'{' code_key code (
    text_field b',' seq_key seq (
      text_field b',' sender_key sender
        (text_field b',' recver_key recver (text_field b',' time_key time rest))))

module _ (code seq sender recver time : Text)
    (lack : Lacks b'"' code
      × Lacks b'"' seq
      × Lacks b'"' sender
      × Lacks b'"' recver
      × Lacks b'"' time) where
  pub length-up_to_time :
      (rest : Text) → 5 + length rest ≤ length (up_to_time code seq sender recver time rest)
  length-up_to_time rest =
      let t1 = text_field b',' time_key time rest in
      let t2 = text_field b',' recver_key recver t1 in
      let t3 = text_field b',' sender_key sender t2 in
      let t4 = text_field b',' seq_key seq t3 in
      omega (
        arith,
        length-text_field b',' time_key time rest,
        length-text_field b',' recver_key recver t1,
        length-text_field b',' sender_key sender t2,
        length-text_field b',' seq_key seq t3,
        length-text_field b'{' code_key code t4,
      )

  pub item_loop-up_to_time :
      (fuel : ℕ) (rest : Text) (items : Items)
      → item_loop
          (suc (suc (suc (suc (suc fuel)))))
          none
          (up_to_time code seq sender recver time rest)
          items
        ≡ item_loop fuel (some b'"') rest (
            Dict.insert time_key time (
              Dict.insert recver_key recver (
                Dict.insert sender_key sender
                  (Dict.insert seq_key seq (Dict.insert code_key code items)))))
  item_loop-up_to_time fuel rest items =
      item_loop-text _ none b'{' code_key code _ items (inl refl) (omega arith) lack.0
      ∙ item_loop-text _ (some b'"') b',' seq_key seq _ _ (inr refl) (omega arith) lack.1
      ∙ item_loop-text _ (some b'"') b',' sender_key sender _ _ (inr refl) (omega arith) lack.2
      ∙ item_loop-text _ (some b'"') b',' recver_key recver _ _ (inr refl) (omega arith) lack.3
      ∙ item_loop-text _ (some b'"') b',' time_key time rest _ (inr refl) (omega arith) lack.4

  -- A message that `encodeMessage` prints without a list for its body, from texts without a '"', is
  -- parsed by `parseJson`: it returns true, and the six fields are stored over what the items held.
  pub parse-encode_text :
      (body : Text) (items : Items)
      → Lacks b'"' body
      → parse_json (encode_message code seq sender recver time body false) items
        ≡ some (true, store_message code seq sender recver time body items)
  unfolding parse_json encode_message
  parse-encode_text body items no_quote =
      let last = text_field b',' body_key body (b'}' ∷ []) in
      let n = length (up_to_time code seq sender recver time last) - 7 in
      let fuel : length (up_to_time code seq sender recver time last)
          ≡ suc (suc (suc (suc (suc (suc (suc n)))))) =
        omega (arith, length-up_to_time last, length-text_field b',' body_key body (b'}' ∷ [])) in
      rw (
        fuel,
        item_loop-up_to_time (suc (suc n)) last items
            ∙ item_loop-text (suc n) (some b'"') b',' body_key body (b'}' ∷ []) _ (inr refl)
                (omega arith) no_quote
            ∙ item_loop-end n (some b'"') _,
      )

  -- A message that `encodeMessage` prints with a list for its body, the list in braces with no closing
  -- brace inside, and the other texts without a '"', is parsed by `parseJson`: it returns true, and the
  -- six fields are stored over what the items held.
  pub parse-encode_list :
      (inner : Text) (items : Items)
      → Lacks b'}' inner
      → parse_json (encode_message code seq sender recver time (in_braces inner) true) items
        ≡ some (true, store_message code seq sender recver time (in_braces inner) items)
  unfolding parse_json encode_message
  parse-encode_list inner items no_brace =
      let last = list_field b',' body_key (in_braces inner) (b'}' ∷ []) in
      let n = length (up_to_time code seq sender recver time last) - 7 in
      let fuel : length (up_to_time code seq sender recver time last)
          ≡ suc (suc (suc (suc (suc (suc (suc n)))))) =
        omega (
          arith,
          length-up_to_time last,
          length-list_field b',' body_key (in_braces inner) (b'}' ∷ []),
        ) in
      rw (
        fuel,
        item_loop-up_to_time (suc (suc n)) last items
            ∙ item_loop-list (suc n) (some b'"') b',' body_key inner (b'}' ∷ []) _ (inr refl)
                (omega arith) no_brace
            ∙ item_loop-end n (some b'}') _,
      )
