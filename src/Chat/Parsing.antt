-- ===== src/Chat/Parsing.antt =====
-- What holds of every call of `parseJson`: it ends, it clears the items where it fails, and it keeps items
-- of earlier messages where it does not.
use xjblg.Base.{
  ℕ, zero, suc, ◌-◌, ◌≤◌, ◌<◌, ◌≡◌, refl, ap, ◌∙◌, inl, inr, Bool, true, false, ◌||◌, ◌&&◌, Option,
  none, some, [], ◌∷◌, arith, length, ◌==◌, >>=-eq-some, Bool-cases, either,
}
use xjblg.Base.Text.{Text, Lacks, split_at, str_eq, str_eq_refl}
use xjblg.Base.Dict
use xjblg.Chat.Json.{
  Items, Round, fails, goes_on, value_round, colon_round, key_round, item_round, item_loop,
  parse_json,
}
use xjblg.Chat.Message.{text_field}
use xjblg.Chat.Parsed.{item_loop-text, item_loop-end, length-text_field}

length-split_at : (c : ℕ) (s : Text) → length (split_at c s).1 ≤ length s
length-split_at c [] = omega arith
length-split_at c (d ∷ ds) = ground (arith, length-split_at c ds)

-- Where a round goes on, it leaves less than `n` bytes.
abbrev Below : ℕ → Round → Type 0
Below n (fails b) = Unit
Below n (goes_on b rest items) = length rest < n

tail-Below :
    (n : ℕ) (t : Text) (b : Option ℕ) (f : ℕ → Text → Round)
    → ((q : ℕ) (rest : Text) → t ≡ q ∷ rest → Below n (f q rest))
    → Below n (elim t [ [] ↦ fails b | q ∷ rest ↦ f q rest ])
tail-Below n [] b f g = tt
tail-Below n (q ∷ rest) b f g = g q rest refl

value_round-Below :
    (n : ℕ) (key s : Text) (items : Items) → length s < n → Below n (value_round key s items)
unfolding value_round
value_round-Below n key [] items h = tt
value_round-Below n key (c ∷ s) items h =
    either (Below n) (c == b'"') _ _
      (λ _.
        tail-Below n (split_at b'"' s).1 _ _
          (λ q rest e. omega (arith, length-split_at b'"' s, ap length e)))
      (λ _.
        either (Below n) (c == b'{') _ _
          (λ _.
            tail-Below n (split_at b'}' (c ∷ s)).1 _ _
              (λ q rest e. omega (arith, length-split_at b'}' (c ∷ s), ap length e)))
          (λ _. tt))

colon_round-Below :
    (n : ℕ) (key s : Text) (items : Items) → length s < n → Below n (colon_round key s items)
unfolding colon_round
colon_round-Below n key [] items h = tt
colon_round-Below n key (c ∷ s) items h =
    either (Below n) (c == b':') _ _ (λ _. value_round-Below n key s items (omega arith)) (λ _. tt)

key_round-Below : (n : ℕ) (s : Text) (items : Items) → length s < n → Below n (key_round s items)
unfolding key_round
key_round-Below n s items h = tail-Below n (split_at b'"' s).1 _ _ (λ q rest e.
    colon_round-Below n (split_at b'"' s).0 rest items
      (omega (arith, length-split_at b'"' s, ap length e)))

item_round-Below :
    (before : Option ℕ) (c : ℕ) (s : Text) (items : Items)
    → Below (suc (length s)) (item_round before c s items)
unfolding item_round
item_round-Below before c s items =
    either (Below (suc (length s))) (c == b'{' || c == b',') _ _
      (λ _. tail-Below (suc (length s)) s before _ (λ q rest e.
        either (Below (suc (length s))) (q == b'"') _ _
          (λ _. key_round-Below (suc (length s)) rest items (omega (arith, ap length e)))
          (λ _. tt)))
      (λ _. either (Below (suc (length s))) (c == b'}') _ _ (λ _. omega arith) (λ _. tt))

-- The loop gives a result.
abbrev Ends : Option (Option ℕ × Bool × Items) → Type 0
Ends o = (b : Option ℕ) × (ret : Bool) × (items' : Items) × (o ≡ some (b, ret, items'))

after_round-Ends :
    (n fuel : ℕ) (items : Items) (r : Round)
    → Below n r
    → ((b : Option ℕ) (rest : Text) (m : Items) → length rest < n → Ends (item_loop fuel b rest m))
    → Ends
        (elim r [ fails b ↦ some (b, false, items) | goes_on b rest m ↦ item_loop fuel b rest m ])
after_round-Ends n fuel items (fails b) lt f = (b, false, items, refl)
after_round-Ends n fuel items (goes_on b rest m) lt f = f b rest m lt

-- The loop of `parseJson` ends: with as much fuel as the text has bytes, which `parseJson` has, it gives
-- a result.
pub item_loop_ends :
    (fuel : ℕ) (before : Option ℕ) (s : Text) (items : Items)
    → length s ≤ fuel
    → (b : Option ℕ) × (ret : Bool) × (items' : Items) × (item_loop fuel before s items
        ≡ some (b, ret, items'))
unfolding item_loop
item_loop_ends zero before [] items h = (before, true, items, refl)
item_loop_ends (suc fuel) before [] items h = (before, true, items, refl)
item_loop_ends zero before (c ∷ s) items h = absurd (omega arith)
item_loop_ends (suc fuel) before (c ∷ s) items h =
    after_round-Ends (suc (length s)) fuel items (item_round before c s items)
      (item_round-Below before c s items)
      (λ b rest m lt. item_loop_ends fuel b rest m (omega arith))

-- Where `parseJson` returns false, no items are left.
pub parse_json-clears :
    (s : Text) (items items' : Items) → parse_json s items ≡ some (false, items') → items' ≡ []
unfolding parse_json
parse_json-clears s items items' h =
    let ((before, ret, m), looped, h1) = >>=-eq-some (item_loop (length s) none s items) _ h in
    let (last, e, h2) = >>=-eq-some before _ h1 in
    elim (Bool-cases (ret && last == b'}')) [ inl good ↦ cc (good, h2) | inr bad ↦ ground arith ]

-- A message of one field, its texts without a '"', leaves every other item as an earlier message left it.
pub parse_json-keeps :
    (key value other : Text) (items : Items)
    → Lacks b'"' key
    → Lacks b'"' value
    → str_eq key other ≡ false
    → (items' : Items) × (parse_json (text_field b'{' key value (b'}' ∷ [])) items
        ≡ some (true, items'))
      × (Dict.lookup key items' ≡ some value)
      × (Dict.lookup other items' ≡ Dict.lookup other items)
unfolding parse_json
parse_json-keeps key value other items k v ne =
    let n = length (text_field b'{' key value (b'}' ∷ [])) - 2 in
    let fuel : length (text_field b'{' key value (b'}' ∷ [])) ≡ suc (suc n) =
      omega (arith, length-text_field b'{' key value (b'}' ∷ [])) in
    (
      Dict.insert key value items,
      rw (
        fuel,
        item_loop-text (suc n) none b'{' key value (b'}' ∷ []) items (inl refl) k v
            ∙ item_loop-end n (some b'"') (Dict.insert key value items),
      ),
      rw (Dict.lookup-insert key key value items, str_eq_refl key),
      rw (Dict.lookup-insert key other value items, ne),
    )
