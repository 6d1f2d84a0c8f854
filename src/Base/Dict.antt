-- ===== src/Base/Dict.antt =====
-- `std::map<std::string, V>` as an association list that is kept in the order of its keys.
use xjblg.Base.{
  ◌≡◌, refl, inl, inr, true, false, Option, none, some, List, [], ◌∷◌, arith, if◌then◌else◌,
  Bool-cases,
}
use xjblg.Base.Text.{Text, str_eq, str_lt, str_eq_refl, str_eq_sound}

distinct : (i k j : Text) → str_eq i k ≡ false → str_eq i j ≡ true → str_eq k j ≡ false
distinct i k j other same = elim (Bool-cases (str_eq k j)) [
  | inl also ↦
      let e : str_eq i k ≡ true =
        rw (str_eq_sound i j same, str_eq_sound k j also) (str_eq_refl j) in
      cc
  | inr e ↦ e
]

module _ {ℓ} {V : Type ℓ} where
  unfoldable pub lookup : Text → List (Text × V) → Option V
  lookup k [] = none
  lookup k ((j, v) ∷ m) = if str_eq j k then some v else lookup k m

  -- `m[k] = v`.
  unfoldable pub insert : Text → V → List (Text × V) → List (Text × V)
  insert k v [] = (k, v) ∷ []
  insert k v ((j, w) ∷ m) =
      if str_eq j k
      then (k, v) ∷ m
      else if str_lt k j
      then (k, v) ∷ (j, w) ∷ m
      else (j, w) ∷ insert k v m

  unfoldable pub erase : Text → List (Text × V) → List (Text × V)
  erase k [] = []
  erase k ((j, w) ∷ m) = if str_eq j k then erase k m else (j, w) ∷ erase k m

  pub lookup-insert :
      (k j : Text) (v : V) (m : List (Text × V))
      → lookup j (insert k v m) ≡ (if str_eq k j then some v else lookup j m)
  unfolding lookup insert
  lookup-insert k j v [] = refl
  lookup-insert k j v ((i, w) ∷ m) = elim (Bool-cases (str_eq i k)) [
    | inl same ↦ rw (str_eq_sound i k same, str_eq_refl k) (ground arith)
    | inr other ↦ ground (arith, lookup-insert k j v m, distinct i k j other)
  ]

  pub lookup-erase :
      (k j : Text) (m : List (Text × V))
      → lookup j (erase k m) ≡ (if str_eq k j then none else lookup j m)
  unfolding lookup erase
  lookup-erase k j [] = ground arith
  lookup-erase k j ((i, w) ∷ m) = elim (Bool-cases (str_eq i k)) [
    | inl same ↦ rw (str_eq_sound i k same, str_eq_refl k) (ground (arith, lookup-erase k j m))
    | inr other ↦ ground (arith, lookup-erase k j m, distinct i k j other)
  ]
