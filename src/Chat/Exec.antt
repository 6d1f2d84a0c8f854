-- ===== src/Chat/Exec.antt =====
-- Methods of the chat programs: an action takes the state and returns a value and the new state, or
-- `none`, where an assert fails, an exception leaves the program or a null pointer is followed.
use xjblg.Base.{Bool, true, false, Option, none, some, List, [], ◌∷◌}

abbrev pub Exec {ℓ} : Type ℓ → Type ℓ → Type ℓ
Exec S A = S → Option (A × S)

module _ {ℓ} {S A : Type ℓ} where
  unfoldable pub pure : A → Exec S A
  pure a s = some (a, s)

  unfoldable pub raise : Exec S A
  raise s = none

  unfoldable pub gets : (S → A) → Exec S A
  gets f s = some (f s, s)

  unfoldable pub lift : Option A → Exec S A
  lift none s = none
  lift (some a) s = some (a, s)

module _ {ℓ} {S A B : Type ℓ} where
  abbrev pub continue : Option (A × S) → (A → Exec S B) → Option (B × S)
  continue none f = none
  continue (some (a, s)) f = f a s

  infixl 10 ◌>>=◌ ◌>>◌
  unfoldable pub ◌>>=◌ : Exec S A → (A → Exec S B) → Exec S B
  ◌>>=◌ m f s = continue (m s) f

  abbrev pub ◌>>◌ : Exec S A → Exec S B → Exec S B
  m >> n = m >>= λ _. n

module _ {S : Type 0} where
  unfoldable pub modify : (S → S) → Exec S (Unit {0})
  modify f s = some (tt, f s)

  -- `assert(b)`.
  unfoldable pub require : Bool → Exec S (Unit {0})
  require true s = some (tt, s)
  require false s = none

  -- A loop over the elements of a container.
  unfoldable pub each : {A : Type 0} → (A → Exec S (Unit {0})) → List A → Exec S (Unit {0})
  each f [] = pure tt
  each f (a ∷ rest) = f a >> each f rest
