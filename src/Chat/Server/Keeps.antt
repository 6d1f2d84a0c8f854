-- ===== src/Chat/Server/Keeps.antt =====
-- What an action keeps, if it returns: one rule for each way to build an action.
use mathlib.Core.Path.{subst}
use xjblg.Base.{◌≡◌, refl, Bool, true, false, Option, none, some, List, [], ◌∷◌, if◌then◌else◌}
use xjblg.Chat.Exec.{Exec, pure, raise, gets, lift, modify, require, each, continue, ◌>>=◌}

-- Whatever `m` returns, `Holds` holds behind it where it held before.
pub record Keeps {ℓ} {S A : Type ℓ} (Holds : S → Type ℓ) (m : Exec S A) : Type ℓ where
  pub behind : (s s' : S) (a : A) → Holds s → m s ≡ some (a, s') → Holds s'

module _ {ℓ} {S A : Type ℓ} {Holds : S → Type ℓ} where
  pub Keeps-pure : (a : A) → Keeps Holds (pure a)
  unfolding pure
  Keeps-pure a = record { behind = λ s s' b h e. subst Holds (cc) h }

  pub Keeps-raise : Keeps Holds (raise {A = A})
  unfolding raise
  Keeps-raise = record { behind = λ s s' b h e. cc }

  pub Keeps-gets : (f : S → A) → Keeps Holds (gets f)
  unfolding gets
  Keeps-gets f = record { behind = λ s s' b h e. subst Holds (cc) h }

  pub Keeps-lift : (o : Option A) → Keeps Holds (lift o)
  unfolding lift
  Keeps-lift none = record { behind = λ s s' b h e. cc }
  Keeps-lift (some a) = record { behind = λ s s' b h e. subst Holds (cc) h }

module _ {ℓ} {S A B : Type ℓ} where
  -- Inversion of a block that returned.
  pub continue-eq-some :
      (o : Option (A × S)) (f : A → Exec S B) {r : B × S}
      → continue o f ≡ some r
      → (a : A) × (t : S) × (o ≡ some (a, t)) × (f a t ≡ some r)
  continue-eq-some none f h = cc
  continue-eq-some (some (a, t)) f h = (a, t, refl, h)

module _ {ℓ} {S A B : Type ℓ} {Holds : S → Type ℓ} where
  -- The rest of the block, from what the first action returned.
  Keeps-continue :
      (o : Option (A × S)) (f : A → Exec S B) (s' : S) (b : B)
      → ((a : A) (t : S) → o ≡ some (a, t) → Holds t)
      → ((a : A) → Keeps Holds (f a))
      → continue o f ≡ some (b, s')
      → Holds s'
  Keeps-continue none f s' b h kf e = cc
  Keeps-continue (some (a, t)) f s' b h kf e = (kf a).behind t s' b (h a t refl) e

  pub Keeps-bind :
      (act : Exec S A) (next : A → Exec S B)
      → Keeps Holds act
      → ((a : A) → Keeps Holds (next a))
      → Keeps Holds (act >>= next)
  unfolding ◌>>=◌
  Keeps-bind act next first rest = record {
    behind =
        λ s s' b held e. Keeps-continue (act s) next s' b (λ a t. first.behind s t a held) rest e;
  }

module _ {S : Type 0} {Holds : S → Type 0} where
  pub Keeps-modify : (f : S → S) → ((s : S) → Holds s → Holds (f s)) → Keeps Holds (modify f)
  unfolding modify
  Keeps-modify f k = record { behind = λ s s' a h e. subst Holds (cc) (k s h) }

  -- A test is decided, so one of the two branches is what is done.
  pub Keeps-if :
      {A : Type 0} (test : Bool) (yea nay : Exec S A)
      → Keeps Holds yea
      → Keeps Holds nay
      → Keeps Holds (if test then yea else nay)
  Keeps-if true yea nay kept other = kept
  Keeps-if false yea nay kept other = other

  pub Keeps-require : (b : Bool) → Keeps Holds (require b)
  unfolding require
  Keeps-require true = record { behind = λ s s' a h e. subst Holds (cc) h }
  Keeps-require false = record { behind = λ s s' a h e. cc }

  pub Keeps-each :
      {A : Type 0} (f : A → Exec S (Unit {0})) (l : List A)
      → ((a : A) → Keeps Holds (f a))
      → Keeps Holds (each f l)
  unfolding each
  Keeps-each f [] k = Keeps-pure tt
  Keeps-each f (a ∷ rest) k = Keeps-bind (f a) (λ _. each f rest) (k a) (λ _. Keeps-each f rest k)

pub ruleset keeps_rules = (
  Keeps-pure, Keeps-raise, Keeps-gets, Keeps-lift, Keeps-if, Keeps-bind, Keeps-require, Keeps-each,
)
