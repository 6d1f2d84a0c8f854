-- ===== src/Base/Maps.antt =====
-- A map as a function from native numbers, and its change at one key: std::map, and a heap of objects.
use Prim.Native.Nat.{ℕ}
use mathlib.Core.Path.{◌≡◌, refl, sym, ap, subst, fun_ext}
use mathlib.Core.Logic.{◌≢◌, ◌⊎◌, inl, inr}
use native.Mathlib.Decide.{ℕ_discrete}
use native.Mathlib.Omega.{arith}
use xjblg.Base.Tests.{◌==◌, if◌then◌else◌, ==_iff, either}

module _ {ℓ} {A : Type ℓ} where
  unfoldable pub put : (ℕ → A) → ℕ → A → ℕ → A
  put m k v j = if j == k then v else m j

  pub put-same : (m : ℕ → A) (k : ℕ) (v : A) → put m k v k ≡ v
  unfolding put
  put-same m k v = ground arith

  pub put-put : (m : ℕ → A) (k : ℕ) (v w : A) → put (put m k v) k w ≡ put m k w
  unfolding put
  put-put m k v w = fun_ext λ j. ground arith

  pub put-id : (m : ℕ → A) (k : ℕ) → put m k (m k) ≡ m
  unfolding put
  put-id m k =
      fun_ext λ j.
        either (λ x. x ≡ m j) (j == k) (m k) (m j) (λ h. ap m (sym ((==_iff j k).0 h))) λ h. refl

  pub put-known : (m : ℕ → A) (k : ℕ) (v : A) → m k ≡ v → put m k v ≡ m
  put-known m k v e = rw (sym e) (put-id m k)

  pub put-other : (m : ℕ → A) (k : ℕ) (v : A) (j : ℕ) → j ≢ k → put m k v j ≡ m j
  unfolding put
  put-other m k v j ne = ground arith

pub ℕ-cases : (a b : ℕ) → (a ≡ b) ⊎ (a ≢ b)
ℕ-cases a b = elim (ℕ_discrete a b) [ yes e ↦ inl e | no ne ↦ inr ne ]

-- What holds at the changed key and at each other one holds at every key.
pub put-every {ℓ κ} :
    {A : Type ℓ} (P : ℕ → A → Type κ) (m : ℕ → A) (k : ℕ) (v : A)
    → P k v
    → ((j : ℕ) → j ≢ k → P j (m j))
    → (j : ℕ) → P j (put m k v j)
unfolding put
put-every P m k v here there j =
    either (P j) (j == k) v (m j) (λ h. subst (λ i. P i v) (sym ((==_iff j k).0 h)) here)
      λ h. there j λ e. ground arith
