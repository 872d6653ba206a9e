-- ===== src/Base/Returns.antt =====
-- The rules for a chain of steps that ends with a value of a given property.
use mathlib.Core.Path.{◌≡◌, refl, subst}
use mathlib.Core.Bool.{Bool, true, false}
use mathlib.Core.Option.{Option, some}
use support_proxy.Base.Tests.{if◌then◌else◌, ◌>>=◌}

pub data Returns {ℓ κ} {A : Type ℓ} (P : A → Type κ) : Option A → Type (ℓ ⊔ κ) where
  returns : {a : A} → P a → Returns P (some a)

module _ {ℓ κ} {A : Type ℓ} {P : A → Type κ} where
  pub Returns-then {ℓ' κ'} :
      {B : Type ℓ'} {Q : B → Type κ'} {o : Option A} {next : A → Option B}
      → Returns P o
      → ((a : A) → P a → Returns Q (next a))
      → Returns Q (o >>= next)
  Returns-then (returns p) k = k _ p

  pub Returns-weaken {κ'} :
      {Q : A → Type κ'} {o : Option A} → Returns P o → ((a : A) → P a → Q a) → Returns Q o
  Returns-weaken (returns p) k = returns (k _ p)

  pub Returns-test :
      (t : Bool) {x y : Option A}
      → (t ≡ true → Returns P x)
      → (t ≡ false → Returns P y)
      → Returns P (if t then x else y)
  Returns-test true f g = f refl
  Returns-test false f g = g refl

  pub Returns-inv : {o : Option A} → Returns P o → (a : A) × (o ≡ some a) × P a
  Returns-inv (returns p) = (_, refl, p)

  pub Returns-at : {o : Option A} {a : A} → Returns P o → o ≡ some a → P a
  Returns-at x e = let (b, at, p) = Returns-inv x in let same : b ≡ _ = cc (at, e) in subst P same p
