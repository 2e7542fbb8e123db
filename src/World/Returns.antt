-- ===== src/World/Returns.antt =====
-- What an action returns, where it returns.
use coffee_traceability_back.Prelude.{◌≡◌, refl, Bool, true, false}
use coffee_traceability_back.Errors.{Failure, Result, ok, err}
use coffee_traceability_back.World.{World, M, continue, ◌>>=◌, ◌>>◌, raise_if}

abbrev pub IfOk {ℓ κ} : {A : Type ℓ} → (A → Type κ) → Result A → Type κ
IfOk Q (ok a) = Q a
IfOk Q (err e) = Unit

pub record Returns {ℓ κ} {A : Type ℓ} (Q : A → Type κ) (m : M A) : Type κ where
  pub at : (w : World) → IfOk Q (m w).0

module _ {ℓ κ μ ν} {A : Type ℓ} {B : Type κ} {R : A → Type μ} {Q : B → Type ν} where
  Returns-continue :
      (r : Result A) (f : A → M B) (w : World)
      → ((a : A) → R a → Returns Q (f a))
      → IfOk R r
      → IfOk Q (continue r f w).0
  Returns-continue (ok a) f w k h = (k a h).at w
  Returns-continue (err e) f w k h = tt

  pub Returns-bind :
      (m : M A) (f : A → M B)
      → Returns R m
      → ((a : A) → R a → Returns Q (f a))
      → Returns Q (m >>= f)
  Returns-bind m f h k = record {
    at = λ w. let (r, w') = m w in Returns-continue r f w' k (h.at w);
  }

any_result {ℓ} : {A : Type ℓ} (r : Result A) → IfOk (λ (a : A). Unit {0}) r
any_result (ok a) = tt
any_result (err e) = tt

-- Nothing is said of the value.
pub Returns-any {ℓ} : {A : Type ℓ} (m : M A) → Returns (λ (a : A). Unit {0}) m
Returns-any m = record { at = λ w. any_result (m w).0 }

imp_result {ℓ κ μ} :
    {A : Type ℓ} {Q : A → Type κ} {R : A → Type μ} (r : Result A)
    → ((a : A) → Q a → R a)
    → IfOk Q r
    → IfOk R r
imp_result (ok a) k h = k a h
imp_result (err e) k h = tt

pub Returns-imp {ℓ κ μ} :
    {A : Type ℓ} {Q : A → Type κ} {R : A → Type μ} (m : M A)
    → ((a : A) → Q a → R a)
    → Returns Q m
    → Returns R m
Returns-imp m k h = record { at = λ w. imp_result (m w).0 k (h.at w) }

-- Behind a check.
pub Returns-guard {ℓ κ} :
    {A : Type ℓ} {Q : A → Type κ} (b : Bool) (e : Failure) (m : M A)
    → (b ≡ false → Returns Q m)
    → Returns Q (raise_if b e >> m)
Returns-guard true e m k = record { at = λ w. tt }
Returns-guard false e m k = k refl
