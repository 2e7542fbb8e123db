-- ===== src/World/Success.antt =====
-- What has run where an action that is composed of others succeeds.
use coffee_traceability_back.Prelude.{◌≡◌, refl, ap, Bool, true, false}
use coffee_traceability_back.Errors.{Failure, Result, ok, err}
use coffee_traceability_back.World.{World, M, continue, ◌>>=◌, ◌>>◌, raise_if}

module _ {ℓ κ} {A : Type ℓ} {B : Type κ} where
  continue-ok :
      (r : Result A) (f : A → M B) (w : World) {b : B} {w' : World}
      → continue r f w ≡ (ok b, w')
      → (a : A) × (r ≡ ok a) × (f a w ≡ (ok b, w'))
  continue-ok (ok a) f w h = (a, refl, h)
  continue-ok (err e) f w h = cc

  pub bind-ok :
      (m : M A) (f : A → M B) (w : World) {b : B} {w' : World}
      → (m >>= f) w ≡ (ok b, w')
      → (a : A) × (before : World) × (m w ≡ (ok a, before)) × (f a before ≡ (ok b, w'))
  bind-ok m f w h =
      let (a, same, rest) = continue-ok (m w).0 f (m w).1 h in
      (a, (m w).1, ap (λ r. (r, (m w).1)) same, rest)

pub guard-ok {ℓ} :
    {A : Type ℓ} (b : Bool) (e : Failure) (m : M A) (w : World) {a : A} {w' : World}
    → (raise_if b e >> m) w ≡ (ok a, w')
    → (b ≡ false) × (m w ≡ (ok a, w'))
guard-ok true e m w h = cc
guard-ok false e m w h = (refl, h)
