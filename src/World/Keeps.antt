-- ===== src/World/Keeps.antt =====
-- Properties of the database that an action keeps, one rule for each way to build an action.
use coffee_traceability_back.Prelude.{
  ℕ, ◌≡◌, refl, sym, subst, Bool, true, false, Option, none, some, List, [], ◌∷◌, if◌then◌else◌,
}
use coffee_traceability_back.Errors.{Failure, Result, ok, err}
use coffee_traceability_back.Schema.{Trade}
use coffee_traceability_back.World.{
  Env, Db, World, M, pure, raise, gets, or_raise, with_transaction, settle, continue, ◌>>=◌, ◌>>◌,
  raise_if, when, when_some, safely, attempt, on_failure, for_each, modify_db, new_date,
  next_outage, new_id, reserve_ids,
}

-- The action keeps `P` of the database, whether it returns or throws.
pub record Keeps {ℓ} {A : Type ℓ} (P : Db → Type 0) (m : M A) : Type ℓ where
  pub at : (w : World) → P w.db → P (m w).1.db

module _ {ℓ} {A : Type ℓ} (P : Db → Type 0) where
  Keeps-settle : (r : Result A) (w w' : World) → P w.db → P w'.db → P (settle r w w').1.db
  Keeps-settle (ok a) w w' h h' = h'
  Keeps-settle (err e) w w' h h' = h

module _ {ℓ} {A : Type ℓ} {P : Db → Type 0} where
  pub Keeps-pure : (a : A) → Keeps P (pure a)
  Keeps-pure a = record { at = λ w h. h }

  pub Keeps-raise : (e : Failure) → Keeps P (raise {A = A} e)
  Keeps-raise e = record { at = λ w h. h }

  pub Keeps-gets : (f : World → A) → Keeps P (gets f)
  Keeps-gets f = record { at = λ w h. h }

  pub Keeps-or_raise : (o : Option A) (e : Failure) → Keeps P (or_raise o e)
  Keeps-or_raise none e = Keeps-raise e
  Keeps-or_raise (some a) e = Keeps-pure a

  pub Keeps-if : (b : Bool) (m n : M A) → Keeps P m → Keeps P n → Keeps P (if b then m else n)
  Keeps-if true m n km kn = km
  Keeps-if false m n km kn = kn

  pub Keeps-with_transaction : (m : M A) → Keeps P m → Keeps P (with_transaction m)
  unfolding with_transaction
  Keeps-with_transaction m k = record {
    at = λ w h. let (r, w') = m w in Keeps-settle P r w w' h (k.at w h);
  }

module _ {ℓ κ} {A : Type ℓ} {B : Type κ} {P : Db → Type 0} where
  Keeps-continue :
      (r : Result A) (f : A → M B) (w : World)
      → ((a : A) → Keeps P (f a))
      → P w.db
      → P (continue r f w).1.db
  Keeps-continue (ok a) f w k h = (k a).at w h
  Keeps-continue (err e) f w k h = h

  pub Keeps-bind :
      (m : M A) (f : A → M B) → Keeps P m → ((a : A) → Keeps P (f a)) → Keeps P (m >>= f)
  Keeps-bind m f km kf = record {
    at = λ w h. let (r, w') = m w in Keeps-continue r f w' kf (km.at w h);
  }

  pub Keeps-then : (m : M A) (n : M B) → Keeps P m → Keeps P n → Keeps P (m >> n)
  Keeps-then m n km kn = Keeps-bind m (λ _. n) km (λ _. kn)

module _ {P : Db → Type 0} where
  pub Keeps-raise_if : (b : Bool) (e : Failure) → Keeps P (raise_if b e)
  Keeps-raise_if true e = Keeps-raise e
  Keeps-raise_if false e = Keeps-pure tt

  -- Behind a check, its test has failed.
  pub Keeps-guard {κ} :
      {B : Type κ} (b : Bool) (e : Failure) (m : M B)
      → (b ≡ false → Keeps P m)
      → Keeps P (raise_if b e >> m)
  Keeps-guard true e m k = record { at = λ w h. h }
  Keeps-guard false e m k = k refl

  pub Keeps-when : (b : Bool) (m : M (Unit {0})) → Keeps P m → Keeps P (when b m)
  Keeps-when true m k = k
  Keeps-when false m k = Keeps-pure tt

  pub Keeps-when_some {ℓ} :
      {A : Type ℓ} (o : Option A) (f : A → M (Unit {0}))
      → ((a : A) → Keeps P (f a))
      → Keeps P (when_some o f)
  unfolding when_some
  Keeps-when_some none f k = Keeps-pure tt
  Keeps-when_some (some a) f k = k a

  pub Keeps-safely : (m : M (Unit {0})) → Keeps P m → Keeps P (safely m)
  unfolding safely
  Keeps-safely m k = record { at = k.at }

  Keeps-caught :
      (r : Result (Unit {0})) (handler : Failure → M (Unit {0})) (w : World)
      → ((e : Failure) → Keeps P (handler e))
      → P w.db
      → P
          (elim r as (λ _. Result (Unit {0}) × World) [
            | ok a ↦ (ok a, w)
            | err e ↦ handler e w
          ]).1.db
  Keeps-caught (ok a) handler w k h = h
  Keeps-caught (err e) handler w k h = (k e).at w h

  pub Keeps-attempt :
      (m : M (Unit {0})) (handler : Failure → M (Unit {0}))
      → Keeps P m
      → ((e : Failure) → Keeps P (handler e))
      → Keeps P (attempt m handler)
  unfolding attempt
  Keeps-attempt m handler km kh = record {
    at = λ w h. let (r, w') = m w in Keeps-caught r handler w' kh (km.at w h);
  }

  Keeps-failed {ℓ} :
      {A : Type ℓ} (r : Result A) (handler : M (Unit {0})) (w : World)
      → Keeps P handler
      → P w.db
      → P
          (elim r as (λ _. Result A × World) [
            | ok a ↦ (ok a, w)
            | err e ↦ (handler >> raise e) w
          ]).1.db
  Keeps-failed (ok a) handler w k h = h
  Keeps-failed (err e) handler w k h = (Keeps-then handler (raise e) k (Keeps-raise e)).at w h

  pub Keeps-on_failure {ℓ} :
      {A : Type ℓ} (m : M A) (handler : M (Unit {0}))
      → Keeps P m
      → Keeps P handler
      → Keeps P (on_failure m handler)
  unfolding on_failure
  Keeps-on_failure m handler km kh = record {
    at = λ w h. let (r, w') = m w in Keeps-failed r handler w' kh (km.at w h);
  }

  pub Keeps-modify_db : (f : Db → Db) → ((d : Db) → P d → P (f d)) → Keeps P (modify_db f)
  Keeps-modify_db f k = record { at = λ w h. k w.db h }

  pub Keeps-for_each {ℓ} :
      {A : Type ℓ} (xs : List A) (f : A → M (Unit {0}))
      → ((a : A) → Keeps P (f a))
      → Keeps P (for_each xs f)
  unfolding for_each
  Keeps-for_each [] f k = Keeps-pure tt
  Keeps-for_each (x ∷ xs) f k = Keeps-then (f x) (for_each xs f) (k x) (Keeps-for_each xs f k)

  pub Keeps-new_date : (env : Env) → Keeps P (new_date env)
  Keeps-new_date env = record { at = λ w h. h }

  pub Keeps-next_outage : (env : Env) → Keeps P (next_outage env)
  Keeps-next_outage env = record { at = λ w h. h }

  pub Keeps-new_id : (env : Env) → Keeps P (new_id env)
  Keeps-new_id env = record { at = λ w h. h }

-- The identifiers of several rows.
pub Keeps-reserve_ids : {P : Db → Type 0} (n : ℕ) → Keeps P (reserve_ids n)
Keeps-reserve_ids n = record { at = λ w h. h }

-- A property that looks at nothing but the coffee's tables.
pub record IsOutside (P : Db → Type 0) : Type 0 where
  pub carry : (d d' : Db) → d'.trade ≡ d.trade → P d → P d'

pub outside : (Q : Trade → Type 0) → IsOutside (λ d. Q d.trade)
outside Q = record { carry = λ d d' same h. subst Q (sym same) h }

-- A write elsewhere keeps it.
pub Keeps-modify_other :
    {P : Db → Type 0} (f : Db → Db)
    → IsOutside P
    → ((d : Db) → (f d).trade ≡ d.trade)
    → Keeps P (modify_db f)
Keeps-modify_other f out same = record { at = λ w h. out.carry w.db (f w.db) (same w.db) h }

pub ruleset keeps_rules = (
  Keeps-pure, Keeps-raise, Keeps-gets, Keeps-or_raise, Keeps-if, Keeps-with_transaction, Keeps-bind,
  Keeps-then, Keeps-raise_if, Keeps-when, Keeps-when_some, Keeps-next_outage, Keeps-safely,
  Keeps-attempt, Keeps-on_failure, Keeps-for_each, Keeps-new_date, Keeps-new_id, Keeps-reserve_ids,
)
