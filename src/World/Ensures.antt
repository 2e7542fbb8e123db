-- ===== src/World/Ensures.antt =====
-- Actions that read the coffee's tables first and write later: what holds of the tables that were
-- read is at hand where they are written.
use coffee_traceability_back.Prelude.{◌≡◌, refl, sym, subst, Bool, true, false, Option, none, some}
use coffee_traceability_back.Errors.{Failure, Result, ok, err}
use coffee_traceability_back.Schema.{Trade}
use coffee_traceability_back.World.{
  World, M, gets_trade, or_raise, raise_if, with_transaction, settle, continue, ◌>>=◌, ◌>>◌,
}
use coffee_traceability_back.World.Keeps.{Keeps}

-- From tables equal to `t` the action ends, by return or throw, in a database with `Q`.
pub record Ensures {ℓ} {A : Type ℓ} (t : Trade) (Q : Trade → Type 0) (m : M A) : Type ℓ where
  pub at : (w : World) → w.db.trade ≡ t → Q (m w).1.db.trade

-- The tables stay what they are.
abbrev pub Idle {ℓ} : {A : Type ℓ} → M A → Type ℓ
Idle m = (t : Trade) → Keeps (λ d. d.trade ≡ t) m

module _ {ℓ κ} {A : Type ℓ} {B : Type κ} {t : Trade} {Q : Trade → Type 0} (start : Q t) where
  Ensures-continue :
      (r : Result A) (f : A → M B) (w : World)
      → ((a : A) → r ≡ ok a → Ensures t Q (f a))
      → w.db.trade ≡ t
      → Q (continue r f w).1.db.trade
  Ensures-continue (ok a) f w k e = (k a refl).at w e
  Ensures-continue (err x) f w k e = subst Q (sym e) start

  pub Ensures-bind :
      (m : M A) (f : A → M B) → Idle m → ((a : A) → Ensures t Q (f a)) → Ensures t Q (m >>= f)
  Ensures-bind m f idle k = record {
    at = λ w e. let (r, w') = m w in Ensures-continue r f w' (λ a _. k a) ((idle t).at w e);
  }

  pub Ensures-read :
      (g : Trade → A) (f : A → M B) → Ensures t Q (f (g t)) → Ensures t Q (gets_trade g >>= f)
  Ensures-read g f k = record { at = λ w e. (subst (λ x. Ensures t Q (f (g x))) (sym e) k).at w e }

  pub Ensures-found :
      (o : Option A) (e : Failure) (f : A → M B)
      → ((a : A) → o ≡ some a → Ensures t Q (f a))
      → Ensures t Q (or_raise o e >>= f)
  Ensures-found none e f k = record { at = λ w s. subst Q (sym s) start }
  Ensures-found (some a) e f k = k a refl

module _ {κ} {B : Type κ} {t : Trade} {Q : Trade → Type 0} (start : Q t) where
  pub Ensures-guard :
      (b : Bool) (e : Failure) (m : M B)
      → (b ≡ false → Ensures t Q m)
      → Ensures t Q (raise_if b e >> m)
  Ensures-guard true e m k = record { at = λ w s. subst Q (sym s) start }
  Ensures-guard false e m k = k refl

module _ {ℓ κ} {A : Type ℓ} {B : Type κ} (Q : Trade → Type 0) where
  finish :
      (r : Result A) (f : A → M B) (w : World)
      → ((a : A) → Keeps (λ d. Q d.trade) (f a))
      → Q w.db.trade
      → Q (continue r f w).1.db.trade
  finish (ok a) f w k h = (k a).at w h
  finish (err e) f w k h = h

module _ {ℓ κ} {A : Type ℓ} {B : Type κ} {t : Trade} {Q : Trade → Type 0} where
  -- The step that writes, and those behind it, which keep what it has established.
  pub Ensures-then :
      (m : M A) (f : A → M B)
      → Ensures t Q m
      → ((a : A) → Keeps (λ d. Q d.trade) (f a))
      → Ensures t Q (m >>= f)
  Ensures-then m f k rest = record {
    at = λ w e. let (r, w') = m w in finish Q r f w' rest (k.at w e);
  }

module _ {ℓ} {A : Type ℓ} (Q : Trade → Type 0) where
  Ensures-settle :
      (r : Result A) (w w' : World) → Q w.db.trade → Q w'.db.trade → Q (settle r w w').1.db.trade
  Ensures-settle (ok a) w w' h h' = h'
  Ensures-settle (err e) w w' h h' = h

module _ {ℓ} {A : Type ℓ} {t : Trade} {Q : Trade → Type 0} where
  pub Ensures-transaction : (m : M A) → Q t → Ensures t Q m → Ensures t Q (with_transaction m)
  unfolding with_transaction
  Ensures-transaction m start k = record {
    at = λ w e. let (r, w') = m w in Ensures-settle Q r w w' (subst Q (sym e) start) (k.at w e);
  }
