-- ===== src/Batches/Isolation.antt =====
-- PATCH /batches/:id/status, for a caller of another cooperative.
use coffee_traceability_back.Prelude.{ℕ, ◌≡◌, refl, sym, ◌∙◌, ap, some, Option-cases, inl, inr}
use coffee_traceability_back.Errors.{Result, ok, err}
use coffee_traceability_back.Schema.{BatchStatus, CoffeeBatch, Trade}
use coffee_traceability_back.World.{Env, World, M, continue, ◌>>=◌}
use coffee_traceability_back.World.Ensures.{Ensures, Ensures-bind}
use coffee_traceability_back.Scope.{Caller}
use coffee_traceability_back.Scope.Isolation.{IsForeign, Same, refused}
use coffee_traceability_back.Scope.Effects.{require_permission-Keeps}
use coffee_traceability_back.Batches.{find_live, assert_batch_in_scope, update_status_handler}

module _ (caller : Caller) (t : Trade) (id : ℕ)
    (far : (b : CoffeeBatch) → find_live id t ≡ some b → IsForeign caller b.cooperative_id) where
  Stopped : Result (Unit {0}) × World → Type 0
  Stopped (ok a, w) = ⊥
  Stopped (err e, w) = Same t w.db.trade

  assert_batch_in_scope-Stopped :
      (w : World) → Same t w.db.trade → Stopped (assert_batch_in_scope caller id w)
  unfolding assert_batch_in_scope Stopped
  assert_batch_in_scope-Stopped w same = elim (Option-cases (find_live id w.db.trade)) [
    | inl missing ↦ rw missing same
    | inr (b, found) ↦
        rw (found, refused caller b.cooperative_id (far b (sym (ap (find_live id) same) ∙ found)) w)
          same
  ]

  stop :
      (r : Result (Unit {0})) (w : World) (f : Unit {0} → M CoffeeBatch)
      → Stopped (r, w)
      → Same t (continue r f w).1.db.trade
  unfolding Stopped
  stop (ok a) w f h = absurd h
  stop (err e) w f h = h

  assert-Ensures :
      (f : Unit {0} → M CoffeeBatch) → Ensures t (Same t) (assert_batch_in_scope caller id >>= f)
  assert-Ensures f = record {
    at = λ w same.
        let (r, w') = assert_batch_in_scope caller id w in
        stop r w' f (assert_batch_in_scope-Stopped w same);
  }

  pub update_status_handler-Same :
      (env : Env) (s : BatchStatus) → Ensures t (Same t) (update_status_handler env caller id s)
  unfolding update_status_handler
  update_status_handler-Same env s =
      search (assert-Ensures, Ensures-bind, require_permission-Keeps, refl) depth 8
