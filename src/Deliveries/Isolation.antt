-- ===== src/Deliveries/Isolation.antt =====
-- The assignment of deliveries, for a caller of another cooperative.
use coffee_traceability_back.Prelude.{ℕ, ◌≡◌, some, List}
use coffee_traceability_back.Schema.{CoffeeBatch, Trade}
use coffee_traceability_back.World.{Env}
use coffee_traceability_back.World.Ensures.{Ensures}
use coffee_traceability_back.Scope.{Caller}
use coffee_traceability_back.Scope.Isolation.{IsForeign, Same, isolation_rules}
use coffee_traceability_back.Batches.{find_live}
use coffee_traceability_back.Deliveries.{assign_handler}

module _ (env : Env) (caller : Caller) (t : Trade) where
  pub assign_handler-Same :
      (id : ℕ) (ids : List ℕ)
      (far : (b : CoffeeBatch) → find_live id t ≡ some b → IsForeign caller b.cooperative_id)
      → Ensures t (Same t) (assign_handler env caller id ids)
  unfolding assign_handler
  assign_handler-Same id ids far = search (isolation_rules, far) depth 16 fits 4000
