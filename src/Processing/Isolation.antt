-- ===== src/Processing/Isolation.antt =====
-- POST /processing, for a caller of another cooperative.
use coffee_traceability_back.Prelude.{◌≡◌, some}
use coffee_traceability_back.Schema.{CoffeeBatch, Trade}
use coffee_traceability_back.World.{Env}
use coffee_traceability_back.World.Ensures.{Ensures}
use coffee_traceability_back.Scope.{Caller}
use coffee_traceability_back.Scope.Isolation.{IsForeign, Same, isolation_rules}
use coffee_traceability_back.Batches.{find_live}
use coffee_traceability_back.Processing.{ProcessingInput, create_handler}

module _ (env : Env) (caller : Caller) (t : Trade) where
  pub create_handler-Same :
      (body : ProcessingInput)
      (far : (b : CoffeeBatch)
        → find_live body.batch_id t ≡ some b
        → IsForeign caller b.cooperative_id)
      → Ensures t (Same t) (create_handler env caller body)
  unfolding create_handler
  create_handler-Same body far = search (isolation_rules, far) depth 16 fits 4000
