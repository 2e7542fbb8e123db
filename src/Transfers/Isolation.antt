-- ===== src/Transfers/Isolation.antt =====
-- The opening and the confirmation of a transfer, for a caller of another cooperative.
use coffee_traceability_back.Prelude.{ℕ, ◌≡◌, some}
use coffee_traceability_back.Schema.{CoffeeBatch, OwnershipTransfer, Trade}
use coffee_traceability_back.World.{Env}
use coffee_traceability_back.World.Ensures.{Ensures}
use coffee_traceability_back.Scope.{Caller}
use coffee_traceability_back.Scope.Isolation.{IsForeign, Same, isolation_rules}
use coffee_traceability_back.Batches.{find_live, find_batch}
use coffee_traceability_back.Transfers.{
  TransferInput, find_transfer, initiate_handler, confirm_handler,
}

module _ (env : Env) (caller : Caller) (t : Trade) where
  pub initiate_handler-Same :
      (body : TransferInput)
      (far : (b : CoffeeBatch)
        → find_live body.batch_id t ≡ some b
        → IsForeign caller b.cooperative_id)
      → Ensures t (Same t) (initiate_handler env caller body)
  unfolding initiate_handler
  initiate_handler-Same body far = search (isolation_rules, far) depth 16 fits 4000

  pub confirm_handler-Same :
      (id : ℕ)
      (far : (x : OwnershipTransfer) (b : CoffeeBatch)
        → find_transfer id t ≡ some x
        → find_batch x.batch_id t ≡ some b
        → IsForeign caller b.cooperative_id)
      → Ensures t (Same t) (confirm_handler env caller id)
  unfolding confirm_handler
  confirm_handler-Same id far = search (isolation_rules, far) depth 16 fits 4000
