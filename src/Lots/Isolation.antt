-- ===== src/Lots/Isolation.antt =====
-- The sale of a lot and its confirmation, for a caller of another cooperative.
use coffee_traceability_back.Prelude.{ℕ, ◌≡◌, some}
use coffee_traceability_back.Schema.{BatchGroup, Trade}
use coffee_traceability_back.World.{Env}
use coffee_traceability_back.World.Ensures.{Ensures}
use coffee_traceability_back.Scope.{Caller}
use coffee_traceability_back.Scope.Isolation.{IsForeign, Same, isolation_rules}
use coffee_traceability_back.Lots.{SaleInput, find_group, sell_handler, confirm_sale_handler}

module _ (env : Env) (caller : Caller) (t : Trade) where
  pub sell_handler-Same :
      (id : ℕ) (body : SaleInput)
      (far : (g : BatchGroup) → find_group id t ≡ some g → IsForeign caller g.cooperative_id)
      → Ensures t (Same t) (sell_handler env caller id body)
  unfolding sell_handler
  sell_handler-Same id body far = search (isolation_rules, far) depth 16 fits 4000

  pub confirm_sale_handler-Same :
      (id : ℕ)
      (far : (g : BatchGroup) → find_group id t ≡ some g → IsForeign caller g.cooperative_id)
      → Ensures t (Same t) (confirm_sale_handler env caller id)
  unfolding confirm_sale_handler
  confirm_sale_handler-Same id far = search (isolation_rules, far) depth 16 fits 4000
