-- ===== src/Reports/Dashboard/Selling.antt =====
-- The sold weight of the dashboard against the statuses of the batches.
use coffee_traceability_back.Prelude.{
  ℕ, ◌≤◌, ◌&&◌, List, [], ◌∷◌, select, sum_by, arith, All, Bool-cases, inl, inr,
}
use coffee_traceability_back.Schema.{CoffeeBatch, OwnershipTransfer, Trade}
use coffee_traceability_back.Custody.{IsSound, SoldBy, was_sold}
use coffee_traceability_back.Reports.Dashboard.Grouping.{is_batch_of}
use coffee_traceability_back.Reports.Dashboard.{weight_sold, get_sold_weight_kg}

-- The weight of the live batches of the cooperative that are SOLD or EXPORTED.
abbrev pub weight_by_status : ℕ → List CoffeeBatch → ℕ
weight_by_status cooperative_id batches =
    sum_by (λ (b : CoffeeBatch). b.total_weight_kg)
      (select (λ (b : CoffeeBatch). is_batch_of cooperative_id b && was_sold b.status) batches)

weight_by_status-AtMost :
    (cooperative_id : ℕ) (transfers : List OwnershipTransfer) (batches : List CoffeeBatch)
    → All (SoldBy transfers) batches
    → weight_by_status cooperative_id batches ≤ weight_sold cooperative_id transfers batches
weight_by_status-AtMost cooperative_id transfers [] sold = omega arith
weight_by_status-AtMost cooperative_id transfers (b ∷ bs) sold =
    let rest = weight_by_status-AtMost cooperative_id transfers bs sold.1 in
    elim (Bool-cases (was_sold b.status)) [
      | inl reached ↦ ground (arith, reached, sold.0 reached, rest)
      | inr other ↦ ground (arith, other, rest)
    ]

-- Over sound tables, the sold weight on the dashboard leaves out no live batch of the cooperative that
-- is SOLD or EXPORTED.
pub get_sold_weight_kg-AtLeast :
    (cooperative_id : ℕ) (t : Trade)
    → IsSound t
    → weight_by_status cooperative_id t.batches ≤ get_sold_weight_kg cooperative_id t
get_sold_weight_kg-AtLeast cooperative_id t sound =
    weight_by_status-AtMost cooperative_id t.transfers t.batches sound.sales
