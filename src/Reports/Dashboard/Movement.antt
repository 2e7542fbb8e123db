-- ===== src/Reports/Dashboard/Movement.antt =====
-- The months of the dashboard: `getMovementSeries`. Which months there are, with the time at which each
-- begins and ends, is the calendar of the database.
use coffee_traceability_back.Prelude.{
  ℕ, ◌==◌, ◌&&◌, Bool, none, some, List, select, sum_by, map, or_else, leb, ltb,
}
use coffee_traceability_back.Schema.{
  Text, CoffeeBatch, Delivery, ProcessingRecord, OwnershipTransfer, is_confirmed, Trade,
}
use coffee_traceability_back.Reports.Dashboard.Grouping.{is_scoped, batch_by_id}

pub record MovementPoint : Type 0 where
  pub period : Text
  pub received_kg : ℕ
  pub processed_kg : ℕ
  pub sold_kg : ℕ

-- A row of the spine.
pub record Bucket : Type 0 where
  pub period : Text
  pub start : ℕ
  pub end : ℕ

abbrev pub in_bucket : Bucket → ℕ → Bool
in_bucket month date = leb month.start date && ltb date month.end

abbrev pub weight_of_batch : List CoffeeBatch → ℕ → ℕ
weight_of_batch batches id = elim (batch_by_id id batches) [ none ↦ 0 | some b ↦ b.total_weight_kg ]

abbrev pub received_in : ℕ → Trade → Bucket → ℕ
received_in cooperative_id t month =
    sum_by (λ (d : Delivery). d.weight_kg)
      (select
        (λ (d : Delivery). d.cooperative_id == cooperative_id && in_bucket month d.delivery_date)
        t.deliveries)

-- `COALESCE(p.output_weight_kg, b.total_weight_kg)`
abbrev pub processed_in : ℕ → Trade → Bucket → ℕ
processed_in cooperative_id t month =
    sum_by
      (λ (r : ProcessingRecord). or_else r.output_weight_kg (weight_of_batch t.batches r.batch_id))
      (select
        (λ (r : ProcessingRecord).
          is_scoped cooperative_id t.batches r.batch_id && in_bucket month r.start_date)
        t.processing_records)

-- The weight of the batch for each confirmed transfer of the month.
abbrev pub sold_in : ℕ → Trade → Bucket → ℕ
sold_in cooperative_id t month =
    sum_by (λ (x : OwnershipTransfer). weight_of_batch t.batches x.batch_id)
      (select
        (λ (x : OwnershipTransfer).
          is_scoped cooperative_id t.batches x.batch_id
          && is_confirmed x.status
          && in_bucket month x.transferred_at)
        t.transfers)

abbrev pub get_movement_series : ℕ → List Bucket → Trade → List MovementPoint
get_movement_series cooperative_id spine t =
    map
      (λ (month : Bucket). (record {
        period = month.period;
        received_kg = received_in cooperative_id t month;
        processed_kg = processed_in cooperative_id t month;
        sold_kg = sold_in cooperative_id t month;
      }))
      spine
