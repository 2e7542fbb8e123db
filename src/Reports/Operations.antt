-- ===== src/Reports/Operations.antt =====
-- The operations summary of modules/reports/operations.service.ts, and its handler. Weights are
-- hundredths.
pub mod Counting
use coffee_traceability_back.Prelude.{
  ℕ, ◌+◌, ◌*◌, ◌/◌, ◌==◌, ◌&&◌, Bool, not, Option, some, List, [], ◌∷◌, select, sum_by, length, ltb,
  if◌then◌else◌,
}
use coffee_traceability_back.Schema.{Text, CoffeeBatch, BatchStatus, same_status, Delivery, Farmer}
use coffee_traceability_back.World.{Env, World, M, gets, ◌>>=◌, ◌>>◌}
use coffee_traceability_back.Scope.{Caller, assert_ownership, require_permission}
use coffee_traceability_back.Reports.Range.{DateRange, is_in, period}

pub record OperationsSummary : Type 0 where
  pub total_deliveries : ℕ
  pub total_weight_kg : ℕ
  pub avg_weight_per_delivery : ℕ
  pub active_farmers : ℕ
  pub batches_by_status : List (BatchStatus × ℕ)
  pub period : Option (Option Text × Option Text)

-- `groupBy` with a count, each group where its status is first.
abbrev pub add_to_group : BatchStatus → List (BatchStatus × ℕ) → List (BatchStatus × ℕ)
add_to_group s [] = (s, 1) ∷ []
add_to_group s ((t, n) ∷ groups) =
    let rest = add_to_group s groups in
    if same_status t s then (t, n + 1) ∷ groups else (t, n) ∷ rest

abbrev pub group_statuses : List CoffeeBatch → List (BatchStatus × ℕ) → List (BatchStatus × ℕ)
group_statuses [] groups = groups
group_statuses (b ∷ bs) groups = group_statuses bs (add_to_group b.status groups)

abbrev pub is_counted : ℕ → CoffeeBatch → Bool
is_counted cooperative_id b = b.cooperative_id == cooperative_id && not b.is_deleted

abbrev pub is_delivered : ℕ → DateRange → Delivery → Bool
is_delivered cooperative_id range d =
    d.cooperative_id == cooperative_id && is_in range d.delivery_date

abbrev is_active_farmer : ℕ → Farmer → Bool
is_active_farmer cooperative_id f =
    f.cooperative_id == cooperative_id && not f.is_deleted && f.is_active

-- `Math.round((total / count) * 100) / 100`
abbrev pub average : ℕ → ℕ → ℕ
average total count = if ltb 0 count then (2 * total + count) / (2 * count) else 0

unfoldable pub get_operations_summary : Env → ℕ → DateRange → World → OperationsSummary
get_operations_summary env cooperative_id range w =
    let deliveries = select (is_delivered cooperative_id range) w.db.trade.deliveries in
    let total_weight_kg = sum_by (λ (d : Delivery). d.weight_kg) deliveries in
    record {
      total_deliveries = length deliveries;
      total_weight_kg = total_weight_kg;
      avg_weight_per_delivery = average total_weight_kg (length deliveries);
      active_farmers = length (select (is_active_farmer cooperative_id) w.db.accounts.farmers);
      batches_by_status = group_statuses (select (is_counted cooperative_id) w.db.trade.batches) [];
      period = period env range;
    }

unfoldable pub summary_handler : Env → Caller → ℕ → DateRange → M OperationsSummary
summary_handler env caller cooperative_id range = do
  require_permission env ("reports:view" ∷ []) caller
  assert_ownership caller (some cooperative_id)
  gets (get_operations_summary env cooperative_id range)
