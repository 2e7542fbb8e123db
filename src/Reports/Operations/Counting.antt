-- ===== src/Reports/Operations/Counting.antt =====
-- The groups of the operations summary against the batches that they count.
use native.Mathlib.Nat.{div-add-mod, mod-lt}
use coffee_traceability_back.Prelude.{
  ◌*◌, ◌≤◌, ◌<◌, ltb, ◌%◌, ℕ, ◌≡◌, ◌+◌, refl, ◌∙◌, Bool, true, List, [], ◌∷◌, select, sum_by,
  length, arith, if◌then◌else◌,
}
use coffee_traceability_back.Schema.{CoffeeBatch, Delivery, BatchStatus, same_status}
use coffee_traceability_back.World.{Env, World}
use coffee_traceability_back.Reports.Range.{DateRange}
use coffee_traceability_back.Reports.Operations.{
  add_to_group, group_statuses, average, is_delivered, is_counted, get_operations_summary,
}

-- What the groups of the status count.
abbrev pub counted_as : BatchStatus → List (BatchStatus × ℕ) → ℕ
counted_as s groups = sum_by (λ (g : BatchStatus × ℕ). if same_status g.0 s then g.1 else 0) groups

abbrev pub has_status : BatchStatus → CoffeeBatch → Bool
has_status s b = same_status b.status s

counted_as-add_to_group :
    (s t : BatchStatus) (groups : List (BatchStatus × ℕ))
    → counted_as s (add_to_group t groups)
      ≡ (if same_status t s then 1 else 0) + counted_as s groups
counted_as-add_to_group s t [] = ground arith
counted_as-add_to_group s t ((u, n) ∷ groups) = ground (arith, counted_as-add_to_group s t groups)

counted_as-group_statuses :
    (s : BatchStatus) (bs : List CoffeeBatch) (groups : List (BatchStatus × ℕ))
    → counted_as s (group_statuses bs groups)
      ≡ length (select (has_status s) bs) + counted_as s groups
counted_as-group_statuses s [] groups = omega arith
counted_as-group_statuses s (b ∷ bs) groups = ground (
  arith,
  counted_as-group_statuses s bs (add_to_group b.status groups),
  counted_as-add_to_group s b.status groups,
)

unfoldable pub all_counted : List (BatchStatus × ℕ) → ℕ
all_counted groups = sum_by (λ (g : BatchStatus × ℕ). g.1) groups

all-add_to_group :
    (t : BatchStatus) (groups : List (BatchStatus × ℕ))
    → all_counted (add_to_group t groups) ≡ 1 + all_counted groups
unfolding all_counted
all-add_to_group t [] = refl
all-add_to_group t ((u, n) ∷ groups) = ground (arith, all-add_to_group t groups)

all-group_statuses :
    (bs : List CoffeeBatch) (groups : List (BatchStatus × ℕ))
    → all_counted (group_statuses bs groups) ≡ length bs + all_counted groups
unfolding all_counted
all-group_statuses [] groups = omega arith
all-group_statuses (b ∷ bs) groups =
    ground (
      arith,
      all-group_statuses bs (add_to_group b.status groups),
      all-add_to_group b.status groups,
    )

-- An average is the total over the count, rounded to the nearest.
abbrev pub IsNearest : ℕ → ℕ → ℕ → Type 0
IsNearest total count average_ =
    (2 * count * average_ ≤ 2 * total + count) × (2 * total ≤ 2 * count * average_ + count)

average-IsNearest : (total count : ℕ) → 0 < count → IsNearest total count (average total count)
average-IsNearest total count some_ =
    let whole = div-add-mod (2 * total + count) (2 * count) in
    let part : (2 * total + count) % (2 * count) < 2 * count = mod-lt _ (omega arith) in
    let counted : ltb 0 count ≡ true = ground (arith, some_) in
    rw counted (ground (arith, whole, part), ground (arith, whole, part))

average-deliveries :
    (ds : List Delivery)
    → (let total = sum_by (λ (d : Delivery). d.weight_kg) ds in
        IsNearest total (length ds) (average total (length ds)))
average-deliveries [] = (omega arith, omega arith)
average-deliveries (d ∷ ds) = average-IsNearest _ (length (d ∷ ds)) (omega arith)

-- The operations summary, for a period and a cooperative: its groups count each live batch of the
-- cooperative once, those of a status under that status, and the average weight times the number of
-- deliveries is the total weight, up to half a hundredth for each delivery.
pub get_operations_summary-Counts :
    (env : Env) (cooperative_id : ℕ) (range : DateRange) (w : World) (s : BatchStatus)
    → (let summary = get_operations_summary env cooperative_id range w in
        let live = select (is_counted cooperative_id) w.db.trade.batches in
        (counted_as s summary.batches_by_status ≡ length (select (has_status s) live))
        × (all_counted summary.batches_by_status ≡ length live)
        × IsNearest summary.total_weight_kg summary.total_deliveries
            summary.avg_weight_per_delivery)
unfolding get_operations_summary all_counted
get_operations_summary-Counts env cooperative_id range w s =
    let live = select (is_counted cooperative_id) w.db.trade.batches in
    (
      counted_as-group_statuses s live [] ∙ omega arith,
      all-group_statuses live [] ∙ omega arith,
      average-deliveries (select (is_delivered cooperative_id range) w.db.trade.deliveries),
    )
