-- ===== src/Reports/Dashboard.antt =====
-- The dashboard of modules/reports/dashboard.service.ts: the totals and their trends, and the handler.
-- The month series, the grades, the feed and the ledger's state are in the children.
pub mod Grouping
pub mod Movement
pub mod Grades
pub mod Feed
pub mod ChainState
pub mod Selling
pub mod Series
use coffee_traceability_back.Prelude.{
  ℕ, ◌+◌, ◌-◌, ◌*◌, ◌/◌, ◌==◌, ◌&&◌, Bool, true, not, Option, none, some, List, [], ◌∷◌, select,
  any, sum_by, length, or_else, leb, ltb, if◌then◌else◌,
}
use coffee_traceability_back.Prelude.Int.{ℤ, pos, negsuc}
use coffee_traceability_back.Schema.{
  Text, CoffeeBatch, Delivery, Farmer, WarehouseInventory, OwnershipTransfer, is_confirmed, Trade,
}
use coffee_traceability_back.World.{Env, World, M, pure, gets, ◌>>=◌, ◌>>◌, new_date}
use coffee_traceability_back.Scope.{Caller, assert_ownership, require_permission}
use coffee_traceability_back.Batches.{is_open}
use coffee_traceability_back.Custody.{confirmed_for}
use coffee_traceability_back.Reports.Yield.{ms_per_day, negated}
use coffee_traceability_back.Reports.Dashboard.Grouping.{is_batch_of, is_scoped}
use coffee_traceability_back.Reports.Dashboard.Movement.{Bucket, MovementPoint, get_movement_series}
use coffee_traceability_back.Reports.Dashboard.Grades.{GradeSlice, get_grade_split}
use coffee_traceability_back.Reports.Dashboard.Feed.{ActivityItem, get_activity_feed}
use coffee_traceability_back.Reports.Dashboard.ChainState.{ChainStatus, get_chain_status}

pub record Trends : Type 0 where
  pub farmers : Option ℤ
  pub batches : Option ℤ
  pub received : Option ℤ
  pub sold : Option ℤ

pub record DashboardKpis : Type 0 where
  pub total_farmers : ℕ
  pub total_batches : ℕ
  pub received_kg : ℕ
  pub in_storage_kg : ℕ
  pub sold_kg : ℕ
  pub trends : Trends

pub record CooperativeDashboard : Type 0 where
  pub kpis : DashboardKpis
  pub movement : List MovementPoint
  pub grades : List GradeSlice
  pub activities : List ActivityItem
  pub chain : ChainStatus

-- TREND_WINDOW_DAYS
abbrev trend_window_days : ℕ
trend_window_days = 30

-- `Math.round(((current - previous) / previous) * 1000) / 10`, in tenths, where a half is rounded
-- upwards.
abbrev pub percent_change : ℕ → ℕ → Option ℤ
percent_change current previous =
    if leb previous 0
    then none
    else some (
        if leb previous current
        then pos ((2_000 * (current - previous) + previous) / (2 * previous))
        else negated ((2_000 * (previous - current) + (previous - 1)) / (2 * previous)))

-- A time at or after the first and, where there is a second, before it.
abbrev in_window : ℕ → Option ℕ → ℕ → Bool
in_window from to date = leb from date && elim to [ none ↦ true | some end ↦ ltb date end ]

abbrev pub weight_sold : ℕ → List OwnershipTransfer → List CoffeeBatch → ℕ
weight_sold cooperative_id transfers batches =
    sum_by (λ (b : CoffeeBatch). b.total_weight_kg)
      (select
        (λ (b : CoffeeBatch). is_batch_of cooperative_id b && any (confirmed_for b.id) transfers)
        batches)

-- The weight of each batch with a confirmed transfer, once.
abbrev pub get_sold_weight_kg : ℕ → Trade → ℕ
get_sold_weight_kg cooperative_id t = weight_sold cooperative_id t.transfers t.batches

module _ (cooperative_id : ℕ) (w : World) where
  abbrev count_farmers : (ℕ → Bool) → ℕ
  count_farmers since = length (
      select
        (λ (f : Farmer).
          f.cooperative_id == cooperative_id && not f.is_deleted && since f.created_at)
        w.db.accounts.farmers)

  abbrev count_batches : (ℕ → Bool) → ℕ
  count_batches since = length (
      select (λ (b : CoffeeBatch). is_batch_of cooperative_id b && since b.created_at)
        w.db.trade.batches)

  abbrev weigh_deliveries : (ℕ → Bool) → ℕ
  weigh_deliveries since =
      sum_by (λ (d : Delivery). d.weight_kg)
        (select (λ (d : Delivery). d.cooperative_id == cooperative_id && since d.delivery_date)
          w.db.trade.deliveries)

  abbrev count_sales : (ℕ → Bool) → ℕ
  count_sales since = length (
      select
        (λ (x : OwnershipTransfer).
          is_confirmed x.status
          && since x.transferred_at
          && is_scoped cooperative_id w.db.trade.batches x.batch_id)
        w.db.trade.transfers)

  abbrev pub in_storage_weight : ℕ
  in_storage_weight =
      sum_by (λ (r : WarehouseInventory). r.weight_kg)
        (select
          (λ (r : WarehouseInventory).
            is_open r && is_scoped cooperative_id w.db.trade.batches r.batch_id)
          w.db.trade.inventory)

  -- A trend compares the window with the one before it.
  abbrev trend : ((ℕ → Bool) → ℕ) → ℕ → ℕ → Option ℤ
  trend count window_start baseline_start =
      percent_change (count (in_window window_start none))
        (count (in_window baseline_start (some window_start)))

  abbrev pub kpis_of : ℕ → ℕ → DashboardKpis
  kpis_of window_start baseline_start = record {
    total_farmers = count_farmers (λ date. true);
    total_batches = count_batches (λ date. true);
    received_kg = weigh_deliveries (λ date. true);
    in_storage_kg = in_storage_weight;
    sold_kg = get_sold_weight_kg cooperative_id w.db.trade;
    trends = record {
      farmers = trend count_farmers window_start baseline_start;
      batches = trend count_batches window_start baseline_start;
      received = trend weigh_deliveries window_start baseline_start;
      sold = trend count_sales window_start baseline_start;
    };
  }

-- `Math.min(Math.max(option ?? default, 1), most)`
abbrev clamp : ℕ → ℕ → Option ℕ → ℕ
clamp default_ most option =
    let given = or_else option default_ in
    if leb given 1 then 1 else if leb most given then most else given

-- `now() - n days`, which is never before the epoch.
abbrev days_before : ℕ → ℕ → ℕ
days_before days now = now - days * ms_per_day

unfoldable pub get_cooperative_dashboard :
    Env → (ℕ → ℕ → List Bucket) → ℕ → Option ℕ → Option ℕ → M CooperativeDashboard
get_cooperative_dashboard env spine cooperative_id months activity_limit = do
  now ← new_date env
  later ← new_date env
  at ← new_date env
  gets (λ w. record {
    kpis =
        kpis_of cooperative_id w (days_before trend_window_days now)
          (days_before (2 * trend_window_days) later);
    movement = get_movement_series cooperative_id (spine (clamp 6 24 months) at) w.db.trade;
    grades = get_grade_split cooperative_id w.db.trade;
    activities = get_activity_feed cooperative_id (clamp 8 50 activity_limit) w;
    chain = get_chain_status env cooperative_id w;
  })

-- A number of months that cannot be read is no option; 0 stands for those below one.
unfoldable pub dashboard_handler :
    Env → (ℕ → ℕ → List Bucket) → Caller → ℕ → Option ℕ → M CooperativeDashboard
dashboard_handler env spine caller cooperative_id months = do
  require_permission env ("reports:view" ∷ []) caller
  assert_ownership caller (some cooperative_id)
  get_cooperative_dashboard env spine cooperative_id months none
