-- ===== src/Reports/Sales.antt =====
-- The sales and transfer ledger of modules/reports/sales.service.ts, and its handler. Prices and
-- weights are hundredths, and a value is rounded from ten-thousandths.
pub mod Covering
use coffee_traceability_back.Prelude.{
  true, ℕ, ◌*◌, ◌==◌, String, Bool, Option, none, some, List, [], ◌∷◌, select, find?, sum_by,
  order_desc, map, if◌then◌else◌,
}
use coffee_traceability_back.Schema.{
  Text, CoffeeBatch, OwnershipTransfer, TransferStatus, is_confirmed, is_pending, Buyer,
}
use coffee_traceability_back.World.{Env, World, M, gets, ◌>>=◌, ◌>>◌}
use coffee_traceability_back.Scope.{Caller, assert_ownership, require_permission}
use coffee_traceability_back.Batches.{is_live}
use coffee_traceability_back.Reports.Range.{DateRange, is_in, period}
use coffee_traceability_back.Reports.Statement.{round2}

pub record SalesLedgerRow : Type 0 where
  pub batch_code : Text
  pub buyer_name : Option String
  pub country : Option String
  pub sale_price_per_kg : Option ℕ
  pub batch_weight_kg : ℕ
  pub total_value : ℕ
  pub status : TransferStatus
  pub transferred_at : Text

pub record SalesLedger : Type 0 where
  pub rows : List SalesLedgerRow
  pub confirmed_value : ℕ
  pub pending_value : ℕ
  pub period : Option (Option Text × Option Text)

-- Each transfer with its batch, where that is live and the cooperative's.
abbrev pub with_batch :
    ℕ → List CoffeeBatch → List OwnershipTransfer → List (OwnershipTransfer × CoffeeBatch)
with_batch cooperative_id batches [] = []
with_batch cooperative_id batches (x ∷ xs) =
    let rest = with_batch cooperative_id batches xs in
    elim (find? (is_live x.batch_id) batches) [
      | none ↦ rest
      | some b ↦ if b.cooperative_id == cooperative_id then (x, b) ∷ rest else rest
    ]

abbrev pub buyer_of : Option ℕ → List Buyer → Option Buyer
buyer_of none buyers = none
buyer_of (some id) buyers = find? (λ (b : Buyer). b.id == id) buyers

abbrev pub name_of : Option Buyer → Option String
name_of none = none
name_of (some b) = some b.company_name

abbrev pub country_of : Option Buyer → Option String
country_of none = none
country_of (some b) = b.country

abbrev pub sale_row : Env → List Buyer → OwnershipTransfer × CoffeeBatch → SalesLedgerRow
sale_row env buyers (x, b) = record {
  batch_code = b.batch_code;
  buyer_name = name_of (buyer_of x.buyer_id buyers);
  country = country_of (buyer_of x.buyer_id buyers);
  sale_price_per_kg = x.sale_price_per_kg;
  batch_weight_kg = round2 true (b.total_weight_kg * 100);
  total_value = elim x.sale_price_per_kg [
    | none ↦ 0
    | some price ↦
        round2 (env.rounds_up x.id (price * b.total_weight_kg)) (price * b.total_weight_kg)
  ];
  status = x.status;
  transferred_at = env.to_iso x.transferred_at;
}

abbrev pub sales_of : ℕ → DateRange → World → List (OwnershipTransfer × CoffeeBatch)
sales_of cooperative_id range w =
    order_desc (λ (p : OwnershipTransfer × CoffeeBatch). p.0.transferred_at)
      (with_batch cooperative_id w.db.trade.batches
        (select (λ (x : OwnershipTransfer). is_in range x.transferred_at) w.db.trade.transfers))

abbrev pub value_of : (TransferStatus → Bool) → List SalesLedgerRow → ℕ
value_of counts rows = round2 true (
    sum_by (λ (r : SalesLedgerRow). r.total_value)
      (select (λ (r : SalesLedgerRow). counts r.status) rows)
    * 100)

unfoldable pub get_sales_ledger : Env → ℕ → DateRange → World → SalesLedger
get_sales_ledger env cooperative_id range w =
    let rows = map (sale_row env w.db.accounts.buyers) (sales_of cooperative_id range w) in
    record {
      rows = rows;
      confirmed_value = value_of is_confirmed rows;
      pending_value = value_of is_pending rows;
      period = period env range;
    }

unfoldable pub sales_ledger_handler : Env → Caller → ℕ → DateRange → M SalesLedger
sales_ledger_handler env caller cooperative_id range = do
  require_permission env ("reports:financial" ∷ []) caller
  assert_ownership caller (some cooperative_id)
  gets (get_sales_ledger env cooperative_id range)
