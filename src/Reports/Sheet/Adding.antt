-- ===== src/Reports/Sheet/Adding.antt =====
-- The weights on the traceability sheet.
use coffee_traceability_back.Prelude.{
  ℕ, ◌≡◌, ◌∙◌, refl, sym, ap, List, [], ◌∷◌, select, sum_by, arith, ltb, Option-cases, inl, inr,
  All-find?, sum_by-map, sum_by-order_by,
}
use coffee_traceability_back.Errors.{ok}
use coffee_traceability_back.Schema.{Delivery}
use coffee_traceability_back.World.{Env, World}
use coffee_traceability_back.Batches.{is_live, find_live}
use coffee_traceability_back.Custody.{IsSound, TotalOf, delivered}
use coffee_traceability_back.Reports.Journey.{deliveries_of, is_row_of}
use coffee_traceability_back.Reports.Sheet.{
  BatchTraceabilitySheet, TraceabilityDelivery, sheet_delivery, sheet_of,
  get_batch_traceability_sheet,
}

abbrev pub weight_of_rows : List TraceabilityDelivery → ℕ
weight_of_rows rows = sum_by (λ (d : TraceabilityDelivery). d.weight_kg) rows

sum_by-share :
    (id : ℕ) (ds : List Delivery)
    → sum_by
        (λ (d : Delivery). d.weight_kg)
        (select (is_row_of (λ (d : Delivery). d.batch_id) (λ d. d.delivery_date) id) ds)
      ≡ delivered id ds
sum_by-share id [] = refl
sum_by-share id (d ∷ ds) = elim (Option-cases d.batch_id) [
  | inl e ↦ ground (arith, e, sum_by-share id ds)
  | inr (b, e) ↦ ground (arith, e, sum_by-share id ds)
]

-- Over sound tables, the deliveries on the traceability sheet of a batch weigh what the sheet says that
-- the batch weighs.
pub get_batch_traceability_sheet-AddsUp :
    (env : Env) (id : ℕ) (w w' : World) (sheet : BatchTraceabilitySheet)
    → IsSound w.db.trade
    → get_batch_traceability_sheet env id w ≡ (ok sheet, w')
    → weight_of_rows sheet.deliveries ≡ sheet.total_weight_kg
unfolding get_batch_traceability_sheet
get_batch_traceability_sheet-AddsUp env id w w' sheet sound shown =
    elim (Option-cases (find_live id w.db.trade)) [
      | inl e ↦ absurd (cc (rw e at shown))
      | inr (b, e) ↦
          (let same : sheet_of env (env.clock w.reads) w b ≡ sheet = cc (rw e at shown) in
            let total : TotalOf w.db.trade.deliveries b =
              All-find? (TotalOf w.db.trade.deliveries) (is_live id) w.db.trade.batches sound.totals
                e in
            ap (λ (x : BatchTraceabilitySheet). weight_of_rows x.deliveries) (sym same)
            ∙ sum_by-map (λ (d : TraceabilityDelivery). d.weight_kg)
                (sheet_delivery env w.db.accounts.farmers) (deliveries_of b.id w.db.trade)
            ∙ sum_by-order_by (λ (x y : Delivery). ltb x.delivery_date y.delivery_date)
                (λ (d : Delivery). d.weight_kg) _
            ∙ sum_by-share b.id w.db.trade.deliveries
            ∙ sym total
            ∙ ap (λ (x : BatchTraceabilitySheet). x.total_weight_kg) same)
    ]
