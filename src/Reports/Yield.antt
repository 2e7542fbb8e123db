-- ===== src/Reports/Yield.antt =====
-- The processing yield of modules/reports/yield.service.ts, and its handler. Weights are hundredths, a
-- yield is tenths of a percent, and a time is in milliseconds.
use coffee_traceability_back.Prelude.{
  ℕ, ◌+◌, ◌-◌, ◌*◌, ◌/◌, ◌==◌, ◌&&◌, Bool, not, Option, none, some, List, [], ◌∷◌, select, find?,
  order_desc, map, or_else, is_some, leb, ltb, if◌then◌else◌,
}
use coffee_traceability_back.Prelude.Int.{ℤ, pos, negsuc}
use coffee_traceability_back.Schema.{Text, CoffeeBatch, ProcessingRecord, ProcessingMethod}
use coffee_traceability_back.World.{Env, World, M, gets, ◌>>◌}
use coffee_traceability_back.Scope.{Caller, assert_ownership, require_permission}
use coffee_traceability_back.Batches.{is_live}
use coffee_traceability_back.Reports.Range.{DateRange, is_in, iso_of, period}

pub record ProcessingYieldRow : Type 0 where
  pub batch_code : Text
  pub method : ProcessingMethod
  pub input_kg : ℕ
  pub output_kg : ℕ
  pub yield_pct : Option ℕ
  pub duration_days : Option ℤ
  pub in_progress : Bool
  pub start_date : Text
  pub end_date : Option Text

pub record ProcessingYieldReport : Type 0 where
  pub rows : List ProcessingYieldRow
  pub period : Option (Option Text × Option Text)

-- MS_PER_DAY
abbrev pub ms_per_day : ℕ
ms_per_day = 86_400_000

-- `Math.round((end - start) / MS_PER_DAY)`, where a half is rounded upwards.
abbrev pub negated : ℕ → ℤ
negated n = if n == 0 then pos 0 else negsuc (n - 1)

abbrev pub days_between : ℕ → ℕ → ℤ
days_between start end =
    if leb start end
    then pos ((2 * (end - start) + ms_per_day) / (2 * ms_per_day))
    else negated ((2 * (start - end) + (ms_per_day - 1)) / (2 * ms_per_day))

-- `Math.round((output / input) * 1000) / 10`, in tenths.
abbrev pub yield_of : ℕ → ℕ → Option ℕ
yield_of input output =
    if ltb 0 input && ltb 0 output then some ((2000 * output + input) / (2 * input)) else none

abbrev duration_of : ProcessingRecord → Option ℤ
duration_of r = elim r.end_date [ none ↦ none | some end ↦ some (days_between r.start_date end) ]

abbrev pub yield_row : Env → ProcessingRecord × CoffeeBatch → ProcessingYieldRow
yield_row env (r, b) =
    let output = or_else r.output_weight_kg 0 in
    record {
      batch_code = b.batch_code;
      method = r.method;
      input_kg = b.total_weight_kg;
      output_kg = output;
      yield_pct = yield_of b.total_weight_kg output;
      duration_days = duration_of r;
      in_progress = not (is_some r.end_date);
      start_date = env.to_iso r.start_date;
      end_date = iso_of env r.end_date;
    }

-- Each record with its batch, where that is live and the cooperative's.
abbrev pub with_batch :
    ℕ → List CoffeeBatch → List ProcessingRecord → List (ProcessingRecord × CoffeeBatch)
with_batch cooperative_id batches [] = []
with_batch cooperative_id batches (r ∷ rs) =
    let rest = with_batch cooperative_id batches rs in
    elim (find? (is_live r.batch_id) batches) [
      | none ↦ rest
      | some b ↦ if b.cooperative_id == cooperative_id then (r, b) ∷ rest else rest
    ]

unfoldable pub get_processing_yield : Env → ℕ → DateRange → World → ProcessingYieldReport
get_processing_yield env cooperative_id range w = record {
  rows = map (yield_row env) (
      order_desc (λ (p : ProcessingRecord × CoffeeBatch). p.0.start_date)
        (with_batch cooperative_id w.db.trade.batches (
          select (λ (r : ProcessingRecord). is_in range r.start_date)
            w.db.trade.processing_records)));
  period = period env range;
}

unfoldable pub processing_yield_handler : Env → Caller → ℕ → DateRange → M ProcessingYieldReport
processing_yield_handler env caller cooperative_id range = do
  require_permission env ("reports:view" ∷ []) caller
  assert_ownership caller (some cooperative_id)
  gets (get_processing_yield env cooperative_id range)
