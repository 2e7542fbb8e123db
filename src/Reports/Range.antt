-- ===== src/Reports/Range.antt =====
-- The period of a report, whose ends may be absent.
use coffee_traceability_back.Prelude.{
  ℕ, Bool, true, Option, none, some, leb, ◌&&◌, ◌||◌, is_some, if◌then◌else◌,
}
use coffee_traceability_back.Schema.{Text}
use coffee_traceability_back.World.{Env}

pub record DateRange : Type 0 where
  pub from_date : Option ℕ
  pub to_date : Option ℕ

abbrev pub is_in : DateRange → ℕ → Bool
is_in range date =
    elim range.from_date [ none ↦ true | some from ↦ leb from date ]
    && elim range.to_date [ none ↦ true | some to ↦ leb date to ]

abbrev pub iso_of : Env → Option ℕ → Option Text
iso_of env none = none
iso_of env (some date) = some (env.to_iso date)

abbrev pub period : Env → DateRange → Option (Option Text × Option Text)
period env range =
    if is_some range.from_date || is_some range.to_date
    then some (iso_of env range.from_date, iso_of env range.to_date)
    else none
