-- ===== src/Dates.antt =====
-- utils/dates.ts: calendar days of times in milliseconds since 1970-01-01 UTC.
use coffee_traceability_back.Prelude.{ℕ, ◌*◌, ◌/◌, Bool, ltb}

abbrev pub day_ms : ℕ
day_ms = 86_400_000

-- The time of the midnight (UTC) that begins the day.
pub utc_day_index : ℕ → ℕ
utc_day_index date = date / day_ms * day_ms

unfoldable pub is_before_day : ℕ → ℕ → Bool
unfolding utc_day_index
is_before_day date reference = ltb (utc_day_index date) (utc_day_index reference)
