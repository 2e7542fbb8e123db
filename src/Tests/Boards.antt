-- ===== src/Tests/Boards.antt =====
-- The theorems on the dashboard at a concrete cooperative, and runs of it.
use coffee_traceability_back.Prelude.{◌≡◌, ◌≤◌, refl, none, some, [], ◌∷◌, map}
use coffee_traceability_back.Prelude.Int.{negsuc}
use coffee_traceability_back.Schema.{sold, TransferStatus}
use coffee_traceability_back.World.{World}
use coffee_traceability_back.Reports.Dashboard.{percent_change, get_sold_weight_kg}
use coffee_traceability_back.Reports.Dashboard.Movement.{Bucket, sold_in}
use coffee_traceability_back.Reports.Dashboard.Feed.{get_activity_feed}
use coffee_traceability_back.Reports.Dashboard.Selling.{weight_by_status}
use coffee_traceability_back.Reports.Dashboard.Series.{get_sold_weight_kg-IsBetween}
use coffee_traceability_back.Samples.{batch, transfer, world, sold_once, sold_once-IsSound}

abbrev all_months : Bucket
all_months = record { period = []; start = 0; end = 10_000 }

get_sold_weight_kg-IsBetween_example :
    (weight_by_status 7 (batch sold ∷ []) ≤ get_sold_weight_kg 7 sold_once.db.trade)
    × (get_sold_weight_kg 7 sold_once.db.trade ≤ sold_in 7 sold_once.db.trade all_months)
get_sold_weight_kg-IsBetween_example =
    get_sold_weight_kg-IsBetween 7 all_months sold_once.db.trade sold_once-IsSound
      (refl, (refl, tt))

abbrev sold_twice : World
sold_twice =
    world sold (transfer 8 TransferStatus.confirmed ∷ transfer 5 TransferStatus.confirmed ∷ [])

-- A batch with two confirmed transfers counts once in the total and twice in the months.
two_stories_run :
    (get_sold_weight_kg 7 sold_twice.db.trade ≡ 500)
    × (sold_in 7 sold_twice.db.trade all_months ≡ 1_000)
two_stories_run = (refl, refl)

-- From 8 to 6 is 25 per cent less.
percent_change_run : (percent_change 6 8 ≡ some (negsuc 249)) × (percent_change 3 0 ≡ none)
percent_change_run = (refl, refl)

-- The sale, at 960, and the run of the same time come before the batch, at 900.
feed_run : map (λ i. i.at) (get_activity_feed 7 3 sold_once) ≡ 960 ∷ 960 ∷ 900 ∷ []
feed_run = refl
