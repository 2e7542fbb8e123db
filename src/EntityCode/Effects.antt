-- ===== src/EntityCode/Effects.antt =====
-- The write of a new code.
use coffee_traceability_back.Prelude.{ℕ, ◌≡◌, List, refl}
use coffee_traceability_back.Schema.{Text}
use coffee_traceability_back.World.{Env, Db, World}
use coffee_traceability_back.Errors.{ok}
use coffee_traceability_back.World.Keeps.{Keeps, IsOutside, Keeps-modify_db, keeps_rules}
use coffee_traceability_back.EntityCode.{next_value, next_entity_code}

-- A property of the database that does not look at the counters.
pub record IsUncounted (P : Db → Type 0) : Type 0 where
  pub counters : (d : Db) (rows : List (Text × ℕ)) → P d → P (record d { counters = rows })

pub uncounted : {P : Db → Type 0} → IsOutside P → IsUncounted P
uncounted out = record { counters = λ d rows h. out.carry d (record d { counters = rows }) refl h }

module _ {P : Db → Type 0} (free : IsUncounted P) where
  next_value-Keeps : (scope : Text) → Keeps P (next_value scope)
  unfolding next_value
  next_value-Keeps scope = search (keeps_rules, Keeps-modify_db, free.counters) depth 10

  pub draw_code-Keeps :
      (env : Env) (entity prefix : Text) (padding : ℕ)
      → Keeps P (next_entity_code env entity prefix padding)
  unfolding next_entity_code
  draw_code-Keeps env entity prefix padding = search (keeps_rules, next_value-Keeps) depth 10

pub next_entity_code-Keeps :
    {P : Db → Type 0} (out : IsOutside P) (env : Env) (entity prefix : Text) (padding : ℕ)
    → Keeps P (next_entity_code env entity prefix padding)
next_entity_code-Keeps out env entity prefix padding =
    draw_code-Keeps (uncounted out) env entity prefix padding

-- A code is always drawn, and the tables of people stay as they are.
pub next_entity_code-run :
    (env : Env) (entity prefix : Text) (padding : ℕ) (w : World)
    → (code : Text) × (w' : World) × (next_entity_code env entity prefix padding w ≡ (ok code, w'))
      × (w'.db.accounts ≡ w.db.accounts)
unfolding next_entity_code next_value
next_entity_code-run env entity prefix padding w = (_, _, refl, refl)
