-- ===== src/EntityCode.antt =====
-- utils/entityCode.ts, with the SQL function `next_entity_code` that it calls
-- (prisma/migrations/20260805100000_atomic_entity_codes).
pub mod Effects
pub mod Numerals
pub mod Sequence
use coffee_traceability_back.Prelude.{
  ℕ, zero, suc, ◌+◌, ◌-◌, ◌/◌, ◌%◌, String, Bool, true, false, Option, none, some, List, [], ◌∷◌,
  ◌++◌, ltb, if◌then◌else◌, or_else, length,
}
use coffee_traceability_back.Schema.{Text}
use coffee_traceability_back.Texts.{codes, same_text}
use coffee_traceability_back.World.{Env, Db, World, M, pure, gets, ◌>>=◌, ◌>>◌, modify_db, new_date}

-- `String(n)`; fuel above `n` is enough.
decimal_from : ℕ → ℕ → Text
decimal_from zero n = []
decimal_from (suc fuel) n = elim (ltb n 10) [
  | true ↦ (b'0' + n) ∷ []
  | false ↦ decimal_from fuel (n / 10) ++ (b'0' + n % 10) ∷ []
]

unfoldable pub decimal : ℕ → Text
unfolding decimal_from
decimal n = decimal_from (suc n) n

abbrev zeros : ℕ → Text
zeros zero = []
zeros (suc n) = b'0' ∷ zeros n

-- `text.padStart(padding, "0")`
unfoldable pub pad_start : ℕ → Text → Text
pad_start padding text = zeros (padding - length text) ++ text

abbrev pub counter_of : Text → List (Text × ℕ) → Option ℕ
counter_of scope [] = none
counter_of scope (c ∷ cs) = if same_text c.0 scope then some c.1 else counter_of scope cs

abbrev pub set_counter : Text → ℕ → List (Text × ℕ) → List (Text × ℕ)
set_counter scope n [] = (scope, n) ∷ []
set_counter scope n (c ∷ cs) =
    if same_text c.0 scope then (scope, n) ∷ cs else c ∷ set_counter scope n cs

-- The SQL function: the counter of the scope, one higher, or 1 where there is none.
unfoldable pub next_value : Text → M ℕ
next_value scope = do
  last ← gets (λ w. counter_of scope w.db.counters)
  let value = or_else last 0 + 1
  modify_db (λ d. record d { counters = set_counter scope value d.counters })
  pure value

-- `${prefix}-${year}-${padded}`
unfoldable pub entity_code : Text → ℕ → ℕ → ℕ → Text
entity_code prefix year padding sequence =
    prefix ++ b'-' ∷ (decimal year ++ b'-' ∷ pad_start padding (decimal sequence))

pub next_entity_code : Env → Text → Text → ℕ → M Text
unfolding next_value
next_entity_code env entity prefix padding = do
  now ← new_date env
  let year = env.full_year now
  sequence ← next_value (entity ++ b':' ∷ decimal year)
  pure (entity_code prefix year padding sequence)
