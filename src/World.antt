-- ===== src/World.antt =====
-- What a request handler runs in: the database, and the services that the code only calls (the
-- clock, the generator of identifiers, SHA-256 and the like) as the parameter `Env`.
-- A handler is an action of the state monad `M`; what was written before a throw stays written,
-- unless `with_transaction` (repositories/prisma.client.ts) takes it back.
pub mod Keeps
pub mod Ensures
pub mod Returns
pub mod Success
use coffee_traceability_back.Prelude.{
  ℕ, suc, ◌+◌, String, Bool, true, false, Option, none, some, List, [], ◌∷◌,
}
use coffee_traceability_back.Errors.{Failure, Result, ok, err}
use coffee_traceability_back.Schema.{
  Text, Trade, Accounts, Payload, LedgerEvent, Notification, AuditEntry, UserRole, SystemSetting,
  QrVerification,
}

-- The code that is not part of the repository. The streams give the answer of the i-th call.
pub record Env : Type 0 where
  pub clock : ℕ → ℕ  -- `new Date()`
  pub uuid : ℕ → ℕ  -- identifiers of new rows and random tokens
  pub full_year : ℕ → ℕ  -- `Date.getFullYear`
  pub sha256 : Text → Text
  pub stringify : Payload → Text  -- `JSON.stringify`
  pub to_iso : ℕ → Text  -- `Date.toISOString`
  pub show_id : ℕ → Text  -- the text of a UUID
  pub ledger_enabled : Bool  -- the setting BLOCKCHAIN_ENABLED
  -- Which of two rows of one time stands first, in the query of the newest event of a batch and in that
  -- of all its events: the database leaves both open.
  pub tie_of_newest : ℕ → ℕ → Bool
  pub tie_of_all : ℕ → ℕ → Bool
  -- Whether the floating-point value of the row, whose exact value lies half-way between two
  -- hundredths, is rounded to the upper one.
  pub rounds_up : ℕ → ℕ → Bool
  pub outage : ℕ → Bool  -- whether the i-th insert of a notification fails

pub record Db : Type 0 where
  pub trade : Trade
  pub accounts : Accounts
  pub ledger : List LedgerEvent
  pub inbox : List Notification
  pub audit_log : List AuditEntry
  pub counters : List (Text × ℕ)
  pub role_permissions : List (UserRole × String)
  pub setting : Option SystemSetting
  pub qr_verifications : List QrVerification

-- The matrix of granted permissions, as `loadMatrix` reads it.
abbrev pub Matrix : Type 0
Matrix = List (UserRole × String)

-- `SystemStatus` of modules/system/system.service.ts
pub record SystemStatus : Type 0 where
  pub maintenance_mode : Bool
  pub maintenance_message : Option String

-- The database, the number of calls made so far of each stream, and the process's caches of the
-- permission matrix, of the maintenance switch and of each user's access during maintenance, with
-- the times at which they expire.
pub record World : Type 0 where
  pub db : Db
  pub reads : ℕ
  pub drawn : ℕ
  pub inserts : ℕ
  pub permission_cache : Option (Matrix × ℕ)
  pub setting_cache : Option (SystemStatus × ℕ)
  pub access_cache : List (ℕ × (Bool × ℕ))

abbrev pub M {ℓ} : Type ℓ → Type ℓ
M A = World → Result A × World

module _ {ℓ} {A : Type ℓ} where
  abbrev pub pure : A → M A
  pure a w = (ok a, w)

  abbrev pub raise : Failure → M A
  raise e w = (err e, w)

  abbrev pub gets : (World → A) → M A
  gets f w = (ok (f w), w)

  -- `if (!row) throw …`
  abbrev pub or_raise : Option A → Failure → M A
  or_raise none e = raise e
  or_raise (some a) e = pure a

  -- The end of a transaction: commit, or back to the database before it.
  abbrev pub settle : Result A → World → World → Result A × World
  settle (ok a) w w' = (ok a, w')
  settle (err e) w w' = (err e, record w' { db = w.db })

  unfoldable pub with_transaction : M A → M A
  with_transaction m w = let (r, w') = m w in settle r w w'

abbrev pub continue {ℓ κ} : {A : Type ℓ} {B : Type κ} → Result A → (A → M B) → M B
continue (ok a) f w = f a w
continue (err e) f w = (err e, w)

infixl 5 ◌>>=◌ ◌>>◌
abbrev pub ◌>>=◌ {ℓ κ} : {A : Type ℓ} {B : Type κ} → M A → (A → M B) → M B
◌>>=◌ m f w = let (r, w') = m w in continue r f w'

abbrev pub ◌>>◌ {ℓ κ} : {A : Type ℓ} {B : Type κ} → M A → M B → M B
m >> k = m >>= λ _. k

abbrev pub skip : M (Unit {0})
skip = pure tt

-- `if (c) throw e`
abbrev pub raise_if : Bool → Failure → M (Unit {0})
raise_if true e = raise e
raise_if false e = skip

abbrev pub when : Bool → M (Unit {0}) → M (Unit {0})
when true m = m
when false m = skip

-- `if (x) …` for a value that may be null.
unfoldable pub when_some {ℓ} : {A : Type ℓ} → Option A → (A → M (Unit {0})) → M (Unit {0})
when_some none f = skip
when_some (some a) f = f a

-- `try { … } catch { }`: the failure is dropped, and what was written stays written.
unfoldable pub safely : M (Unit {0}) → M (Unit {0})
safely m w = (ok tt, (m w).1)

-- `try { … } catch (err) { … }`
unfoldable pub attempt : M (Unit {0}) → (Failure → M (Unit {0})) → M (Unit {0})
attempt m handler w = let (r, w') = m w in elim r [ ok a ↦ (ok a, w') | err e ↦ handler e w' ]

-- `try { … } catch (err) { …; throw err; }`
unfoldable pub on_failure {ℓ} : {A : Type ℓ} → M A → M (Unit {0}) → M A
on_failure m handler w =
    let (r, w') = m w in elim r [ ok a ↦ (ok a, w') | err e ↦ (handler >> raise e) w' ]

-- `for (const x of xs) await f(x)`
unfoldable pub for_each {ℓ} : {A : Type ℓ} → List A → (A → M (Unit {0})) → M (Unit {0})
for_each [] f = skip
for_each (x ∷ xs) f = f x >> for_each xs f

abbrev pub modify_db : (Db → Db) → M (Unit {0})
modify_db f w = (ok tt, record w { db = f w.db })

abbrev pub gets_trade {ℓ} : {A : Type ℓ} → (Trade → A) → M A
gets_trade f = gets (λ w. f w.db.trade)

abbrev pub gets_accounts {ℓ} : {A : Type ℓ} → (Accounts → A) → M A
gets_accounts f = gets (λ w. f w.db.accounts)

abbrev pub modify_trade : (Trade → Trade) → M (Unit {0})
modify_trade f = modify_db (λ d. record d { trade = f d.trade })

module _ (env : Env) where
  abbrev pub new_date : M ℕ
  new_date w = (ok (env.clock w.reads), record w { reads = suc w.reads })

  -- Whether the insert of notifications that is due now fails.
  abbrev pub next_outage : M Bool
  next_outage w = (ok (env.outage w.inserts), record w { inserts = suc w.inserts })

  abbrev pub new_id : M ℕ
  new_id w = (ok (env.uuid w.drawn), record w { drawn = suc w.drawn })

-- The place in the stream of the first of the next `n` identifiers.
abbrev pub reserve_ids : ℕ → M ℕ
reserve_ids n w = (ok w.drawn, record w { drawn = w.drawn + n })
