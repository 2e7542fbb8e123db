-- ===== src/Ledger/Effects.antt =====
-- The writes of `recordBlockchainEvent`.
use coffee_traceability_back.Prelude.{ℕ, refl}
use coffee_traceability_back.Schema.{EventType, Payload, Text}
use coffee_traceability_back.World.{Env, Db}
use coffee_traceability_back.World.Keeps.{Keeps, IsOutside, Keeps-modify_other, keeps_rules}
use coffee_traceability_back.Ledger.{append_block, submit_to_ledger, confirm_row, record_event}

module _ (env : Env) {P : Db → Type 0} (out : IsOutside P) where
  append_block-Keeps : (b : ℕ) (e : EventType) (p : Payload) → Keeps P (append_block env b e p)
  unfolding append_block
  append_block-Keeps b e p = record { at = λ w h. out.carry w.db _ refl h }

  submit-Keeps : (h : Text) → Keeps P (submit_to_ledger env h)
  unfolding submit_to_ledger
  submit-Keeps h = search keeps_rules

  confirm_row-Keeps : (id : ℕ) (h : Text) → Keeps P (confirm_row env id h)
  unfolding confirm_row
  confirm_row-Keeps id h = search (keeps_rules, Keeps-modify_other, refl) depth 10

  pub record_event-Keeps : (b : ℕ) (e : EventType) (p : Payload) → Keeps P (record_event env b e p)
  unfolding record_event
  record_event-Keeps b e p =
      search
        (keeps_rules, Keeps-modify_other, refl, append_block-Keeps, submit-Keeps, confirm_row-Keeps)
        depth 12
