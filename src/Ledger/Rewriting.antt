-- ===== src/Ledger/Rewriting.antt =====
-- Rows of the ledger that are written over, in columns that `verifyChain` does not read.
use coffee_traceability_back.Prelude.{
  ℕ, ◌≡◌, ◌∙◌, refl, ap, Bool, Option, none, some, List, [], ◌∷◌, select, update_where, Bool-cases,
  inl, inr, arith, if◌then◌else◌,
}
use coffee_traceability_back.Schema.{Text, LedgerEvent}
use coffee_traceability_back.World.{Env}
use coffee_traceability_back.Ledger.{
  insert_by_time, order_by_time, events_of, check_from, verify_chain,
}
use coffee_traceability_back.Ledger.Chain.{of_batch}

-- The columns that the check reads stay what they are.
pub record KeepsBlock (f : LedgerEvent → LedgerEvent) : Type 0 where
  pub number : (e : LedgerEvent) → (f e).id ≡ e.id
  pub batch : (e : LedgerEvent) → (f e).batch_id ≡ e.batch_id
  pub time : (e : LedgerEvent) → (f e).submitted_at ≡ e.submitted_at
  pub kind : (e : LedgerEvent) → (f e).event_type ≡ e.event_type
  pub previous : (e : LedgerEvent) → (f e).previous_hash ≡ e.previous_hash
  pub payload : (e : LedgerEvent) → (f e).payload_hash ≡ e.payload_hash
  pub hash : (e : LedgerEvent) → (f e).block_hash ≡ e.block_hash

module _ (hit : LedgerEvent → Bool) (f : LedgerEvent → LedgerEvent) (keeps : KeepsBlock f) where
  abbrev rewrite : List LedgerEvent → List LedgerEvent
  rewrite rows = update_where hit f rows

  select-rewrite :
      (k : ℕ) (rows : List LedgerEvent)
      → select (of_batch k) (rewrite rows) ≡ rewrite (select (of_batch k) rows)
  select-rewrite k [] = refl
  select-rewrite k (x ∷ xs) = ground (arith, keeps.batch x, select-rewrite k xs)

  insert-rewrite :
      (tie : ℕ → ℕ → Bool) (x : LedgerEvent) (ys : List LedgerEvent)
      → insert_by_time tie (if hit x then f x else x) (rewrite ys)
        ≡ rewrite (insert_by_time tie x ys)
  insert-rewrite tie x [] = refl
  insert-rewrite tie x (y ∷ ys) =
      ground
        (arith, keeps.time x, keeps.time y, keeps.number x, keeps.number y, insert-rewrite tie x ys)

  order-rewrite :
      (tie : ℕ → ℕ → Bool) (xs : List LedgerEvent)
      → order_by_time tie (rewrite xs) ≡ rewrite (order_by_time tie xs)
  order-rewrite tie [] = refl
  order-rewrite tie (x ∷ xs) =
      ap (insert_by_time tie (if hit x then f x else x)) (order-rewrite tie xs)
      ∙ insert-rewrite tie x (order_by_time tie xs)

  check_from-rewrite :
      (env : Env) (k : ℕ) (h : Option Text) (es : List LedgerEvent)
      → check_from env k h (rewrite es) ≡ check_from env k h es
  unfolding check_from
  check_from-rewrite env k h [] = refl
  check_from-rewrite env k h (e ∷ es) = elim (Bool-cases (hit e)) [
    | inl here ↦
        rw
          (
            here,
            keeps.previous e,
            keeps.payload e,
            keeps.kind e,
            keeps.time e,
            keeps.hash e,
            keeps.number e,
            check_from-rewrite env k (some e.block_hash) es,
          )
          refl
    | inr there ↦ rw (there, check_from-rewrite env k (some e.block_hash) es) refl
  ]

  pub verify_chain-rewrite :
      (env : Env) (k : ℕ) (rows : List LedgerEvent)
      → verify_chain env k (update_where hit f rows) ≡ verify_chain env k rows
  unfolding verify_chain events_of
  verify_chain-rewrite env k rows =
      ap (λ es. check_from env k none (order_by_time env.tie_of_all es)) (select-rewrite k rows)
      ∙ ap (check_from env k none) (order-rewrite env.tie_of_all (select (of_batch k) rows))
      ∙ check_from-rewrite env k none (order_by_time env.tie_of_all (select (of_batch k) rows))
