-- ===== src/Reports/Dashboard/Grouping.antt =====
-- What the queries of dashboard.service.ts share: batches of a cooperative, and `groupBy`.
use coffee_traceability_back.Prelude.{
  ℕ, ◌+◌, ◌==◌, ◌&&◌, Bool, not, false, Option, none, some, List, [], ◌∷◌, find?, if◌then◌else◌,
}
use coffee_traceability_back.Schema.{CoffeeBatch}

abbrev pub is_batch_of : ℕ → CoffeeBatch → Bool
is_batch_of cooperative_id b = b.cooperative_id == cooperative_id && not b.is_deleted

-- The batch that a row refers to.
abbrev pub batch_by_id : ℕ → List CoffeeBatch → Option CoffeeBatch
batch_by_id id batches = find? (λ (b : CoffeeBatch). b.id == id) batches

abbrev pub is_scoped : ℕ → List CoffeeBatch → ℕ → Bool
is_scoped cooperative_id batches batch_id = elim (batch_by_id batch_id batches) [
  | none ↦ false
  | some b ↦ is_batch_of cooperative_id b
]

-- `groupBy` with a sum, each group where its key is first.
module _ {K : Type 0} (same : K → K → Bool) where
  abbrev pub add_to : K → ℕ → List (K × ℕ) → List (K × ℕ)
  add_to k n [] = (k, n) ∷ []
  add_to k n ((l, m) ∷ groups) =
      let rest = add_to k n groups in if same l k then (l, m + n) ∷ groups else (l, m) ∷ rest

  abbrev pub group_by : {A : Type 0} → (A → K) → (A → ℕ) → List A → List (K × ℕ) → List (K × ℕ)
  group_by key amount [] groups = groups
  group_by key amount (x ∷ xs) groups = group_by key amount xs (add_to (key x) (amount x) groups)
