-- ===== src/Lots/Listing.antt =====
-- `GET /` of modules/batchGroups/batchGroup.routes.ts.
use coffee_traceability_back.Prelude.{
  ℕ, ◌==◌, Bool, true, Option, none, some, List, [], ◌∷◌, select, map, order_desc,
}
use coffee_traceability_back.Schema.{BatchGroup, Trade}
use coffee_traceability_back.World.{Env, M, gets_trade, ◌>>=◌, ◌>>◌}
use coffee_traceability_back.Scope.{Caller, require_permission, scope_cooperative_id}
use coffee_traceability_back.Lots.{serialize_group}

-- No cooperative is no filter.
abbrev is_listed : Option ℕ → BatchGroup → Bool
is_listed cooperative_id g = elim cooperative_id [ none ↦ true | some c ↦ g.cooperative_id == c ]

abbrev list_groups : Option ℕ → Trade → List (BatchGroup × ℕ)
list_groups cooperative_id t =
    map (λ (g : BatchGroup). serialize_group g t)
      (order_desc (λ (g : BatchGroup). g.created_at) (select (is_listed cooperative_id) t.groups))

pub list_handler : Env → Caller → Option ℕ → M (List (BatchGroup × ℕ))
list_handler env caller requested = do
  require_permission env ("lots:view" ∷ []) caller
  cooperative_id ← scope_cooperative_id caller requested
  gets_trade (list_groups cooperative_id)
