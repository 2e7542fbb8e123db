-- ===== src/Batches/Listing.antt =====
-- The list of batches (`listBatches` and its handler): filtered, newest first, by pages.
use coffee_traceability_back.Prelude.{
  ℕ, ◌≡◌, ◌==◌, ◌&&◌, not, Bool, true, Option, none, some, List, [], ◌∷◌, length, select,
  order_desc, page_of, All, All-order_desc, All-page_of, All-selected, arith,
}
use coffee_traceability_back.Schema.{BatchStatus, same_status, CoffeeBatch, Trade}
use coffee_traceability_back.World.{Env, M, gets_trade, ◌>>=◌, ◌>>◌}
use coffee_traceability_back.World.Returns.{Returns, Returns-bind, Returns-any}
use coffee_traceability_back.Scope.{
  Caller, scope_cooperative_id, farmer_scope_id, require_permission,
}
use coffee_traceability_back.Scope.Isolation.{IsMember, scope_cooperative_id-Returns}
use coffee_traceability_back.Batches.{is_associated}

pub record BatchQuery : Type 0 where
  pub page : ℕ
  pub limit : ℕ
  pub cooperative_id : Option ℕ
  pub status : Option BatchStatus

-- `none` is an absent filter.
abbrev is_listed : Option ℕ → Option BatchStatus → Option ℕ → Trade → CoffeeBatch → Bool
is_listed cooperative_id status farmer_id t b =
    not b.is_deleted
    && elim cooperative_id [ none ↦ true | some c ↦ b.cooperative_id == c ]
    && elim status [ none ↦ true | some s ↦ same_status b.status s ]
    && elim farmer_id [ none ↦ true | some f ↦ is_associated f b.id t ]

abbrev list_batches : BatchQuery → Option ℕ → Option ℕ → Trade → List CoffeeBatch × ℕ
list_batches q cooperative_id farmer_id t =
    let rows = select (is_listed cooperative_id q.status farmer_id t) t.batches in
    (page_of q.page q.limit (order_desc (λ (b : CoffeeBatch). b.created_at) rows), length rows)

pub list_handler : Env → Caller → BatchQuery → M (List CoffeeBatch × ℕ)
list_handler env caller q = do
  require_permission env ("batches:view" ∷ []) caller
  cooperative_id ← scope_cooperative_id caller q.cooperative_id
  farmer_id ← farmer_scope_id caller
  gets_trade (list_batches q cooperative_id farmer_id)

-- A row that a member of the cooperative may see.
abbrev pub IsVisible : ℕ → CoffeeBatch → Type 0
IsVisible cooperative_id b = (b.cooperative_id ≡ cooperative_id) × (not b.is_deleted ≡ true)

module _ (q : BatchQuery) (c : ℕ) (farmer_id : Option ℕ) (t : Trade) where
  listed-IsVisible : All (IsVisible c) (list_batches q (some c) farmer_id t).0
  listed-IsVisible = All-page_of (IsVisible c) q.page q.limit _ (
      All-order_desc (IsVisible c) (λ b. b.created_at) _
        (All-selected (IsVisible c) (is_listed (some c) q.status farmer_id t) t.batches
          (λ b h. (ground (arith, h), ground (arith, h)))))

-- A member of a cooperative, whatever cooperative, status and page they ask for, is shown only batches
-- of their own cooperative, none of them deleted.
pub list_handler-IsVisible :
    (env : Env) (caller : Caller) (q : BatchQuery) (c : ℕ)
    → IsMember caller c
    → Returns (λ shown. All (IsVisible c) shown.0) (list_handler env caller q)
unfolding list_handler
list_handler-IsVisible env caller q c member =
    Returns-bind (require_permission env ("batches:view" ∷ []) caller) _ (Returns-any _) λ _ _.
      Returns-bind (scope_cooperative_id caller q.cooperative_id) _
        (scope_cooperative_id-Returns caller c q.cooperative_id member)
        λ scope own.
          Returns-bind (farmer_scope_id caller) _ (Returns-any _)
            λ farmer_id _. record { at = λ w. rw own (listed-IsVisible q c farmer_id w.db.trade) }
