-- ===== src/Deliveries/Listing.antt =====
-- The list of deliveries (`listDeliveries` and its handler): filtered, newest first, by pages.
use coffee_traceability_back.Prelude.{
  ℕ, ◌≡◌, ◌==◌, ◌&&◌, leb, Bool, true, Option, none, some, List, [], ◌∷◌, length, select,
  order_desc, page_of, All, All-order_desc, All-page_of, All-selected, arith, same_option,
}
use coffee_traceability_back.Schema.{Delivery, Trade}
use coffee_traceability_back.World.{Env, M, gets_trade, ◌>>=◌, ◌>>◌}
use coffee_traceability_back.World.Returns.{Returns, Returns-bind, Returns-any}
use coffee_traceability_back.Scope.{
  Caller, scope_cooperative_id, farmer_scope_id, require_permission,
}
use coffee_traceability_back.Scope.Isolation.{IsMember, scope_cooperative_id-Returns}

pub record DeliveryQuery : Type 0 where
  pub page : ℕ
  pub limit : ℕ
  pub farmer_id : Option ℕ
  pub cooperative_id : Option ℕ
  pub batch_id : Option ℕ
  pub from_date : Option ℕ
  pub to_date : Option ℕ

-- `own ?? asked`
abbrev pub own_or : Option ℕ → Option ℕ → Option ℕ
own_or none asked = asked
own_or (some f) asked = some f

-- `none` is an absent filter.
abbrev is_listed : DeliveryQuery → Option ℕ → Option ℕ → Delivery → Bool
is_listed q farmer_id cooperative_id d =
    elim farmer_id [ none ↦ true | some f ↦ d.farmer_id == f ]
    && elim cooperative_id [ none ↦ true | some c ↦ d.cooperative_id == c ]
    && elim q.batch_id [ none ↦ true | some b ↦ same_option d.batch_id (some b) ]
    && elim q.from_date [ none ↦ true | some from ↦ leb from d.delivery_date ]
    && elim q.to_date [ none ↦ true | some to ↦ leb d.delivery_date to ]

abbrev list_deliveries : DeliveryQuery → Option ℕ → Option ℕ → Trade → List Delivery × ℕ
list_deliveries q farmer_id cooperative_id t =
    let rows = select (is_listed q farmer_id cooperative_id) t.deliveries in
    (page_of q.page q.limit (order_desc (λ (d : Delivery). d.delivery_date) rows), length rows)

pub list_handler : Env → Caller → DeliveryQuery → M (List Delivery × ℕ)
list_handler env caller q = do
  require_permission env ("deliveries:view" ∷ []) caller
  own_farmer_id ← farmer_scope_id caller
  cooperative_id ← scope_cooperative_id caller q.cooperative_id
  gets_trade (list_deliveries q (own_or own_farmer_id q.farmer_id) cooperative_id)

-- A delivery to the cooperative.
abbrev pub IsOf : ℕ → Delivery → Type 0
IsOf cooperative_id d = d.cooperative_id ≡ cooperative_id

module _ (q : DeliveryQuery) (c : ℕ) (farmer_id : Option ℕ) (t : Trade) where
  listed-IsOf : All (IsOf c) (list_deliveries q farmer_id (some c) t).0
  listed-IsOf = All-page_of (IsOf c) q.page q.limit _ (
      All-order_desc (IsOf c) (λ d. d.delivery_date) _
        (All-selected (IsOf c) (is_listed q farmer_id (some c)) t.deliveries
          (λ d h. ground (arith, h))))

-- A member of a cooperative, whatever they ask for, is shown only deliveries to their own cooperative.
pub list_handler-IsOf :
    (env : Env) (caller : Caller) (q : DeliveryQuery) (c : ℕ)
    → IsMember caller c
    → Returns (λ shown. All (IsOf c) shown.0) (list_handler env caller q)
unfolding list_handler
list_handler-IsOf env caller q c member =
    Returns-bind (require_permission env ("deliveries:view" ∷ []) caller) _ (Returns-any _) λ _ _.
      Returns-bind (farmer_scope_id caller) _ (Returns-any _) λ farmer_id _.
        Returns-bind (scope_cooperative_id caller q.cooperative_id) _
          (scope_cooperative_id-Returns caller c q.cooperative_id member)
          λ scope own. record {
            at = λ w. rw own (listed-IsOf q c (own_or farmer_id q.farmer_id) w.db.trade);
          }
