-- ===== src/Cooperatives/Directory.antt =====
-- What the directory of cooperatives shows a caller who is no SUPER_ADMIN.
use coffee_traceability_back.Prelude.{
  ℕ, ◌≡◌, String, Bool, some, arith, All, All-selected, All-order_desc, All-page_of,
}
use coffee_traceability_back.Schema.{Cooperative}
use coffee_traceability_back.World.Returns.{Returns}
use coffee_traceability_back.Scope.{Caller, require_user, scope_cooperative_id}
use coffee_traceability_back.Scope.Isolation.{IsMember}
use coffee_traceability_back.Cooperatives.{ListQuery, is_match, list_cooperatives, list_handler}

abbrev pub IsOwn : ℕ → Cooperative → Type 0
IsOwn own c = c.id ≡ own

-- A member of a cooperative, whatever county, text and page they ask for, is shown no cooperative but
-- their own.
pub list_handler-IsOwn :
    (contains : String → String → Bool) (caller : Caller) (q : ListQuery) (own : ℕ)
    → IsMember caller own
    → Returns (λ shown. All (IsOwn own) shown.0) (list_handler contains caller q)
unfolding list_handler list_cooperatives require_user scope_cooperative_id
list_handler-IsOwn contains caller q own member = record {
  at = λ w.
      rw (member.1, member.2, member.3, member.2)
        (All-page_of (IsOwn own) q.page q.limit _ (
          All-order_desc (IsOwn own) (λ c. c.created_at) _
            (All-selected (IsOwn own) (is_match contains q (some own)) w.db.accounts.cooperatives
              (λ c h. ground (arith, h)))));
}
