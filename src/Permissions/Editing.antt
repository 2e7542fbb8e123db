-- ===== src/Permissions/Editing.antt =====
-- The editor of a role's permissions, and what `roleHasPermission` answers behind it.
use text.Mathlib.Text.{◌==◌ as str_eq}
use text.Mathlib.TextEquality.{eq_iff}
use coffee_traceability_back.Prelude.{
  ◌≡◌, refl, ap, subst, ◌∙◌, String, true, false, not, ◌&&◌, none, List, [], ◌∷◌, arith, Bool-cases,
  inl, inr,
}
use coffee_traceability_back.Errors.{ok, bad_request, immutable_role, unknown_permissions}
use coffee_traceability_back.Schema.{UserRole, super_admin, same_role, update, permission_entity}
use coffee_traceability_back.World.{Env, World, safely}
use coffee_traceability_back.World.Success.{bind-ok, guard-ok}
use coffee_traceability_back.Scope.{Caller, require_permission}
use coffee_traceability_back.Audit.{record_audit_entry}
use coffee_traceability_back.Permissions.{
  is_permission_key, has_key, or_load, get_matrix, invalidate, role_has_permission,
  set_role_permissions,
}
use coffee_traceability_back.Permissions.Granting.{granted-set_role_permissions}
use coffee_traceability_back.Permissions.Routes.{is_known_only, update_handler}

known-has_key :
    (p : String) (keys : List String)
    → is_known_only keys ≡ true
    → (is_permission_key p && has_key p keys) ≡ has_key p keys
known-has_key p [] known = ground arith
known-has_key p (k ∷ ks) known = elim (Bool-cases (str_eq k p)) [
  | inl same ↦
      (let key : is_permission_key p ≡ true =
          subst (λ s. is_permission_key s ≡ true) ((eq_iff k p).0 same) (ground (arith, known)) in
        ground (arith, key))
  | inr other ↦ ground (arith, other, known-has_key p ks (ground (arith, known)))
]

-- The audit entry does not change what a role may do.
same_answer :
    (env : Env) (caller : Caller) (role : UserRole) (keys : List String) (p : String) (w : World)
    → same_role role super_admin ≡ false
    → (role_has_permission env role p
        (record_audit_entry caller update permission_entity none
          (set_role_permissions role keys w).1).1).0
      ≡ (role_has_permission env role p (set_role_permissions role keys w).1).0
unfolding role_has_permission get_matrix or_load set_role_permissions invalidate record_audit_entry
    safely
same_answer env caller role keys p w other = rw other refl

-- After an edit of a role that succeeds, the role has exactly the permissions of the new list, whatever
-- it had, and whatever the cache held.
pub update_handler-Grants :
    (env : Env) (caller : Caller) (role saved_role : UserRole) (keys saved : List String)
    (p : String) (w w' : World)
    → update_handler env caller role keys w ≡ (ok (saved_role, saved), w')
    → (role_has_permission env role p w').0 ≡ ok (has_key p keys)
unfolding update_handler set_role_permissions invalidate record_audit_entry safely
update_handler-Grants env caller role saved_role keys saved p w w' done =
    let (_, w0, _, checked) =
      bind-ok (require_permission env ("roles:manage" ∷ []) caller) _ w done in
    let (other, rest) =
      guard-ok (same_role role super_admin) (bad_request immutable_role) _ w0 checked in
    let (known, saved_at) =
      guard-ok (not (is_known_only keys)) (bad_request unknown_permissions) _ w0 rest in
    subst (λ w1. (role_has_permission env role p w1).0 ≡ ok (has_key p keys))
      (ap (λ r. r.1) saved_at)
      (same_answer env caller role keys p w0 other
        ∙ granted-set_role_permissions env role keys p w0 other
        ∙ ap ok (known-has_key p keys (ground (arith, known))))
