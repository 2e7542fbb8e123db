-- ===== src/Permissions/Granting.antt =====
-- `setRolePermissions`, and what `roleHasPermission` answers behind it.
use text.Mathlib.Text.{◌==◌ as str_eq}
use text.Mathlib.TextEquality.{eq_iff}
use coffee_traceability_back.Prelude.{
  ◌≡◌, refl, ap, ◌∙◌, subst, String, true, false, not, ◌&&◌, ◌||◌, List, [], ◌∷◌, ◌++◌, map, select,
  arith, Bool-cases, inl, inr,
}
use coffee_traceability_back.Errors.{ok}
use coffee_traceability_back.Schema.{UserRole, super_admin, same_role}
use coffee_traceability_back.World.{Env, World, Matrix}
use coffee_traceability_back.Permissions.{
  is_permission_key, has_key, clean_behind, clean_keys, granted, or_load, get_matrix,
  role_has_permission, invalidate, set_role_permissions,
}

same_role_refl : (role : UserRole) → same_role role role ≡ true
same_role_refl role = ground arith

module _ (seen : List String) (k : String) (ks : List String) where
  clean-kept :
      is_permission_key k && not (has_key k seen) ≡ true
      → clean_behind seen (k ∷ ks) ≡ k ∷ clean_behind (k ∷ seen) ks
  clean-kept e = rw (clean_behind, e) refl

  clean-dropped :
      is_permission_key k && not (has_key k seen) ≡ false
      → clean_behind seen (k ∷ ks) ≡ clean_behind seen ks
  clean-dropped e = rw (clean_behind, e) refl

module _ (p : String) where
  same_key : (k : String) → str_eq k p ≡ true → k ≡ p
  same_key k e = (eq_iff k p).0 e

  clean-has_key :
      (seen keys : List String)
      → (has_key p (clean_behind seen keys) || has_key p seen)
        ≡ (is_permission_key p && has_key p keys || has_key p seen)
  clean-has_key seen [] = ground arith
  clean-has_key seen (k ∷ ks) = elim (Bool-cases (is_permission_key k && not (has_key k seen))) [
    | inl kept ↦
        ap (λ xs. has_key p xs || has_key p seen) (clean-kept seen k ks kept)
        ∙ (elim (Bool-cases (str_eq k p)) [
          | inl same ↦
              (let key : is_permission_key p ≡ true =
                  subst (λ s. is_permission_key s ≡ true) (same_key k same)
                    (ground (arith, kept)) in
                ground (arith, same, key, clean-has_key (k ∷ seen) ks))
          | inr other ↦ ground (arith, other, clean-has_key (k ∷ seen) ks)
        ])
    | inr dropped ↦
        ap (λ xs. has_key p xs || has_key p seen) (clean-dropped seen k ks dropped)
        ∙ (elim (Bool-cases (str_eq k p)) [
          | inl same ↦
              (let dropped' : is_permission_key p && not (has_key p seen) ≡ false =
                  subst (λ s. is_permission_key s && not (has_key s seen) ≡ false) (same_key k same)
                    dropped in
                ground (arith, same, dropped', clean-has_key seen ks))
          | inr other ↦ ground (arith, other, clean-has_key seen ks)
        ])
  ]

  granted-append :
      (role : UserRole) (xs ys : Matrix)
      → granted (xs ++ ys) role p ≡ (granted xs role p || granted ys role p)
  granted-append role [] ys = refl
  granted-append role (x ∷ xs) ys = ground (arith, granted-append role xs ys)

  granted-others :
      (role : UserRole) (old : Matrix)
      → granted (select (λ (g : UserRole × String). not (same_role g.0 role)) old) role p ≡ false
  granted-others role [] = refl
  granted-others role (g ∷ gs) = ground (arith, granted-others role gs)

  granted-own :
      (role : UserRole) (keys : List String)
      → granted (map (λ (k : String). (role, k)) keys) role p ≡ has_key p keys
  granted-own role [] = refl
  granted-own role (k ∷ ks) = ground (arith, granted-own role ks, same_role_refl role)

-- After the permissions of a role are replaced, the role, unless it is SUPER_ADMIN, has exactly the
-- known keys of the new list: the cached matrix of before is not asked.
pub granted-set_role_permissions :
    (env : Env) (role : UserRole) (keys : List String) (p : String) (w : World)
    → same_role role super_admin ≡ false
    → (role_has_permission env role p (set_role_permissions role keys w).1).0
      ≡ ok (is_permission_key p && has_key p keys)
unfolding role_has_permission get_matrix or_load set_role_permissions invalidate
granted-set_role_permissions env role keys p w other =
    let old = select (λ (g : UserRole × String). not (same_role g.0 role)) w.db.role_permissions in
    let own = granted-own p role (clean_keys keys) in
    let clean = clean-has_key p [] keys in
    rw other (
      ap ok (
        granted-append p role (map (λ (k : String). (role, k)) (clean_keys keys)) old
        ∙ ground (arith, own, granted-others p role w.db.role_permissions, clean)))
