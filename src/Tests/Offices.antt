-- ===== src/Tests/Offices.antt =====
-- The theorems on permissions, buyers and cooperatives at concrete callers.
use coffee_traceability_back.Prelude.{
  ◌≡◌, refl, String, none, some, true, false, List, [], ◌∷◌, All,
}
use coffee_traceability_back.Errors.{ok, err, unique_violation}
use coffee_traceability_back.Schema.{auditor}
use coffee_traceability_back.World.{safely}
use coffee_traceability_back.World.Returns.{Returns}
use coffee_traceability_back.Scope.{require_permission, any_permission, require_user, authorize}
use coffee_traceability_back.Audit.{record_audit_entry, record_audit_log}
use coffee_traceability_back.Permissions.{
  role_has_permission, get_matrix, set_role_permissions, invalidate, is_permission_key,
}
use coffee_traceability_back.Permissions.Routes.{update_handler}
use coffee_traceability_back.Permissions.Editing.{update_handler-Grants}
use coffee_traceability_back.Buyers.{BuyerData, insert_buyer, create_handler}
use coffee_traceability_back.Buyers.Creating.{create_handler-Refused}
use coffee_traceability_back.Cooperatives.{ListQuery, list_handler}
use coffee_traceability_back.Cooperatives.Directory.{IsOwn, list_handler-IsOwn}
use coffee_traceability_back.Samples.{env, admin, staff_of, stocked}

abbrev auditor_keys : List String
auditor_keys = "batches:view" ∷ "reports:view" ∷ []

update_handler-Grants_example :
    (role_has_permission env auditor "reports:view"
      (update_handler env admin auditor auditor_keys stocked).1).0
    ≡ ok true
unfolding update_handler require_permission any_permission require_user role_has_permission
    get_matrix set_role_permissions invalidate is_permission_key record_audit_entry safely
update_handler-Grants_example =
    update_handler-Grants env admin auditor auditor auditor_keys auditor_keys "reports:view" stocked
      _ refl

abbrev roastery : BuyerData
roastery = record {
  company_name = "Roastery";
  country = some "Italy";
  contact_email = none;
  contact_phone = none;
}

create_handler-Refused_example :
    create_handler env
      (staff_of 7)
      (record roastery { company_name = "Trader" })
      (create_handler env (staff_of 7) roastery stocked).1
    ≡ (err unique_violation, (create_handler env (staff_of 7) roastery stocked).1)
unfolding create_handler insert_buyer authorize require_user record_audit_log record_audit_entry
    safely
create_handler-Refused_example =
    create_handler-Refused env (staff_of 7) _ roastery (record roastery { company_name = "Trader" })
      stocked _ _ refl refl

abbrev directory_query : ListQuery
directory_query = record { page = 1; limit = 20; county = some "Nyeri"; search = none }

list_handler-IsOwn_example :
    Returns
      (λ shown. All (IsOwn 7) shown.0)
      (list_handler (λ name text. false) (staff_of 7) directory_query)
list_handler-IsOwn_example =
    list_handler-IsOwn (λ name text. false) (staff_of 7) directory_query 7 (_, refl, refl, refl)
