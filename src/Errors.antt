-- ===== src/Errors.antt =====
-- utils/ApiError.ts and the status that middleware/errorHandler.ts answers with. A message is
-- a constructor of `Reason`; the values that its text quotes are left out.
use coffee_traceability_back.Prelude.{ℕ, Bool, true, Option, none, some, ◌≡◌, refl, ◌⊎◌, inl, inr}

-- The machine-readable codes that `withCode` attaches.
pub data Tag : Type 0 where
  temporary_password_expired maintenance password_change_required : Tag

pub data Reason : Type 0 where
  unauthorized_request no_cooperative other_cooperative no_permission : Reason
  no_farmer_profile other_farmer not_your_batch : Reason
  batch_not_found invalid_cooperative cannot_transition no_processing_record : Reason
  sold_by_transfer stored_by_warehouse no_batch_for_code : Reason
  warehouse_not_found already_stored more_than_batch not_enough_space : Reason
  inventory_not_found already_checked_out : Reason
  starts_before_registration : Reason
  transfer_not_found transfer_finalized buyer_not_found : Reason
  batches_not_found ineligible_batches lot_not_found lot_sold lot_empty : Reason
  not_sellable already_pending no_pending_sale invalid_lot : Reason
  farmer_not_in_cooperative delivery_not_found invalid_deliveries : Reason
  role_not_grantable cooperative_required email_taken phone_taken : Reason
  invalid_credentials account_locked account_inactive temporary_expired under_maintenance : Reason
  invalid_refresh_token stale_refresh_token wrong_password same_password : Reason
  farmer_not_found login_exists no_login user_not_found other_cooperative_user : Reason
  cooperative_not_found notification_not_found : Reason
  immutable_role unknown_permissions invalid_qr_code : Reason
  set_own_password malformed_header invalid_access_token : Reason

-- `class ApiError`
pub record ApiError : Type 0 where
  pub status_code : ℕ
  pub reason : Reason
  pub is_operational : Bool
  pub code : Option Tag

-- The constructor, with its default for `isOperational`.
abbrev pub new_error : ℕ → Reason → ApiError
new_error status reason = record {
  status_code = status;
  reason = reason;
  is_operational = true;
  code = none;
}

abbrev pub with_code : Tag → ApiError → ApiError
with_code tag e = record e { code = some tag }

-- What a handler can throw: an `ApiError`, an error of the database client by its code, or
-- anything else.
pub data Failure : Type 0 where
  api : ApiError → Failure
  unique_violation record_not_found request_error : Failure
  unexpected : Failure

abbrev pub bad_request : Reason → Failure
bad_request reason = api (new_error 400 reason)

abbrev pub unauthorized : Reason → Failure
unauthorized reason = api (new_error 401 reason)

abbrev pub forbidden : Reason → Failure
forbidden reason = api (new_error 403 reason)

abbrev pub not_found : Reason → Failure
not_found reason = api (new_error 404 reason)

abbrev pub conflict : Reason → Failure
conflict reason = api (new_error 409 reason)

abbrev pub service_unavailable : Reason → Failure
service_unavailable reason = api (new_error 503 reason)

-- The status of `errorHandler`: P2002 is a violated unique constraint, P2025 a missing record.
pub status_of_failure : Failure → ℕ
status_of_failure (api e) = e.status_code
status_of_failure unique_violation = 409
status_of_failure record_not_found = 404
status_of_failure request_error = 400
status_of_failure unexpected = 500

pub data Result {ℓ} (A : Type ℓ) : Type ℓ where
  ok : A → Result A
  err : Failure → Result A

pub Result-cases {ℓ} :
    {A : Type ℓ} (r : Result A) → ((a : A) × (r ≡ ok a)) ⊎ ((e : Failure) × (r ≡ err e))
Result-cases (ok a) = inl (a, refl)
Result-cases (err e) = inr (e, refl)
