-- ===== src/Schema/Enums.antt =====
-- The enums of the schema, and the comparisons that the code makes of their values.
use coffee_traceability_back.Prelude.{
  ℕ, ◌≡◌, Bool, true, false, List, [], ◌∷◌, ◌==◌, if◌then◌else◌, arith,
}

pub data BatchStatus : Type 0 where
  registered in_processing processed in_storage in_transit sold exported rejected : BatchStatus

pub data UserRole : Type 0 where
  super_admin cooperative_admin cooperative_staff farmer buyer auditor : UserRole

pub data UserStatus : Type 0 where
  active suspended pending_verification deactivated : UserStatus

pub data ProcessingMethod : Type 0 where
  washed natural honey semi_washed : ProcessingMethod

pub data TransferStatus : Type 0 where
  pending confirmed rejected : TransferStatus

pub data GroupStatus : Type 0 where
  open_lot sold_lot : GroupStatus

pub data LedgerStatus : Type 0 where
  pending confirmed failed : LedgerStatus

pub data EventType : Type 0 where
  batch_created ownership_transferred processing_completed warehouse_stored sale_recorded :
      EventType
  quality_graded : EventType

pub data Entity : Type 0 where
  cooperative warehouse buyer_entity : Entity

-- `===` on statuses, by the position of a value in its enum.
abbrev pub status_index : BatchStatus → ℕ
status_index registered = 0
status_index in_processing = 1
status_index processed = 2
status_index in_storage = 3
status_index in_transit = 4
status_index sold = 5
status_index exported = 6
status_index BatchStatus.rejected = 7

abbrev pub same_status : BatchStatus → BatchStatus → Bool
same_status s t = status_index s == status_index t

abbrev pub includes : BatchStatus → List BatchStatus → Bool
includes s [] = false
includes s (t ∷ ts) = if same_status t s then true else includes s ts

pub eq_of_same_status : (s t : BatchStatus) → same_status s t ≡ true → s ≡ t
eq_of_same_status s t h = ground arith

pub same_status_refl : (s : BatchStatus) → same_status s s ≡ true
same_status_refl s = ground arith

abbrev pub role_index : UserRole → ℕ
role_index super_admin = 0
role_index cooperative_admin = 1
role_index cooperative_staff = 2
role_index farmer = 3
role_index buyer = 4
role_index auditor = 5

abbrev pub same_role : UserRole → UserRole → Bool
same_role r s = role_index r == role_index s

abbrev pub includes_role : UserRole → List UserRole → Bool
includes_role r [] = false
includes_role r (s ∷ ss) = if same_role s r then true else includes_role r ss

pub eq_of_same_role : (r s : UserRole) → same_role r s ≡ true → r ≡ s
eq_of_same_role r s h = ground arith

abbrev pub is_pending : TransferStatus → Bool
is_pending pending = true
is_pending confirmed = false
is_pending rejected = false

abbrev pub is_confirmed : TransferStatus → Bool
is_confirmed pending = false
is_confirmed confirmed = true
is_confirmed rejected = false

abbrev pub is_active_status : UserStatus → Bool
is_active_status active = true
is_active_status suspended = false
is_active_status pending_verification = false
is_active_status deactivated = false
