-- ===== src/Identifiers.antt =====
-- auth/identifier.ts: the identifiers that an account signs in with.
pub mod Phones
use coffee_traceability_back.Prelude.{
  ℕ, Bool, true, false, not, ◌&&◌, ◌||◌, Option, none, some, List, [], ◌∷◌, ◌++◌, ◌==◌,
  if◌then◌else◌, any, length, or_else,
}
use coffee_traceability_back.Schema.{Text, UserRole, farmer, same_role}
use coffee_traceability_back.Texts.{codes, take}
use coffee_traceability_back.Texts.Chars.{
  is_digit, is_separator, all_chars, strip, trim, upper, starts_with, drop, is_empty,
}

pub data IdentifierKind : Type 0 where
  email phone farmer_code : IdentifierKind

-- `/^\d+$/`
abbrev pub is_numeral : Text → Bool
is_numeral t = not (is_empty t) && all_chars is_digit t

-- `text.replace(/^\+/, "")`
abbrev pub without_plus : Text → Text
without_plus [] = []
without_plus (c ∷ t) = if c == b'+' then t else c ∷ t

-- The country code of Kenya.
abbrev pub country_code : Text
country_code = b'2' ∷ b'5' ∷ b'4' ∷ []

-- The number without its country code or its leading zero.
abbrev pub local_number : Text → Text
local_number digits =
    if starts_with country_code digits
    then drop 3 digits
    else if starts_with (b'0' ∷ []) digits
    then drop 1 digits
    else digits

-- `/^[17]\d{8}$/`
abbrev pub is_mobile : Text → Bool
is_mobile [] = false
is_mobile (c ∷ t) = (c == b'1' || c == b'7') && length t == 8 && all_chars is_digit t

abbrev pub digits_of : Text → Text
digits_of raw = without_plus (strip is_separator raw)

-- `+254${local}`
abbrev pub international : Text → Text
international local = b'+' ∷ country_code ++ local

abbrev mobile_of : Text → Option Text
mobile_of local = if is_mobile local then some (international local) else none

unfoldable pub normalize_phone : Text → Option Text
normalize_phone raw =
    if is_numeral (digits_of raw) then mobile_of (local_number (digits_of raw)) else none

-- `/^FARM-\d{4}-\d+$/i`; no letter beyond ASCII has one of these as its upper case here.
abbrev pub is_farmer_code : Text → Bool
is_farmer_code t =
    starts_with (codes "FARM-") (upper t)
    && length (take 4 (drop 5 t)) == 4
    && all_chars is_digit (take 4 (drop 5 t))
    && starts_with (b'-' ∷ []) (drop 9 t)
    && is_numeral (drop 10 t)

unfoldable pub classify_identifier : Text → IdentifierKind
classify_identifier raw =
    if any (λ c. c == b'@') (trim raw)
    then email
    else if is_farmer_code (trim raw)
    then farmer_code
    else phone

abbrev pub first_of : List (Option Text) → Text
first_of [] = []
first_of (none ∷ ts) = first_of ts
first_of (some t ∷ ts) = t

-- A farmer code that is missing or empty is not printed for a farmer.
unfoldable pub preferred_identifier : Option Text → Option Text → UserRole → Option Text → Text
preferred_identifier email_address phone_number role code =
    if same_role role farmer && not (is_empty (or_else code []))
    then or_else code []
    else first_of (email_address ∷ phone_number ∷ code ∷ [])
