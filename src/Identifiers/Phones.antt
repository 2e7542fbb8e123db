-- ===== src/Identifiers/Phones.antt =====
-- The canonical form of a phone number (`normalizePhone`).
use coffee_traceability_back.Prelude.{
  ℕ, suc, ◌≡◌, refl, ap, ◌⊎◌, inl, inr, true, false, Bool-cases, some, [], ◌∷◌, ◌++◌, length, arith,
}
use coffee_traceability_back.Schema.{Text}
use coffee_traceability_back.Texts.Chars.{is_digit, is_separator, all_chars, strip}
use coffee_traceability_back.Identifiers.{
  normalize_phone, is_mobile, international, is_numeral, digits_of, local_number, country_code,
}

digit_kept : (c : ℕ) → is_digit c ≡ true → is_separator c ≡ false
digit_kept c h = ground arith

strip-digits : (t : Text) → all_chars is_digit t ≡ true → strip is_separator t ≡ t
strip-digits [] h = refl
strip-digits (c ∷ t) h = ground (arith, digit_kept c, strip-digits t)

mobile_digits : (t : Text) → is_mobile t ≡ true → all_chars is_digit t ≡ true
mobile_digits [] h = refl
mobile_digits (c ∷ t) h = ground arith

mobile_length : (t : Text) → is_mobile t ≡ true → length t ≡ 9
mobile_length [] h = cc
mobile_length (c ∷ t) h = ground arith

mobile_head :
    (c : ℕ) (t : Text)
    → is_mobile (c ∷ t) ≡ true
    → ((c ≡ b'1') ⊎ (c ≡ b'7')) × (all_chars is_digit t ≡ true)
mobile_head c t m = ground arith

-- The ways in which one number is written.
pub data Spelling : Type 0 where
  bare zero_led coded plus_coded : Spelling

abbrev pub spell : Spelling → Text → Text
spell bare local = local
spell zero_led local = b'0' ∷ local
spell coded local = country_code ++ local
spell plus_coded local = international local

spell-numeral :
    (s : Spelling) (c : ℕ) (t raw : Text)
    → is_mobile (c ∷ t) ≡ true
    → strip is_separator raw ≡ spell s (c ∷ t)
    → (is_numeral (digits_of raw) ≡ true) × (local_number (digits_of raw) ≡ c ∷ t)
spell-numeral bare c t raw m e =
    let (first, digits) = mobile_head c t m in
    elim first [ inl one ↦ rw (e, one) (digits, refl) | inr seven ↦ rw (e, seven) (digits, refl) ]
spell-numeral zero_led c t raw m e = rw e (mobile_digits (c ∷ t) m, refl)
spell-numeral coded c t raw m e = rw e (mobile_digits (c ∷ t) m, refl)
spell-numeral plus_coded c t raw m e = rw e (mobile_digits (c ∷ t) m, refl)

-- However the number of a Kenyan mobile is written (with the country code, with a plus sign before
-- it, with a leading zero or bare, and with any spaces, brackets and hyphens between), its
-- canonical form is the one international form of the number.
pub normalize_phone-spell :
    (s : Spelling) (local raw : Text)
    → is_mobile local ≡ true
    → strip is_separator raw ≡ spell s local
    → normalize_phone raw ≡ some (international local)
unfolding normalize_phone
normalize_phone-spell s [] raw m e = absurd cc
normalize_phone-spell s (c ∷ t) raw m e =
    let found = spell-numeral s c t raw m e in rw (found.0, found.1, m) refl

-- What is returned is the international form of a mobile number.
pub normalize_phone-mobile :
    (raw phone : Text)
    → normalize_phone raw ≡ some phone
    → (local : Text) × (is_mobile local ≡ true) × (phone ≡ international local)
unfolding normalize_phone
normalize_phone-mobile raw phone e = elim (Bool-cases (is_mobile (local_number (digits_of raw)))) [
  | inl m ↦ (local_number (digits_of raw), m, ground arith)
  | inr m ↦ ground arith
]

-- A canonical phone number is 13 characters long, and is its own canonical form.
pub normalize_phone-canonical :
    (raw phone : Text)
    → normalize_phone raw ≡ some phone
    → (length phone ≡ 13) × (normalize_phone phone ≡ some phone)
normalize_phone-canonical raw phone e =
    let (local, mobile, same) = normalize_phone-mobile raw phone e in
    rw same (
      ap (λ n. suc (suc (suc (suc n)))) (mobile_length local mobile),
      normalize_phone-spell plus_coded local (international local) mobile
          (ap (λ t. b'+' ∷ country_code ++ t) (strip-digits local (mobile_digits local mobile))),
    )
