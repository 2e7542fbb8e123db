-- ===== src/EntityCode/Numerals.antt =====
-- The numerals in the codes (`String(n)` and `padStart`), read back.
use coffee_traceability_back.Prelude.{
  ℕ, zero, suc, ◌+◌, ◌-◌, ◌*◌, ◌/◌, ◌%◌, ◌<◌, ◌≡◌, refl, sym, ap, ◌∙◌, true, false, inl, inr,
  Bool-cases, [], ◌∷◌, ◌++◌, ltb, length, arith,
}
use coffee_traceability_back.Schema.{Text}
use coffee_traceability_back.EntityCode.{decimal_from, decimal, zeros, pad_start, entity_code}

-- The number that the digits say, behind those that have been read.
abbrev pub read_from : ℕ → Text → ℕ
read_from a [] = a
read_from a (c ∷ t) = read_from (a * 10 + (c - b'0')) t

read_from-append : (a : ℕ) (s t : Text) → read_from a (s ++ t) ≡ read_from (read_from a s) t
read_from-append a [] t = refl
read_from-append a (c ∷ s) t = read_from-append (a * 10 + (c - b'0')) s t

read_from-zeros : (k : ℕ) → read_from 0 (zeros k) ≡ 0
read_from-zeros zero = refl
read_from-zeros (suc k) = read_from-zeros k

decimal_from-digit : (fuel n : ℕ) → ltb n 10 ≡ true → decimal_from (suc fuel) n ≡ (b'0' + n) ∷ []
unfolding decimal_from
decimal_from-digit fuel n digit = rw (digit, decimal_from) refl

decimal_from-more :
    (fuel n : ℕ)
    → ltb n 10 ≡ false
    → decimal_from (suc fuel) n ≡ decimal_from fuel (n / 10) ++ (b'0' + n % 10) ∷ []
unfolding decimal_from
decimal_from-more fuel n more = rw (more, decimal_from) refl

-- Fuel above the number is enough.
read_from-decimal_from : (fuel n : ℕ) → n < fuel → read_from 0 (decimal_from fuel n) ≡ n
unfolding decimal_from
read_from-decimal_from zero n below = absurd (omega arith)
read_from-decimal_from (suc fuel) n below = elim (Bool-cases (ltb n 10)) [
  | inl digit ↦ ap (read_from 0) (decimal_from-digit fuel n digit) ∙ omega arith
  | inr more ↦
      (let tens : 9 < n = ground arith in
        ap (read_from 0) (decimal_from-more fuel n more)
        ∙ read_from-append 0 (decimal_from fuel (n / 10)) ((b'0' + n % 10) ∷ [])
        ∙ ap (λ a. a * 10 + (b'0' + n % 10 - b'0'))
            (read_from-decimal_from fuel (n / 10) (omega arith))
        ∙ omega arith)
]

-- The number in a code is read back, however short the padding.
pub read_from-pad_start : (padding n : ℕ) → read_from 0 (pad_start padding (decimal n)) ≡ n
unfolding pad_start decimal
read_from-pad_start padding n =
    read_from-append 0 (zeros (padding - length (decimal_from (suc n) n))) (decimal_from (suc n) n)
    ∙ rw (read_from-zeros (padding - length (decimal_from (suc n) n)))
        (read_from-decimal_from (suc n) n (omega arith))

tail_of : Text → Text
tail_of [] = []
tail_of (c ∷ t) = t

cancel : (s t u : Text) → s ++ t ≡ s ++ u → t ≡ u
unfolding tail_of
cancel [] t u e = e
cancel (c ∷ s) t u e = cancel s t u (ap tail_of e)

-- Codes of one prefix and year are the same only where their numbers are.
pub entity_code-injective :
    (prefix : Text) (year padding m n : ℕ)
    → entity_code prefix year padding m ≡ entity_code prefix year padding n
    → m ≡ n
unfolding entity_code tail_of
entity_code-injective prefix year padding m n e =
    let behind = ap tail_of (cancel prefix _ _ e) in
    let numbers = ap tail_of (cancel (decimal year) _ _ behind) in
    sym (read_from-pad_start padding m) ∙ ap (read_from 0) numbers ∙ read_from-pad_start padding n
