-- ===== src/Texts/Chars.antt =====
-- Texts by their characters: the classes of the regular expressions, the change of case, trimming
-- and prefixes.
use coffee_traceability_back.Prelude.{
  ℕ, zero, suc, ◌+◌, ◌-◌, Bool, true, false, ◌&&◌, ◌||◌, [], ◌∷◌, ◌==◌, leb, if◌then◌else◌, any,
}
use coffee_traceability_back.Schema.{Text}

-- `\d`
abbrev pub is_digit : ℕ → Bool
is_digit c = leb b'0' c && leb c b'9'

-- `\s`, which is also what `trim` takes off.
abbrev pub is_space : ℕ → Bool
is_space c =
    leb 9 c && leb c 13
    || leb 0x2000 c && leb c 0x200A
    || any (λ s. s == c)
        (32 ∷ 160 ∷ 0x1680 ∷ 0x2028 ∷ 0x2029 ∷ 0x202F ∷ 0x205F ∷ 0x3000 ∷ 0xFEFF ∷ [])

-- `[\s()-]`
abbrev pub is_separator : ℕ → Bool
is_separator c = is_space c || c == b'(' || c == b')' || c == b'-'

abbrev pub all_chars : (ℕ → Bool) → Text → Bool
all_chars p [] = true
all_chars p (c ∷ t) = p c && all_chars p t

-- `text.replace(/[…]/g, "")`
abbrev pub strip : (ℕ → Bool) → Text → Text
strip p [] = []
strip p (c ∷ t) = let rest = strip p t in if p c then rest else c ∷ rest

abbrev pub trim_start : Text → Text
trim_start [] = []
trim_start (c ∷ t) = let rest = trim_start t in if is_space c then rest else c ∷ t

abbrev cons_unless_blank : ℕ → Text → Text
cons_unless_blank c [] = if is_space c then [] else c ∷ []
cons_unless_blank c (d ∷ t) = c ∷ d ∷ t

abbrev pub trim_end : Text → Text
trim_end [] = []
trim_end (c ∷ t) = cons_unless_blank c (trim_end t)

-- `text.trim()`
abbrev pub trim : Text → Text
trim t = trim_end (trim_start t)

-- The change of case, of the ASCII letters.
abbrev lower_char : ℕ → ℕ
lower_char c = if leb b'A' c && leb c b'Z' then c + 32 else c

abbrev upper_char : ℕ → ℕ
upper_char c = if leb b'a' c && leb c b'z' then c - 32 else c

abbrev pub lower : Text → Text
lower [] = []
lower (c ∷ t) = lower_char c ∷ lower t

abbrev pub upper : Text → Text
upper [] = []
upper (c ∷ t) = upper_char c ∷ upper t

-- `text.startsWith(prefix)`
abbrev pub starts_with : Text → Text → Bool
starts_with [] t = true
starts_with (p ∷ ps) [] = false
starts_with (p ∷ ps) (c ∷ t) = p == c && starts_with ps t

-- `text.slice(n)`
abbrev pub drop : ℕ → Text → Text
drop zero t = t
drop (suc n) [] = []
drop (suc n) (c ∷ t) = drop n t

abbrev pub is_empty : Text → Bool
is_empty [] = true
is_empty (c ∷ t) = false
