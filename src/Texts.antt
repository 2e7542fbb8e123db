-- ===== src/Texts.antt =====
-- Texts as lists of code points: comparison, joining and decimal numerals.
pub mod Chars
use Prim.Native.Char.{code}
use coffee_traceability_back.Prelude.{
  ℕ, zero, suc, String, ◌≡◌, refl, ap, Bool, true, false, ◌||◌, Option, none, some, List, [], ◌∷◌,
  ◌++◌, ◌==◌, if◌then◌else◌, arith,
}
use coffee_traceability_back.Schema.{Text}

-- The code points of a literal. `String` has its own `[]` and `∷`.
abbrev pub codes : String → Text
codes String.[] = []
codes (String.◌∷◌ c s) = code c ∷ codes s

abbrev pub same_text : Text → Text → Bool
same_text [] [] = true
same_text (a ∷ s) (b ∷ t) = if a == b then same_text s t else false
same_text _ _ = false

abbrev pub same_text_option : Option Text → Option Text → Bool
same_text_option none none = true
same_text_option (some s) (some t) = same_text s t
same_text_option _ _ = false

-- `parts.join(separator)`
unfoldable pub join : ℕ → List Text → Text
join sep [] = []
join sep (t ∷ []) = t
join sep (t ∷ u ∷ ts) = t ++ sep ∷ join sep (u ∷ ts)

-- `text.slice(0, n)`
abbrev pub take : ℕ → Text → Text
take zero t = []
take (suc n) [] = []
take (suc n) (c ∷ t) = c ∷ take n t

pub eq_of_same_text : (s t : Text) → same_text s t ≡ true → s ≡ t
eq_of_same_text [] [] h = refl
eq_of_same_text [] (b ∷ t) h = cc
eq_of_same_text (a ∷ s) [] h = cc
eq_of_same_text (a ∷ s) (b ∷ t) h = ground (arith, eq_of_same_text s t)

pub same_text_refl : (s : Text) → same_text s s ≡ true
same_text_refl [] = refl
same_text_refl (a ∷ s) = ground (arith, same_text_refl s)

pub eq_of_same_text_option : (s t : Option Text) → same_text_option s t ≡ true → s ≡ t
eq_of_same_text_option none none h = refl
eq_of_same_text_option none (some t) h = cc
eq_of_same_text_option (some s) none h = cc
eq_of_same_text_option (some s) (some t) h = ap some (eq_of_same_text s t h)

pub same_text_option_refl : (s : Option Text) → same_text_option s s ≡ true
same_text_option_refl none = refl
same_text_option_refl (some s) = same_text_refl s

-- `text.endsWith(suffix)`
abbrev pub ends_with : Text → Text → Bool
ends_with suffix [] = same_text [] suffix
ends_with suffix (c ∷ t) = same_text (c ∷ t) suffix || ends_with suffix t
