-- ===== src/Credentials/Temporary.antt =====
-- The shape of a temporary password (`generateTemporaryPassword`).
use coffee_traceability_back.Prelude.{
  ℕ, zero, suc, ◌<◌, ◌≡◌, refl, ap, Bool, true, false, not, ◌&&◌, ◌||◌, [], ◌∷◌, ◌++◌, ◌==◌, leb,
  any, length, arith,
}
use coffee_traceability_back.Schema.{Text}
use coffee_traceability_back.Texts.{codes, join}
use coffee_traceability_back.Texts.Chars.{is_digit, all_chars}
use coffee_traceability_back.Errors.{ok}
use coffee_traceability_back.World.{World}
use coffee_traceability_back.Credentials.{
  Crypto, draw, alphabet, glyph_at, random_group, random_groups, generate_temporary_password,
}

-- What `crypto.randomInt(max)` promises.
abbrev pub IsBelowMax : Crypto → Type 0
IsBelowMax crypto = (max i : ℕ) → 0 < max → crypto.random_int max i < max

-- A letter or a digit that is not among `0 O o 1 l I S`.
abbrev pub is_clear : ℕ → Bool
is_clear c =
    (is_digit c || leb b'A' c && leb c b'Z' || leb b'a' c && leb c b'z')
    && not (any (λ g. g == c) (codes "0Oo1lIS"))

-- A run of `n` such characters.
abbrev pub IsRun : ℕ → Text → Type 0
IsRun n t = (length t ≡ n) × (all_chars is_clear t ≡ true)

and_true : (a b : Bool) → a && b ≡ true → (a ≡ true) × (b ≡ true)
and_true true b h = (refl, h)
and_true false b h = absurd cc

and_intro : (a b : Bool) → a ≡ true → b ≡ true → a && b ≡ true
and_intro a b h k = rw (h, k) refl

glyph_at-clear :
    (i : ℕ) (t : Text)
    → i < length t
    → all_chars is_clear t ≡ true
    → (c : ℕ) × (glyph_at i t ≡ c ∷ []) × (is_clear c ≡ true)
glyph_at-clear i [] below clear = absurd (omega arith)
glyph_at-clear zero (c ∷ t) below clear =
    (c, refl, (and_true (is_clear c) (all_chars is_clear t) clear).0)
glyph_at-clear (suc i) (c ∷ t) below clear =
    glyph_at-clear i t (omega arith) (and_true (is_clear c) (all_chars is_clear t) clear).1

module _ (crypto : Crypto) (below : IsBelowMax crypto) where
  random_group-IsRun :
      (n : ℕ) (w : World)
      → (t : Text) × (w' : World) × (random_group crypto n w ≡ (ok t, w')) × IsRun n t
  unfolding random_group draw
  random_group-IsRun zero w = ([], w, refl, (refl, refl))
  random_group-IsRun (suc n) w =
      let (c, glyph, clear) =
        glyph_at-clear (crypto.random_int (length alphabet) w.drawn) alphabet
          (below (length alphabet) w.drawn (omega arith)) refl in
      let (t, w', run, (long, all)) = random_group-IsRun n (record w { drawn = suc w.drawn }) in
      (c ∷ t, w', rw (run, glyph) refl, (ap suc long, and_intro _ _ clear all))

  -- A temporary password is always produced, and is three groups of four characters with hyphens
  -- between; each character is a letter or a digit, and none of `0 O o 1 l I S`.
  pub generate_temporary_password-IsRun :
      (w : World)
      → (a b c : Text) × ((generate_temporary_password crypto w).0
          ≡ ok (a ++ b'-' ∷ (b ++ b'-' ∷ c)))
        × IsRun 4 a
        × IsRun 4 b
        × IsRun 4 c
  unfolding generate_temporary_password random_groups join
  generate_temporary_password-IsRun w =
      let (a, w1, ra, ga) = random_group-IsRun 4 w in
      let (b, w2, rb, gb) = random_group-IsRun 4 w1 in
      let (c, w3, rc, gc) = random_group-IsRun 4 w2 in (a, b, c, rw (ra, rb, rc) refl, ga, gb, gc)
