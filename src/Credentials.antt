-- ===== src/Credentials.antt =====
-- auth/password.ts, auth/jwt.ts and auth/temporaryPassword.ts. The libraries bcrypt and
-- jsonwebtoken and the generator of random numbers are the parameter `Crypto`.
pub mod Effects
pub mod Temporary
use coffee_traceability_back.Prelude.{
  ℕ, zero, suc, ◌+◌, ◌*◌, Bool, true, false, Option, none, some, List, [], ◌∷◌, ◌++◌, length,
}
use coffee_traceability_back.Schema.{Text, UserRole}
use coffee_traceability_back.Texts.{codes, join}
use coffee_traceability_back.World.{Env, World, M, pure, gets, ◌>>=◌, ◌>>◌, new_date, new_id}
use coffee_traceability_back.Errors.{ok}

-- `AccessTokenPayload`
pub record AccessClaims : Type 0 where
  pub sub : ℕ
  pub role : UserRole
  pub cooperative_id : Option ℕ
  pub must_change_password : Bool

-- Tokens are signed and verified at a time; a verification that throws is `none`.
pub record Crypto : Type 0 where
  pub hash : Text → ℕ → Text  -- `bcrypt.hash`, with the salt of the i-th draw
  pub compare : Text → Text → Bool  -- `bcrypt.compare`
  pub sign_access : AccessClaims → ℕ → Text
  pub verify_access : Text → ℕ → Option AccessClaims
  pub sign_refresh : ℕ → ℕ → ℕ → Text  -- the user, the `jti` and the time
  pub verify_refresh : Text → ℕ → Option ℕ
  pub random_int : ℕ → ℕ → ℕ  -- `crypto.randomInt(max)`, at the i-th draw

-- ALPHABET
abbrev pub alphabet : Text
alphabet = codes "ABCDEFGHJKLMNPQRTUVWXYZabcdefghijkmnpqrtuvwxyz23456789"

-- GROUPS and GROUP_SIZE
abbrev pub groups : ℕ
groups = 3

abbrev pub group_size : ℕ
group_size = 4

abbrev pub ttl_days : ℕ
ttl_days = 7

-- `ALPHABET[i]`
abbrev pub glyph_at : ℕ → Text → Text
glyph_at i [] = []
glyph_at zero (c ∷ t) = c ∷ []
glyph_at (suc i) (c ∷ t) = glyph_at i t

unfoldable pub temporary_password_expiry : ℕ → ℕ
temporary_password_expiry from_date = from_date + ttl_days * 24 * 60 * 60 * 1_000

module _ (crypto : Crypto) where
  -- One draw of the random source.
  unfoldable pub draw : ℕ → M ℕ
  draw max w = (ok (crypto.random_int max w.drawn), record w { drawn = suc w.drawn })

  -- The inner loop, for the number of characters that are left.
  unfoldable pub random_group : ℕ → M Text
  random_group zero = pure []
  random_group (suc n) = do
    i ← draw (length alphabet)
    rest ← random_group n
    pure (glyph_at i alphabet ++ rest)

  -- The outer loop, for the number of groups that are left.
  unfoldable pub random_groups : ℕ → M (List Text)
  random_groups zero = pure []
  random_groups (suc g) = do
    group ← random_group group_size
    rest ← random_groups g
    pure (group ∷ rest)

  unfoldable pub generate_temporary_password : M Text
  generate_temporary_password = do parts ← random_groups groups; pure (join b'-' parts)

  -- A draw of the salt.
  unfoldable pub hash_password : Text → M Text
  hash_password plain w = (ok (crypto.hash plain w.drawn), record w { drawn = suc w.drawn })

  module _ (env : Env) where
    unfoldable pub sign_access_token : AccessClaims → M Text
    sign_access_token claims = do now ← new_date env; pure (crypto.sign_access claims now)

    unfoldable pub sign_refresh_token : ℕ → M Text
    sign_refresh_token user_id = do
      jti ← new_id env
      now ← new_date env
      pure (crypto.sign_refresh user_id jti now)

    unfoldable pub verify_access_token : Text → M (Option AccessClaims)
    verify_access_token token = do now ← new_date env; pure (crypto.verify_access token now)

    unfoldable pub verify_refresh_token : Text → M (Option ℕ)
    verify_refresh_token token = do now ← new_date env; pure (crypto.verify_refresh token now)
