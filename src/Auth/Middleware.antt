-- ===== src/Auth/Middleware.antt =====
-- middleware/authenticate.ts, middleware/requirePasswordChanged.ts and middleware/protect.ts: what
-- every protected route runs before its handler.
use coffee_traceability_back.Prelude.{
  ℕ, Bool, true, false, not, Option, none, some, List, [], ◌∷◌, ◌==◌, ◌&&◌, if◌then◌else◌, find?,
  any, same_option,
}
use coffee_traceability_back.Errors.{
  unauthorized, api, new_error, with_code, malformed_header, invalid_access_token, set_own_password,
  password_change_required,
}
use coffee_traceability_back.Schema.{Text, Farmer, Accounts, farmer, same_role}
use coffee_traceability_back.Texts.{codes, ends_with}
use coffee_traceability_back.Texts.Chars.{starts_with, drop}
use coffee_traceability_back.World.{Env, M, pure, gets_accounts, or_raise, ◌>>=◌, ◌>>◌, raise_if}
use coffee_traceability_back.Scope.{Caller, AuthUser}
use coffee_traceability_back.System.{maintenance_gate}
use coffee_traceability_back.Credentials.{Crypto, AccessClaims, verify_access_token}

abbrev bearer : Text
bearer = codes "Bearer "

-- The token of the header, if the header is there and begins as it has to.
abbrev pub bearer_token : Option Text → Option Text
bearer_token none = none
bearer_token (some header) = if starts_with bearer header then some (drop 7 header) else none

abbrev pub user_of : AccessClaims → AuthUser
user_of claims = record {
  id = claims.sub;
  role = claims.role;
  cooperative_id = claims.cooperative_id;
  must_change_password = claims.must_change_password;
}

abbrev has_login : ℕ → Farmer → Bool
has_login user_id f = same_option f.user_id (some user_id) && not f.is_deleted

-- The farmer profile of the token's subject.
abbrev pub profile_for : AccessClaims → Accounts → Option ℕ
profile_for claims a =
    if same_role claims.role farmer
    then elim (find? (has_login claims.sub) a.farmers) [ none ↦ none | some f ↦ some f.id ]
    else none

-- The caller that the rest of the request sees.
unfoldable pub authenticate : Env → Crypto → Option Text → M Caller
authenticate env crypto header = do
  token ← or_raise (bearer_token header) (unauthorized malformed_header)
  payload ← verify_access_token crypto env token
  claims ← or_raise payload (unauthorized invalid_access_token)
  farmer_id ← gets_accounts (profile_for claims)
  pure (record { user = some (user_of claims); farmer_id = farmer_id })

-- The method of a request, as far as the allow-list tells them apart.
pub data Method : Type 0 where
  get post other_method : Method

abbrev same_method : Method → Method → Bool
same_method get get = true
same_method post post = true
same_method _ _ = false

-- ALLOWED_WHILE_PENDING; a path is tested by its end.
abbrev pub allowed_while_pending : List (Method × Text)
allowed_while_pending =
    (post, codes "/auth/change-password")
    ∷ (post, codes "/auth/logout")
    ∷ (get, codes "/users/me")
    ∷ []

-- `url.split("?")[0]`
abbrev pub path_of : Text → Text
path_of [] = []
path_of (c ∷ t) = let rest = path_of t in if c == b'?' then [] else c ∷ rest

abbrev pub is_allowed_pending : Method → Text → Bool
is_allowed_pending method url =
    any (λ (e : Method × Text). same_method e.0 method && ends_with e.1 (path_of url))
      allowed_while_pending

-- No caller, or one with a password of their own, passes.
abbrev pub is_pending_password : Caller → Bool
is_pending_password caller = elim caller.user [ none ↦ false | some u ↦ u.must_change_password ]

unfoldable pub require_password_changed : Caller → Method → Text → M (Unit {0})
require_password_changed caller method url =
    raise_if (is_pending_password caller && not (is_allowed_pending method url))
      (api (with_code password_change_required (new_error 403 set_own_password)))

-- `protect`: the three checks in their order.
unfoldable pub protect : Env → Crypto → Option Text → Method → Text → M Caller
protect env crypto header method url = do
  caller ← authenticate env crypto header
  maintenance_gate env caller
  require_password_changed caller method url
  pure caller
