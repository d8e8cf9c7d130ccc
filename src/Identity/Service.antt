-- ===== src/Identity/Service.antt =====
-- src/mei/application/services/identity.py, and the dependency of src/mei/infrastructure/auth that
-- turns the credentials of a request into a principal.
use text.Mathlib.Text.{starts_with}
use Prim.Native.String.{◌++◌ as str_append}
use middle_east_geopolitic.Common.{
  if◌then◌else◌, suc, ltb, not, false, ◌∷◌, str_elem, [], some, none, Bool, Option, String, ℕ, List,
}
use middle_east_geopolitic.Identity.Repository.{
  touch_api_key, get_user, find_api_key_by_plaintext, assign_role, role_value, is_active,
  get_or_create_role, create_user, get_user_by_email, create_api_key, IdentityStore, User, RoleName,
  ApiKey,
}
use middle_east_geopolitic.Common.Result.{
  or_raise, ◌>>◌, ◌>>=◌, unauthorized, forbidden, ok, err, require, Result,
}
use middle_east_geopolitic.Common.Rows.{select}

-- `API_KEY_PREFIX`
abbrev pub api_key_prefix : String
api_key_prefix = "mei_"

-- The payload of a token that `decode_access_token` accepts. The `sub` is the text of a UUID.
pub record Payload : Type 0 where
  pub sub : ℕ
  pub scopes : Option (List String)

pub record Principal : Type 0 where
  pub user_id : ℕ
  pub scopes : List String
  pub api_key_id : Option ℕ

-- `Principal.has_scope`
abbrev pub has_scope : Principal → String → Bool
has_scope p scope = str_elem scope p.scopes

abbrev pub is_expired : Option ℕ → ℕ → Bool
is_expired none now = false
is_expired (some t) now = ltb t now

-- `user is None or user.status != UserStatus.ACTIVE`
abbrev pub is_active_user : Option User → Bool
is_active_user none = false
is_active_user (some u) = is_active u.status

unfoldable pub authenticate_api_key :
    (String → String → Bool) → ℕ → String → IdentityStore → Result (ApiKey × IdentityStore)
authenticate_api_key verify now plaintext s =
    require (starts_with plaintext api_key_prefix) unauthorized
    >> or_raise (find_api_key_by_plaintext verify plaintext s) unauthorized
    >>= λ k.
        require (not (is_expired k.expires_at now)) unauthorized
        >> require (is_active_user (get_user k.user_id s)) unauthorized
        >> ok (record k { last_used_at = some now }, touch_api_key k.id now s)

abbrev given_scopes : Option (List String) → List String
given_scopes none = []
given_scopes (some scopes) = scopes

-- `decode_access_token` is the PyJWT library's, a parameter that refuses a token by `none`. A decoded
-- token needs no table.
abbrev principal_of_payload : Option Payload → IdentityStore → Result (Principal × IdentityStore)
principal_of_payload none s = err unauthorized
principal_of_payload (some p) s =
    ok (record { user_id = p.sub; scopes = given_scopes p.scopes; api_key_id = none }, s)

abbrev pub principal_of_key : ApiKey → Principal
principal_of_key k = record { user_id = k.user_id; scopes = k.scopes; api_key_id = some k.id }

unfoldable pub get_current_principal :
    (String → String → Bool)
    → (String → Option Payload)
    → ℕ
    → Option String
    → IdentityStore
    → Result (Principal × IdentityStore)
get_current_principal verify decode now none s = err unauthorized
get_current_principal verify decode now (some token) s =
    let by_key = authenticate_api_key verify now token s >>= λ r. ok (principal_of_key r.0, r.1) in
    if starts_with token api_key_prefix then by_key else principal_of_payload (decode token) s

-- `[scope for scope in required if not principal.has_scope(scope)]`
unfoldable pub missing_scopes : List String → Principal → List String
missing_scopes required p = select (λ scope. not (has_scope p scope)) required

abbrev pub check_missing : List String → Principal → Result Principal
check_missing [] p = ok p
check_missing (m ∷ ms) p = err forbidden

unfoldable pub require_scopes : List String → Principal → Result Principal
require_scopes required p = check_missing (missing_scopes required p) p

-- The loop over the roles in `register_user`; `fresh` counts up the ids of new roles.
unfoldable pub assign_roles : ℕ → ℕ → List RoleName → IdentityStore → IdentityStore
assign_roles fresh user [] s = s
assign_roles fresh user (name ∷ names) s =
    let (r, t) = get_or_create_role fresh (role_value name) s in
    assign_roles (suc fresh) user names (assign_role user r.id t)

abbrev found_or_created : Option User → ℕ → String → String → IdentityStore → User × IdentityStore
found_or_created (some u) fresh email display_name s = (u, s)
found_or_created none fresh email display_name s = create_user fresh email display_name s

unfoldable pub register_user :
    ℕ → ℕ → String → String → List RoleName → IdentityStore → User × IdentityStore
register_user fresh fresh_role email display_name names s =
    let (u, t) = found_or_created (get_user_by_email email s) fresh email display_name s in
    (u, assign_roles fresh_role u.id names t)

-- `issue_api_key`: the random part of the key and its hash are parameters.
abbrev pub issued : ℕ → ℕ → String → (String → String) → String → List String → ApiKey
issued fresh user name hash plaintext scopes = record {
  id = fresh;
  user_id = user;
  name = name;
  key_hash = hash plaintext;
  scopes = scopes;
  expires_at = none;
  last_used_at = none;
  revoked_at = none;
}

-- `generate_api_key`
unfoldable pub generate_api_key : String → String
generate_api_key random = str_append api_key_prefix random

unfoldable pub issue_api_key :
    ℕ
    → (String → String)
    → String
    → ℕ
    → String
    → List String
    → IdentityStore
    → (ApiKey × String) × IdentityStore
issue_api_key fresh hash random user name scopes s =
    let plaintext = generate_api_key random in
    let k = issued fresh user name hash plaintext scopes in ((k, plaintext), create_api_key k s)
