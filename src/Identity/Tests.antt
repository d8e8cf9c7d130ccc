-- ===== src/Identity/Tests.antt =====
-- A key that is issued, used and revoked on a small table, and the theorems at those inputs. The hash
-- of the tests is the text itself.
use text.Mathlib.TextPositions.{eq_refl}
use middle_east_geopolitic.Identity.Repository.{
  analyst, assign_role, get_or_create_role, create_user, find_api_key_by_plaintext, active,
  get_user_by_email, create_api_key, touch_api_key, User, IdentityStore, get_user, ApiKey,
}
use middle_east_geopolitic.Common.{refl, true, some, str_eq, none, [], Bool, ◌∷◌, ◌≡◌, String, List}
use middle_east_geopolitic.Identity.Service.{
  issue_api_key, generate_api_key, assign_roles, authenticate_api_key, missing_scopes,
  principal_of_key, issued, require_scopes, register_user, get_current_principal, Principal,
}
use middle_east_geopolitic.Identity.Access.{get_current_principal-Granted, Granted}
use middle_east_geopolitic.Common.Rows.{select, first?}
use middle_east_geopolitic.Common.Result.{unauthorized, forbidden, ok, err}
use middle_east_geopolitic.Identity.RoundTrip.{issue_api_key-authenticates}

abbrev ada : User
ada = record { id = 1; email = "ada@example.org"; display_name = "Ada"; status = active }

abbrev start : IdentityStore
start = record { users = ada ∷ []; roles = []; user_roles = []; api_keys = [] }

abbrev hash : String → String
hash t = t

abbrev verify : String → String → Bool
verify t h = str_eq t h

verify-hash : (t : String) → verify t (hash t) ≡ true
verify-hash t = eq_refl t

abbrev scopes : List String
scopes = "claims:create" ∷ []

issue_api_key-authenticates_example :
    (t : IdentityStore) × (get_current_principal verify
        (λ _. none)
        50
        (some (generate_api_key "x"))
        (issue_api_key 2 hash "x" 1 "laptop" scopes start).1
      ≡ ok (record { user_id = 1; scopes = scopes; api_key_id = some 2 }, t))
unfolding get_user first?
issue_api_key-authenticates_example =
    issue_api_key-authenticates verify hash 50 2 1 "x" "laptop" scopes start verify-hash tt refl

abbrev key : ApiKey
key = issued 2 1 "laptop" hash "mei_x" scopes

abbrev with_key : IdentityStore
with_key = create_api_key key start

abbrev caller : Principal
caller = principal_of_key key

admitted :
    get_current_principal verify (λ _. none) 50 (some "mei_x") with_key
    ≡ ok (caller, touch_api_key 2 50 with_key)
unfolding get_current_principal authenticate_api_key find_api_key_by_plaintext first? select
    create_api_key get_user
admitted = refl

get_current_principal-Granted_example :
    Granted verify 50 "mei_x" with_key caller (touch_api_key 2 50 with_key)
get_current_principal-Granted_example =
    get_current_principal-Granted verify (λ _. none) 50 "mei_x" with_key caller
      (touch_api_key 2 50 with_key) refl admitted

refused : require_scopes ("claims:assess" ∷ []) caller ≡ err forbidden
unfolding require_scopes missing_scopes select
refused = refl

abbrev revoked : IdentityStore
revoked = create_api_key (record key { revoked_at = some 40 }) start

locked_out : get_current_principal verify (λ _. none) 50 (some "mei_x") revoked ≡ err unauthorized
unfolding get_current_principal authenticate_api_key find_api_key_by_plaintext first? select
    create_api_key get_user
locked_out = refl

registered_twice :
    register_user 9 10 "ada@example.org" "A."
      (analyst ∷ [])
      (register_user 3 4 "ada@example.org" "Ada" (analyst ∷ []) start).1
    ≡ register_user 3 4 "ada@example.org" "Ada" (analyst ∷ []) start
unfolding register_user get_user_by_email create_user first? assign_roles get_or_create_role
    assign_role
registered_twice = refl
