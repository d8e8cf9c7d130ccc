-- ===== src/Identity/Access.antt =====
-- What a principal is granted by, and what it may do.

-- What stands behind a principal that was authenticated by an API key: a stored key that the token
-- opens, neither revoked nor expired, of a user that is active. The only change is its time of use.
use text.Mathlib.Text.{starts_with}
use middle_east_geopolitic.Common.{
  sym, ap, subst, false, refl, arith, some, Elem, ◌↔◌, ◌∷◌, [], true, Option, not, All, ℕ, ◌≡◌,
  Bool, String, List,
}
use middle_east_geopolitic.Identity.Service.{
  is_active_user, is_expired, api_key_prefix, has_scope, principal_of_key, Payload, check_missing,
  missing_scopes, Principal, require_scopes, get_current_principal, authenticate_api_key,
}
use middle_east_geopolitic.Identity.Repository.{
  touch_api_key, get_user, is_revoked, ApiKey, IdentityStore, find_api_key_by_plaintext,
}
use middle_east_geopolitic.Common.Rows.{select}
use middle_east_geopolitic.Common.Result.{
  require_sound, or_raise_sound, or_raise, ok_inj, ◌>>◌, unauthorized, require, bind-ok, ok,
}
use middle_east_geopolitic.Common.Rows.Laws.{select_sound, first?_sound}

pub record Granted (verify : String → String → Bool) (now : ℕ) (token : String) (s : IdentityStore)
    (p : Principal) (t : IdentityStore) : Type 0 where
  pub key : ApiKey
  pub is_there : Elem key s.api_keys
  pub opens : verify token key.key_hash ≡ true
  pub not_revoked : is_revoked key ≡ false
  pub not_expired : is_expired key.expires_at now ≡ false
  pub user_active : is_active_user (get_user key.user_id s) ≡ true
  pub is_principal : p ≡ principal_of_key key
  pub is_touched : t ≡ touch_api_key key.id now s

find-there :
    (verify : String → String → Bool) (token : String) (s : IdentityStore) (k : ApiKey)
    → find_api_key_by_plaintext verify token s ≡ some k
    → Elem k s.api_keys × (verify token k.key_hash ≡ true) × (is_revoked k ≡ false)
unfolding find_api_key_by_plaintext
find-there verify token s k h =
    let (m, v) = first?_sound (λ (k : ApiKey). verify token k.key_hash) _ k h in
    let (n, r) = select_sound (λ (k : ApiKey). not (is_revoked k)) s.api_keys k m in
    (n, v, ground arith)

authenticate-Granted :
    (verify : String → String → Bool) (now : ℕ) (token : String) (s : IdentityStore) (k : ApiKey)
    (t : IdentityStore)
    → authenticate_api_key verify now token s ≡ ok (k, t)
    → Granted verify now token s (principal_of_key k) t
unfolding authenticate_api_key
authenticate-Granted verify now token s k t h =
    let (key, p, h1) =
      bind-ok
        (require (starts_with token api_key_prefix) unauthorized
          >> or_raise (find_api_key_by_plaintext verify token s) unauthorized)
        _ h in
    let (_, _, p1) = bind-ok (require (starts_with token api_key_prefix) unauthorized) _ p in
    let (_, e, u) =
      bind-ok
        (require (not (is_expired key.expires_at now)) unauthorized
          >> require (is_active_user (get_user key.user_id s)) unauthorized)
        _ h1 in
    let (_, e1, e2) = bind-ok (require (not (is_expired key.expires_at now)) unauthorized) _ e in
    let (m, v, r) = find-there verify token s key (or_raise_sound _ _ _ p1) in
    record {
      key = key;
      is_there = m;
      opens = v;
      not_revoked = r;
      not_expired = ground (arith, require_sound _ _ e1);
      user_active = require_sound _ _ e2;
      is_principal = ap (λ x. principal_of_key x.0) (sym (ok_inj u));
      is_touched = ap (λ x. x.1) (sym (ok_inj u));
    }

-- A request with a token of the form of an API key is given a principal only by a stored key that the
-- token opens, which is neither revoked nor expired and belongs to an active user; the principal has
-- that key's user and scopes, and the only change is the time of the key's use.
pub get_current_principal-Granted :
    (verify : String → String → Bool) (decode : String → Option Payload) (now : ℕ) (token : String)
    (s : IdentityStore) (p : Principal) (t : IdentityStore)
    → starts_with token api_key_prefix ≡ true
    → get_current_principal verify decode now (some token) s ≡ ok (p, t)
    → Granted verify now token s p t
unfolding get_current_principal
get_current_principal-Granted verify decode now token s p t e h =
    let h' = rw (e, get_current_principal) at h in
    let (r, a, b) = bind-ok (authenticate_api_key verify now token s) _ h' in
    subst (λ (x : Principal × IdentityStore). Granted verify now token s x.0 x.1) (ok_inj b)
      (authenticate-Granted verify now token s r.0 r.1 a)

select-none :
    (test : String → Bool) (xs : List String)
    → All (λ x. test x ≡ true) xs
    → select (λ x. not (test x)) xs ≡ []
unfolding select
select-none test [] h = refl
select-none test (x ∷ xs) h = ground (arith, select-none test xs h.1, h.0)

none-select :
    (test : String → Bool) (xs : List String)
    → select (λ x. not (test x)) xs ≡ []
    → All (λ x. test x ≡ true) xs
unfolding select
none-select test [] h = tt
none-select test (x ∷ xs) h = ground (arith, none-select test xs)

check_missing_iff : (ms : List String) (p : Principal) → (check_missing ms p ≡ ok p) ↔ (ms ≡ [])
check_missing_iff [] p = ((λ _. refl), (λ _. refl))
check_missing_iff (m ∷ ms) p = ((λ h. cc), (λ h. cc))

-- A guard lets a principal through exactly when it has every scope that the guard requires.
pub require_scopes_iff :
    (required : List String) (p : Principal)
    → (require_scopes required p ≡ ok p) ↔ All (λ scope. has_scope p scope ≡ true) required
unfolding require_scopes missing_scopes
require_scopes_iff required p = (
  (λ h. none-select (has_scope p) required ((check_missing_iff (missing_scopes required p) p).0 h)),
  (λ h. (check_missing_iff (missing_scopes required p) p).1 (select-none (has_scope p) required h)),
)
