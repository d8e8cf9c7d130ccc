-- ===== src/Identity/RoundTrip.antt =====
-- A key that was issued opens the door.
use text.Mathlib.Text.{starts_with}
use text.Mathlib.TextPositions.{starts_with-append}
use middle_east_geopolitic.Common.Rows.{select, first?}
use middle_east_geopolitic.Common.{
  Option, refl, arith, some, none, [], ◌∷◌, ◌++◌, ℕ, not, true, false, All, ◌≡◌, List, Bool, String,
}
use middle_east_geopolitic.Identity.Service.{
  principal_of_key, Payload, is_expired, api_key_prefix, issued, is_active_user, generate_api_key,
  authenticate_api_key, issue_api_key, get_current_principal,
}
use middle_east_geopolitic.Identity.Repository.{
  touch_api_key, IdentityStore, get_user, is_revoked, find_api_key_by_plaintext, create_api_key,
  ApiKey,
}
use middle_east_geopolitic.Common.Result.{ok}

-- No key of the table is opened by the text.
abbrev pub OpensNone : (String → String → Bool) → String → List ApiKey → Type 0
OpensNone verify plaintext ks = All (λ k. verify plaintext k.key_hash ≡ false) ks

find-issued :
    (verify : String → String → Bool) (plaintext : String) (k : ApiKey) (ks : List ApiKey)
    → OpensNone verify plaintext ks
    → verify plaintext k.key_hash ≡ true
    → is_revoked k ≡ false
    → first? (λ k. verify plaintext k.key_hash) (select (λ k. not (is_revoked k)) (ks ++ (k ∷ [])))
      ≡ some k
unfolding first? select
find-issued verify plaintext k [] n v r = ground arith
find-issued verify plaintext k (x ∷ xs) n v r =
    ground (arith, find-issued verify plaintext k xs n.1 v r, n.0)

authenticate-run :
    (verify : String → String → Bool) (now : ℕ) (token : String) (s : IdentityStore) (k : ApiKey)
    → starts_with token api_key_prefix ≡ true
    → find_api_key_by_plaintext verify token s ≡ some k
    → is_expired k.expires_at now ≡ false
    → is_active_user (get_user k.user_id s) ≡ true
    → authenticate_api_key verify now token s
      ≡ ok (record k { last_used_at = some now }, touch_api_key k.id now s)
unfolding authenticate_api_key
authenticate-run verify now token s k p f e u = rw (p, f, authenticate_api_key, e, u) refl

principal-run :
    (verify : String → String → Bool) (decode : String → Option Payload) (now : ℕ) (token : String)
    (s t : IdentityStore) (k : ApiKey)
    → starts_with token api_key_prefix ≡ true
    → authenticate_api_key verify now token s ≡ ok (k, t)
    → get_current_principal verify decode now (some token) s ≡ ok (principal_of_key k, t)
unfolding get_current_principal
principal-run verify decode now token s t k p a = rw (p, a, get_current_principal) refl

generated-prefix : (random : String) → starts_with (generate_api_key random) api_key_prefix ≡ true
unfolding generate_api_key
generated-prefix random = starts_with-append api_key_prefix random

find-created :
    (verify : String → String → Bool) (token : String) (k : ApiKey) (s : IdentityStore)
    → OpensNone verify token s.api_keys
    → verify token k.key_hash ≡ true
    → is_revoked k ≡ false
    → find_api_key_by_plaintext verify token (create_api_key k s) ≡ some k
unfolding find_api_key_by_plaintext create_api_key
find-created verify token k s n v r = find-issued verify token k s.api_keys n v r

user-created :
    (user : ℕ) (k : ApiKey) (s : IdentityStore)
    → get_user user (create_api_key k s) ≡ get_user user s
unfolding get_user create_api_key
user-created user k s = refl

-- After a key is issued to an active user, the text that was handed out authenticates as that key, with
-- its user and its scopes, where the hash of a text is verified by the text and no earlier key is.
pub issue_api_key-authenticates :
    (verify : String → String → Bool) (hash : String → String) (now fresh user : ℕ)
    (random name : String) (scopes : List String) (s : IdentityStore)
    → ((t : String) → verify t (hash t) ≡ true)
    → OpensNone verify (generate_api_key random) s.api_keys
    → is_active_user (get_user user s) ≡ true
    → (t : IdentityStore) × (get_current_principal verify
          (λ _. none)
          now
          (some (generate_api_key random))
          (issue_api_key fresh hash random user name scopes s).1
        ≡ ok (record { user_id = user; scopes = scopes; api_key_id = some fresh }, t))
unfolding issue_api_key
issue_api_key-authenticates verify hash now fresh user random name scopes s v n u =
    let token = generate_api_key random in
    let k = issued fresh user name hash token scopes in
    let t = create_api_key k s in
    (
      touch_api_key fresh now t,
      principal-run verify (λ _. none) now token t (touch_api_key fresh now t)
          (record k { last_used_at = some now }) (generated-prefix random)
          (authenticate-run verify now token t k (generated-prefix random)
            (find-created verify token k s n (v token) refl) refl (rw (user-created user k s) u)),
    )
