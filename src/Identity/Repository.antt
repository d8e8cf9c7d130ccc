-- ===== src/Identity/Repository.antt =====
-- src/mei/domain/identity/models.py and src/mei/infrastructure/repositories/identity.py. The check of a
-- salted hash is the argon2 library's, a parameter `verify key hash`.
use middle_east_geopolitic.Common.{
  none, not, false, some, [], str_eq, ◌&&◌, Option, ◌∷◌, ◌==◌, true, List, ◌++◌, ℕ, Bool, String,
}
use middle_east_geopolitic.Common.Rows.{select, update, first?}

pub data UserStatus : Type 0 where
  active disabled : UserStatus

abbrev pub is_active : UserStatus → Bool
is_active active = true
is_active disabled = false

pub data RoleName : Type 0 where
  admin analyst approver read_only : RoleName

abbrev pub role_value : RoleName → String
role_value admin = "admin"
role_value analyst = "analyst"
role_value approver = "approver"
role_value read_only = "read_only"

pub record User : Type 0 where
  pub id : ℕ
  pub email : String
  pub display_name : String
  pub status : UserStatus

pub record Role : Type 0 where
  pub id : ℕ
  pub name : String

pub record UserRole : Type 0 where
  pub user_id : ℕ
  pub role_id : ℕ

pub record ApiKey : Type 0 where
  pub id : ℕ
  pub user_id : ℕ
  pub name : String
  pub key_hash : String
  pub scopes : List String
  pub expires_at : Option ℕ
  pub last_used_at : Option ℕ
  pub revoked_at : Option ℕ

pub record IdentityStore : Type 0 where
  pub users : List User
  pub roles : List Role
  pub user_roles : List UserRole
  pub api_keys : List ApiKey

unfoldable pub get_user : ℕ → IdentityStore → Option User
get_user i s = first? (λ u. u.id == i) s.users

unfoldable pub get_user_by_email : String → IdentityStore → Option User
get_user_by_email email s = first? (λ u. str_eq u.email email) s.users

unfoldable pub create_user : ℕ → String → String → IdentityStore → User × IdentityStore
create_user fresh email display_name s =
    let u : User = record {
      id = fresh;
      email = email;
      display_name = display_name;
      status = active;
    } in
    (u, record s { users = s.users ++ (u ∷ []) })

unfoldable pub get_or_create_role : ℕ → String → IdentityStore → Role × IdentityStore
get_or_create_role fresh name s = elim (first? (λ (r : Role). str_eq r.name name) s.roles) [
  | some r ↦ (r, s)
  | none ↦ (
    record { id = fresh; name = name },
    record s { roles = s.roles ++ (record { id = fresh; name = name } ∷ []) },
  )
]

abbrev pub is_link : ℕ → ℕ → UserRole → Bool
is_link user role l = l.user_id == user && l.role_id == role

unfoldable pub assign_role : ℕ → ℕ → IdentityStore → IdentityStore
assign_role user role s = elim (first? (is_link user role) s.user_roles) [
  | some _ ↦ s
  | none ↦ record s {
    user_roles = s.user_roles ++ (record { user_id = user; role_id = role } ∷ []);
  }
]

abbrev pub is_revoked : ApiKey → Bool
is_revoked k = go k.revoked_at
  where
    go : Option ℕ → Bool
    go none = false
    go (some t) = true

unfoldable pub create_api_key : ApiKey → IdentityStore → IdentityStore
create_api_key k s = record s { api_keys = s.api_keys ++ (k ∷ []) }

-- The scan over the keys that are not revoked.
unfoldable pub find_api_key_by_plaintext :
    (String → String → Bool) → String → IdentityStore → Option ApiKey
find_api_key_by_plaintext verify plaintext s =
    first? (λ k. verify plaintext k.key_hash) (select (λ k. not (is_revoked k)) s.api_keys)

unfoldable pub touch_api_key : ℕ → ℕ → IdentityStore → IdentityStore
touch_api_key i used_at s = record s {
  api_keys =
      update (λ (k : ApiKey). k.id == i) (λ k. record k { last_used_at = some used_at }) s.api_keys;
}
