-- ===== src/Accounts/Prisma.antt =====
-- The calls of the Prisma client that the program makes on the two tables. A call may fail; what it
-- does when it returns is stated in `IsPrisma`, over the rows of the token table.
pub mod Memory
use arcana_cloud_nodejs.Base.{
  ℕ, String, ◌≡◌, Bool, true, false, ◌&&◌, Option, none, some, List, [], ◌∷◌, ◌++◌, map, All, ◌==◌,
  ltb, length, keep, str_eq, if◌then◌else◌,
}
use arcana_cloud_nodejs.Base.Int.{ℤ}
use arcana_cloud_nodejs.Base.Exec.{Exec, ok}
use arcana_cloud_nodejs.Accounts.Models.{User, UserRole, UserStatus, OAuthToken, CreateTokenData}

-- the `data` of `user.create`
pub record NewUser : Type 0 where
  pub username : String
  pub email : String
  pub password_hash : String
  pub first_name : Option String
  pub last_name : Option String
  pub phone : Option String
  pub role : UserRole

-- `where` on a unique column of the users
pub data UserKey : Type 0 where
  user_id : ℕ → UserKey
  username : String → UserKey
  email : String → UserKey

-- the `data` of `user.update`: what is `none` is left as it is
pub record UserChange : Type 0 where
  pub username : Option String
  pub email : Option String
  pub password_hash : Option String
  pub first_name : Option String
  pub last_name : Option String
  pub phone : Option String
  pub avatar_url : Option String
  pub role : Option UserRole
  pub status : Option UserStatus
  pub is_verified : Option Bool
  pub is_active : Option Bool
  pub last_login_at : Option ℕ

abbrev pub no_change : UserChange
no_change = record {
  username = none;
  email = none;
  password_hash = none;
  first_name = none;
  last_name = none;
  phone = none;
  avatar_url = none;
  role = none;
  status = none;
  is_verified = none;
  is_active = none;
  last_login_at = none;
}

pub record UserFilter : Type 0 where
  pub role : Option UserRole
  pub status : Option UserStatus

-- the `where` of the token queries: what is `none` is not asked for
pub record TokenFilter : Type 0 where
  pub id : Option ℕ
  pub user_id : Option ℕ
  pub access_token : Option String
  pub refresh_token : Option String
  pub is_revoked : Option Bool
  pub expires_after : Option ℕ
  pub expires_before : Option ℕ

abbrev pub any_token : TokenFilter
any_token = record {
  id = none;
  user_id = none;
  access_token = none;
  refresh_token = none;
  is_revoked = none;
  expires_after = none;
  expires_before = none;
}

abbrev same_bool : Bool → Bool → Bool
same_bool true b = b
same_bool false true = false
same_bool false false = true

abbrev asks : {A : Type 0} → (A → Bool) → Option A → Bool
asks test none = true
asks test (some a) = test a

unfoldable pub matches : TokenFilter → OAuthToken → Bool
matches q t =
    asks (λ i. t.id == i) q.id
    && asks (λ i. t.user_id == i) q.user_id
    && asks (λ s. str_eq t.access_token s) q.access_token
    && asks (λ s. str_eq t.refresh_token s) q.refresh_token
    && asks (λ b. same_bool t.is_revoked b) q.is_revoked
    && asks (λ n. ltb n t.expires_at) q.expires_after
    && asks (λ n. ltb t.expires_at n) q.expires_before

pub record Prisma (W : Type 0) : Type 0 where
  -- the rows of the token table
  pub tokens : W → List OAuthToken
  -- `new Date()`
  pub now : W → ℕ
  pub token_create : CreateTokenData → Exec W OAuthToken
  pub token_find_first : TokenFilter → Exec W (Option OAuthToken)
  pub token_find_many : TokenFilter → Exec W (List OAuthToken)
  -- `update` and `updateMany` with `data: { isRevoked: true }`
  pub token_revoke : ℕ → Exec W (Unit {0})
  pub token_revoke_many : TokenFilter → Exec W ℕ
  pub token_delete_many : TokenFilter → Exec W ℕ
  pub user_create : NewUser → Exec W User
  pub user_find_unique : UserKey → Exec W (Option User)
  pub user_update : ℕ → UserChange → Exec W User
  pub user_delete : ℕ → Exec W (Unit {0})
  -- `findMany` with `where`, `skip`, `take`
  pub user_find_many : UserFilter → ℤ → ℕ → Exec W (List User)
  pub user_count : UserFilter → Exec W ℕ

-- a row after an update that revokes it at `n`
abbrev pub revoked_at : ℕ → OAuthToken → OAuthToken
revoked_at n t = record t { is_revoked = true; updated_at = n }

-- the rows after an update of those that a filter matches
abbrev pub revoke_matching : TokenFilter → ℕ → List OAuthToken → List OAuthToken
revoke_matching q n [] = []
revoke_matching q n (t ∷ ts) = (if matches q t then revoked_at n t else t) ∷ revoke_matching q n ts

-- what `findFirst` may answer: a row that matches, or nothing if none does
pub data Found (q : TokenFilter) (ts : List OAuthToken) : Option OAuthToken → Type 0 where
  missing : All (λ t. matches q t ≡ false) ts → Found q ts none
  present :
      (before after : List OAuthToken) (t : OAuthToken)
      → ts ≡ before ++ t ∷ after
      → matches q t ≡ true
      → Found q ts (some t)

abbrev pub by_id : ℕ → TokenFilter
by_id i = record any_token { id = some i }

-- What the program relies on, of the calls that return.
pub record IsPrisma {W : Type 0} (prisma : Prisma W) : Type 0 where
  pub found :
      (q : TokenFilter) (w : W) {o : Option OAuthToken} {v : W}
      → prisma.token_find_first q w ≡ ok o v
      → Found q (prisma.tokens v) o × (prisma.tokens v ≡ prisma.tokens w)
  pub created :
      (d : CreateTokenData) (w : W) {t : OAuthToken} {v : W}
      → prisma.token_create d w ≡ ok t v
      → (prisma.tokens v ≡ prisma.tokens w ++ t ∷ [])
        × (t.access_token ≡ d.access_token)
        × (t.refresh_token ≡ d.refresh_token)
        × (t.user_id ≡ d.user_id)
        × (t.is_revoked ≡ false)
  pub revoked :
      (i : ℕ) (w : W) {v : W}
      → prisma.token_revoke i w ≡ ok tt v
      → (n : ℕ) × (prisma.tokens v ≡ revoke_matching (by_id i) n (prisma.tokens w))
  pub revoked_many :
      (q : TokenFilter) (w : W) {k : ℕ} {v : W}
      → prisma.token_revoke_many q w ≡ ok k v
      → (n : ℕ) × (prisma.tokens v ≡ revoke_matching q n (prisma.tokens w))
        × (k ≡ length (keep (matches q) (prisma.tokens w)))
  pub users_found :
      (k : UserKey) (w : W) {o : Option User} {v : W}
      → prisma.user_find_unique k w ≡ ok o v
      → prisma.tokens v ≡ prisma.tokens w
  pub users_updated :
      (i : ℕ) (c : UserChange) (w : W) {u : User} {v : W}
      → prisma.user_update i c w ≡ ok u v
      → prisma.tokens v ≡ prisma.tokens w
  pub users_created :
      (d : NewUser) (w : W) {u : User} {v : W}
      → prisma.user_create d w ≡ ok u v
      → prisma.tokens v ≡ prisma.tokens w
