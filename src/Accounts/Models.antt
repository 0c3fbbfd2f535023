-- ===== src/Accounts/Models.antt =====
-- src/models/user.model.ts, src/models/oauth-token.model.ts, and the data of the services' interfaces. A
-- `Date` is its number of milliseconds; `null` and `undefined` are both `none`.
use arcana_cloud_nodejs.Base.{ℕ, String, Bool, true, false, Option, none}

pub data UserRole : Type 0 where
  admin user guest : UserRole

pub data UserStatus : Type 0 where
  active inactive suspended deleted : UserStatus

-- `status === UserStatus.ACTIVE`
abbrev pub is_active_status : UserStatus → Bool
is_active_status active = true
is_active_status _ = false

abbrev pub role_name : UserRole → String
role_name admin = "ADMIN"
role_name user = "USER"
role_name guest = "GUEST"

abbrev pub status_name : UserStatus → String
status_name active = "ACTIVE"
status_name inactive = "INACTIVE"
status_name suspended = "SUSPENDED"
status_name deleted = "DELETED"

pub record User : Type 0 where
  pub id : ℕ
  pub username : String
  pub email : String
  pub password_hash : Option String
  pub first_name : Option String
  pub last_name : Option String
  pub phone : Option String
  pub avatar_url : Option String
  pub role : UserRole
  pub status : UserStatus
  pub is_verified : Bool
  pub is_active : Bool
  pub created_at : ℕ
  pub updated_at : ℕ
  pub last_login_at : Option ℕ

-- `Omit<User, 'passwordHash'>`
pub record UserPublic : Type 0 where
  pub id : ℕ
  pub username : String
  pub email : String
  pub first_name : Option String
  pub last_name : Option String
  pub phone : Option String
  pub avatar_url : Option String
  pub role : UserRole
  pub status : UserStatus
  pub is_verified : Bool
  pub is_active : Bool
  pub created_at : ℕ
  pub updated_at : ℕ
  pub last_login_at : Option ℕ

-- `excludePassword` of both services
unfoldable pub exclude_password : User → UserPublic
exclude_password u = record {
  id = u.id;
  username = u.username;
  email = u.email;
  first_name = u.first_name;
  last_name = u.last_name;
  phone = u.phone;
  avatar_url = u.avatar_url;
  role = u.role;
  status = u.status;
  is_verified = u.is_verified;
  is_active = u.is_active;
  created_at = u.created_at;
  updated_at = u.updated_at;
  last_login_at = u.last_login_at;
}

pub record CreateUserData : Type 0 where
  pub username : String
  pub email : String
  pub password : String
  pub first_name : Option String
  pub last_name : Option String
  pub phone : Option String
  pub role : Option UserRole

-- With the properties of a row that an object may have besides those of the interface: the object is the body
-- of a request as it was sent.
pub record UpdateUserData : Type 0 where
  pub email : Option String
  pub first_name : Option String
  pub last_name : Option String
  pub phone : Option String
  pub avatar_url : Option String
  pub username : Option String
  pub password_hash : Option String
  pub role : Option UserRole
  pub status : Option UserStatus
  pub is_verified : Option Bool
  pub is_active : Option Bool

-- an object with the properties of the interface alone
abbrev pub update_data :
    Option String → Option String → Option String → Option String → Option String → UpdateUserData
update_data email first_name last_name phone avatar_url = record {
  email = email;
  first_name = first_name;
  last_name = last_name;
  phone = phone;
  avatar_url = avatar_url;
  username = none;
  password_hash = none;
  role = none;
  status = none;
  is_verified = none;
  is_active = none;
}

pub record OAuthToken : Type 0 where
  pub id : ℕ
  pub user_id : ℕ
  pub access_token : String
  pub refresh_token : String
  pub token_type : String
  pub expires_at : ℕ
  pub client_name : Option String
  pub ip_address : Option String
  pub user_agent : Option String
  pub is_revoked : Bool
  pub created_at : ℕ
  pub updated_at : ℕ

pub record TokenPair : Type 0 where
  pub access_token : String
  pub refresh_token : String
  pub expires_in : ℕ
  pub token_type : String

pub record CreateTokenData : Type 0 where
  pub user_id : ℕ
  pub access_token : String
  pub refresh_token : String
  pub expires_at : ℕ
  pub client_name : Option String
  pub ip_address : Option String
  pub user_agent : Option String

pub record LoginData : Type 0 where
  pub username_or_email : String
  pub password : String
  pub ip_address : Option String
  pub user_agent : Option String

pub record AuthResult : Type 0 where
  pub user : UserPublic
  pub tokens : TokenPair
