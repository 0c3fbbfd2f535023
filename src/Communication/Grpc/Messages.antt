-- ===== src/Communication/Grpc/Messages.antt =====
-- The messages of src/grpc/protos/user_service.proto, src/grpc/protos/common.proto and
-- src/grpc/protos/repository_service.proto, as the loaded stubs and services hand them over: an `optional`
-- field may be absent, any other has a value. A member of an enumeration is its name, and an
-- int32 that is not negative is a natural number. Only the messages and fields that some code reads are here.
use arcana_cloud_nodejs.Base.{
  ℕ, String, Bool, false, ◌||◌, Option, none, some, List, [], ◌∷◌, ◌++◌, str_eq, if◌then◌else◌,
}

pub record UserMessage : Type 0 where
  pub id : ℕ
  pub username : String
  pub email : String
  pub first_name : String
  pub last_name : String
  pub phone : String
  pub avatar_url : String
  pub role : String
  pub status : String
  pub is_verified : Bool
  pub is_active : Bool
  pub created_at : String
  pub updated_at : String
  pub last_login_at : String

pub record PaginationMessage : Type 0 where
  pub page : ℕ
  pub per_page : ℕ
  pub total : ℕ
  pub total_pages : Option ℕ

pub record UsersMessage : Type 0 where
  pub users : List UserMessage
  pub pagination : PaginationMessage

pub record TokenPairMessage : Type 0 where
  pub access_token : String
  pub refresh_token : String
  pub expires_in : ℕ
  pub token_type : String

pub record AuthMessage : Type 0 where
  pub user : UserMessage
  pub tokens : TokenPairMessage

pub record TokenMessage : Type 0 where
  pub id : ℕ
  pub user_id : ℕ
  pub access_token : String
  pub refresh_token : String
  pub token_type : String
  pub expires_at : String
  pub client_name : String
  pub ip_address : String
  pub user_agent : String
  pub is_revoked : Bool
  pub created_at : String
  pub updated_at : String

pub record DoneMessage : Type 0 where
  pub success : Bool
  pub message : String

pub record HealthMessage : Type 0 where
  pub healthy : Bool
  pub message : String
  pub timestamp : String

pub record GetUsersRequest : Type 0 where
  pub page : ℕ
  pub per_page : ℕ
  pub role : Option String
  pub status : Option String

pub record CreateUserRequest : Type 0 where
  pub username : String
  pub email : String
  pub password : String
  pub first_name : Option String
  pub last_name : Option String
  pub phone : Option String
  pub role : Option String

pub record UpdateUserRequest : Type 0 where
  pub user_id : ℕ
  pub email : Option String
  pub first_name : Option String
  pub last_name : Option String
  pub phone : Option String
  pub avatar_url : Option String

pub record ChangePasswordRequest : Type 0 where
  pub user_id : ℕ
  pub old_password : String
  pub new_password : String

pub record UpdateUserStatusRequest : Type 0 where
  pub user_id : ℕ
  pub status : String

pub record LoginRequest : Type 0 where
  pub username_or_email : String
  pub password : String
  pub ip_address : Option String
  pub user_agent : Option String

pub record RegisterRequest : Type 0 where
  pub username : String
  pub email : String
  pub password : String
  pub first_name : Option String
  pub last_name : Option String

-- the members of the enumerations of common.proto
unfoldable pub role_members : List String
role_members =
    "USER_ROLE_UNSPECIFIED" ∷ "USER_ROLE_ADMIN" ∷ "USER_ROLE_USER" ∷ "USER_ROLE_GUEST" ∷ []

unfoldable pub status_members : List String
status_members =
    "USER_STATUS_UNSPECIFIED" ∷ "USER_STATUS_ACTIVE" ∷ "USER_STATUS_INACTIVE"
    ∷ "USER_STATUS_SUSPENDED" ∷ "USER_STATUS_DELETED" ∷ []

abbrev pub is_member : List String → String → Bool
is_member [] s = false
is_member (m ∷ ms) s = str_eq m s || is_member ms s

-- An object that is passed to a stub, by the names of its properties; one that is undefined is left out.
pub data Value : Type 0 where
  number : ℕ → Value
  text : String → Value
  flag : Bool → Value

abbrev pub Object : Type 0
Object = List (String × Value)

abbrev pub property : String → Object → Option Value
property name [] = none
property name ((n, v) ∷ o) = let rest = property name o in if str_eq n name then some v else rest

-- a property that may be undefined
abbrev pub given : String → Option String → Object
given name none = []
given name (some s) = (name, text s) ∷ []

abbrev pub givens : List (String × Option String) → Object
givens [] = []
givens ((name, o) ∷ rest) = given name o ++ givens rest
