-- ===== src/Communication/Grpc/Server.antt =====
-- The service of src/grpc/grpc-server.ts: `startServiceGRPCServer`. A handler answers its callback.
pub mod Repository
use arcana_cloud_nodejs.Base.{
  ℕ, zero, suc, String, Bool, true, false, ◌||◌, Option, none, some, List, map, str_eq,
  if◌then◌else◌,
}
use arcana_cloud_nodejs.Base.Exec.{Outcome, Exec, ok, err, pure, ◌>>=◌}
use arcana_cloud_nodejs.Errors.{message_of}
use arcana_cloud_nodejs.Accounts.Models.{
  UserPublic, UserRole, admin, user, guest, UserStatus, active, inactive, suspended, deleted,
  role_name, status_name, TokenPair, OAuthToken, AuthResult, update_data,
}
use arcana_cloud_nodejs.Accounts.Prisma.{Prisma}
use arcana_cloud_nodejs.Accounts.UserDao.{PaginatedResult}
use arcana_cloud_nodejs.Accounts.Platform.{Platform}
use arcana_cloud_nodejs.Accounts.Auth
use arcana_cloud_nodejs.Accounts.Users
use arcana_cloud_nodejs.Communication.Grpc.Messages.{
  UserMessage, UsersMessage, TokenPairMessage, AuthMessage, TokenMessage, DoneMessage,
  HealthMessage, GetUsersRequest, CreateUserRequest, UpdateUserRequest, ChangePasswordRequest,
  UpdateUserStatusRequest, LoginRequest, RegisterRequest,
}

-- members of `grpc.status`
pub data StatusCode : Type 0 where
  internal not_found unauthenticated unimplemented : StatusCode

-- what a callback is called with
pub data Answer (A : Type 0) : Type 0 where
  answered : A → Answer A
  failed : StatusCode → String → Answer A

-- `callback(null, …)`, or the error with a status code if something throws
abbrev pub answer_of : {W A : Type 0} → StatusCode → Outcome W A → Answer A × W
answer_of code (ok a w) = (answered a, w)
answer_of code (err e w) = (failed code (message_of e), w)

abbrev pub settle : {W A : Type 0} → StatusCode → Exec W A → W → Answer A × W
settle code m w = answer_of code (m w)

-- `value || ''`
abbrev pub or_blank : Option String → String
or_blank none = ""
or_blank (some s) = s

-- a `Date` or null, by `toISOString`
abbrev pub date_or_blank : (ℕ → String) → Option ℕ → String
date_or_blank iso none = ""
date_or_blank iso (some t) = iso t

-- `iso` is `toISOString`.
module _ (iso : ℕ → String) where
  unfoldable pub transform_user : UserPublic → UserMessage
  transform_user u = record {
    id = u.id;
    username = u.username;
    email = u.email;
    first_name = or_blank u.first_name;
    last_name = or_blank u.last_name;
    phone = or_blank u.phone;
    avatar_url = or_blank u.avatar_url;
    role = role_name u.role;
    status = status_name u.status;
    is_verified = u.is_verified;
    is_active = u.is_active;
    created_at = iso u.created_at;
    updated_at = iso u.updated_at;
    last_login_at = date_or_blank iso u.last_login_at;
  }

  unfoldable pub transform_token : OAuthToken → TokenMessage
  transform_token t = record {
    id = t.id;
    user_id = t.user_id;
    access_token = t.access_token;
    refresh_token = t.refresh_token;
    token_type = t.token_type;
    expires_at = iso t.expires_at;
    client_name = or_blank t.client_name;
    ip_address = or_blank t.ip_address;
    user_agent = or_blank t.user_agent;
    is_revoked = t.is_revoked;
    created_at = iso t.created_at;
    updated_at = iso t.updated_at;
  }

abbrev pub transform_pair : TokenPair → TokenPairMessage
transform_pair tokens = record {
  access_token = tokens.access_token;
  refresh_token = tokens.refresh_token;
  expires_in = tokens.expires_in;
  token_type = tokens.token_type;
}

-- `value || fallback` of a number
abbrev pub number_or : ℕ → ℕ → ℕ
number_or zero fallback = fallback
number_or (suc n) fallback = suc n

-- A role or a status of a request is some text, which the handlers pass on as if it were of the
-- enumeration.
pub data Text (A : Type 0) : Type 0 where
  absent : Text A
  known : A → Text A
  unknown : Text A

abbrev role_of_text : String → Text UserRole
role_of_text s =
    if str_eq s "ADMIN"
    then known admin
    else if str_eq s "USER"
    then known user
    else if str_eq s "GUEST"
    then known guest
    else unknown

abbrev status_of_text : String → Text UserStatus
status_of_text s =
    if str_eq s "ACTIVE"
    then known active
    else if str_eq s "INACTIVE"
    then known inactive
    else if str_eq s "SUSPENDED"
    then known suspended
    else if str_eq s "DELETED"
    then known deleted
    else unknown

-- `role || undefined`
abbrev optional_text : {A : Type 0} → (String → Text A) → Option String → Text A
optional_text read none = absent
optional_text read (some s) = if str_eq s "" then absent else read s

abbrev sent_text : {A : Type 0} → (String → Text A) → Option String → Text A
sent_text read none = absent
sent_text read (some s) = read s

abbrev is_unknown : {A : Type 0} → Text A → Bool
is_unknown unknown = true
is_unknown _ = false

abbrev value_of : {A : Type 0} → Text A → Option A
value_of (known a) = some a
value_of _ = none

-- What the services do with a role or a status that is of no enumeration, which is for Prisma to refuse.
pub record Untyped (W : Type 0) : Type 0 where
  pub get_users : GetUsersRequest → Exec W (PaginatedResult UserPublic)
  pub create_user : CreateUserRequest → Exec W UserPublic
  pub update_user_status : UpdateUserStatusRequest → Exec W UserPublic

module _ {W : Type 0} (iso : ℕ → String) (prisma : Prisma W) (platform : Platform W)
    (untyped : Untyped W) where
  unfoldable pub health_check : W → Answer HealthMessage × W
  health_check w =
      (answered (record { healthy = true; message = "OK"; timestamp = iso (prisma.now w) }), w)

  abbrev pub auth_message : AuthResult → AuthMessage
  auth_message result = record {
    user = transform_user iso result.user;
    tokens = transform_pair result.tokens;
  }

  unfoldable pub login : LoginRequest → W → Answer AuthMessage × W
  login request = settle internal do
    result ← Auth.login prisma platform (record {
      username_or_email = request.username_or_email;
      password = request.password;
      ip_address = request.ip_address;
      user_agent = request.user_agent;
    })
    pure (auth_message result)

  unfoldable pub register : RegisterRequest → W → Answer AuthMessage × W
  register request = settle internal do
    result ← Auth.register prisma platform (record {
      username = request.username;
      email = request.email;
      password = request.password;
      first_name = request.first_name;
      last_name = request.last_name;
      phone = none;
      role = none;
    })
    pure (auth_message result)

  unfoldable pub validate_token : String → W → Answer UserMessage × W
  validate_token token =
      settle unauthenticated
        do valid ← Auth.validate_token prisma platform token; pure (transform_user iso valid)

  unfoldable pub logout : String → W → Answer Bool × W
  logout token = settle internal do success ← Auth.logout prisma platform token; pure success

  abbrev pub users_message : PaginatedResult UserPublic → UsersMessage
  users_message result = record {
    users = map (transform_user iso) result.items;
    pagination = record {
      page = result.pagination.page;
      per_page = result.pagination.per_page;
      total = result.pagination.total;
      total_pages = result.pagination.total_pages;
    };
  }

  abbrev list_users :
      GetUsersRequest → Text UserRole → Text UserStatus → Exec W (PaginatedResult UserPublic)
  list_users request role status =
      if is_unknown role || is_unknown status
      then untyped.get_users request
      else Users.get_users prisma platform (record {
        page = number_or request.page 1;
        per_page = number_or request.per_page 20;
        role = value_of role;
        status = value_of status;
      })

  unfoldable pub get_users : GetUsersRequest → W → Answer UsersMessage × W
  get_users request = settle internal do
    result ←
        list_users request (optional_text role_of_text request.role)
          (optional_text status_of_text request.status)
    pure (users_message result)

  abbrev pub user_answer : StatusCode → Exec W UserPublic → W → Answer UserMessage × W
  user_answer code m = settle code do answer ← m; pure (transform_user iso answer)

  unfoldable pub get_user_by_id : ℕ → W → Answer UserMessage × W
  get_user_by_id user_id = user_answer not_found (Users.get_user_by_id prisma platform user_id)

  unfoldable pub refresh_token : String → W → Answer TokenPairMessage × W
  refresh_token token =
      settle internal
        do tokens ← Auth.refresh_token prisma platform token; pure (transform_pair tokens)

  unfoldable pub revoke_all_tokens : ℕ → W → Answer ℕ × W
  revoke_all_tokens user_id =
      settle internal do count ← Auth.revoke_all_tokens prisma platform user_id; pure count

  abbrev created : CreateUserRequest → Option UserRole → Exec W UserPublic
  created request role = Users.create_user prisma platform (record {
    username = request.username;
    email = request.email;
    password = request.password;
    first_name = request.first_name;
    last_name = request.last_name;
    phone = request.phone;
    role = role;
  })

  abbrev create_as : CreateUserRequest → Text UserRole → Exec W UserPublic
  create_as request absent = created request none
  create_as request (known role) = created request (some role)
  create_as request unknown = untyped.create_user request

  unfoldable pub create_user : CreateUserRequest → W → Answer UserMessage × W
  create_user request =
      user_answer internal (create_as request (sent_text role_of_text request.role))

  unfoldable pub update_user : UpdateUserRequest → W → Answer UserMessage × W
  update_user request = user_answer internal (
      Users.update_user prisma platform request.user_id (
        update_data request.email request.first_name request.last_name request.phone
          request.avatar_url))

  unfoldable pub delete_user : ℕ → W → Answer DoneMessage × W
  delete_user user_id = settle internal do
    success ← Users.delete_user prisma platform user_id
    pure (record { success = success; message = if success then "Deleted" else "Not found" })

  unfoldable pub change_password : ChangePasswordRequest → W → Answer DoneMessage × W
  change_password request = settle internal do
    success ←
        Users.change_password prisma platform request.user_id request.old_password
          request.new_password
    pure (record { success = success; message = if success then "Changed" else "Failed" })

  unfoldable pub verify_user : ℕ → W → Answer UserMessage × W
  verify_user user_id = user_answer internal (Users.verify_user prisma platform user_id)

  abbrev set_status : UpdateUserStatusRequest → Text UserStatus → Exec W UserPublic
  set_status request (known status) =
      Users.update_user_status prisma platform request.user_id status
  set_status request _ = untyped.update_user_status request

  unfoldable pub update_user_status : UpdateUserStatusRequest → W → Answer UserMessage × W
  update_user_status request =
      user_answer internal (set_status request (status_of_text request.status))

  unfoldable pub get_user_tokens : ℕ → W → Answer (List TokenMessage) × W
  get_user_tokens user_id = settle internal do
    tokens ← Auth.get_user_tokens prisma platform user_id
    pure (map (transform_token iso) tokens)
