-- ===== src/Tests/Controllers.antt =====
-- The routes of the controllers, over the accounts of Tests/Accounts.antt.
use arcana_cloud_nodejs.Base.{ℕ, ◌≡◌, refl, sym, ap, true, false, none, some, [], ◌∷◌, ◌++◌}
use arcana_cloud_nodejs.Base.Exec.{ok, err, ok_injective}
use arcana_cloud_nodejs.Errors.{ApiException, plain, authorization_error}
use arcana_cloud_nodejs.Events.Domain.{create_event}
use arcana_cloud_nodejs.Accounts.Models.{
  admin, active, User, UserPublic, exclude_password, CreateUserData, UpdateUserData, update_data,
  OAuthToken, AuthResult,
}
use arcana_cloud_nodejs.Accounts.Prisma.{matches}
use arcana_cloud_nodejs.Accounts.Prisma.Memory.{Db, memory_db}
use arcana_cloud_nodejs.Accounts.TokenDao
use arcana_cloud_nodejs.Accounts.UserDao
use arcana_cloud_nodejs.Accounts.TokenRepository
use arcana_cloud_nodejs.Accounts.UserRepository
use arcana_cloud_nodejs.Accounts.Platform.{emit}
use arcana_cloud_nodejs.Accounts.Auth.{validate_token, register, generate_token_pair, save_tokens}
use arcana_cloud_nodejs.Communication.Interfaces.{ChangePasswordData}
use arcana_cloud_nodejs.Communication.Direct.{direct_service}
use arcana_cloud_nodejs.Http.Guards.{Request, bearer_token}
use arcana_cloud_nodejs.Http.Responses.{Edge, SuccessResponse, success_response}
use arcana_cloud_nodejs.Http.Controllers.{Call}
use arcana_cloud_nodejs.Http.Controllers
use arcana_cloud_nodejs.Http.Controllers.Schemas.{
  register_is_valid, password_is_valid, username_is_valid, update_user_is_valid,
  change_password_is_valid, validate_schema,
}
use arcana_cloud_nodejs.Http.Controllers.Routes.{register_route, update_user_route}
use arcana_cloud_nodejs.Http.Controllers.Ownership.{stranger_lem}
use arcana_cloud_nodejs.Accounts.Prisma.{user_id}
use arcana_cloud_nodejs.Http.Controllers.Registration.{KeepsRole, register_route-role}
use arcana_cloud_nodejs.Tests.Accounts.{platform, ann, open_db}

abbrev edge : Edge Db
edge = record {
  stamp = λ w. "now";
  uuid = λ w. ("id", w);
  is_development = false;
  stack = λ e. "at line 1";
  undefined_read = plain "undefined";
}

abbrev expired : ApiException
expired = record {
  name = "AuthenticationError";
  message = "Token has been revoked";
  status_code = 401;
  error_code = "AUTHENTICATION_ERROR";
  details = none;
}

abbrev request : Request
request = record { authorization = some "Bearer access"; user = none }

abbrev call : Call
call = record { request_id = some "r"; ip = none; user_agent = none }

abbrev telephone : UpdateUserData
telephone = update_data none none none (some "1") none

abbrev passwords : ChangePasswordData
passwords = record { old_password = "secret"; new_password = "Secret-12" }

abbrev seen_ann : User
seen_ann = record ann { last_login_at = some 5 }

valid : validate_token memory_db platform "access" open_db ≡ ok (exclude_password seen_ann) open_db
unfolding validate_token matches TokenRepository.find_by_access_token TokenDao.get_by_access_token
    UserRepository.find_by_id UserDao.get_by_id exclude_password
valid = refl

bears : bearer_token (some "Bearer access") ≡ some "access"
unfolding bearer_token
bears = refl

telephone_ok : update_user_is_valid (λ s. true) (λ s. true) telephone ≡ true
unfolding update_user_is_valid
telephone_ok = refl

passwords_ok : change_password_is_valid (λ s. true) (λ s. true) passwords ≡ true
unfolding change_password_is_valid password_is_valid
passwords_ok = refl

stranger_lem_example :
    update_user_route memory_db platform
      (λ s. true)
      edge
      (direct_service memory_db platform)
      request
      2
      []
      telephone
      call
      open_db
    ≡ err (authorization_error "Not authorized to update this user") open_db
unfolding exclude_password
stranger_lem_example =
    (stranger_lem memory_db platform (λ s. true) edge (direct_service memory_db platform) request
      "access" (exclude_password seen_ann) open_db open_db 2 call [] telephone passwords bears valid
      (λ h. cc) (λ h. cc) telephone_ok passwords_ok).1

abbrev eve : CreateUserData
eve = record {
  username = "eve";
  email = "eve@x.org";
  password = "Secret-12";
  first_name = none;
  last_name = none;
  phone = none;
  role = some admin;
}

memory_db-KeepsRole : KeepsRole memory_db
memory_db-KeepsRole = record {
  created = λ d w h. ap (λ (u : User). u.role) (sym (ok_injective h).0);
}

abbrev eve_row : User
eve_row = record {
  id = 2;
  username = "eve";
  email = "eve@x.org";
  password_hash = some "Secret-12";
  first_name = none;
  last_name = none;
  phone = none;
  avatar_url = none;
  role = admin;
  status = active;
  is_verified = false;
  is_active = true;
  created_at = 5;
  updated_at = 5;
  last_login_at = none;
}

abbrev eve_token : OAuthToken
eve_token = record {
  id = 2;
  user_id = 2;
  access_token = "access+";
  refresh_token = "refresh+";
  token_type = "Bearer";
  expires_at = 2592000005;
  client_name = none;
  ip_address = none;
  user_agent = none;
  is_revoked = false;
  created_at = 5;
  updated_at = 5;
}

abbrev answer : SuccessResponse AuthResult
answer = record {
  data_value = record {
    user = exclude_password eve_row;
    tokens = record {
      access_token = "access+";
      refresh_token = "refresh+";
      expires_in = 3600;
      token_type = "Bearer";
    };
  };
  message = "User registered successfully";
  timestamp = "now";
  request_id = "r";
}

abbrev open_to_eve : Db
open_to_eve = record open_db {
  users = open_db.users ++ eve_row ∷ [];
  rows = open_db.rows ++ eve_token ∷ [];
}

register_runs :
    register_route memory_db platform
      (λ s. true)
      edge
      (direct_service memory_db platform)
      []
      eve
      call
      open_db
    ≡ ok (201, answer) open_to_eve
unfolding register_route Controllers.register success_response validate_schema register_is_valid
    password_is_valid username_is_valid register matches generate_token_pair save_tokens emit
    create_event UserRepository.find_by_username UserDao.get_by_username
    UserRepository.find_by_email UserDao.get_by_email UserRepository.save UserDao.create
    TokenRepository.save TokenDao.create exclude_password
register_runs = refl

register_route-role_example : ◌≡◌ {A = ℕ} 201 201 × (answer.data_value.user.role ≡ admin)
unfolding exclude_password
register_route-role_example =
    register_route-role memory_db platform memory_db-KeepsRole (λ s. true) edge [] eve call open_db
      register_runs

-- Ann, who is a plain user
abbrev promotion : UpdateUserData
promotion = record (update_data none none none none none) { role = some admin }

abbrev promoted_ann : User
promoted_ann = record seen_ann { role = admin }

abbrev promoted_answer : SuccessResponse UserPublic
promoted_answer = record {
  data_value = exclude_password promoted_ann;
  message = "User updated successfully";
  timestamp = "now";
  request_id = "r";
}
