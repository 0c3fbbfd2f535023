-- ===== src/Accounts/Auth.antt =====
-- src/services/impl/auth.service.impl.ts: `AuthServiceImpl`. A method of the repositories is awaited, and
-- `new Date(Date.now() + …)` reads the clock of the world.
pub mod Steps
pub mod Refreshed
pub mod Rotation
pub mod Logout
pub mod Revocation
pub mod Login
use arcana_cloud_nodejs.Base.{
  ℕ, zero, ◌+◌, ◌*◌, String, Bool, true, false, not, Option, none, some, List, ltb, if◌then◌else◌,
}
use arcana_cloud_nodejs.Base.Exec.{Exec, ok, err, pure, throw, gets, throw_if, ◌>>=◌, ◌>>◌}
use arcana_cloud_nodejs.Errors.{authentication_error, conflict_error}
use arcana_cloud_nodejs.Events.Domain.{
  Payload, registered, logged_in, logged_out, all_revoked, password, single,
}
use arcana_cloud_nodejs.Accounts.Models.{
  User, UserPublic, is_active_status, exclude_password, CreateUserData, OAuthToken, TokenPair,
  CreateTokenData, LoginData, AuthResult,
}
use arcana_cloud_nodejs.Accounts.Prisma.{Prisma}
use arcana_cloud_nodejs.Accounts.UserDao.{HashedUserData}
use arcana_cloud_nodejs.Accounts.TokenRepository
use arcana_cloud_nodejs.Accounts.UserRepository
use arcana_cloud_nodejs.Accounts.Platform.{Platform, JwtPayload, TokenKind, access, refresh, emit}

abbrev pub salt_rounds : ℕ
salt_rounds = 12

abbrev pub is_some : {A : Type 0} → Option A → Bool
is_some none = false
is_some (some a) = true

-- `token?.isRevoked`
abbrev pub is_revoked_token : Option OAuthToken → Bool
is_revoked_token none = false
is_revoked_token (some t) = t.is_revoked

abbrev pub is_access : TokenKind → Bool
is_access access = true
is_access refresh = false

abbrev jwt_payload : User → TokenKind → String → JwtPayload
jwt_payload user kind jti = record {
  user_id = user.id;
  username = user.username;
  email = user.email;
  role = user.role;
  token_type = kind;
  jti = jti;
}

module _ {W : Type 0} where
  -- the value that was looked up, or the exception for `null`
  abbrev pub required : {A : Type 0} → Option A → Exec W A → Exec W A
  required none missing w = missing w
  required (some a) missing w = ok a w

module _ {W : Type 0} (prisma : Prisma W) (platform : Platform W) where
  unfoldable pub generate_token_pair : User → Exec W TokenPair
  generate_token_pair user w =
      let (jti, w') = platform.uuid w in
      ok
        (record {
          access_token =
              platform.sign (jwt_payload user access jti) platform.access_expires_in_seconds w';
          refresh_token =
              platform.sign (jwt_payload user refresh jti) platform.refresh_expires_in_seconds w';
          expires_in = platform.access_expires_in_seconds;
          token_type = "Bearer";
        })
        w'

  -- the computation of `expiresAt` and the call of `tokenDao.save`
  unfoldable pub save_tokens : ℕ → TokenPair → Option String → Option String → Exec W OAuthToken
  save_tokens user_id tokens ip_address user_agent w =
      TokenRepository.save prisma
        (record {
          user_id = user_id;
          access_token = tokens.access_token;
          refresh_token = tokens.refresh_token;
          expires_at = prisma.now w + platform.refresh_expires_in_seconds * 1000;
          client_name = none;
          ip_address = ip_address;
          user_agent = user_agent;
        })
        w

  abbrev or_by_email : String → Option User → Exec W (Option User)
  or_by_email name none w = UserRepository.find_by_email prisma name w
  or_by_email name (some user) w = ok (some user) w

  -- `login`, from its last step to its first
  abbrev pub login_event : LoginData → User → Payload
  login_event data' user = logged_in (record {
    user_id = user.id;
    username = user.username;
    email = user.email;
    ip_address = data'.ip_address;
    user_agent = data'.user_agent;
    login_method = password;
  })

  abbrev pub finish_login : LoginData → User → TokenPair → Exec W AuthResult
  finish_login data' user tokens = do
    UserRepository.update_last_login prisma user.id
    emit prisma platform (login_event data' user)
    pure (record { user = exclude_password user; tokens = tokens })

  abbrev pub issue_tokens : LoginData → User → Exec W AuthResult
  issue_tokens data' user = do
    tokens ← generate_token_pair user
    _ ← save_tokens user.id tokens data'.ip_address data'.user_agent
    finish_login data' user tokens

  abbrev pub login_if_valid : LoginData → User → Bool → Exec W AuthResult
  login_if_valid data' user is_valid = do
    throw_if (not is_valid) (authentication_error "Invalid credentials")
    issue_tokens data' user

  abbrev pub login_user : LoginData → User → Exec W AuthResult
  login_user data' user = do
    throw_if (not (is_active_status user.status)) (authentication_error "Account is not active")
    is_valid ← platform.compare data'.password user.password_hash
    login_if_valid data' user is_valid

  abbrev pub login_found : LoginData → Option User → Exec W AuthResult
  login_found data' found = do
    user ← required found (throw (authentication_error "Invalid credentials"))
    login_user data' user

  -- `findByUsername`, and `findByEmail` if that answered nothing
  unfoldable pub find_login : String → Exec W (Option User)
  find_login name = do
    by_name ← UserRepository.find_by_username prisma name
    or_by_email name by_name

  unfoldable pub login : LoginData → Exec W AuthResult
  login data' = do found ← find_login data'.username_or_email; login_found data' found

  -- the part of `logout` after the look-up
  abbrev pub logout_found : Option OAuthToken → Exec W Bool
  logout_found none = pure true
  logout_found (some token) = do
    _ ← TokenRepository.revoke prisma token.id
    emit prisma platform (
        logged_out
          (record { user_id = token.user_id; token_id = some token.id; logout_type = single }))
    pure true

  unfoldable pub logout : String → Exec W Bool
  logout access_token = do
    found ← TokenRepository.find_by_access_token prisma access_token
    logout_found found

  -- `jwt.verify` in a `try`
  abbrev pub verified : String → String → Exec W JwtPayload
  verified token message w =
      required (platform.verify token w) (throw (authentication_error message)) w

  -- `refreshToken`, from its last step to its first
  abbrev pub rotate : OAuthToken → User → Exec W TokenPair
  rotate stored_token user = do
    _ ← TokenRepository.revoke prisma stored_token.id
    tokens ← generate_token_pair user
    _ ← save_tokens user.id tokens stored_token.ip_address stored_token.user_agent
    pure tokens

  abbrev pub refresh_if_active : OAuthToken → User → Exec W TokenPair
  refresh_if_active stored_token user = do
    throw_if (not (is_active_status user.status))
        (authentication_error "User not found or inactive")
    rotate stored_token user

  abbrev pub refresh_for : OAuthToken → Option User → Exec W TokenPair
  refresh_for stored_token found = do
    user ← required found (throw (authentication_error "User not found or inactive"))
    refresh_if_active stored_token user

  abbrev pub refresh_if_fresh : ℕ → OAuthToken → Exec W TokenPair
  refresh_if_fresh user_id stored_token = do
    throw_if stored_token.is_revoked (authentication_error "Token has been revoked")
    found ← UserRepository.find_by_id prisma user_id
    refresh_for stored_token found

  abbrev pub refresh_stored : ℕ → Option OAuthToken → Exec W TokenPair
  refresh_stored user_id stored = do
    stored_token ← required stored (throw (authentication_error "Token has been revoked"))
    refresh_if_fresh user_id stored_token

  abbrev pub refresh_verified : String → JwtPayload → Exec W TokenPair
  refresh_verified token payload = do
    throw_if (is_access payload.token_type) (authentication_error "Invalid token type")
    stored ← TokenRepository.find_by_refresh_token prisma token
    refresh_stored payload.user_id stored

  unfoldable pub refresh_token : String → Exec W TokenPair
  refresh_token token = do
    payload ← verified token "Invalid refresh token"
    refresh_verified token payload

  -- `validateToken`, from its last step to its first
  abbrev pub validate_user : Option User → Exec W UserPublic
  validate_user found = do
    user ← required found (throw (authentication_error "User not found"))
    pure (exclude_password user)

  abbrev pub validate_stored : ℕ → Option OAuthToken → Exec W UserPublic
  validate_stored user_id stored = do
    throw_if (is_revoked_token stored) (authentication_error "Token has been revoked")
    found ← UserRepository.find_by_id prisma user_id
    validate_user found

  abbrev pub validate_verified : String → JwtPayload → Exec W UserPublic
  validate_verified token payload = do
    throw_if (not (is_access payload.token_type)) (authentication_error "Invalid token type")
    stored ← TokenRepository.find_by_access_token prisma token
    validate_stored payload.user_id stored

  unfoldable pub validate_token : String → Exec W UserPublic
  validate_token token = do
    payload ← verified token "Invalid access token"
    validate_verified token payload

  -- `register`, from its last step to its first
  abbrev pub registered_event : CreateUserData → User → Payload
  registered_event data' user = registered (record {
    user_id = user.id;
    username = user.username;
    email = user.email;
    first_name = data'.first_name;
    last_name = data'.last_name;
  })

  abbrev pub register_saved : CreateUserData → User → Exec W AuthResult
  register_saved data' user = do
    tokens ← generate_token_pair user
    _ ← save_tokens user.id tokens none none
    emit prisma platform (registered_event data' user)
    pure (record { user = exclude_password user; tokens = tokens })

  abbrev pub register_hashed : CreateUserData → String → Exec W AuthResult
  register_hashed data' password_hash = do
    user ← UserRepository.save prisma (record { fields = data'; password_hash = password_hash })
    register_saved data' user

  abbrev pub register_email : CreateUserData → Option User → Exec W AuthResult
  register_email data' same_email = do
    throw_if (is_some same_email) (conflict_error "Email already exists")
    password_hash ← platform.hash data'.password salt_rounds
    register_hashed data' password_hash

  abbrev pub register_name : CreateUserData → Option User → Exec W AuthResult
  register_name data' same_name = do
    throw_if (is_some same_name) (conflict_error "Username already exists")
    same_email ← UserRepository.find_by_email prisma data'.email
    register_email data' same_email

  unfoldable pub register : CreateUserData → Exec W AuthResult
  register data' = do
    same_name ← UserRepository.find_by_username prisma data'.username
    register_name data' same_name

  unfoldable pub verify_password : User → String → Exec W Bool
  verify_password user password' = platform.compare password' user.password_hash

  abbrev announce_revoked : ℕ → ℕ → Exec W (Unit {0})
  announce_revoked user_id count w =
      if ltb 0 count
      then emit prisma platform
          (all_revoked (record { user_id = user_id; revoked_by = user_id; token_count = count })) w
      else ok tt w

  unfoldable pub revoke_all_tokens : ℕ → Exec W ℕ
  revoke_all_tokens user_id = do
    count ← TokenRepository.revoke_all_by_user_id prisma user_id
    announce_revoked user_id count
    pure count

  unfoldable pub get_user_tokens : ℕ → Exec W (List OAuthToken)
  get_user_tokens user_id = TokenRepository.find_active_by_user_id prisma user_id
