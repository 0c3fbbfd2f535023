-- ===== src/Tests/Accounts.antt =====
-- The accounts, over a database in memory and a platform whose signatures can be read.
use Prim.Native.String.{◌++◌ as concat}
use arcana_cloud_nodejs.Base.{
  ℕ, zero, suc, ◌+◌, ◌*◌, ◌<◌, String, ◌≡◌, refl, Bool, true, false, Option, none, some, [], ◌∷◌,
  ◌++◌, str_eq, length, keep, if◌then◌else◌,
}
use arcana_cloud_nodejs.Base.Exec.{ok, err}
use arcana_cloud_nodejs.Errors.{Throwable}
use arcana_cloud_nodejs.Events.Domain.{create_event, password_replaced}
use arcana_cloud_nodejs.Accounts.Models.{
  User, TokenPair, OAuthToken, LoginData, AuthResult, active, user, exclude_password,
  is_active_status,
}
use arcana_cloud_nodejs.Accounts.Prisma.{matches, no_change}
use arcana_cloud_nodejs.Accounts.Prisma.Memory.{Db, memory_db, memory_db-IsPrisma}
use arcana_cloud_nodejs.Accounts.TokenDao
use arcana_cloud_nodejs.Accounts.UserDao
use arcana_cloud_nodejs.Accounts.UserDao.{total_pages_of}
use arcana_cloud_nodejs.Accounts.UserDao.Pages.{first_pages, total_pages_of_lem}
use arcana_cloud_nodejs.Accounts.TokenRepository
use arcana_cloud_nodejs.Accounts.UserRepository
use arcana_cloud_nodejs.Accounts.Platform.{
  Platform, IsQuiet, JwtPayload, TokenKind, access, refresh, emit,
}
use arcana_cloud_nodejs.Accounts.Auth.{
  login, logout, refresh_token, validate_token, revoke_all_tokens, find_login, generate_token_pair,
  save_tokens,
}
use arcana_cloud_nodejs.Accounts.Auth.Rotation.{refresh_token-twice}
use arcana_cloud_nodejs.Accounts.Auth.Logout.{validate_token-logout}
use arcana_cloud_nodejs.Accounts.Auth.Revocation.{is_open, revoke_all_tokens_lem}
use arcana_cloud_nodejs.Accounts.Auth.Login.{login_lem}
use arcana_cloud_nodejs.Accounts.Users.{change_password}
use arcana_cloud_nodejs.Accounts.Users.Passwords.{change_password_lem}

abbrev kind_name : TokenKind → String
kind_name access = "access"
kind_name refresh = "refresh"

abbrev ann_payload : TokenKind → JwtPayload
ann_payload kind = record {
  user_id = 1;
  username = "ann";
  email = "ann@x.org";
  role = user;
  token_type = kind;
  jti = "j";
}

-- a signature shows the kind and the identifier; the identifiers are "", "+", "++", … by the rows
abbrev plus_signs : ℕ → String
plus_signs zero = ""
plus_signs (suc n) = concat "+" (plus_signs n)

abbrev decode : String → Option JwtPayload
decode s =
    if str_eq s "access"
    then some (ann_payload access)
    else if str_eq s "refresh"
    then some (ann_payload refresh)
    else none

abbrev same_hash : String → Option String → Bool
same_hash p none = false
same_hash p (some h) = str_eq p h

abbrev pub platform : Platform Db
platform = record {
  access_expires_in_seconds = 3600;
  refresh_expires_in_seconds = 2592000;
  sign = λ p n w. concat (kind_name p.token_type) p.jti;
  verify = λ s w. decode s;
  compare = λ p h w. ok (same_hash p h) w;
  hash = λ p n w. ok p w;
  uuid = λ w. (plus_signs (length w.rows), w);
  publish = λ e w. ok tt w;
  is_email = λ s. true;
  is_ip = λ s. true;
  issues = λ p. "";
}

pub platform-IsQuiet : IsQuiet memory_db platform
platform-IsQuiet = record {
  compare_quiet = λ p h w. refl;
  hash_quiet = λ p n w. refl;
  uuid_quiet = λ w. refl;
  publish_quiet = λ e w. refl;
}

abbrev pub ann : User
ann = record {
  id = 1;
  username = "ann";
  email = "ann@x.org";
  password_hash = some "secret";
  first_name = none;
  last_name = none;
  phone = none;
  avatar_url = none;
  role = user;
  status = active;
  is_verified = true;
  is_active = true;
  created_at = 0;
  updated_at = 0;
  last_login_at = none;
}

abbrev ann_login : LoginData
ann_login = record {
  username_or_email = "ann";
  password = "secret";
  ip_address = none;
  user_agent = none;
}

abbrev empty_db : Db
empty_db = record { users = ann ∷ []; rows = []; clock = 5 }

abbrev first_row : OAuthToken
first_row = record {
  id = 1;
  user_id = 1;
  access_token = "access";
  refresh_token = "refresh";
  token_type = "Bearer";
  expires_at = 2592000005;
  client_name = none;
  ip_address = none;
  user_agent = none;
  is_revoked = false;
  created_at = 5;
  updated_at = 5;
}

-- the database after ann has logged in
abbrev pub open_db : Db
open_db = record {
  users = record ann { last_login_at = some 5 } ∷ [];
  rows = first_row ∷ [];
  clock = 5;
}

abbrev first_pair : TokenPair
first_pair = record {
  access_token = "access";
  refresh_token = "refresh";
  expires_in = 3600;
  token_type = "Bearer";
}

abbrev ann_result : AuthResult
ann_result = record { user = exclude_password ann; tokens = first_pair }

login_runs : login memory_db platform ann_login empty_db ≡ ok ann_result open_db
unfolding login create_event find_login generate_token_pair save_tokens emit
    UserRepository.find_by_username UserDao.get_by_username TokenRepository.save TokenDao.create
    UserRepository.update_last_login UserDao.update_last_login
login_runs = refl

login_lem_example :
    (x : User) × (found : Db) × (compared : Db) × (row : OAuthToken) × (find_login memory_db
        platform "ann" empty_db
      ≡ ok (some x) found)
    × (is_active_status x.status ≡ true)
    × (platform.compare "secret" x.password_hash found ≡ ok true compared)
    × (ann_result.user ≡ exclude_password x)
    × (memory_db.tokens open_db ≡ memory_db.tokens empty_db ++ row ∷ [])
    × (row.access_token ≡ "access")
    × (row.refresh_token ≡ "refresh")
    × (row.user_id ≡ x.id)
    × (row.is_revoked ≡ false)
login_lem_example =
    login_lem memory_db platform memory_db-IsPrisma platform-IsQuiet ann_login empty_db login_runs

abbrev second_pair : TokenPair
second_pair = record first_pair { access_token = "access+"; refresh_token = "refresh+" }

abbrev revoked_row : OAuthToken
revoked_row = record first_row { is_revoked = true }

abbrev refreshed_db : Db
refreshed_db = record open_db {
  rows =
      revoked_row
      ∷ record first_row { id = 2; access_token = "access+"; refresh_token = "refresh+" }
      ∷ [];
}

refresh_runs : refresh_token memory_db platform "refresh" open_db ≡ ok second_pair refreshed_db
unfolding refresh_token matches generate_token_pair save_tokens
    TokenRepository.find_by_refresh_token TokenDao.get_by_refresh_token UserRepository.find_by_id
    UserDao.get_by_id TokenRepository.revoke TokenDao.revoke TokenRepository.save TokenDao.create
refresh_runs = refl

refresh_token-twice_example :
    (e : Throwable) × (u : Db) × (refresh_token memory_db platform "refresh" refreshed_db ≡ err e u)
refresh_token-twice_example =
    refresh_token-twice memory_db platform memory_db-IsPrisma platform-IsQuiet "refresh" 1 open_db
      ((λ h. refl), tt) refresh_runs (λ h. cc)

abbrev pub closed_db : Db
closed_db = record open_db { rows = revoked_row ∷ [] }

pub logout_runs : logout memory_db platform "access" open_db ≡ ok true closed_db
unfolding logout matches emit create_event TokenRepository.find_by_access_token
    TokenDao.get_by_access_token TokenRepository.revoke TokenDao.revoke
logout_runs = refl

validate_token-logout_example :
    (e : Throwable) × (u : Db) × (validate_token memory_db platform "access" closed_db ≡ err e u)
validate_token-logout_example =
    validate_token-logout memory_db platform memory_db-IsPrisma platform-IsQuiet "access" 1 open_db
      refl ((λ h. refl), tt) logout_runs

revoke_all_runs : revoke_all_tokens memory_db platform 1 open_db ≡ ok 1 closed_db
unfolding revoke_all_tokens matches emit create_event TokenRepository.revoke_all_by_user_id
    TokenDao.revoke_all_for_user
revoke_all_runs = refl

revoke_all_tokens_lem_example :
    (1 ≡ length (keep (is_open 1) (memory_db.tokens open_db)))
    × (keep (is_open 1) (memory_db.tokens closed_db) ≡ [])
revoke_all_tokens_lem_example =
    revoke_all_tokens_lem memory_db platform memory_db-IsPrisma platform-IsQuiet 1 open_db
      revoke_all_runs

abbrev rekeyed_db : Db
rekeyed_db = record open_db {
  users = record ann { last_login_at = some 5; password_hash = some "better" } ∷ [];
}

change_password_runs :
    change_password memory_db platform 1 "secret" "better" open_db ≡ ok true rekeyed_db
unfolding change_password emit create_event UserRepository.find_by_id UserDao.get_by_id
    UserRepository.update UserDao.update
change_password_runs = refl

change_password_lem_example :
    (x : User) × (found : Db) × (compared : Db) × (hash : String) × (hashed : Db) × (row : User)
    × (stored : Db) × (UserRepository.find_by_id memory_db 1 open_db ≡ ok (some x) found)
    × (platform.compare "secret" x.password_hash found ≡ ok true compared)
    × (platform.hash "better" 12 compared ≡ ok hash hashed)
    × (memory_db.user_update 1 (record no_change { password_hash = some hash }) hashed
        ≡ ok row stored)
    × (memory_db.tokens stored ≡ memory_db.tokens open_db)
    × (emit memory_db platform
          (password_replaced (record { user_id = 1; changed_by = 1; ip_address = none }))
          stored
        ≡ ok tt rekeyed_db)
    × (true ≡ true)
change_password_lem_example =
    change_password_lem memory_db platform memory_db-IsPrisma platform-IsQuiet.compare_quiet
      platform-IsQuiet.hash_quiet 1 "secret" "better" open_db change_password_runs

total_pages_of_lem_example :
    (pages : ℕ) × (total_pages_of 5 2 ≡ some pages)
    × (first_pages {A = ℕ} pages 2 (1 ∷ 2 ∷ 3 ∷ 4 ∷ 5 ∷ []) ≡ 1 ∷ 2 ∷ 3 ∷ 4 ∷ 5 ∷ [])
    × (pages * 2 < 5 + 2)
total_pages_of_lem_example = total_pages_of_lem 1 (1 ∷ 2 ∷ 3 ∷ 4 ∷ 5 ∷ [])
