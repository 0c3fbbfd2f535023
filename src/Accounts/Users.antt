-- ===== src/Accounts/Users.antt =====
-- src/services/impl/user.service.impl.ts: `UserServiceImpl`.
pub mod Passwords
use arcana_cloud_nodejs.Base.{
  ℕ, String, Bool, true, false, not, ◌&&◌, Option, none, some, List, map, str_eq, if◌then◌else◌,
}
use arcana_cloud_nodejs.Base.Exec.{Exec, ok, err, pure, throw, throw_if, ◌>>=◌, ◌>>◌}
use arcana_cloud_nodejs.Errors.{Throwable, authentication_error, conflict_error, not_found_error}
use arcana_cloud_nodejs.Events.Domain.{Payload, password_replaced, verified, status_changed}
use arcana_cloud_nodejs.Accounts.Models.{
  User, UserPublic, UserStatus, status_name, exclude_password, CreateUserData, UpdateUserData,
}
use arcana_cloud_nodejs.Accounts.Prisma.{Prisma, UserChange, no_change}
use arcana_cloud_nodejs.Accounts.UserDao.{UserFilterParams, PaginatedResult}
use arcana_cloud_nodejs.Accounts.UserRepository
use arcana_cloud_nodejs.Accounts.Platform.{Platform, emit}
use arcana_cloud_nodejs.Accounts.Auth.{required, is_some, salt_rounds}

abbrev pub user_not_found : Throwable
user_not_found = not_found_error "User not found"

-- an `UpdateUserData`, all of which is the change of the row
abbrev pub change_of : UpdateUserData → UserChange
change_of d = record no_change {
  email = d.email;
  first_name = d.first_name;
  last_name = d.last_name;
  phone = d.phone;
  avatar_url = d.avatar_url;
  username = d.username;
  password_hash = d.password_hash;
  role = d.role;
  status = d.status;
  is_verified = d.is_verified;
  is_active = d.is_active;
}

module _ {W : Type 0} (prisma : Prisma W) (platform : Platform W) where
  -- a look-up whose `null` is a `NotFoundError`
  abbrev pub found_user : Exec W (Option User) → Exec W User
  found_user find = do user ← find; required user (throw user_not_found)

  unfoldable pub create_user : CreateUserData → Exec W UserPublic
  create_user data' = do
    same_name ← UserRepository.find_by_username prisma data'.username
    throw_if (is_some same_name) (conflict_error "Username already exists")
    same_email ← UserRepository.find_by_email prisma data'.email
    throw_if (is_some same_email) (conflict_error "Email already exists")
    password_hash ← platform.hash data'.password salt_rounds
    user ← UserRepository.save prisma (record { fields = data'; password_hash = password_hash })
    pure (exclude_password user)

  unfoldable pub get_user_by_id : ℕ → Exec W UserPublic
  get_user_by_id id = do
    user ← found_user (UserRepository.find_by_id prisma id)
    pure (exclude_password user)

  unfoldable pub get_user_by_username : String → Exec W UserPublic
  get_user_by_username username = do
    user ← found_user (UserRepository.find_by_username prisma username)
    pure (exclude_password user)

  unfoldable pub get_user_by_email : String → Exec W UserPublic
  get_user_by_email email = do
    user ← found_user (UserRepository.find_by_email prisma email)
    pure (exclude_password user)

  -- the test of a new address: `if (data.email && data.email !== existingUser.email)`
  abbrev pub email_is_free : Option String → User → Exec W (Unit {0})
  email_is_free none existing w = ok tt w
  email_is_free (some email) existing w =
      if not (str_eq email "") && not (str_eq email existing.email)
      then (do
        same_email ← UserRepository.find_by_email prisma email
        throw_if (is_some same_email) (conflict_error "Email already exists"))
          w
      else ok tt w

  unfoldable pub update_user : ℕ → UpdateUserData → Exec W UserPublic
  update_user id data' = do
    existing_user ← found_user (UserRepository.find_by_id prisma id)
    email_is_free data'.email existing_user
    updated_user ← UserRepository.update prisma id (change_of data')
    pure (exclude_password updated_user)

  unfoldable pub delete_user : ℕ → Exec W Bool
  delete_user id = do
    user ← found_user (UserRepository.find_by_id prisma id)
    UserRepository.delete_by_id prisma id

  -- `changePassword`, from its last step to its first
  abbrev pub store_password : ℕ → String → Exec W Bool
  store_password id password_hash = do
    _ ← UserRepository.update prisma id (record no_change { password_hash = some password_hash })
    emit prisma platform
        (password_replaced (record { user_id = id; changed_by = id; ip_address = none }))
    pure true

  abbrev pub replace_password : ℕ → String → Bool → Exec W Bool
  replace_password id new_password is_valid = do
    throw_if (not is_valid) (authentication_error "Current password is incorrect")
    password_hash ← platform.hash new_password salt_rounds
    store_password id password_hash

  abbrev pub check_password : ℕ → String → String → User → Exec W Bool
  check_password id old_password new_password user = do
    is_valid ← platform.compare old_password user.password_hash
    replace_password id new_password is_valid

  unfoldable pub change_password : ℕ → String → String → Exec W Bool
  change_password id old_password new_password = do
    user ← found_user (UserRepository.find_by_id prisma id)
    check_password id old_password new_password user

  unfoldable pub verify_user : ℕ → Exec W UserPublic
  verify_user id = do
    user ← found_user (UserRepository.find_by_id prisma id)
    throw_if user.is_verified (conflict_error "User is already verified")
    updated_user ← UserRepository.update prisma id (record no_change { is_verified = some true })
    λ w. emit prisma platform (verified (record { user_id = id; verified_at = prisma.now w })) w
    pure (exclude_password updated_user)

  unfoldable pub update_user_status : ℕ → UserStatus → Exec W UserPublic
  update_user_status id status = do
    user ← found_user (UserRepository.find_by_id prisma id)
    updated_user ← UserRepository.update_status prisma id status
    emit prisma platform (
        status_changed (record {
          user_id = id;
          old_status = status_name user.status;
          new_status = status_name status;
          changed_by = id;
          reason = none;
        }))
    pure (exclude_password updated_user)

  unfoldable pub get_users : UserFilterParams → Exec W (PaginatedResult UserPublic)
  get_users params = do
    result ← UserRepository.find_all_paginated prisma params
    pure (record { items = map exclude_password result.items; pagination = result.pagination })
