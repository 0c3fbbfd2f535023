-- ===== src/Http/Controllers/Ownership.antt =====
-- Who may ask for what.
use arcana_cloud_nodejs.Base.{
  ℕ, String, ◌≡◌, ◌≢◌, refl, Bool, true, false, not, none, some, List, str_eq, ◌==◌, ◌&&◌, arith,
}
use arcana_cloud_nodejs.Base.Exec.{ok, err, ◌>>=◌}
use arcana_cloud_nodejs.Errors.{authorization_error}
use arcana_cloud_nodejs.Accounts.Models.{
  UserPublic, UserRole, UpdateUserData, role_name, admin, user, guest,
}
use arcana_cloud_nodejs.Accounts.Prisma.{Prisma}
use arcana_cloud_nodejs.Accounts.Platform.{Platform}
use arcana_cloud_nodejs.Accounts.Auth.{validate_token}
use arcana_cloud_nodejs.Communication.Interfaces.{Answers, ServiceCommunication, ChangePasswordData}
use arcana_cloud_nodejs.Http.Guards.{Request, bearer_token, request_user, token_required}
use arcana_cloud_nodejs.Http.Responses.{Edge}
use arcana_cloud_nodejs.Http.Controllers.{Call, is_stranger}
use arcana_cloud_nodejs.Http.Controllers
use arcana_cloud_nodejs.Http.Controllers.Schemas.{
  update_user_is_valid, change_password_is_valid, validate_schema,
}
use arcana_cloud_nodejs.Http.Controllers.Routes.{get_user_route, update_user_route, password_route}

module _ {W : Type 0} (prisma : Prisma W) (platform : Platform W) where
  -- A request whose token is accepted goes on as the user of the token.
  pub token_required-valid :
      (req : Request) (token : String) (holder : UserPublic) (w v : W)
      → bearer_token req.authorization ≡ some token
      → validate_token prisma platform token w ≡ ok holder v
      → token_required prisma platform req w
        ≡ ok (record req { user = some (request_user holder) }, none) v
  unfolding token_required
  token_required-valid req token holder w v bears valid = rw (bears, valid) refl

other_id : (m n : ℕ) → m ≢ n → not (m == n) ≡ true
other_id m n h = ground arith

not_admin : (r : UserRole) → r ≢ admin → str_eq (role_name r) (role_name admin) ≡ false
not_admin admin h = absurd (h refl)
not_admin user h = refl
not_admin guest h = refl

stranger_is : (b c : Bool) → b ≡ false → c ≡ true → (not b && c) ≡ true
stranger_is b c hb hc = ground arith

module _ {W : Type 0} {answers : Answers} (prisma : Prisma W) (platform : Platform W)
    (is_url : String → Bool) (edge : Edge W) (service : ServiceCommunication W answers) where
  -- A request with an accepted token of a user who is not an administrator, for another user than the one of
  -- the token: its routes to read the other user, to update it and to change its password all end with
  -- an authorization error, and leave the state as the check of the token left it, if the body that is
  -- sent is one that the schema accepts.
  pub stranger_lem :
      (req : Request) (token : String) (holder : UserPublic) (w v : W) (user_id : ℕ) (call : Call)
      (issues : List (String × String)) (change : UpdateUserData) (passwords : ChangePasswordData)
      → bearer_token req.authorization ≡ some token
      → validate_token prisma platform token w ≡ ok holder v
      → holder.role ≢ admin
      → holder.id ≢ user_id
      → update_user_is_valid platform.is_email is_url change ≡ true
      → change_password_is_valid platform.is_email is_url passwords ≡ true
      → (get_user_route prisma platform is_url edge service req user_id call w
          ≡ err (authorization_error "Not authorized to view this user") v)
        × (update_user_route prisma platform is_url edge service req user_id issues change call w
            ≡ err (authorization_error "Not authorized to update this user") v)
        × (password_route prisma platform is_url edge service req user_id issues passwords call w
            ≡ err (authorization_error "Not authorized to change this password") v)
  unfolding get_user_route update_user_route password_route Controllers.get_user_by_id
      Controllers.update_user Controllers.change_password validate_schema
  stranger_lem req token holder w v user_id call issues change passwords bears valid no_admin
        no_owner change_ok passwords_ok =
      let enters = token_required-valid prisma platform req token holder w v bears valid in
      let other : not (holder.id == user_id) ≡ true = other_id holder.id user_id no_owner in
      let stranger =
        stranger_is (str_eq (role_name holder.role) (role_name admin)) (not (holder.id == user_id))
          (not_admin holder.role no_admin) other in
      (
        rw (◌>>=◌, enters, stranger) refl,
        rw (◌>>=◌, enters, change_ok, stranger) refl,
        rw (◌>>=◌, enters, passwords_ok, other) refl,
      )
