-- ===== src/Http/Guards.antt =====
-- src/middleware/auth.middleware.ts. A middleware answers the request as it leaves it and the argument of
-- its call of `next`; `req` is the part of the request that it reads and writes.
pub mod Admission
use arcana_cloud_nodejs.Base.{
  ℕ, String, Bool, true, false, ◌||◌, Option, none, some, List, [], ◌∷◌, str_eq, if◌then◌else◌,
}
use arcana_cloud_nodejs.Base.Text.{starts_with, second_word}
use arcana_cloud_nodejs.Base.Exec.{Outcome, ok, err, Exec, pure, ◌>>=◌}
use arcana_cloud_nodejs.Errors.{Throwable, authentication_error, authorization_error}
use arcana_cloud_nodejs.Accounts.Models.{UserRole, role_name, UserPublic}
use arcana_cloud_nodejs.Accounts.Prisma.{Prisma}
use arcana_cloud_nodejs.Accounts.Platform.{Platform}
use arcana_cloud_nodejs.Accounts.Auth.{validate_token}

pub record RequestUser : Type 0 where
  pub id : ℕ
  pub username : String
  pub email : String
  pub role : UserRole

pub record Request : Type 0 where
  pub authorization : Option String
  pub user : Option RequestUser

abbrev pub Reply : Type 0
Reply = Request × Option Throwable

abbrev pub request_user : UserPublic → RequestUser
request_user u = record { id = u.id; username = u.username; email = u.email; role = u.role }

-- the token of an `Authorization` header, if it starts with `Bearer `
unfoldable pub bearer_token : Option String → Option String
bearer_token none = none
bearer_token (some header) =
    if starts_with "Bearer " header then some (second_word header) else none

-- `allowedRoles.includes(role)`
abbrev pub includes : List UserRole → UserRole → Bool
includes [] r = false
includes (x ∷ xs) r = str_eq (role_name x) (role_name r) || includes xs r

unfoldable pub role_required : List UserRole → Request → Reply
role_required allowed_roles req = elim (req.user) [
  | none ↦ (req, some (authentication_error "Authentication required"))
  | some user ↦
      if includes allowed_roles user.role
      then (req, none)
      else (req, some (authorization_error "Insufficient permissions"))
]

module _ {W : Type 0} (prisma : Prisma W) (platform : Platform W) where
  -- what the `try` block of `tokenRequired` makes of the end of `validateToken`
  abbrev pub signed_in : Request → Outcome W UserPublic → Outcome W Reply
  signed_in req (ok user w) = ok (record req { user = some (request_user user) }, none) w
  signed_in req (err e w) = ok (req, some e) w

  abbrev pub with_token : Request → Option String → Exec W Reply
  with_token req none w =
      ok (req, some (authentication_error "Missing or invalid authorization header")) w
  with_token req (some token) w = signed_in req (validate_token prisma platform token w)

  unfoldable pub token_required : Request → Exec W Reply
  token_required req = with_token req (bearer_token req.authorization)

  -- an invalid token leaves the request without a user
  abbrev maybe_signed_in : Request → Outcome W UserPublic → Outcome W Reply
  maybe_signed_in req (ok user w) = ok (record req { user = some (request_user user) }, none) w
  maybe_signed_in req (err e w) = ok (req, none) w

  abbrev maybe_with_token : Request → Option String → Exec W Reply
  maybe_with_token req none w = ok (req, none) w
  maybe_with_token req (some token) w = maybe_signed_in req (validate_token prisma platform token w)

  unfoldable pub optional_auth : Request → Exec W Reply
  optional_auth req = maybe_with_token req (bearer_token req.authorization)

  abbrev pub then_role : List UserRole → Reply → Reply
  then_role allowed_roles (req, some e) = (req, some e)
  then_role allowed_roles (req, none) = role_required allowed_roles req

  -- `tokenRequired` followed by `roleRequired(allowedRoles)`, which an error passes over
  unfoldable pub guarded : List UserRole → Request → Exec W Reply
  guarded allowed_roles req = do reply ← token_required req; pure (then_role allowed_roles reply)
