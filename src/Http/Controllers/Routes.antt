-- ===== src/Http/Controllers/Routes.antt =====
-- The routes of the controllers: the middlewares of each before its handler. The limiter of attempts to log
-- in is a library's and not here.
use arcana_cloud_nodejs.Base.{ℕ, String, Bool, Option, none, some, List, [], ◌∷◌}
use arcana_cloud_nodejs.Base.Exec.{Exec, throw, ◌>>=◌, ◌>>◌}
use arcana_cloud_nodejs.Accounts.Models.{
  UserRole, admin, UserStatus, CreateUserData, UpdateUserData,
}
use arcana_cloud_nodejs.Accounts.Prisma.{Prisma}
use arcana_cloud_nodejs.Accounts.Platform.{Platform}
use arcana_cloud_nodejs.Communication.Interfaces.{Answers, ServiceCommunication, ChangePasswordData}
use arcana_cloud_nodejs.Http.Guards.{Request, RequestUser, Reply, token_required, guarded}
use arcana_cloud_nodejs.Http.Responses.{SuccessResponse, Edge}
use arcana_cloud_nodejs.Http.Controllers.{Call, RevokedCount, LoginBody}
use arcana_cloud_nodejs.Http.Controllers
use arcana_cloud_nodejs.Http.Controllers.Schemas.{
  register_is_valid, login_is_valid, refresh_token_is_valid, create_user_is_valid,
  update_user_is_valid, change_password_is_valid, validate_schema,
}

-- the rest of a route, unless a middleware gave an error to `next`
abbrev pub admit : {W A : Type 0} → Reply → (Request → Exec W A) → Exec W A
admit (req, none) rest = rest req
admit (req, some e) rest = throw e

module _ {W : Type 0} {answers : Answers} (prisma : Prisma W) (platform : Platform W)
    (is_url : String → Bool) (edge : Edge W) (service : ServiceCommunication W answers) where
  abbrev pub signed : {A : Type 0} → Request → (Request → Exec W A) → Exec W A
  signed req rest = do reply ← token_required prisma platform req; admit reply rest

  abbrev pub permitted : {A : Type 0} → List UserRole → Request → (Request → Exec W A) → Exec W A
  permitted roles req rest = do reply ← guarded prisma platform roles req; admit reply rest

  -- `issues` are what zod has against the body
  unfoldable pub register_route :
      List (String × String)
      → CreateUserData
      → Call
      → Exec W (ℕ × SuccessResponse answers.auth_type)
  register_route issues body call = do
    validate_schema (register_is_valid platform.is_email is_url body) issues
    Controllers.register edge service body call

  unfoldable pub login_route :
      List (String × String) → LoginBody → Call → Exec W (ℕ × SuccessResponse answers.auth_type)
  login_route issues body call = do
    validate_schema (login_is_valid platform.is_email is_url body.username_or_email body.password)
        issues
    Controllers.login edge service body call

  unfoldable pub logout_route : Request → Call → Exec W (ℕ × SuccessResponse (Option Unit))
  logout_route req call = signed req λ req'. Controllers.logout edge service req' call

  unfoldable pub refresh_route :
      List (String × String) → String → Call → Exec W (ℕ × SuccessResponse answers.pair_type)
  refresh_route issues token call = do
    validate_schema (refresh_token_is_valid platform.is_email is_url token) issues
    Controllers.refresh_token edge service token call

  unfoldable pub me_route : Request → Call → Exec W (ℕ × SuccessResponse (Option RequestUser))
  me_route req call = signed req λ req'. Controllers.me edge service req' call

  unfoldable pub tokens_route : Request → Call → Exec W (ℕ × SuccessResponse answers.tokens_type)
  tokens_route req call = signed req λ req'. Controllers.get_user_tokens edge service req' call

  unfoldable pub revoke_all_route :
      Request → Call → Exec W (ℕ × SuccessResponse (RevokedCount answers.count_type))
  revoke_all_route req call =
      signed req λ req'. Controllers.revoke_all_tokens edge service req' call

  unfoldable pub get_user_route :
      Request → ℕ → Call → Exec W (ℕ × SuccessResponse answers.user_type)
  get_user_route req user_id call =
      signed req λ req'. Controllers.get_user_by_id edge service req' user_id call

  unfoldable pub create_user_route :
      Request
      → List (String × String)
      → CreateUserData
      → Call
      → Exec W (ℕ × SuccessResponse answers.user_type)
  create_user_route req issues body call = permitted (admin ∷ []) req λ req'. do
    validate_schema (create_user_is_valid platform.is_email is_url body) issues
    Controllers.create_user edge service body call

  unfoldable pub update_user_route :
      Request
      → ℕ
      → List (String × String)
      → UpdateUserData
      → Call
      → Exec W (ℕ × SuccessResponse answers.user_type)
  update_user_route req user_id issues body call = signed req λ req'. do
    validate_schema (update_user_is_valid platform.is_email is_url body) issues
    Controllers.update_user edge service req' user_id body call

  unfoldable pub delete_user_route : Request → ℕ → Call → Exec W (ℕ × SuccessResponse (Option Unit))
  delete_user_route req user_id call =
      permitted (admin ∷ []) req λ req'. Controllers.delete_user edge service user_id call

  unfoldable pub password_route :
      Request
      → ℕ
      → List (String × String)
      → ChangePasswordData
      → Call
      → Exec W (ℕ × SuccessResponse (Option Unit))
  password_route req user_id issues body call = signed req λ req'. do
    validate_schema (change_password_is_valid platform.is_email is_url body) issues
    Controllers.change_password edge service req' user_id body call

  unfoldable pub verify_route : Request → ℕ → Call → Exec W (ℕ × SuccessResponse answers.user_type)
  verify_route req user_id call =
      permitted (admin ∷ []) req λ req'. Controllers.verify_user edge service user_id call

  -- The status is one of the enumeration: what is none is refused by the schema.
  unfoldable pub status_route :
      Request → ℕ → UserStatus → Call → Exec W (ℕ × SuccessResponse answers.user_type)
  status_route req user_id status call =
      permitted (admin ∷ []) req
        λ req'. Controllers.update_user_status edge service user_id status call
