-- ===== src/Http/Controllers.antt =====
-- src/controllers/auth.controller.ts and src/controllers/user.controller.ts: the handlers of the routes, over
-- whatever the container binds as `ServiceCommunication`. A handler answers the status and the body, or
-- throws what it gives to `next`. A user id of a path is the number that `parseInt` reads, where that
-- is a natural number.
pub mod Schemas
pub mod Routes
pub mod Ownership
pub mod Registration
pub mod Promotion
use arcana_cloud_nodejs.Base.{
  ℕ, zero, suc, String, Bool, not, ◌&&◌, Option, none, some, List, ◌==◌, str_eq, if◌then◌else◌,
}
use arcana_cloud_nodejs.Base.Text.{second_word}
use arcana_cloud_nodejs.Base.Exec.{Exec, ok, err, pure, throw, throw_if, ◌>>=◌, ◌>>◌}
use arcana_cloud_nodejs.Errors.{authorization_error}
use arcana_cloud_nodejs.Accounts.Models.{
  admin, role_name, UserRole, UserStatus, CreateUserData, UpdateUserData, LoginData,
}
use arcana_cloud_nodejs.Accounts.UserDao.{UserFilterParams, PaginatedResult}
use arcana_cloud_nodejs.Communication.Interfaces.{Answers, ServiceCommunication, ChangePasswordData}
use arcana_cloud_nodejs.Http.Guards.{Request, RequestUser}
use arcana_cloud_nodejs.Http.Responses.{
  SuccessResponse, PaginatedResponse, Edge, success_response, paginated_response,
}

-- what a handler reads of the request beside the header and the user
pub record Call : Type 0 where
  pub request_id : Option String
  pub ip : Option String
  pub user_agent : Option String

pub record RevokedCount (N : Type 0) : Type 0 where
  pub revoked_count : N

pub record LoginBody : Type 0 where
  pub username_or_email : String
  pub password : String

-- what is read of the query of a listing: `none` is what `Number` makes NaN or what is not there
pub record ListQuery : Type 0 where
  pub page : Option ℕ
  pub per_page : Option ℕ
  pub role : Option UserRole
  pub status : Option UserStatus

-- `Number(value) || fallback`
abbrev pub number_or : Option ℕ → ℕ → ℕ
number_or none fallback = fallback
number_or (some zero) fallback = fallback
number_or (some (suc n)) fallback = suc n

-- `req.user!.role !== UserRole.ADMIN && req.user!.id !== userId`
abbrev pub is_stranger : RequestUser → ℕ → Bool
is_stranger u user_id = not (str_eq (role_name u.role) (role_name admin)) && not (u.id == user_id)

module _ {W : Type 0} {answers : Answers} (edge : Edge W)
    (service : ServiceCommunication W answers) where
  -- `req.user!`, of which a property is read
  abbrev pub user_of : Request → Exec W RequestUser
  user_of req = elim (req.user) [ none ↦ throw edge.undefined_read | some u ↦ pure u ]

  -- `res.status(status).json(successResponse(value, message, req.requestId))`
  abbrev pub reply : {T : Type 0} → ℕ → T → String → Call → Exec W (ℕ × SuccessResponse T)
  reply status value message call w =
      let (body, w') = success_response edge value message call.request_id w in ok (status, body) w'

  unfoldable pub register : CreateUserData → Call → Exec W (ℕ × SuccessResponse answers.auth_type)
  register body call = do
    result ← service.register body
    reply 201 result "User registered successfully" call

  unfoldable pub login : LoginBody → Call → Exec W (ℕ × SuccessResponse answers.auth_type)
  login body call = do
    result ← service.login (record {
      username_or_email = body.username_or_email;
      password = body.password;
      ip_address = call.ip;
      user_agent = call.user_agent;
    })
    reply 200 result "Login successful" call

  -- `req.headers.authorization?.split(' ')[1]`, with "" for undefined
  abbrev token_of : Request → String
  token_of req = elim (req.authorization) [ none ↦ "" | some header ↦ second_word header ]

  unfoldable pub logout : Request → Call → Exec W (ℕ × SuccessResponse (Option Unit))
  logout req call = do _ ← service.logout (token_of req); reply 200 none "Logout successful" call

  unfoldable pub refresh_token : String → Call → Exec W (ℕ × SuccessResponse answers.pair_type)
  refresh_token token call = do
    tokens ← service.refresh_token token
    reply 200 tokens "Token refreshed successfully" call

  unfoldable pub me : Request → Call → Exec W (ℕ × SuccessResponse (Option RequestUser))
  me req call = reply 200 req.user "User retrieved successfully" call

  unfoldable pub get_user_tokens : Request → Call → Exec W (ℕ × SuccessResponse answers.tokens_type)
  get_user_tokens req call = do
    u ← user_of req
    tokens ← service.get_user_tokens u.id
    reply 200 tokens "Tokens retrieved successfully" call

  unfoldable pub revoke_all_tokens :
      Request → Call → Exec W (ℕ × SuccessResponse (RevokedCount answers.count_type))
  revoke_all_tokens req call = do
    u ← user_of req
    count ← service.revoke_all_tokens u.id
    reply 200 (record { revoked_count = count }) "All tokens revoked" call

  -- `page_of` reads the page that the service answers.
  unfoldable pub get_users :
      {U : Type 0}
      → (answers.page_type → PaginatedResult U)
      → ListQuery
      → Call
      → Exec W (PaginatedResponse U)
  get_users page_of query call = do
    result ← service.get_users (record {
      page = number_or query.page 1;
      per_page = number_or query.per_page 20;
      role = query.role;
      status = query.status;
    })
    λ w.
        let (body, w') =
          paginated_response edge (page_of result).items (page_of result).pagination call.request_id
            w in
        ok body w'

  unfoldable pub get_user_by_id :
      Request → ℕ → Call → Exec W (ℕ × SuccessResponse answers.user_type)
  get_user_by_id req user_id call = do
    u ← user_of req
    throw_if (is_stranger u user_id) (authorization_error "Not authorized to view this user")
    found ← service.get_user_by_id user_id
    reply 200 found "User retrieved successfully" call

  unfoldable pub create_user :
      CreateUserData → Call → Exec W (ℕ × SuccessResponse answers.user_type)
  create_user body call = do
    created ← service.create_user body
    reply 201 created "User created successfully" call

  unfoldable pub update_user :
      Request → ℕ → UpdateUserData → Call → Exec W (ℕ × SuccessResponse answers.user_type)
  update_user req user_id body call = do
    u ← user_of req
    throw_if (is_stranger u user_id) (authorization_error "Not authorized to update this user")
    updated ← service.update_user user_id body
    reply 200 updated "User updated successfully" call

  unfoldable pub delete_user : ℕ → Call → Exec W (ℕ × SuccessResponse (Option Unit))
  delete_user user_id call = do
    _ ← service.delete_user user_id
    reply 200 none "User deleted successfully" call

  unfoldable pub change_password :
      Request → ℕ → ChangePasswordData → Call → Exec W (ℕ × SuccessResponse (Option Unit))
  change_password req user_id body call = do
    u ← user_of req
    throw_if (not (u.id == user_id)) (authorization_error "Not authorized to change this password")
    _ ← service.change_password user_id body
    reply 200 none "Password changed successfully" call

  unfoldable pub verify_user : ℕ → Call → Exec W (ℕ × SuccessResponse answers.user_type)
  verify_user user_id call = do
    verified ← service.verify_user user_id
    reply 200 verified "User verified successfully" call

  unfoldable pub update_user_status :
      ℕ → UserStatus → Call → Exec W (ℕ × SuccessResponse answers.user_type)
  update_user_status user_id status call = do
    updated ← service.update_user_status user_id status
    reply 200 updated "User status updated successfully" call
