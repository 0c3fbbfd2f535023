-- ===== src/Http/Controllers/Registration.antt =====
-- What a registration may ask for.
use arcana_cloud_nodejs.Base.{ℕ, String, ◌≡◌, sym, ◌∙◌, ap, none, List, Bool}
use arcana_cloud_nodejs.Base.Exec.{ok, pure, ◌>>=◌, ◌>>◌, >>=-eq-ok, ok_injective}
use arcana_cloud_nodejs.Accounts.Models.{User, AuthResult, CreateUserData, exclude_password}
use arcana_cloud_nodejs.Accounts.Prisma.{Prisma, NewUser}
use arcana_cloud_nodejs.Accounts.UserDao.{role_or_user}
use arcana_cloud_nodejs.Accounts.UserDao
use arcana_cloud_nodejs.Accounts.UserRepository
use arcana_cloud_nodejs.Accounts.Platform.{Platform, emit}
use arcana_cloud_nodejs.Accounts.Auth.{
  register, register_name, register_email, register_hashed, register_saved, registered_event,
  generate_token_pair, save_tokens, is_some, salt_rounds,
}
use arcana_cloud_nodejs.Accounts.Auth.Steps.{throw_if-then}
use arcana_cloud_nodejs.Communication.Direct.{direct_service}
use arcana_cloud_nodejs.Errors.{conflict_error}
use arcana_cloud_nodejs.Http.Responses.{Edge, SuccessResponse, success_response}
use arcana_cloud_nodejs.Http.Controllers.{Call}
use arcana_cloud_nodejs.Http.Controllers
use arcana_cloud_nodejs.Http.Controllers.Schemas.{register_is_valid, validate_schema}
use arcana_cloud_nodejs.Http.Controllers.Routes.{register_route}

-- A row that `create` answers has the role that it was given.
pub record KeepsRole {W : Type 0} (prisma : Prisma W) : Type 0 where
  pub created :
      (d : NewUser) (w : W) {u : User} {v : W} → prisma.user_create d w ≡ ok u v → u.role ≡ d.role

module _ {W : Type 0} (prisma : Prisma W) (platform : Platform W) (keeps : KeepsRole prisma) where
  save-role :
      (body : CreateUserData) (hash : String) (w : W) {u : User} {v : W}
      → UserRepository.save prisma (record { fields = body; password_hash = hash }) w ≡ ok u v
      → u.role ≡ role_or_user body.role
  unfolding UserRepository.save UserDao.create
  save-role body hash w h = keeps.created _ w h

  register_saved-role :
      (body : CreateUserData) (user : User) (w : W) {r : AuthResult} {v : W}
      → register_saved prisma platform body user w ≡ ok r v
      → r.user.role ≡ user.role
  unfolding exclude_password
  register_saved-role body user w h =
      let (tokens, w1, issued, h1) =
        >>=-eq-ok (generate_token_pair prisma platform user)
          (λ tokens. save_tokens prisma platform user.id tokens none none >>= λ _.
            (emit prisma platform (registered_event prisma platform body user)
              >> pure (record { user = exclude_password user; tokens = tokens })))
          w h in
      let (row, w2, saved, h2) =
        >>=-eq-ok (save_tokens prisma platform user.id tokens none none)
          (λ _.
            (emit prisma platform (registered_event prisma platform body user)
              >> pure (record { user = exclude_password user; tokens = tokens })))
          w1 h1 in
      let (_, w3, sent, h3) =
        >>=-eq-ok (emit prisma platform (registered_event prisma platform body user))
          (λ _. pure (record { user = exclude_password user; tokens = tokens })) w2 h2 in
      ap (λ (r : AuthResult). r.user.role) (sym (ok_injective h3).0)

  register-role :
      (body : CreateUserData) (w : W) {r : AuthResult} {v : W}
      → register prisma platform body w ≡ ok r v
      → r.user.role ≡ role_or_user body.role
  unfolding register
  register-role body w h =
      let (same_name, w1, _, h1) =
        >>=-eq-ok (UserRepository.find_by_username prisma body.username)
          (register_name prisma platform body) w h in
      let (_, h2) =
        throw_if-then (is_some same_name) (conflict_error "Username already exists")
          (UserRepository.find_by_email prisma body.email >>= register_email prisma platform body)
          w1 h1 in
      let (same_email, w2, _, h3) =
        >>=-eq-ok (UserRepository.find_by_email prisma body.email)
          (register_email prisma platform body) w1 h2 in
      let (_, h4) =
        throw_if-then (is_some same_email) (conflict_error "Email already exists")
          (platform.hash body.password salt_rounds >>= register_hashed prisma platform body) w2
          h3 in
      let (hash, w3, _, h5) =
        >>=-eq-ok (platform.hash body.password salt_rounds) (register_hashed prisma platform body)
          w2 h4 in
      let (user, w4, saved, h6) =
        >>=-eq-ok (UserRepository.save prisma (record { fields = body; password_hash = hash }))
          (register_saved prisma platform body) w3 h5 in
      register_saved-role body user w4 h6 ∙ save-role body hash w3 saved

  -- Where the services are those of the process, and the database keeps the role of a row that it
  -- creates: a registration, which needs no token, that ends without an error is answered with 201 and
  -- has made a user with the role that stands in its body, so an administrator if the body asks for
  -- that, and a plain user if the body has no role.
  pub register_route-role :
      (is_url : String → Bool) (edge : Edge W) (issues : List (String × String))
      (body : CreateUserData) (call : Call) (w : W) {status : ℕ} {r : SuccessResponse AuthResult}
      {v : W}
      → register_route prisma platform is_url edge
          (direct_service prisma platform)
          issues
          body
          call
          w
        ≡ ok (status, r) v
      → (status ≡ 201) × (r.data_value.user.role ≡ role_or_user body.role)
  unfolding register_route Controllers.register success_response
  register_route-role is_url edge issues body call w h =
      let answer = λ (r : AuthResult).
        Controllers.reply edge (direct_service prisma platform) 201 r "User registered successfully"
          call in
      let (_, w1, _, h1) =
        >>=-eq-ok (validate_schema (register_is_valid platform.is_email is_url body) issues)
          (λ _. register prisma platform body >>= answer) w h in
      let (result, w2, done, h2) = >>=-eq-ok (register prisma platform body) answer w1 h1 in
      let same = (ok_injective h2).0 in
      (
        ap (λ (p : ℕ × SuccessResponse AuthResult). p.0) (sym same),
        ap (λ (p : ℕ × SuccessResponse AuthResult). p.1.data_value.user.role) (sym same)
            ∙ register-role body w1 done,
      )
