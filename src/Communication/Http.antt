-- ===== src/Communication/Http.antt =====
-- src/communication/impl/http.impl.ts: the services and the repositories of another process, by HTTP.
-- `J` is what a JSON text is read as; no operation looks at the shape of an answer before it reads
-- its parts.
pub mod Routes
use arcana_cloud_nodejs.Base.{ℕ, String, Bool, true, Option, none, some, List, [], ◌∷◌}
use arcana_cloud_nodejs.Base.Exec.{Exec, pure, ◌>>=◌}
use arcana_cloud_nodejs.Errors.{Throwable}
use arcana_cloud_nodejs.Accounts.Models.{CreateUserData, UpdateUserData, UserStatus, LoginData}
use arcana_cloud_nodejs.Accounts.UserDao.{UserFilterParams}
use arcana_cloud_nodejs.Communication.Interfaces.{
  Answers, ServiceCommunication, RepositoryCommunication, ChangePasswordData,
}
use arcana_cloud_nodejs.Communication.Pool.{Session, execute_with_retry}

pub data Method : Type 0 where
  get post put delete : Method

-- a part of a path between slashes
pub data Segment : Type 0 where
  name : String → Segment
  number : ℕ → Segment

-- what goes with a request: the query of a GET, the body of another
pub data Content (J : Type 0) : Type 0 where
  empty : Content J
  page_params : UserFilterParams → Content J
  new_user : CreateUserData → Content J
  user_change : UpdateUserData → Content J
  passwords : ChangePasswordData → Content J
  status_only : UserStatus → Content J
  credentials : LoginData → Content J
  token_only refresh_token_only : String → Content J
  user_id_only : ℕ → Content J
  json : J → Content J

pub record HttpRequest (J : Type 0) : Type 0 where
  pub method : Method
  pub path : List Segment
  pub content : Content J

-- axios and the timer: `send` rejects for a status that is not 2xx, and answers `response.data`
-- otherwise; `data_of` and `count_of` read the properties `data` and `count`, which throw for null and
-- undefined.
pub record Axios (W C J : Type 0) : Type 0 where
  pub send : C → HttpRequest J → Exec W J
  pub data_of : J → Exec W J
  pub count_of : J → Exec W J
  pub delay : ℕ → W → W
  pub undefined_client : Throwable

abbrev pub users_path : List Segment → List Segment
users_path rest = name "api" ∷ name "v1" ∷ name "users" ∷ rest

abbrev pub auth_path : List Segment → List Segment
auth_path rest = name "api" ∷ name "v1" ∷ name "auth" ∷ rest

abbrev pub request : {J : Type 0} → Method → List Segment → Content J → HttpRequest J
request method path content = record { method = method; path = path; content = content }

-- the request of each operation
module _ (J : Type 0) where
  unfoldable pub get_users_request : UserFilterParams → HttpRequest J
  get_users_request params = request get (users_path []) (page_params params)

  unfoldable pub get_user_by_id_request : ℕ → HttpRequest J
  get_user_by_id_request user_id = request get (users_path (number user_id ∷ [])) empty

  unfoldable pub create_user_request : CreateUserData → HttpRequest J
  create_user_request data' = request post (users_path []) (new_user data')

  unfoldable pub update_user_request : ℕ → UpdateUserData → HttpRequest J
  update_user_request user_id data' =
      request put (users_path (number user_id ∷ [])) (user_change data')

  unfoldable pub delete_user_request : ℕ → HttpRequest J
  delete_user_request user_id = request delete (users_path (number user_id ∷ [])) empty

  unfoldable pub change_password_request : ℕ → ChangePasswordData → HttpRequest J
  change_password_request user_id data' =
      request put (users_path (number user_id ∷ name "password" ∷ [])) (passwords data')

  unfoldable pub verify_user_request : ℕ → HttpRequest J
  verify_user_request user_id =
      request post (users_path (number user_id ∷ name "verify" ∷ [])) empty

  unfoldable pub update_user_status_request : ℕ → UserStatus → HttpRequest J
  update_user_status_request user_id status =
      request put (users_path (number user_id ∷ name "status" ∷ [])) (status_only status)

  unfoldable pub login_request : LoginData → HttpRequest J
  login_request data' = request post (auth_path (name "login" ∷ [])) (credentials data')

  unfoldable pub logout_request : String → HttpRequest J
  logout_request token = request post (auth_path (name "logout" ∷ [])) (token_only token)

  unfoldable pub refresh_token_request : String → HttpRequest J
  refresh_token_request token =
      request post (auth_path (name "refresh" ∷ [])) (refresh_token_only token)

  unfoldable pub validate_token_request : String → HttpRequest J
  validate_token_request token = request post (auth_path (name "validate" ∷ [])) (token_only token)

  unfoldable pub register_request : CreateUserData → HttpRequest J
  register_request data' = request post (auth_path (name "register" ∷ [])) (new_user data')

  unfoldable pub revoke_all_tokens_request : ℕ → HttpRequest J
  revoke_all_tokens_request user_id =
      request post (auth_path (name "tokens" ∷ name "revoke-all" ∷ [])) (user_id_only user_id)

  unfoldable pub get_user_tokens_request : ℕ → HttpRequest J
  get_user_tokens_request user_id =
      request get (auth_path (name "tokens" ∷ number user_id ∷ [])) empty

abbrev pub http_answers : Type 0 → Answers
http_answers J = record {
  user_type = J;
  page_type = J;
  auth_type = J;
  pair_type = J;
  count_type = J;
  tokens_type = J;
}

module _ {W C J : Type 0} (axios : Axios W C J) (clients : List C) where
  abbrev with_retry : {A : Type 0} → (C → Exec W A) → Exec (Session W) A
  with_retry operation = execute_with_retry axios.delay axios.undefined_client clients operation

  -- a request whose answer is `response.data.data`
  abbrev pub asked : HttpRequest J → Exec (Session W) J
  asked r = with_retry λ client. do body ← axios.send client r; axios.data_of body

  -- a request whose answer is not read
  abbrev pub told : HttpRequest J → Exec (Session W) Bool
  told r = with_retry λ client. do _ ← axios.send client r; pure true

  -- a request whose answer is `response.data.data.count`
  abbrev pub counted : HttpRequest J → Exec (Session W) J
  counted r =
      with_retry
        λ client. do body ← axios.send client r; answer ← axios.data_of body; axios.count_of answer

  abbrev pub http_service : ServiceCommunication (Session W) (http_answers J)
  http_service = record {
    get_users = λ params. asked (get_users_request J params);
    get_user_by_id = λ user_id. asked (get_user_by_id_request J user_id);
    create_user = λ data'. asked (create_user_request J data');
    update_user = λ user_id data'. asked (update_user_request J user_id data');
    delete_user = λ user_id. told (delete_user_request J user_id);
    change_password = λ user_id data'. told (change_password_request J user_id data');
    verify_user = λ user_id. asked (verify_user_request J user_id);
    update_user_status = λ user_id status. asked (update_user_status_request J user_id status);
    login = λ data'. asked (login_request J data');
    logout = λ token. told (logout_request J token);
    refresh_token = λ token. asked (refresh_token_request J token);
    validate_token = λ token. asked (validate_token_request J token);
    register = λ data'. asked (register_request J data');
    revoke_all_tokens = λ user_id. counted (revoke_all_tokens_request J user_id);
    get_user_tokens = λ user_id. asked (get_user_tokens_request J user_id);
  }

  abbrev json_or_empty : Option J → Content J
  json_or_empty none = empty
  json_or_empty (some params) = json params

  abbrev rows_path : String → List Segment → List Segment
  rows_path entity rest = name "repository" ∷ name entity ∷ rest

  abbrev pub http_repository : RepositoryCommunication (Session W) J J J J
  http_repository = record {
    query = λ entity params. asked (request get (rows_path entity []) (json params));
    get_by_id = λ entity id. asked (request get (rows_path entity (number id ∷ [])) empty);
    create = λ entity data'. asked (request post (rows_path entity []) (json data'));
    update =
        λ entity id data'. asked (request put (rows_path entity (number id ∷ [])) (json data'));
    delete = λ entity id. told (request delete (rows_path entity (number id ∷ [])) empty);
    count = λ entity params.
        counted (request get (rows_path entity (name "count" ∷ [])) (json_or_empty params));
  }
