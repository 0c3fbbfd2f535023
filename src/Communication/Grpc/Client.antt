-- ===== src/Communication/Grpc/Client.antt =====
-- src/communication/impl/grpc.impl.ts: `GRPCServiceCommunicationImpl`.
use mathlib.Core.Option
use arcana_cloud_nodejs.Base.{
  ℕ, String, Bool, Option, none, some, List, [], ◌∷◌, ◌++◌, map, str_eq, if◌then◌else◌,
}
use arcana_cloud_nodejs.Base.Exec.{Exec, pure, ◌>>=◌}
use arcana_cloud_nodejs.Errors.{Throwable}
use arcana_cloud_nodejs.Accounts.Models.{
  CreateUserData, UpdateUserData, TokenPair, role_name, status_name,
}
use arcana_cloud_nodejs.Accounts.UserDao.{UserFilterParams, PaginatedResult}
use arcana_cloud_nodejs.Communication.Interfaces.{Answers, ServiceCommunication}
use arcana_cloud_nodejs.Communication.Pool.{Session, attempt_call}
use arcana_cloud_nodejs.Communication.Grpc.Messages.{
  UserMessage, UsersMessage, TokenPairMessage, AuthMessage, TokenMessage, DoneMessage, Object,
  number, text, given, givens,
}

-- What `transformUser` gives: the role and the status are texts, whatever `as UserRole` says, and
-- `none` is an invalid date.
pub record RemoteUser : Type 0 where
  pub id : ℕ
  pub username : String
  pub email : String
  pub first_name : Option String
  pub last_name : Option String
  pub phone : Option String
  pub avatar_url : Option String
  pub role : String
  pub status : String
  pub is_verified : Bool
  pub is_active : Bool
  pub created_at : Option ℕ
  pub updated_at : Option ℕ
  pub last_login_at : Option (Option ℕ)

pub record RemoteAuth : Type 0 where
  pub user : RemoteUser
  pub tokens : TokenPair

abbrev pub grpc_answers : Answers
grpc_answers = record {
  user_type = RemoteUser;
  page_type = PaginatedResult RemoteUser;
  auth_type = RemoteAuth;
  pair_type = TokenPair;
  count_type = ℕ;
  tokens_type = List TokenMessage;
}

-- A client of the gRPC library, with a method for each rpc, which takes the object that is passed. An error of
-- the callback is a throw.
pub record Stubs (W C : Type 0) : Type 0 where
  pub get_users : Object → C → Exec W UsersMessage
  pub get_user_by_id : Object → C → Exec W UserMessage
  pub create_user : Object → C → Exec W UserMessage
  pub update_user : Object → C → Exec W UserMessage
  pub delete_user : Object → C → Exec W DoneMessage
  pub change_password : Object → C → Exec W DoneMessage
  pub verify_user : Object → C → Exec W UserMessage
  pub update_user_status : Object → C → Exec W UserMessage
  pub login : Object → C → Exec W AuthMessage
  pub logout : Object → C → Exec W Bool
  pub refresh_token : Object → C → Exec W TokenPairMessage
  pub validate_token : Object → C → Exec W UserMessage
  pub register : Object → C → Exec W AuthMessage
  pub revoke_all_tokens : Object → C → Exec W ℕ
  pub get_user_tokens : Object → C → Exec W (List TokenMessage)

-- The parameters of operations that are passed as they are, by their names in TypeScript. Of a change, what it
-- may have besides the properties of its interface is left out: no message has a field for it.
abbrev pub users_object : UserFilterParams → Object
users_object params =
    ("page", number params.page)
    ∷ ("perPage", number params.per_page)
    ∷ givens (
        ("role", Option.map role_name params.role)
        ∷ ("status", Option.map status_name params.status)
        ∷ [])

abbrev pub new_user_object : CreateUserData → Object
new_user_object d =
    ("username", text d.username)
    ∷ ("email", text d.email)
    ∷ ("password", text d.password)
    ∷ givens (
        ("firstName", d.first_name)
        ∷ ("lastName", d.last_name)
        ∷ ("phone", d.phone)
        ∷ ("role", Option.map role_name d.role)
        ∷ [])

abbrev pub login_object : String → String → Option String → Option String → Object
login_object username_or_email password ip_address user_agent =
    ("username_or_email", text username_or_email)
      ∷ ("password", text password)
      ∷ given "ip_address" ip_address
    ++ given "user_agent" user_agent

abbrev pub change_object : UpdateUserData → Object
change_object d = givens (
    ("email", d.email)
    ∷ ("firstName", d.first_name)
    ∷ ("lastName", d.last_name)
    ∷ ("phone", d.phone)
    ∷ ("avatarUrl", d.avatar_url)
    ∷ [])

-- `value || null`
abbrev pub or_null : String → Option String
or_null s = if str_eq s "" then none else some s

-- `parse` is `new Date(text)`.
module _ (parse : String → Option ℕ) where
  unfoldable pub transform_user : UserMessage → RemoteUser
  transform_user u = record {
    id = u.id;
    username = u.username;
    email = u.email;
    first_name = or_null u.first_name;
    last_name = or_null u.last_name;
    phone = or_null u.phone;
    avatar_url = or_null u.avatar_url;
    role = u.role;
    status = u.status;
    is_verified = u.is_verified;
    is_active = u.is_active;
    created_at = parse u.created_at;
    updated_at = parse u.updated_at;
    last_login_at = if str_eq u.last_login_at "" then none else some (parse u.last_login_at);
  }

  unfoldable pub transform_paginated_response : UsersMessage → PaginatedResult RemoteUser
  transform_paginated_response response = record {
    items = map transform_user response.users;
    pagination = record {
      page = response.pagination.page;
      per_page = response.pagination.per_page;
      total = response.pagination.total;
      total_pages = response.pagination.total_pages;
    };
  }

abbrev pub transform_tokens : TokenPairMessage → TokenPair
transform_tokens tokens = record {
  access_token = tokens.access_token;
  refresh_token = tokens.refresh_token;
  expires_in = tokens.expires_in;
  token_type = tokens.token_type;
}

module _ {W C : Type 0} (parse : String → Option ℕ) (stubs : Stubs W C)
    (undefined_client : Throwable) (clients : List C) where
  -- `new Promise` with a call of the next client, and what `resolve` gets of the response
  abbrev pub resolved : {R A : Type 0} → (C → Exec W R) → (R → A) → Exec (Session W) A
  resolved method read = do
    response ← attempt_call undefined_client clients method
    pure (read response)

  abbrev pub read_auth : AuthMessage → RemoteAuth
  read_auth response = record {
    user = transform_user parse response.user;
    tokens = transform_tokens response.tokens;
  }

  abbrev pub grpc_service : ServiceCommunication (Session W) grpc_answers
  grpc_service = record {
    get_users = λ params.
        resolved (stubs.get_users (users_object params)) (transform_paginated_response parse);
    get_user_by_id = λ user_id.
        resolved (stubs.get_user_by_id (("user_id", number user_id) ∷ [])) (transform_user parse);
    create_user =
        λ data'. resolved (stubs.create_user (new_user_object data')) (transform_user parse);
    update_user = λ user_id data'.
        resolved (stubs.update_user (("user_id", number user_id) ∷ change_object data'))
          (transform_user parse);
    delete_user = λ user_id.
        resolved (stubs.delete_user (("user_id", number user_id) ∷ []))
          (λ response. response.success);
    change_password = λ user_id data'.
        resolved
          (stubs.change_password (
            ("user_id", number user_id)
            ∷ ("old_password", text data'.old_password)
            ∷ ("new_password", text data'.new_password)
            ∷ []))
          (λ response. response.success);
    verify_user = λ user_id.
        resolved (stubs.verify_user (("user_id", number user_id) ∷ [])) (transform_user parse);
    update_user_status = λ user_id status.
        resolved
          (stubs.update_user_status
            (("user_id", number user_id) ∷ ("status", text (status_name status)) ∷ []))
          (transform_user parse);
    login = λ data'.
        resolved
          (stubs.login
            (login_object data'.username_or_email data'.password data'.ip_address data'.user_agent))
          read_auth;
    logout = λ token. resolved (stubs.logout (("token", text token) ∷ [])) (λ success. success);
    refresh_token = λ token.
        resolved (stubs.refresh_token (("refresh_token", text token) ∷ [])) transform_tokens;
    validate_token = λ token.
        resolved (stubs.validate_token (("token", text token) ∷ [])) (transform_user parse);
    register = λ data'. resolved (stubs.register (new_user_object data')) read_auth;
    revoke_all_tokens = λ user_id.
        resolved (stubs.revoke_all_tokens (("user_id", number user_id) ∷ [])) (λ count. count);
    get_user_tokens = λ user_id.
        resolved (stubs.get_user_tokens (("user_id", number user_id) ∷ [])) (λ tokens. tokens);
  }
