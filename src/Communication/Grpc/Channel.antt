-- ===== src/Communication/Grpc/Channel.antt =====
-- The channel between the two sides, which is the gRPC library: what arrives of what is sent.
use mathlib.Core.Option
use arcana_cloud_nodejs.Base.{
  ℕ, ◌<◌, String, ◌≡◌, ◌≢◌, false, Option, none, some, List, ◌∷◌, map, if◌then◌else◌,
}
use arcana_cloud_nodejs.Base.Exec.{Outcome, ok, err}
use arcana_cloud_nodejs.Errors.{Throwable}
use arcana_cloud_nodejs.Accounts.Prisma.{Prisma}
use arcana_cloud_nodejs.Accounts.Platform.{Platform}
use arcana_cloud_nodejs.Communication.Grpc.Messages.{
  UserMessage, AuthMessage, UsersMessage, TokenPairMessage, PaginationMessage, TokenMessage,
  GetUsersRequest, CreateUserRequest, UpdateUserRequest, ChangePasswordRequest,
  UpdateUserStatusRequest, LoginRequest, RegisterRequest, Value, number, text, Object, property,
  role_members, status_members, is_member,
}
use arcana_cloud_nodejs.Communication.Grpc.Client.{Stubs}
use arcana_cloud_nodejs.Communication.Grpc.Server.{StatusCode, Answer, answered, failed, Untyped}
use arcana_cloud_nodejs.Communication.Grpc.Server

pub record Channel : Type 0 where
  -- the member of an enumeration that arrives for a name that is sent
  pub member : List String → String → String
  -- what a number arrives as in a field of the type int32
  pub int32 : ℕ → ℕ
  -- the error of a callback for a status
  pub status_error : StatusCode → String → Throwable
  -- `toISOString` and `new Date(text)`
  pub iso : ℕ → String
  pub parse : String → Option ℕ

-- Documented: a name that is no member is not set, so that the member with number 0 arrives, which is the
-- first; a date is read back from its text, and a number of
-- 31 bits arrives as it is.
pub record IsChannel (channel : Channel) : Type 0 where
  pub member-unknown :
      (first : String) (members : List String) (s : String)
      → is_member (first ∷ members) s ≡ false
      → channel.member (first ∷ members) s ≡ first
  pub int32-small : (n : ℕ) → n < 2147483648 → channel.int32 n ≡ n
  pub parse-iso : (t : ℕ) → channel.parse (channel.iso t) ≡ some t
  pub iso-blank : (t : ℕ) → channel.iso t ≢ ""

module _ (channel : Channel) where
  -- a user as it arrives: the fields are as they were sent, but for the members of enumerations
  abbrev pub user_arrives : UserMessage → UserMessage
  user_arrives u = record u {
    role = channel.member role_members u.role;
    status = channel.member status_members u.status;
  }

  -- the same, with the fields that are numbers
  abbrev pub user_lands : UserMessage → UserMessage
  user_lands u = user_arrives (record u { id = channel.int32 u.id })

  abbrev pub pair_lands : TokenPairMessage → TokenPairMessage
  pair_lands p = record p { expires_in = channel.int32 p.expires_in }

  abbrev pub auth_lands : AuthMessage → AuthMessage
  auth_lands a = record { user = user_lands a.user; tokens = pair_lands a.tokens }

  abbrev pub page_lands : PaginationMessage → PaginationMessage
  page_lands p = record {
    page = channel.int32 p.page;
    per_page = channel.int32 p.per_page;
    total = channel.int32 p.total;
    total_pages = Option.map channel.int32 p.total_pages;
  }

  abbrev pub users_land : UsersMessage → UsersMessage
  users_land r = record { users = map user_lands r.users; pagination = page_lands r.pagination }

  abbrev pub token_lands : TokenMessage → TokenMessage
  token_lands t = record t { id = channel.int32 t.id; user_id = channel.int32 t.user_id }

  -- the fields of a message, by their names, of the object that was passed
  abbrev pub number_of : Option Value → ℕ
  number_of (some (number n)) = channel.int32 n
  number_of _ = 0

  abbrev pub text_of : Option Value → Option String
  text_of (some (text s)) = some s
  text_of _ = none

  abbrev or_blank : Option String → String
  or_blank none = ""
  or_blank (some s) = s

  abbrev pub number_field : String → Object → ℕ
  number_field name o = number_of (property name o)

  abbrev pub optional_field : String → Object → Option String
  optional_field name o = text_of (property name o)

  abbrev pub text_field : String → Object → String
  text_field name o = or_blank (optional_field name o)

  abbrev pub member_field : List String → String → Object → String
  member_field members name o = channel.member members (text_field name o)

  -- what a call has for an answer of the handler
  abbrev pub delivered : {W A B : Type 0} → (A → B) → Answer A × W → Outcome W B
  delivered arrives (answered a, w) = ok (arrives a) w
  delivered arrives (failed code message, w) = err (channel.status_error code message) w

-- what an optional member of an enumeration arrives as, if a name is sent
abbrev pub sent_member : List String → Option String → Option String
sent_member members none = none
sent_member members (some s) = if is_member members s then some s else none

-- The messages that arrive for an object: `keepCase` keeps the names of the fields as the protocol has them.
module _ (channel : Channel) where
  abbrev pub users_request : Object → GetUsersRequest
  users_request o = record {
    page = number_field channel "page" o;
    per_page = number_field channel "per_page" o;
    role = sent_member role_members (optional_field channel "role" o);
    status = sent_member status_members (optional_field channel "status" o);
  }

  abbrev pub new_user_request : Object → CreateUserRequest
  new_user_request o = record {
    username = text_field channel "username" o;
    email = text_field channel "email" o;
    password = text_field channel "password" o;
    first_name = optional_field channel "first_name" o;
    last_name = optional_field channel "last_name" o;
    phone = optional_field channel "phone" o;
    role = sent_member role_members (optional_field channel "role" o);
  }

  abbrev pub change_request : Object → UpdateUserRequest
  change_request o = record {
    user_id = number_field channel "user_id" o;
    email = optional_field channel "email" o;
    first_name = optional_field channel "first_name" o;
    last_name = optional_field channel "last_name" o;
    phone = optional_field channel "phone" o;
    avatar_url = optional_field channel "avatar_url" o;
  }

  abbrev pub password_request : Object → ChangePasswordRequest
  password_request o = record {
    user_id = number_field channel "user_id" o;
    old_password = text_field channel "old_password" o;
    new_password = text_field channel "new_password" o;
  }

  abbrev pub status_request : Object → UpdateUserStatusRequest
  status_request o = record {
    user_id = number_field channel "user_id" o;
    status = member_field channel status_members "status" o;
  }

  abbrev pub login_request : Object → LoginRequest
  login_request o = record {
    username_or_email = text_field channel "username_or_email" o;
    password = text_field channel "password" o;
    ip_address = optional_field channel "ip_address" o;
    user_agent = optional_field channel "user_agent" o;
  }

  abbrev pub register_request : Object → RegisterRequest
  register_request o = record {
    username = text_field channel "username" o;
    email = text_field channel "email" o;
    password = text_field channel "password" o;
    first_name = optional_field channel "first_name" o;
    last_name = optional_field channel "last_name" o;
  }

-- Documented, of the stubs of clients that are connected to the service: the handler gets the message whose
-- fields are the properties of the same names (others are dropped; a field that is not sent has its
-- default, and an optional one is absent), and what it answers is delivered.
pub record IsConnected {W C : Type 0} (channel : Channel) (prisma : Prisma W)
    (platform : Platform W) (untyped : Untyped W) (stubs : Stubs W C) : Type 0 where
  pub get_users :
      (o : Object) (c : C) (w : W)
      → stubs.get_users o c w
        ≡ delivered channel
            (users_land channel)
            (Server.get_users channel.iso prisma platform untyped (users_request channel o) w)
  pub get_user_by_id :
      (o : Object) (c : C) (w : W)
      → stubs.get_user_by_id o c w
        ≡ delivered channel (user_lands channel) (
            Server.get_user_by_id channel.iso prisma platform untyped
              (number_field channel "user_id" o)
              w)
  pub create_user :
      (o : Object) (c : C) (w : W)
      → stubs.create_user o c w
        ≡ delivered channel
            (user_lands channel)
            (Server.create_user channel.iso prisma platform untyped (new_user_request channel o) w)
  pub update_user :
      (o : Object) (c : C) (w : W)
      → stubs.update_user o c w
        ≡ delivered channel
            (user_lands channel)
            (Server.update_user channel.iso prisma platform untyped (change_request channel o) w)
  pub delete_user :
      (o : Object) (c : C) (w : W)
      → stubs.delete_user o c w
        ≡ delivered channel
            (λ m. m)
            (Server.delete_user channel.iso prisma platform untyped
              (number_field channel "user_id" o)
              w)
  pub change_password :
      (o : Object) (c : C) (w : W)
      → stubs.change_password o c w
        ≡ delivered channel
            (λ m. m)
            (Server.change_password channel.iso prisma platform untyped
              (password_request channel o)
              w)
  pub verify_user :
      (o : Object) (c : C) (w : W)
      → stubs.verify_user o c w
        ≡ delivered channel (user_lands channel) (
            Server.verify_user channel.iso prisma platform untyped
              (number_field channel "user_id" o)
              w)
  pub update_user_status :
      (o : Object) (c : C) (w : W)
      → stubs.update_user_status o c w
        ≡ delivered channel (user_lands channel) (
            Server.update_user_status channel.iso prisma platform untyped
              (status_request channel o)
              w)
  pub login :
      (o : Object) (c : C) (w : W)
      → stubs.login o c w
        ≡ delivered channel
            (auth_lands channel)
            (Server.login channel.iso prisma platform untyped (login_request channel o) w)
  pub logout :
      (o : Object) (c : C) (w : W)
      → stubs.logout o c w
        ≡ delivered channel
            (λ b. b)
            (Server.logout channel.iso prisma platform untyped (text_field channel "token" o) w)
  pub refresh_token :
      (o : Object) (c : C) (w : W)
      → stubs.refresh_token o c w
        ≡ delivered channel (pair_lands channel) (
            Server.refresh_token channel.iso prisma platform untyped
              (text_field channel "refresh_token" o)
              w)
  pub validate_token :
      (o : Object) (c : C) (w : W)
      → stubs.validate_token o c w
        ≡ delivered channel (user_lands channel) (
            Server.validate_token channel.iso prisma platform untyped
              (text_field channel "token" o)
              w)
  pub register :
      (o : Object) (c : C) (w : W)
      → stubs.register o c w
        ≡ delivered channel
            (auth_lands channel)
            (Server.register channel.iso prisma platform untyped (register_request channel o) w)
  pub revoke_all_tokens :
      (o : Object) (c : C) (w : W)
      → stubs.revoke_all_tokens o c w
        ≡ delivered channel channel.int32 (
            Server.revoke_all_tokens channel.iso prisma platform untyped
              (number_field channel "user_id" o)
              w)
  pub get_user_tokens :
      (o : Object) (c : C) (w : W)
      → stubs.get_user_tokens o c w
        ≡ delivered channel (map (token_lands channel)) (
            Server.get_user_tokens channel.iso prisma platform untyped
              (number_field channel "user_id" o)
              w)
