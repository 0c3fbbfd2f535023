-- ===== src/Communication/Grpc/Remote.antt =====
-- The gRPC client in front of the gRPC service, against the services called directly.
pub mod Refinement
pub mod Fields
pub mod Losses
use mathlib.Core.Option
use arcana_cloud_nodejs.Base.{
  ℕ, String, ◌≡◌, refl, Bool, true, false, Option, none, some, List, length, ap, sym, ◌∙◌, str_eq,
  eq_iff, if-false, if◌then◌else◌,
}
use arcana_cloud_nodejs.Base.Exec.{Outcome, Exec, ok, err, pure, ◌>>=◌}
use arcana_cloud_nodejs.Errors.{Throwable, message_of}
use arcana_cloud_nodejs.Accounts.Models.{
  UserPublic, AuthResult, TokenPair, OAuthToken, admin, user, guest, active, inactive, suspended,
  deleted, UserRole, UserStatus, role_name, status_name,
}
use arcana_cloud_nodejs.Accounts.Prisma.{Prisma}
use arcana_cloud_nodejs.Accounts.Platform.{Platform}
use arcana_cloud_nodejs.Communication.Interfaces.{ServiceCommunication, ChangePasswordData}
use arcana_cloud_nodejs.Communication.Direct.{direct_service}
use arcana_cloud_nodejs.Communication.Pool.{
  Session, client_at, next_index, put_back, get_next_client, attempt_call,
}
use arcana_cloud_nodejs.Communication.Pool.Retry.{seen}
use arcana_cloud_nodejs.Communication.Grpc.Messages.{TokenMessage, role_members, status_members}
use arcana_cloud_nodejs.Communication.Grpc.Client.{
  RemoteUser, RemoteAuth, Stubs, grpc_service, resolved, or_null,
}
use arcana_cloud_nodejs.Communication.Grpc.Client
use arcana_cloud_nodejs.Communication.Grpc.Server.{
  StatusCode, internal, not_found, unauthenticated, Untyped, answer_of, settle, or_blank,
  date_or_blank,
}
use arcana_cloud_nodejs.Communication.Grpc.Server
use arcana_cloud_nodejs.Communication.Grpc.Channel.{
  Channel, IsChannel, IsConnected, user_arrives, user_lands, token_lands, delivered,
}

-- a text that may be absent, with none for a blank one
abbrev pub filled : Option String → Option String
filled none = none
filled (some s) = if str_eq s "" then none else some s

-- a user as the caller of the other process sees it: no role and no status, and no blank texts
unfoldable pub remote_user : UserPublic → RemoteUser
remote_user u = record {
  id = u.id;
  username = u.username;
  email = u.email;
  first_name = filled u.first_name;
  last_name = filled u.last_name;
  phone = filled u.phone;
  avatar_url = filled u.avatar_url;
  role = "USER_ROLE_UNSPECIFIED";
  status = "USER_STATUS_UNSPECIFIED";
  is_verified = u.is_verified;
  is_active = u.is_active;
  created_at = some u.created_at;
  updated_at = some u.updated_at;
  last_login_at = Option.map some u.last_login_at;
}

not-true : (b : Bool) → ((b ≡ true) → ⊥) → b ≡ false
not-true true h = elim (h refl) [ ]
not-true false h = refl

or_null-or_blank : (o : Option String) → or_null (or_blank o) ≡ filled o
or_null-or_blank none = refl
or_null-or_blank (some s) = refl

module _ (channel : Channel) (lawful : IsChannel channel) where
  role_arrives :
      (r : UserRole) → channel.member role_members (role_name r) ≡ "USER_ROLE_UNSPECIFIED"
  unfolding role_members
  role_arrives admin = lawful.member-unknown _ _ _ refl
  role_arrives user = lawful.member-unknown _ _ _ refl
  role_arrives guest = lawful.member-unknown _ _ _ refl

  pub status_arrives :
      (s : UserStatus) → channel.member status_members (status_name s) ≡ "USER_STATUS_UNSPECIFIED"
  unfolding status_members
  status_arrives active = lawful.member-unknown _ _ _ refl
  status_arrives inactive = lawful.member-unknown _ _ _ refl
  status_arrives suspended = lawful.member-unknown _ _ _ refl
  status_arrives deleted = lawful.member-unknown _ _ _ refl

  last_login_arrives :
      (o : Option ℕ)
      → (if str_eq (date_or_blank channel.iso o) ""
          then none
          else some (channel.parse (date_or_blank channel.iso o)))
        ≡ Option.map some o
  last_login_arrives none = refl
  last_login_arrives (some t) =
      if-false _ _ (
        not-true (str_eq (channel.iso t) "")
          λ h. lawful.iso-blank t ((eq_iff (channel.iso t) "").0 h))
      ∙ ap some (lawful.parse-iso t)

  -- A user that the service transforms for the channel and the client transforms back is the same
  -- user with its dates and flags, a blank name, telephone number or address of an image being absent;
  -- but whatever its role and status are, USER_ROLE_UNSPECIFIED and USER_STATUS_UNSPECIFIED
  -- arrive, which the program does not know.
  pub transform_user-transform_user :
      (u : UserPublic)
      → Client.transform_user channel.parse
          (user_arrives channel (Server.transform_user channel.iso u))
        ≡ remote_user u
  unfolding Client.transform_user Server.transform_user remote_user
  transform_user-transform_user u =
      rw
        (
          or_null-or_blank u.first_name,
          or_null-or_blank u.last_name,
          or_null-or_blank u.phone,
          or_null-or_blank u.avatar_url,
          role_arrives u.role,
          status_arrives u.status,
          lawful.parse-iso u.created_at,
          lawful.parse-iso u.updated_at,
          last_login_arrives u.last_login_at,
        )
        refl

module _ (channel : Channel) where
  -- users, pairs of tokens and tokens with their numbers as they arrive
  abbrev small_user : UserPublic → UserPublic
  small_user u = record u { id = channel.int32 u.id }

  abbrev pub user_seen : UserPublic → RemoteUser
  user_seen u = remote_user (small_user u)

  abbrev pub pair_seen : TokenPair → TokenPair
  pair_seen p = record p { expires_in = channel.int32 p.expires_in }

  abbrev pub auth_seen : AuthResult → RemoteAuth
  auth_seen result = record { user = user_seen result.user; tokens = pair_seen result.tokens }

  pub user_lands-transform_user :
      (lawful : IsChannel channel) (u : UserPublic)
      → Client.transform_user channel.parse
          (user_lands channel (Server.transform_user channel.iso u))
        ≡ user_seen u
  unfolding Server.transform_user
  user_lands-transform_user lawful u = transform_user-transform_user channel lawful (small_user u)

-- What a direct call is to a caller of the other process: the same answer, read as a remote one, and the
-- same state; of an error, the message alone, under a status code.
abbrev pub remote : {W A B : Type 0} → Channel → StatusCode → (A → B) → Outcome W A → Outcome W B
remote channel code read (ok a w) = ok (read a) w
remote channel code read (err e w) = err (channel.status_error code (message_of e)) w

module _ {W C : Type 0} (channel : Channel) (stubs : Stubs W C) (undefined_client : Throwable)
    (clients : List C) where
  attempt_call-turn :
      {M : Type 0} (method : C → Exec W M) (i : Option ℕ) (c : C) (w : W)
      → client_at clients i ≡ some c
      → attempt_call undefined_client clients method (record { current_index = i; world = w })
        ≡ put_back
            (record { current_index = next_index i (length clients); world = w })
            (method c w)
  unfolding attempt_call get_next_client
  attempt_call-turn method i c w turn = rw turn refl

  delivered-settle :
      {A M : Type 0} (code : StatusCode) (m : Exec W A) (to : A → M) (arrives : M → M) (w : W)
      → delivered channel arrives (settle code (do a ← m; pure (to a)) w)
        ≡ remote channel code (λ a. arrives (to a)) (m w)
  delivered-settle {A = A} {M = M} code m to arrives w = on (m w)
    where
      on :
          (o : Outcome W A)
          → delivered channel arrives (
              answer_of code
                (elim o as (λ x. Outcome W M) [ ok a s ↦ ok (to a) s | err e s ↦ err e s ]))
            ≡ remote channel code (λ a. arrives (to a)) o
      on (ok a s) = refl
      on (err e s) = refl

  -- A call of a client that is connected to a handler of a service's method is that method.
  pub seen-resolved :
      {A M B : Type 0} (code : StatusCode) (m : Exec W A) (to : A → M) (arrives : M → M)
      (method : C → Exec W M) (read : M → B) (i : Option ℕ) (c : C) (w : W)
      → client_at clients i ≡ some c
      → method c w ≡ delivered channel arrives (settle code (do a ← m; pure (to a)) w)
      → seen (
          resolved channel.parse stubs undefined_client clients method read
            (record { current_index = i; world = w }))
        ≡ remote channel code (λ a. read (arrives (to a))) (m w)
  seen-resolved {A = A} {M = M} {B = B} code m to arrives method read i c w turn answer =
      rw
        (
          resolved,
          ◌>>=◌,
          attempt_call-turn method i c w turn,
          answer,
          delivered-settle code m to arrives w,
        )
        (on (m w))
    where
      on :
          (o : Outcome W A)
          → seen
              (elim (put_back
                  (record { current_index = next_index i (length clients); world = w })
                  (remote channel code (λ a. arrives (to a)) o))
                as (λ x. Outcome (Session W) B) [ ok a s ↦ ok (read a) s | err e s ↦ err e s ])
            ≡ remote channel code (λ a. read (arrives (to a))) o
      on (ok a s) = refl
      on (err e s) = refl
