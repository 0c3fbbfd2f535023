-- ===== src/Events/Domain.antt =====
-- src/events/domain-events.ts: the events, their types and versions, and the factory that validates a
-- payload. The generic part is `DomainEvent`; `Payload` has the payloads that the services publish
-- and those of the security handlers. The e-mail format of the library `zod` is a parameter, and so
-- are the random identifier and the time of an event.
use arcana_cloud_nodejs.Base.{
  ℕ, String, Bool, true, ◌&&◌, Option, none, some, ltb, leb, if◌then◌else◌,
}
use arcana_cloud_nodejs.Base.Text.{utf16_length}

pub record DomainEvent (P : Type 0) : Type 0 where
  pub event_id : String
  pub event_type : String
  pub version : ℕ
  pub occurred_at : ℕ
  pub correlation_id : Option String
  pub causation_id : Option String
  pub payload : P

pub record EventMetadata : Type 0 where
  pub correlation_id : Option String
  pub causation_id : Option String
  pub user_id : Option ℕ
  pub ip_address : Option String
  pub user_agent : Option String

pub data EventType : Type 0 where
  user_registered user_logged_in user_logged_out user_updated user_deleted user_verified : EventType
  user_status_changed password_changed password_reset_requested : EventType
  token_created token_revoked token_refreshed all_tokens_revoked : EventType
  system_health_check rate_limit_exceeded security_alert : EventType

-- the string value of the enumeration
abbrev pub type_name : EventType → String
type_name user_registered = "user.registered"
type_name user_logged_in = "user.logged_in"
type_name user_logged_out = "user.logged_out"
type_name user_updated = "user.updated"
type_name user_deleted = "user.deleted"
type_name user_verified = "user.verified"
type_name user_status_changed = "user.status_changed"
type_name password_changed = "user.password_changed"
type_name password_reset_requested = "user.password_reset_requested"
type_name token_created = "token.created"
type_name token_revoked = "token.revoked"
type_name token_refreshed = "token.refreshed"
type_name all_tokens_revoked = "token.all_revoked"
type_name system_health_check = "system.health_check"
type_name rate_limit_exceeded = "security.rate_limit_exceeded"
type_name security_alert = "security.alert"

-- `EVENT_VERSIONS[type] || 1`: every entry of the table is 1.
abbrev pub event_version : EventType → ℕ
event_version _ = 1

pub data LoginMethod : Type 0 where
  password oauth token : LoginMethod

pub data LogoutType : Type 0 where
  single all : LogoutType

pub data AlertType : Type 0 where
  brute_force suspicious_activity unauthorized_access : AlertType

pub data Severity : Type 0 where
  low medium high critical : Severity

pub record UserRegisteredPayload : Type 0 where
  pub user_id : ℕ
  pub username : String
  pub email : String
  pub first_name : Option String
  pub last_name : Option String

pub record UserLoggedInPayload : Type 0 where
  pub user_id : ℕ
  pub username : String
  pub email : String
  pub ip_address : Option String
  pub user_agent : Option String
  pub login_method : LoginMethod

pub record UserLoggedOutPayload : Type 0 where
  pub user_id : ℕ
  pub token_id : Option ℕ
  pub logout_type : LogoutType

pub record UserVerifiedPayload : Type 0 where
  pub user_id : ℕ
  pub verified_at : ℕ

pub record UserStatusChangedPayload : Type 0 where
  pub user_id : ℕ
  pub old_status : String
  pub new_status : String
  pub changed_by : ℕ
  pub reason : Option String

pub record PasswordChangedPayload : Type 0 where
  pub user_id : ℕ
  pub changed_by : ℕ
  pub ip_address : Option String

pub record TokenRevokedPayload : Type 0 where
  pub token_id : ℕ
  pub user_id : ℕ
  pub revoked_by : ℕ
  pub reason : Option String

pub record AllTokensRevokedPayload : Type 0 where
  pub user_id : ℕ
  pub revoked_by : ℕ
  pub token_count : ℕ

pub record RateLimitExceededPayload : Type 0 where
  pub user_id : Option ℕ
  pub ip_address : String
  pub endpoint : String
  pub limit : ℕ
  pub reset_at : ℕ

pub record SecurityAlertPayload : Type 0 where
  pub alert_type : AlertType
  pub user_id : Option ℕ
  pub ip_address : String
  pub details : String
  pub severity : Severity

pub data Payload : Type 0 where
  registered : UserRegisteredPayload → Payload
  logged_in : UserLoggedInPayload → Payload
  logged_out : UserLoggedOutPayload → Payload
  verified : UserVerifiedPayload → Payload
  status_changed : UserStatusChangedPayload → Payload
  password_replaced : PasswordChangedPayload → Payload
  revoked : TokenRevokedPayload → Payload
  all_revoked : AllTokensRevokedPayload → Payload
  rate_limited : RateLimitExceededPayload → Payload
  alert : SecurityAlertPayload → Payload

-- the event type that the creators in `Events` give to a payload
abbrev pub type_of : Payload → EventType
type_of (registered p) = user_registered
type_of (logged_in p) = user_logged_in
type_of (logged_out p) = user_logged_out
type_of (verified p) = user_verified
type_of (status_changed p) = user_status_changed
type_of (password_replaced p) = password_changed
type_of (revoked p) = token_revoked
type_of (all_revoked p) = all_tokens_revoked
type_of (rate_limited p) = rate_limit_exceeded
type_of (alert p) = security_alert

-- `z.number().int().positive()` on a number that is an integer
positive : ℕ → Bool
positive n = ltb 0 n

optional : {A : Type 0} → (A → Bool) → Option A → Bool
optional test none = true
optional test (some a) = test a

-- `is_email` and `is_ip` are the formats `email()`, `ipv4()` and `ipv6()` of zod.
module _ (is_email is_ip : String → Bool) where
  -- The schemas of EVENT_SCHEMAS. A `user.verified` event has none, and a `Date` or a `string` of
  -- the type is always accepted.
  unfoldable pub valid_payload : Payload → Bool
  unfolding positive optional
  valid_payload (registered p) =
      positive p.user_id
      && (leb 1 (utf16_length p.username) && leb (utf16_length p.username) 50)
      && is_email p.email
      && optional (λ s. leb (utf16_length s) 50) p.first_name
      && optional (λ s. leb (utf16_length s) 50) p.last_name
  valid_payload (logged_in p) =
      positive p.user_id && leb 1 (utf16_length p.username) && is_email p.email
  valid_payload (logged_out p) = positive p.user_id && optional positive p.token_id
  valid_payload (verified p) = true
  valid_payload (status_changed p) = positive p.user_id && positive p.changed_by
  valid_payload (password_replaced p) = positive p.user_id && positive p.changed_by
  valid_payload (revoked p) = positive p.token_id && positive p.user_id && positive p.revoked_by
  valid_payload (all_revoked p) = positive p.user_id && positive p.revoked_by
  valid_payload (rate_limited p) =
      optional positive p.user_id && is_ip p.ip_address && positive p.limit
  valid_payload (alert p) = optional positive p.user_id

  -- `createEvent` with no metadata and with validation, as the services call it; the text of an
  -- `EventValidationError` is cut short before the list of issues, which zod prints.
  unfoldable pub create_event : String → ℕ → Payload → Option (DomainEvent Payload)
  unfolding valid_payload
  create_event event_id now p =
      if valid_payload p
      then some (record {
        event_id = event_id;
        event_type = type_name (type_of p);
        version = event_version (type_of p);
        occurred_at = now;
        correlation_id = none;
        causation_id = none;
        payload = p;
      })
      else none
