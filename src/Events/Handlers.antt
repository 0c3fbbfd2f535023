-- ===== src/Events/Handlers.antt =====
-- src/events/handlers/user.handler.ts, security.handler.ts, audit.handler.ts and index.ts: what the handlers do besides
-- logging, and their registration. `getEventBus()` is the bus with its store in `Run`.
use Prim.Native.String.{◌++◌ as concat}
use arcana_cloud_nodejs.Base.{
  ℕ, ◌+◌, String, Bool, true, false, Option, none, some, List, [], leb, str_eq, if◌then◌else◌,
}
use arcana_cloud_nodejs.Base.Exec.{Outcome, ok, err, Exec, throw, pure, ◌>>=◌}
use arcana_cloud_nodejs.Base.Int.{pos, negsuc}
use arcana_cloud_nodejs.Errors.{plain}
use arcana_cloud_nodejs.Events.Domain.{
  DomainEvent, EventType, type_name, user_registered, user_logged_in, password_changed,
  user_status_changed, token_revoked, all_tokens_revoked, rate_limit_exceeded, security_alert,
  Payload, alert, create_event, Severity, low, medium, high, critical, brute_force,
  SecurityAlertPayload, RateLimitExceededPayload, UserRegisteredPayload, PasswordChangedPayload,
  UserStatusChangedPayload,
}
use arcana_cloud_nodejs.Events.Backend.{Backend}
use arcana_cloud_nodejs.Events.Store.{
  EventStore, hits_of, set_hits, increment_rate_limit_hit, get_rate_limit_hits,
}
use arcana_cloud_nodejs.Events.Bus.{EventBus, Run, HandlerOptions, on, on_all}
use arcana_cloud_nodejs.Events.Bus.Pipeline.{if_store, publish}
use arcana_cloud_nodejs.Events.Audit.{AuditLogEntry, add_to_in_memory_audit_log}
use arcana_cloud_nodejs.Tasks.Redis.{Redis}
use arcana_cloud_nodejs.Tasks.Queue.{Bull}
use arcana_cloud_nodejs.Tasks.Background.{
  JobData, queue_email, queue_user_registration, queue_webhook,
}

-- the objects that the handlers put into jobs
data Letter : Type 0 where
  alert_letter : SecurityAlertPayload → ℕ → Letter
  alert_priority : Severity → Letter
  password_letter : ℕ → ℕ → Option String → Letter
  suspension_letter : ℕ → Option String → ℕ → Letter

-- `localSecurityMetrics`
record SecurityMetrics : Type 0 where
  pub failed_logins : List (String × (ℕ × ℕ))
  pub rate_limit_hits : List (String × ℕ)

-- the metrics of the module, and what the bus works on
record Watch (W : Type 0) : Type 0 where
  pub metrics : SecurityMetrics
  pub run : Run W

module _ {W : Type 0} where
  abbrev in_watch {κ} : {A : Type κ} → Watch W → Outcome (Run W) A → Outcome (Watch W) A
  in_watch s (ok a r) = ok a (record s { run = r })
  in_watch s (err e r) = err e (record s { run = r })

  abbrev on_run {κ} : {A : Type κ} → Exec (Run W) A → Exec (Watch W) A
  on_run m s = in_watch s (m s.run)

  abbrev clear_security_metrics : Watch W → Watch W
  clear_security_metrics s = record s {
    metrics = record { failed_logins = []; rate_limit_hits = [] };
  }

-- `show` is a number in a template; `event_id` and `now` are the random identifier and the time of an event.
module _ {W : Type 0} (backend : Backend Payload W) (bus : EventBus Payload W)
    (is_email is_ip : String → Bool) (issues : Payload → String) (show : ℕ → String) where
  abbrev count_at : String → Option EventStore → Exec (Watch W) ℕ
  count_at key none s =
      let current = hits_of key s.metrics.rate_limit_hits in
      ok (current + 1) (record s {
        metrics = record s.metrics {
          rate_limit_hits = set_hits key (current + 1) s.metrics.rate_limit_hits;
        };
      })
  count_at key (some es) s = on_run (if_store true 0 (increment_rate_limit_hit backend key)) s

  -- what the handler logs as `totalViolations`
  unfoldable track_violation : RateLimitExceededPayload → Exec (Watch W) ℕ
  track_violation p s = count_at p.ip_address s.run.store s

  abbrev hits_at : String → Option EventStore → Exec (Watch W) ℕ
  hits_at key none s = ok (hits_of key s.metrics.rate_limit_hits) s
  hits_at key (some es) s = on_run (if_store true 0 (get_rate_limit_hits backend key)) s

  abbrev alert_of : RateLimitExceededPayload → ℕ → SecurityAlertPayload
  alert_of p count = record {
    alert_type = brute_force;
    user_id = p.user_id;
    ip_address = p.ip_address;
    details =
        concat "IP exceeded rate limit " (concat (show count) (concat " times on " p.endpoint));
    severity = if leb 50 count then critical else high;
  }

  -- `Events.securityAlert` throws where the payload is not valid.
  abbrev publish_alert : String → ℕ → SecurityAlertPayload → Exec (Watch W) (Unit {0})
  publish_alert event_id now p = elim (create_event is_email is_ip event_id now (alert p)) [
    | none ↦
        throw (plain (concat "Event validation failed for security.alert: " (issues (alert p))))
    | some event ↦ on_run (publish backend bus event)
  ]

  unfoldable escalate : String → ℕ → RateLimitExceededPayload → Exec (Watch W) (Unit {0})
  escalate event_id now p s =
      (hits_at p.ip_address s.run.store >>= λ count.
      (if leb 10 count then publish_alert event_id now (alert_of p count) else pure tt))
        s

-- The handlers that queue jobs, with the parameters of the background jobs.
module _ {K W : Type 0} (bull : Bull (JobData Letter) K W) (redis : Redis W) (configured : Bool)
    (show : ℕ → String) (queues : List String) (value : String) where
  abbrev is_severe : Severity → Bool
  is_severe critical = true
  is_severe high = true
  is_severe medium = false
  is_severe low = false

  abbrev notify_at : Option String → SecurityAlertPayload → ℕ → Exec W (Unit {0})
  notify_at none p occurred_at = pure tt
  notify_at (some url) p occurred_at =
      if str_eq url ""
      then pure tt
      else queue_webhook bull redis configured show queues value url (alert_letter p occurred_at)
          (some (alert_priority p.severity))
        >>= λ _. pure tt

  -- `webhook_url` is the variable SECURITY_WEBHOOK_URL of the environment.
  unfoldable notify_security_team :
      Option String → DomainEvent SecurityAlertPayload → Exec W (Unit {0})
  notify_security_team webhook_url event =
      if is_severe event.payload.severity
      then notify_at webhook_url event.payload event.occurred_at
      else pure tt

  unfoldable welcome : DomainEvent UserRegisteredPayload → Exec W (Unit {0})
  welcome event =
      queue_user_registration bull redis configured show queues value event.payload.user_id
        event.payload.email event.payload.username
      >>= λ _. pure tt

  unfoldable notify_password_change : DomainEvent PasswordChangedPayload → Exec W (Unit {0})
  notify_password_change event =
      queue_email bull redis configured show queues value "" "Password Changed - Security Alert"
        "security-password-changed"
        (password_letter event.payload.user_id event.occurred_at event.payload.ip_address)
      >>= λ _. pure tt

  unfoldable notify_suspension : DomainEvent UserStatusChangedPayload → Exec W (Unit {0})
  notify_suspension event =
      if str_eq event.payload.new_status "SUSPENDED"
      then (do
        _ ←
            queue_email bull redis configured show queues value "" "Account Suspended"
              "account-suspended"
              (suspension_letter event.payload.user_id event.payload.reason event.occurred_at)
        pure tt)
      else pure tt

module _ {P : Type 0} where
  -- the audit handler, but for its log
  abbrev audit_entry : DomainEvent P → ℕ → AuditLogEntry P
  audit_entry event now = record {
    id = concat "audit-" event.event_id;
    event_id = event.event_id;
    event_type = event.event_type;
    event_version = event.version;
    occurred_at = event.occurred_at;
    correlation_id = event.correlation_id;
    payload = event.payload;
    processed_at = now;
  }

  unfoldable audit : DomainEvent P → ℕ → List (AuditLogEntry P) → List (AuditLogEntry P)
  audit event now log = add_to_in_memory_audit_log (audit_entry event now) log

-- The handlers that do more than to log, on what the bus runs on.
pub record Handlers (P W : Type 0) : Type 0 where
  pub welcomes : DomainEvent P → Exec W (Unit {0})
  pub notifies_password : DomainEvent P → Exec W (Unit {0})
  pub notifies_suspension : DomainEvent P → Exec W (Unit {0})
  pub tracks : DomainEvent P → Exec W (Unit {0})
  pub notifies_security : DomainEvent P → Exec W (Unit {0})
  pub escalates : DomainEvent P → Exec W (Unit {0})
  pub audits : DomainEvent P → Exec W (Unit {0})

abbrev in_turn : HandlerOptions
in_turn = record { async = none; priority = none }

abbrev queued : ℕ → HandlerOptions
queued n = record { async = some true; priority = some (pos n) }

-- Each registration makes new function objects; `id` numbers those that nothing else uses.
module _ {P W : Type 0} (handlers : Handlers P W) (id : ℕ) where
  abbrev logs : DomainEvent P → Exec W (Unit {0})
  logs event = pure tt

  abbrev on_type :
      EventType
      → ℕ
      → (DomainEvent P → Exec W (Unit {0}))
      → HandlerOptions
      → EventBus P W
      → EventBus P W
  on_type type n handler options = on (type_name type) (id + n) handler options

  unfoldable pub register_user_handlers : EventBus P W → EventBus P W
  register_user_handlers bus =
      let logging = on_type user_status_changed 3 logs in_turn (
        on_type password_changed 2 logs in_turn
          (on_type user_logged_in 1 logs in_turn (on_type user_registered 0 logs in_turn bus))) in
      on_type user_status_changed 6 handlers.notifies_suspension (queued 5) (
        on_type password_changed 5 handlers.notifies_password (queued 8)
          (on_type user_registered 4 handlers.welcomes (queued 10) logging))

  unfoldable pub register_security_handlers : EventBus P W → EventBus P W
  register_security_handlers bus =
      let in_turn_handlers = on_type security_alert 10 logs in_turn (
        on_type rate_limit_exceeded 9 handlers.tracks in_turn
          (on_type all_tokens_revoked 8 logs in_turn (on_type token_revoked 7 logs in_turn bus))) in
      on_type rate_limit_exceeded 12 handlers.escalates (queued 5)
        (on_type security_alert 11 handlers.notifies_security (queued 10) in_turn_handlers)

  unfoldable pub register_audit_handler : EventBus P W → EventBus P W
  register_audit_handler =
      on_all (id + 13) handlers.audits (record { async = some false; priority = some (negsuc 9) })

  unfoldable pub register_all_handlers : EventBus P W → EventBus P W
  unfolding register_user_handlers register_security_handlers register_audit_handler
  register_all_handlers bus =
      register_audit_handler (register_security_handlers (register_user_handlers bus))
