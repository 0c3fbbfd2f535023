-- ===== src/Events/Backend.antt =====
-- What the event store and the event bus call outside the repository: Redis commands, the audit
-- table of the database, and the job queues of BullMQ behind src/tasks/queue.ts. Every command may
-- throw. `P` is the type of payloads, and `W` the state of everything outside.
use arcana_cloud_nodejs.Base.{ℕ, String, Bool, Option, List}
use arcana_cloud_nodejs.Base.Exec.{Exec}
use arcana_cloud_nodejs.Events.Domain.{DomainEvent}

pub record AuditRow (P : Type 0) : Type 0 where
  pub id : String
  pub event_id : String
  pub event_type : String
  pub event_version : ℕ
  pub correlation_id : Option String
  pub payload : P
  pub occurred_at : ℕ
  pub user_id : Option ℕ
  pub ip_address : Option String

-- The data of a job that the bus adds: an event, or an event with the errors of its handlers.
pub data JobData (P : Type 0) : Type 0 where
  event_job : DomainEvent P → JobData P
  failed_job : DomainEvent P → List String → JobData P

pub record JobRequest (P : Type 0) : Type 0 where
  pub queue : String
  pub name : String
  pub content : JobData P
  pub priority : Option ℕ
  pub job_id : Option String

pub record Backend (P W : Type 0) : Type 0 where
  pub exists : String → Exec W ℕ
  pub setex : String → ℕ → String → Exec W (Unit {0})
  pub incr : String → Exec W ℕ
  pub expire : String → ℕ → Exec W (Unit {0})
  pub get_number : String → Exec W (Option ℕ)
  pub publish_message : String → DomainEvent P → Exec W (Unit {0})
  pub create_audit : AuditRow P → Exec W (Unit {0})
  pub has_queue : String → W → Bool
  pub add_job : JobRequest P → Exec W (Unit {0})
  -- the subscription to a channel
  pub subscribe : String → Exec W (Unit {0})
  -- `getJobs(['waiting', 'delayed'], 0, limit)` of the dead letter queue, and `job.remove()`
  pub dead_letters : String → ℕ → Exec W (List (ℕ × DomainEvent P))
  pub remove_job : String → ℕ → Exec W (Unit {0})
  -- `event.payload.userId` and `event.payload.ipAddress`, if there
  pub payload_user : P → Option ℕ
  pub payload_ip : P → Option String
