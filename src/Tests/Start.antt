-- ===== src/Tests/Start.antt =====
-- The first start of the event system, with the world of Tests/Events.antt.
use arcana_cloud_nodejs.Base.{ℕ, true, false, none, some, [], ◌∷◌, ◌++◌}
use arcana_cloud_nodejs.Base.Exec.{ok}
use arcana_cloud_nodejs.Events.Handlers.{Handlers}
use arcana_cloud_nodejs.Events.Start.{ConfigChange}
use arcana_cloud_nodejs.Tasks.Queue.{Bull, Registry}
use arcana_cloud_nodejs.Tests.Events.{Trace, say, crash}

abbrev bull : Bull ℕ ℕ Trace
bull = record {
  connect = λ url w. w ++ "connect" ∷ [];
  new_queue = λ name options. say name;
  new_worker = λ name concurrency limiter. crash "worker";
  add = λ queue name data' options w. ok 0 w;
  state_of = λ queue id w. ok none w;
  close_worker = λ name w. ok tt w;
  close_queue = λ name w. ok tt w;
  quit = λ w. ok tt w;
}

abbrev handlers : Handlers ℕ Trace
handlers = record {
  welcomes = λ event. say "welcome";
  notifies_password = λ event. say "password";
  notifies_suspension = λ event. say "suspension";
  tracks = λ event. say "track";
  notifies_security = λ event. say "security";
  escalates = λ event. say "escalate";
  audits = λ event. say "audit";
}

abbrev change : ConfigChange
change = record {
  enable_async = none;
  enable_idempotency = some true;
  enable_pub_sub = none;
  enable_audit_log = none;
  async_queue_name = none;
  dead_letter_queue_name = none;
  max_retries = some 5;
  retry_delay = none;
}

abbrev registry : Registry Trace
registry = record { connected = false; queues = []; workers = []; outside = [] }
