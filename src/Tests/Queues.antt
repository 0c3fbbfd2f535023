-- ===== src/Tests/Queues.antt =====
-- The background jobs, over a queue server that holds one list of identifiers, and the log of events.
use arcana_cloud_nodejs.Base.{
  ℕ, zero, suc, ◌≤◌, String, ◌≡◌, refl, subst, ap, true, false, Option, none, some, List, [], ◌∷◌,
  length, str_eq, eq_refl, if◌then◌else◌, if-true, arith,
}
use arcana_cloud_nodejs.Base.Exec.{ok, ok_injective}
use arcana_cloud_nodejs.Tasks.Redis.{Server, memory, memory-IsRedis}
use arcana_cloud_nodejs.Tasks.Lock.{new_lock}
use arcana_cloud_nodejs.Tasks.Queue.{Bull, JobState, waiting, add_unique_job}
use arcana_cloud_nodejs.Tasks.Background.{
  JobData, processed, queue_user_registration, handle_user_registration, background_queue_high,
}
use arcana_cloud_nodejs.Tasks.Background.Duplicates.{
  IsBull, queue_user_registration-twice, handle_user_registration-held,
}
use arcana_cloud_nodejs.Events.Audit.{
  AuditLogEntry, AuditQuery, insert_newest, newest_first, matching, query_audit_log,
}
use arcana_cloud_nodejs.Events.Audit.Bound.{add_all, add_all_lem}

-- a job with an identifier is an entry of the server, and waits for ever
abbrev id_or_blank : Option String → String
id_or_blank none = ""
id_or_blank (some id) = id

abbrev with_job : String → Server → Server
with_job id w = record w { stored = λ k. if str_eq id k then some ("job", 9000) else w.stored k }

abbrev state_at : Option (String × ℕ) → Option JobState
state_at none = none
state_at (some e) = some waiting

abbrev bull : Bull (JobData ℕ) String Server
bull = record {
  connect = λ url w. w;
  new_queue = λ name options w. ok tt w;
  new_worker = λ name concurrency limiter w. ok tt w;
  add = λ queue name data' options w.
      ok (id_or_blank options.job_id) (with_job (id_or_blank options.job_id) w);
  state_of = λ queue id w. ok (state_at (w.stored id)) w;
  close_worker = λ name w. ok tt w;
  close_queue = λ name w. ok tt w;
  quit = λ w. ok tt w;
}

bull-added :
    (queue id : String) (w : Server)
    → bull.state_of queue id (with_job id w) ≡ ok (some waiting) (with_job id w)
bull-added queue id w =
    ap (λ o. ok (state_at o) (with_job id w))
      (if-true (some ("job", 9000)) (w.stored id) (eq_refl id))

bull-IsBull : IsBull bull
bull-IsBull = record {
  added = λ queue name id data' w fresh h.
      subst (λ x. bull.state_of queue id x ≡ ok (some waiting) x) (ok_injective h).1
        (bull-added queue id w);
}

abbrev show : ℕ → String
show zero = "0"
show (suc n) = "n"

abbrev idle : Server
idle = record { time = 0; stored = λ k. none }

abbrev high : List String
high = background_queue_high ∷ []

queued :
    queue_user_registration bull memory true show high "mine" 7 "ann@x.org" "ann" idle
    ≡ ok (some "user-registration-n") (with_job "user-registration-n" idle)
unfolding queue_user_registration add_unique_job
queued = refl

queue_user_registration-twice_example :
    queue_user_registration bull memory true show high "mine" 7 "ann@x.org" "ann"
      (with_job "user-registration-n" idle)
    ≡ ok none (with_job "user-registration-n" idle)
queue_user_registration-twice_example =
    queue_user_registration-twice bull memory show high "mine" bull-IsBull 7 "ann@x.org" "ann" idle
      refl refl queued

-- a server on which another process holds the lock of the registration
abbrev held : Server
held = record {
  time = 0;
  stored = λ k. if str_eq k "lock:user-registration:n" then some ("other", 5000) else none;
}

handle_user_registration-held_example :
    handle_user_registration bull memory true show high "mine"
      (record { user_id = 7; email = "ann@x.org"; username = "ann" })
      held
    ≡ ok (processed false) held
unfolding new_lock
handle_user_registration-held_example =
    handle_user_registration-held bull memory show high "mine" memory-IsRedis
      (record { user_id = 7; email = "ann@x.org"; username = "ann" }) held "other" 5000 refl
      (omega arith)

abbrev entry : String → ℕ → AuditLogEntry ℕ
entry type time = record {
  id = "1";
  event_id = "e";
  event_type = type;
  event_version = 1;
  occurred_at = time;
  correlation_id = none;
  payload = 0;
  processed_at = time;
}

abbrev log : List (AuditLogEntry ℕ)
log = entry "user.registered" 5 ∷ entry "user.logged_in" 9 ∷ entry "user.logged_in" 7 ∷ []

abbrev logins : AuditQuery
logins = record {
  event_type = some "user.logged_in";
  correlation_id = none;
  user_id = none;
  from_date = some 6;
  to_date = none;
  limit = some 1;
  offset = none;
}

add_all_lem_example : (add_all log [] ≡ log) × (length (add_all log []) ≤ 10000)
add_all_lem_example = add_all_lem log

query_test : query_audit_log logins log ≡ entry "user.logged_in" 9 ∷ []
unfolding query_audit_log matching newest_first insert_newest
query_test = refl
