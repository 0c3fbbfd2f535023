-- ===== src/Tasks/Scheduled.antt =====
-- src/tasks/scheduled.tasks.ts and src/tasks/index.ts: the recurring jobs, which the leader puts on their
-- queue, and what a worker does with them.
use Prim.Native.String.{◌++◌ as concat}
use arcana_cloud_nodejs.Base.{
  ℕ, String, Bool, true, false, Option, none, some, List, [], ◌∷◌, length, drop,
}
use arcana_cloud_nodejs.Base.Exec.{Outcome, ok, err, Exec, after, pure, catching, ◌>>=◌, ◌>>◌}
use arcana_cloud_nodejs.Tasks.Redis.{Redis}
use arcana_cloud_nodejs.Tasks.Election.{
  LeaderElection, new_election, Office, Notice, became_leader, lost_leadership, start, stop,
}
use arcana_cloud_nodejs.Tasks.Queue.{
  Bull, Registry, JobOptions, queue_config, create_queue, create_worker, add_job, close_queues,
}

abbrev scheduled_queue : String
scheduled_queue = "scheduled-tasks"

data ScheduledJobType : Type 0 where
  cleanup_expired_tokens cleanup_inactive_users generate_reports sync_data : ScheduledJobType

abbrev job_name : ScheduledJobType → String
job_name cleanup_expired_tokens = "cleanup-expired-tokens"
job_name cleanup_inactive_users = "cleanup-inactive-users"
job_name generate_reports = "generate-reports"
job_name sync_data = "sync-data"

-- the data of the jobs, with the time at which they were put on the queue
data JobData (V : Type 0) : Type 0 where
  tokens_job : ℕ → JobData V
  users_job : ℕ → ℕ → JobData V
  manual_job : V → ℕ → JobData V

data JobResult : Type 0 where
  deleted_count processed_count : ℕ → JobResult
  generated synced : Bool → JobResult

-- What the process has: the registry of queues, and `leaderElection`. The server of the election is what
-- lies outside.
record Scheduler (W : Type 0) : Type 0 where
  pub registry : Registry W
  pub leader_election : Option LeaderElection

abbrev every : String → String → JobOptions
every cron id = record { delay = none; priority = none; job_id = some id; repeat = some cron }

module _ {V K W : Type 0} (bull : Bull (JobData V) K W) (now : W → ℕ) where
  unfoldable schedule_recurring_jobs : List String → Exec W (Unit {0})
  schedule_recurring_jobs queues = do
    λ w.
        (add_job bull queues scheduled_queue (job_name cleanup_expired_tokens) (tokens_job (now w))
              (every "0 * * * *" "recurring-cleanup-tokens")
            >>= λ _. pure tt)
          w
    λ w.
        (add_job bull queues scheduled_queue (job_name cleanup_inactive_users)
              (users_job 365 (now w)) (every "0 2 * * *" "recurring-cleanup-users")
            >>= λ _. pure tt)
          w

  -- `show` is a number in a template.
  unfoldable trigger_scheduled_job : (ℕ → String) → List String → ScheduledJobType → V → Exec W K
  trigger_scheduled_job show queues type data' w =
      add_job bull queues scheduled_queue (job_name type) (manual_job data' (now w))
        (record {
          delay = none;
          priority = none;
          job_id = some (concat "manual-" (concat (job_name type) (concat "-" (show (now w)))));
          repeat = none;
        })
        w

  module _ (redis : Redis W) (configured : Bool) (url : Option String) (value : String) where
    -- The callbacks of the notices, in their order. `onBecomeLeader` does not wait for the jobs, whose failure
    -- nobody sees; here they are put on the queue when the method of the election is over.
    unfoldable call_back : List String → List Notice → W → W
    unfolding schedule_recurring_jobs
    call_back queues [] w = w
    call_back queues (became_leader ∷ notices) w =
        call_back queues notices (after (schedule_recurring_jobs queues w))
    call_back queues (lost_leadership ∷ notices) w = call_back queues notices w

    abbrev on_registry : Exec (Registry W) (Unit {0}) → Exec (Scheduler W) (Unit {0})
    on_registry m s = elim (m s.registry) [
      | ok _ r ↦ ok tt (record s { registry = r })
      | err e r ↦ err e (record s { registry = r })
    ]

    abbrev office_of : LeaderElection → Scheduler W → Office W
    office_of election s = record { node = election; server = s.registry.outside }

    -- the state with what a method of the election has made of the office
    abbrev with_office : LeaderElection → Office W → Scheduler W → Scheduler W
    with_office before office s = record {
      registry = record s.registry {
        outside =
            call_back s.registry.queues (drop (length before.notices) office.node.notices)
              office.server;
      };
      leader_election = some office.node;
    }

    abbrev elected :
        LeaderElection
        → Scheduler W
        → Outcome (Office W) (Unit {0})
        → Outcome (Scheduler W) (Unit {0})
    elected election s (ok _ office) = ok tt (with_office election office s)
    elected election s (err e office) = err e (with_office election office s)

    unfoldable initialize_scheduled_tasks : Exec (Scheduler W) (Unit {0})
    unfolding create_queue create_worker call_back
    initialize_scheduled_tasks = do
      on_registry (create_queue bull url (queue_config scheduled_queue none none))
      on_registry
          (create_worker bull url scheduled_queue (record { concurrency = some 2; limiter = none }))
      λ s.
          let election = new_election "scheduled-tasks" value (some 30000) in
          elected election s (start redis configured (office_of election s))

    abbrev stopped :
        LeaderElection
        → Scheduler W
        → Outcome (Office W) (Unit {0})
        → Outcome (Scheduler W) (Unit {0})
    stopped election s (ok _ office) =
        ok tt (record (with_office election office s) { leader_election = none })
    stopped election s (err e office) = err e (with_office election office s)

    abbrev stop_election : Option LeaderElection → Exec (Scheduler W) (Unit {0})
    stop_election none s = ok tt s
    stop_election (some election) s =
        stopped election s (stop redis configured (office_of election s))

    unfoldable shutdown_scheduled_tasks : Exec (Scheduler W) (Unit {0})
    unfolding call_back
    shutdown_scheduled_tasks s = stop_election s.leader_election s

    -- `initializeTasks`, with the start of the background tasks as it is bound there
    unfoldable initialize_tasks : Exec (Registry W) (Unit {0}) → Exec (Scheduler W) Bool
    unfolding initialize_scheduled_tasks
    initialize_tasks background s = elim url [
      | none ↦ ok false s
      | some u ↦ elim ((on_registry background >> initialize_scheduled_tasks) s) [
        | ok _ t ↦ ok true t
        | err e t ↦ ok false t
      ]
    ]

    -- `shutdownTasks`; what throws ends it, and is only logged
    unfoldable shutdown_tasks : Exec (Scheduler W) (Unit {0})
    unfolding shutdown_scheduled_tasks close_queues
    shutdown_tasks =
        catching (shutdown_scheduled_tasks >> on_registry (close_queues bull)) >>= λ _. pure tt

-- `container_get` is the look-up of the token repository, whose operation `deleteExpired` it answers.
module _ {W : Type 0} (container_get : Exec W (Exec W ℕ)) where
  unfoldable handle_cleanup_expired_tokens : Exec W JobResult
  handle_cleanup_expired_tokens = do
    delete_expired ← container_get
    count ← delete_expired
    pure (deleted_count count)

  -- Any other name is answered with null.
  unfoldable process_scheduled_job : ScheduledJobType → Exec W JobResult
  unfolding handle_cleanup_expired_tokens
  process_scheduled_job cleanup_expired_tokens = handle_cleanup_expired_tokens
  process_scheduled_job cleanup_inactive_users = pure (processed_count 0)
  process_scheduled_job generate_reports = pure (generated true)
  process_scheduled_job sync_data = pure (synced true)
