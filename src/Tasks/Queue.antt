-- ===== src/Tasks/Queue.antt =====
-- src/tasks/queue.ts: the queues and the workers of the process, by name. BullMQ is a parameter.
use arcana_cloud_nodejs.Base.{
  ℕ, zero, suc, String, Bool, true, false, ◌||◌, Option, none, some, List, [], ◌∷◌, ◌++◌, str_eq,
  if◌then◌else◌,
}
use arcana_cloud_nodejs.Base.Exec.{Outcome, Exec, ok, err, pure, throw, ◌>>=◌, ◌>>◌}
use arcana_cloud_nodejs.Errors.{plain}
use Prim.Native.String.{◌++◌ as concat}

pub data Backoff : Type 0 where
  exponential fixed : Backoff

-- `boolean | number`: how many of the jobs that are over are kept
pub data Retention : Type 0 where
  flag : Bool → Retention
  last : ℕ → Retention

pub record DefaultJobOptions : Type 0 where
  pub attempts : ℕ
  pub backoff : Backoff × ℕ
  pub remove_on_complete : Retention
  pub remove_on_fail : Retention

-- The options of a `QueueConfig`, which come over the defaults
pub record QueueConfig : Type 0 where
  pub name : String
  pub attempts : Option ℕ
  pub backoff : Option (Backoff × ℕ)
  pub remove_on_complete : Option Retention
  pub remove_on_fail : Option Retention

pub record WorkerOptions : Type 0 where
  pub concurrency : Option ℕ
  pub limiter : Option (ℕ × ℕ)

-- `repeat` has the rule of cron
pub record JobOptions : Type 0 where
  pub delay : Option ℕ
  pub priority : Option ℕ
  pub job_id : Option String
  pub repeat : Option String

pub data JobState : Type 0 where
  waiting prioritized active delayed completed failed other : JobState

-- BullMQ and the connection: `J` is the type of the data of a job, `K` of a job.
pub record Bull (J K W : Type 0) : Type 0 where
  pub connect : String → W → W
  pub new_queue : String → DefaultJobOptions → Exec W (Unit {0})
  pub new_worker : String → ℕ → Option (ℕ × ℕ) → Exec W (Unit {0})
  pub add : String → String → J → JobOptions → Exec W K
  -- `getJob`, and `getState` of the job
  pub state_of : String → String → Exec W (Option JobState)
  pub close_worker : String → Exec W (Unit {0})
  pub close_queue : String → Exec W (Unit {0})
  pub quit : Exec W (Unit {0})

-- the variables of the module, and what lies outside
pub record Registry (W : Type 0) : Type 0 where
  pub connected : Bool
  pub queues : List String
  pub workers : List String
  pub outside : W

abbrev pub has : String → List String → Bool
has name [] = false
has name (n ∷ ns) = str_eq n name || has name ns

-- the keys of a Map after `set`
abbrev with_key : String → List String → List String
with_key name names = if has name names then names else names ++ name ∷ []

abbrev default_job_options : DefaultJobOptions
default_job_options = record {
  attempts = 3;
  backoff = (exponential, 1000);
  remove_on_complete = last 100;
  remove_on_fail = last 50;
}

-- a configuration of a queue that leaves to the defaults how many jobs are kept
abbrev pub queue_config : String → Option ℕ → Option (Backoff × ℕ) → QueueConfig
queue_config name attempts backoff = record {
  name = name;
  attempts = attempts;
  backoff = backoff;
  remove_on_complete = none;
  remove_on_fail = none;
}

abbrev or_default : {A : Type 0} → Option A → A → A
or_default none d = d
or_default (some a) d = a

-- `{ ...defaultJobOptions, ...queueConfig.defaultJobOptions }`
abbrev job_options : QueueConfig → DefaultJobOptions
job_options config = record default_job_options {
  attempts = or_default config.attempts default_job_options.attempts;
  backoff = or_default config.backoff default_job_options.backoff;
  remove_on_complete = or_default config.remove_on_complete default_job_options.remove_on_complete;
  remove_on_fail = or_default config.remove_on_fail default_job_options.remove_on_fail;
}

-- `options?.concurrency || 1`
abbrev concurrency_or_1 : Option ℕ → ℕ
concurrency_or_1 none = 1
concurrency_or_1 (some zero) = 1
concurrency_or_1 (some (suc n)) = suc n

abbrev pub no_options : JobOptions
no_options = record { delay = none; priority = none; job_id = none; repeat = none }

module _ {J K W : Type 0} (bull : Bull J K W) where
  abbrev connect_to : Option String → Exec (Registry W) (Unit {0})
  connect_to none r = err (plain "Redis connection required for queue functionality") r
  connect_to (some url) r =
      ok tt (record r { connected = true; outside = bull.connect url r.outside })

  -- `url` is `config.redisUrl`.
  unfoldable pub get_redis_connection : Option String → Exec (Registry W) (Unit {0})
  get_redis_connection url r = if r.connected then ok tt r else connect_to url r

  -- what is made is registered; where `new` throws, nothing is
  abbrev made_queue : String → Registry W → Outcome W (Unit {0}) → Outcome (Registry W) (Unit {0})
  made_queue name r (ok _ w) = ok tt (record r { queues = r.queues ++ name ∷ []; outside = w })
  made_queue name r (err e w) = err e (record r { outside = w })

  abbrev made_worker : String → Registry W → Outcome W (Unit {0}) → Outcome (Registry W) (Unit {0})
  made_worker name r (ok _ w) = ok tt (record r { workers = with_key name r.workers; outside = w })
  made_worker name r (err e w) = err e (record r { outside = w })

  unfoldable pub create_queue : Option String → QueueConfig → Exec (Registry W) (Unit {0})
  unfolding get_redis_connection
  create_queue url config = do
    get_redis_connection url
    λ r.
        if has config.name r.queues
        then ok tt r
        else made_queue config.name r (bull.new_queue config.name (job_options config) r.outside)

  unfoldable pub create_worker :
      Option String → String → WorkerOptions → Exec (Registry W) (Unit {0})
  unfolding get_redis_connection
  create_worker url name options = do
    get_redis_connection url
    λ r.
        made_worker name r
          (bull.new_worker name (concurrency_or_1 options.concurrency) options.limiter r.outside)

  -- The queues are those of the registry, which these two only read.
  unfoldable pub add_job : List String → String → String → J → JobOptions → Exec W K
  add_job queues queue_name job_name data' options =
      if has queue_name queues
      then bull.add queue_name job_name data' options
      else throw (plain (concat "Queue " (concat queue_name " not found. Create queue first.")))

  abbrev pub is_over : JobState → Bool
  is_over completed = true
  is_over failed = true
  is_over _ = false

  abbrev pub add_unless_there :
      String → String → J → JobOptions → Option JobState → Exec W (Option K)
  add_unless_there queue_name job_name data' options none = do
    job ← bull.add queue_name job_name data' options
    pure (some job)
  add_unless_there queue_name job_name data' options (some state) =
      if is_over state
      then (do job ← bull.add queue_name job_name data' options; pure (some job))
      else pure none

  unfoldable pub add_unique_job :
      List String → String → String → J → String → Option ℕ → Option ℕ → Exec W (Option K)
  add_unique_job queues queue_name job_name data' unique_id delay priority =
      if has queue_name queues
      then (do
        state ← bull.state_of queue_name unique_id
        add_unless_there queue_name job_name data'
            (record { delay = delay; priority = priority; job_id = some unique_id; repeat = none })
            state)
      else throw (plain (concat "Queue " (concat queue_name " not found")))

  abbrev close_all : (String → Exec W (Unit {0})) → List String → Exec W (Unit {0})
  close_all close [] = pure tt
  close_all close (n ∷ ns) = close n >> close_all close ns

  abbrev on_outside : Exec W (Unit {0}) → Exec (Registry W) (Unit {0})
  on_outside m r = elim (m r.outside) [
    | ok _ w ↦ ok tt (record r { outside = w })
    | err e w ↦ err e (record r { outside = w })
  ]

  abbrev quit_if_connected : Exec (Registry W) (Unit {0})
  quit_if_connected r =
      if r.connected
      then (do on_outside bull.quit; λ r'. ok tt (record r' { connected = false })) r
      else ok tt r

  unfoldable pub close_queues : Exec (Registry W) (Unit {0})
  close_queues = do
    λ r. on_outside (close_all bull.close_worker r.workers) r
    λ r. on_outside (close_all bull.close_queue r.queues) r
    λ r. ok tt (record r { workers = []; queues = [] })
    quit_if_connected
