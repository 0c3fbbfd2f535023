-- ===== src/Tasks/Background.antt =====
-- src/tasks/background.tasks.ts: the queues of background jobs, what is put on them, and what a worker does with
-- a job.
pub mod Duplicates
use Prim.Native.String.{◌++◌ as concat}
use arcana_cloud_nodejs.Base.{
  ℕ, String, Bool, true, false, Option, none, some, List, [], ◌∷◌, str_eq, if◌then◌else◌,
}
use arcana_cloud_nodejs.Base.Exec.{Exec, ok, pure, ◌>>=◌, ◌>>◌}
use arcana_cloud_nodejs.Tasks.Redis.{Redis}
use arcana_cloud_nodejs.Tasks.Lock.{with_lock}
use arcana_cloud_nodejs.Tasks.Queue.{
  Bull, Registry, queue_config, WorkerOptions, fixed, no_options, create_queue, create_worker,
  add_job, add_unique_job,
}

abbrev pub background_queue_high : String
background_queue_high = "background-high"

abbrev pub background_queue_default : String
background_queue_default = "background-default"

abbrev pub background_queue_low : String
background_queue_low = "background-low"

pub data BackgroundJobType : Type 0 where
  send_email send_bulk_email process_user_registration process_password_reset export_user_data :
      BackgroundJobType
  send_push_notification send_sms process_file_upload generate_thumbnail process_import :
      BackgroundJobType
  sync_external_service webhook_delivery : BackgroundJobType

abbrev pub job_name : BackgroundJobType → String
job_name send_email = "send-email"
job_name send_bulk_email = "send-bulk-email"
job_name process_user_registration = "process-user-registration"
job_name process_password_reset = "process-password-reset"
job_name export_user_data = "export-user-data"
job_name send_push_notification = "send-push-notification"
job_name send_sms = "send-sms"
job_name process_file_upload = "process-file-upload"
job_name generate_thumbnail = "generate-thumbnail"
job_name process_import = "process-import"
job_name sync_external_service = "sync-external-service"
job_name webhook_delivery = "webhook-delivery"

pub data ExportFormat : Type 0 where
  json csv : ExportFormat

abbrev format_name : ExportFormat → String
format_name json = "json"
format_name csv = "csv"

pub record UserRegistrationJobData : Type 0 where
  pub user_id : ℕ
  pub email : String
  pub username : String

pub record ExportUserDataJobData : Type 0 where
  pub user_id : ℕ
  pub format : ExportFormat
  pub request_id : String

-- The data of a job. `V` is the type of the values in it that are any.
pub data JobData (V : Type 0) : Type 0 where
  email_job : String → String → String → V → JobData V
  welcome_job : String → String → JobData V
  registration_job : UserRegistrationJobData → JobData V
  export_job : ExportUserDataJobData → JobData V
  webhook_job : String → V → Option V → JobData V

-- what a processor answers
pub data JobResult : Type 0 where
  sent processed delivered : Bool → JobResult
  exported : Option String → JobResult
  nothing : JobResult

abbrev processed_or : Option JobResult → JobResult
processed_or none = processed false
processed_or (some r) = r

abbrev exported_or : Option JobResult → JobResult
exported_or none = exported none
exported_or (some r) = r

module _ {V K W : Type 0} (bull : Bull (JobData V) K W) where
  unfoldable pub initialize_background_tasks : Option String → Exec (Registry W) (Unit {0})
  unfolding create_queue create_worker
  initialize_background_tasks url = do
    create_queue bull url (queue_config background_queue_high none none)
    create_queue bull url (queue_config background_queue_default none none)
    create_queue bull url (queue_config background_queue_low (some 2) (some (fixed, 5000)))
    create_worker bull url background_queue_high (record { concurrency = some 5; limiter = none })
    create_worker bull url background_queue_default
        (record { concurrency = some 3; limiter = none })
    create_worker bull url background_queue_low
        (record { concurrency = some 1; limiter = some (10, 60000) })

  -- `show` is a number in a template, and `value` the random value of a lock. The queues are those of the
  -- registry, and one server holds the jobs and the locks.
  module _ (redis : Redis W) (configured : Bool) (show : ℕ → String) (queues : List String)
      (value : String) where
    unfoldable pub handle_user_registration : UserRegistrationJobData → Exec W JobResult
    handle_user_registration data' = do
      result ←
          with_lock redis configured (concat "user-registration:" (show data'.user_id)) value
            (do
              _ ←
                  add_job bull queues background_queue_high (job_name send_email)
                    (welcome_job data'.email data'.username) no_options
              pure (processed true))
            (some 60000) none none
      pure (processed_or result)

    unfoldable pub handle_export_user_data : ExportUserDataJobData → Exec W JobResult
    handle_export_user_data data' = do
      result ←
          with_lock redis configured (concat "export:" data'.request_id) value
            (pure (
              exported (
                some (
                  concat "https://storage.example.com/exports/"
                    (concat data'.request_id (concat "." (format_name data'.format)))))))
            (some 300000) none none
      pure (exported_or result)

    -- `processBackgroundJob` of a job with its name and its data, where the data are those of the name; any
    -- other name is answered with null
    unfoldable pub process_background_job : BackgroundJobType → JobData V → Exec W JobResult
    unfolding handle_user_registration handle_export_user_data
    process_background_job send_email data' = pure (sent true)
    process_background_job process_user_registration (registration_job d) =
        handle_user_registration d
    process_background_job export_user_data (export_job d) = handle_export_user_data d
    process_background_job webhook_delivery data' = pure (delivered true)
    process_background_job type data' = pure nothing

    unfoldable pub queue_email : String → String → String → V → Exec W K
    queue_email to subject template data' =
        add_job bull queues background_queue_high (job_name send_email)
          (email_job to subject template data') no_options

    unfoldable pub queue_user_registration : ℕ → String → String → Exec W (Option K)
    queue_user_registration user_id email username =
        add_unique_job bull queues background_queue_high (job_name process_user_registration)
          (registration_job (record { user_id = user_id; email = email; username = username }))
          (concat "user-registration-" (show user_id)) none none

    unfoldable pub queue_user_data_export : ℕ → ExportFormat → String → Exec W (Option K)
    queue_user_data_export user_id format request_id =
        add_unique_job bull queues background_queue_low (job_name export_user_data)
          (export_job (record { user_id = user_id; format = format; request_id = request_id }))
          (concat "export-" request_id) none none

    unfoldable pub queue_webhook : String → V → Option V → Exec W K
    queue_webhook url payload headers =
        add_job bull queues background_queue_default (job_name webhook_delivery)
          (webhook_job url payload headers) no_options
