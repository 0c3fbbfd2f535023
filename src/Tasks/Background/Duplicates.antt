-- ===== src/Tasks/Background/Duplicates.antt =====
-- What keeps a registration from being processed twice.
use Prim.Native.String.{◌++◌ as concat}
use arcana_cloud_nodejs.Base.{
  ℕ, ◌<◌, String, ◌≡◌, refl, subst, true, false, Option, none, some, List, arith,
}
use arcana_cloud_nodejs.Base.Exec.{ok, ◌>>=◌, >>=-eq-ok, ok_injective}
use arcana_cloud_nodejs.Tasks.Redis.{Redis, IsRedis}
use arcana_cloud_nodejs.Tasks.Lock.{new_lock}
use arcana_cloud_nodejs.Tasks.Lock.Laws.{wait_times, with_lock-held}
use arcana_cloud_nodejs.Tasks.Queue.{Bull, JobOptions, waiting, has, add_unique_job}
use arcana_cloud_nodejs.Tasks.Background.{
  JobData, UserRegistrationJobData, processed, handle_user_registration, queue_user_registration,
  background_queue_high, job_name, process_user_registration, registration_job,
}

-- Documented: a job that was added under an identifier that no job had, without a delay and without a
-- priority, waits until a worker takes it.
pub record IsBull {J K W : Type 0} (bull : Bull J K W) : Type 0 where
  pub added :
      (queue name id : String) (data' : J) (w : W) {k : K} {v : W}
      → bull.state_of queue id w ≡ ok none w
      → bull.add queue name data'
          (record { delay = none; priority = none; job_id = some id; repeat = none })
          w
        ≡ ok k v
      → bull.state_of queue id v ≡ ok (some waiting) v

module _ {J K W : Type 0} (bull : Bull J K W) (lawful : IsBull bull) where
  add_unique_job-twice :
      (queues : List String) (queue name id : String) (data' : J) (w : W) {o : Option K} {v : W}
      → has queue queues ≡ true
      → bull.state_of queue id w ≡ ok none w
      → add_unique_job bull queues queue name data' id none none w ≡ ok o v
      → add_unique_job bull queues queue name data' id none none v ≡ ok none v
  unfolding add_unique_job
  add_unique_job-twice queues queue name id data' w there fresh h =
      let options : JobOptions = record {
        delay = none;
        priority = none;
        job_id = some id;
        repeat = none;
      } in
      let h1 = rw (there, ◌>>=◌, fresh) at h in
      let (k, v', done, last) =
        >>=-eq-ok (bull.add queue name data' options) (λ job s. ok (some job) s) w h1 in
      let waits =
        subst (λ x. bull.state_of queue id x ≡ ok (some waiting) x) (ok_injective last).1
          (lawful.added queue name id data' w fresh done) in
      rw (there, ◌>>=◌, waits) refl

module _ {V K W : Type 0} (bull : Bull (JobData V) K W) (redis : Redis W) (show : ℕ → String)
    (queues : List String) (value : String) where
  -- Where the queue has been made and BullMQ has no job of a user's registration: when the registration has
  -- been queued, and before a worker takes the job, to queue it again answers null and changes nothing.
  pub queue_user_registration-twice :
      (lawful : IsBull bull) (user_id : ℕ) (email username : String) (w : W) {o : Option K} {v : W}
      → has background_queue_high queues ≡ true
      → bull.state_of background_queue_high (concat "user-registration-" (show user_id)) w
        ≡ ok none w
      → queue_user_registration bull redis true show queues value user_id email username w ≡ ok o v
      → queue_user_registration bull redis true show queues value user_id email username v
        ≡ ok none v
  unfolding queue_user_registration
  queue_user_registration-twice lawful user_id email username w there fresh h =
      add_unique_job-twice bull lawful queues background_queue_high
        (job_name process_user_registration) (concat "user-registration-" (show user_id))
        (registration_job (record { user_id = user_id; email = email; username = username })) w
        there fresh h

  -- On a server that meets `IsRedis`: while another process holds the lock of a user's registration, the
  -- handler of the job queues no mail and changes nothing; it answers that it has not processed the
  -- registration, without an error, so that the job counts as done and is not tried again.
  pub handle_user_registration-held :
      (lawful : IsRedis redis) (data' : UserRegistrationJobData) (w : W) (v : String) (e : ℕ)
      → redis.entry
          (new_lock (concat "user-registration:" (show data'.user_id)) value (some 60000)).lock_key
          w
        ≡ some (v, e)
      → redis.clock w < e
      → handle_user_registration bull redis true show queues value data' w ≡ ok (processed false) w
  unfolding handle_user_registration wait_times
  handle_user_registration-held lawful data' w v e held alive =
      rw
        (
          ◌>>=◌,
          with_lock-held redis lawful (concat "user-registration:" (show data'.user_id)) value _
              (some 60000) none none w v e held (omega arith),
        )
        refl
