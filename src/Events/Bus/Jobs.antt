-- ===== src/Events/Bus/Jobs.antt =====
-- The work on queued events: `processAsyncEvent`, `moveToDeadLetter` and `replayDeadLetterEvents`
-- of src/events/event-bus.ts.
pub mod Outcomes
pub mod Replay
use arcana_cloud_nodejs.Base.{
  ℕ, zero, suc, ◌+◌, String, Bool, true, false, ◌&&◌, Option, none, some, List, [], ◌∷◌, ◌++◌, map,
  keep, length, ◌==◌, ltb, if◌then◌else◌,
}
use arcana_cloud_nodejs.Base.Exec.{Outcome, ok, err, Exec, catching, ◌>>=◌, ◌>>◌}
use arcana_cloud_nodejs.Errors.{Throwable, message_of}
use arcana_cloud_nodejs.Events.Domain.{DomainEvent}
use arcana_cloud_nodejs.Events.Backend.{Backend, failed_job}
use arcana_cloud_nodejs.Events.Bus.{HandlerRegistration, EventBus, Run}
use arcana_cloud_nodejs.Events.Bus.Pipeline.{handlers_for, is_async, on_world, publish}

module _ {P W : Type 0} (backend : Backend P W) (bus : EventBus P W) where
  abbrev pub push_error : List Throwable → Option Throwable → List Throwable
  push_error errors none = errors
  push_error errors (some e) = errors ++ e ∷ []

  -- the loop over the asynchronous handlers, with the errors so far
  unfoldable pub run_async :
      DomainEvent P → List (HandlerRegistration P W) → List Throwable → Exec W (List Throwable)
  run_async event [] errors w = ok errors w
  run_async event (h ∷ hs) errors w =
      (catching (h.handler event) >>= λ e. run_async event hs (push_error errors e)) w

  unfoldable pub move_to_dead_letter : DomainEvent P → List Throwable → Exec W (Unit {0})
  move_to_dead_letter event errors w =
      if backend.has_queue bus.config.dead_letter_queue_name w
      then backend.add_job
          (record {
            queue = bus.config.dead_letter_queue_name;
            name = "failed-event";
            content = failed_job event (map message_of errors);
            priority = none;
            job_id = none;
          })
          w
      else ok tt w

  -- `throw errors[0]`
  abbrev pub throw_first : List Throwable → Exec W (Unit {0})
  throw_first [] w = ok tt w
  throw_first (e ∷ es) w = err e w

  unfoldable pub process_async_event : DomainEvent P → Exec W (Unit {0})
  process_async_event event =
      let async_handlers = keep (is_async backend bus) (handlers_for backend bus event) in
      do
        errors ← run_async event async_handlers []
        if length errors == length async_handlers && ltb 0 (length errors)
            then (do move_to_dead_letter event errors; throw_first errors)
            else λ w. ok tt w

  -- the loop over the jobs, with the number replayed so far
  unfoldable pub replay_jobs : List (ℕ × DomainEvent P) → ℕ → Exec (Run W) ℕ
  replay_jobs [] replayed r = ok replayed r
  replay_jobs ((id, event) ∷ jobs) replayed r =
      (publish backend bus event >>= λ _.
      on_world (backend.remove_job bus.config.dead_letter_queue_name id) >>= λ _.
      replay_jobs jobs (replayed + 1))
        r

  unfoldable pub replay_dead_letter_events : ℕ → Exec (Run W) ℕ
  replay_dead_letter_events limit r =
      if backend.has_queue bus.config.dead_letter_queue_name r.world
      then (do
        jobs ← on_world (backend.dead_letters bus.config.dead_letter_queue_name limit)
        replay_jobs jobs 0)
          r
      else ok 0 r
