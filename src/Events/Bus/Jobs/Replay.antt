-- ===== src/Events/Bus/Jobs/Replay.antt =====
-- A replay of the dead letter queue, while the events are still marked as processed.
use Prim.Native.String.{◌++◌ as concat}
use arcana_cloud_nodejs.Base.{
  ℕ, ◌+◌, String, ◌≡◌, refl, ◌∙◌, ap, true, List, [], ◌∷◌, length, arith, All, if-true,
}
use arcana_cloud_nodejs.Base.Exec.{ok, ◌>>=◌, >>=-ok}
use arcana_cloud_nodejs.Events.Domain.{DomainEvent}
use arcana_cloud_nodejs.Events.Backend.{Backend}
use arcana_cloud_nodejs.Events.Store.{EventStore, is_event_processed}
use arcana_cloud_nodejs.Events.Bus.{EventBus}
use arcana_cloud_nodejs.Events.Bus.Pipeline.{publish, on_world}
use arcana_cloud_nodejs.Events.Bus.Pipeline.Delivery.{at_store, publish-duplicate}
use arcana_cloud_nodejs.Events.Bus.Jobs.{replay_jobs, replay_dead_letter_events}

module _ {P W : Type 0} (removed : ℕ → W → W) where
  -- The world after the jobs have been removed from the queue, one after another.
  pub remove_all : List (ℕ × DomainEvent P) → W → W
  remove_all [] w = w
  remove_all ((id, event) ∷ jobs) w = remove_all jobs (removed id w)

module _ {P W : Type 0} (backend : Backend P W) (bus : EventBus P W) (removed : ℕ → W → W) where
  -- Redis has the mark that the event was processed
  abbrev pub IsHeld : String → W → Type 0
  IsHeld id w = backend.exists (concat "event:processed:" id) w ≡ ok 1 w

  abbrev pub AllHeld : List (ℕ × DomainEvent P) → W → Type 0
  AllHeld jobs w = All (λ j. IsHeld j.1.event_id w) jobs

  module _
      (removes : (id : ℕ) (w : W)
        → backend.remove_job bus.config.dead_letter_queue_name id w ≡ ok tt (removed id w))
      (keeps : (id : ℕ) (event_id : String) (w : W)
        → IsHeld event_id w
        → IsHeld event_id (removed id w))
      (es : EventStore) (i : ℕ) (connected : es.connected ≡ true)
      (idempotent : bus.config.enable_idempotency ≡ true) where
    AllHeld-removed :
        (id : ℕ) (jobs : List (ℕ × DomainEvent P)) (w : W)
        → AllHeld jobs w
        → AllHeld jobs (removed id w)
    AllHeld-removed id [] w h = tt
    AllHeld-removed id (j ∷ jobs) w (h, hs) =
        (keeps id j.1.event_id w h, AllHeld-removed id jobs w hs)

    is_event_processed-held :
        (id : String) (w : W)
        → IsHeld id w
        → is_event_processed backend id (record { store = es; world = w })
          ≡ ok true (record { store = es; world = w })
    unfolding is_event_processed
    is_event_processed-held id w h = if-true _ _ connected ∙ rw (◌>>=◌, h) refl

    replay_jobs-held :
        (jobs : List (ℕ × DomainEvent P)) (n : ℕ) (w : W)
        → AllHeld jobs w
        → replay_jobs backend bus jobs n (at_store es w i)
          ≡ ok (n + length jobs) (at_store es (remove_all removed jobs w) i)
    unfolding replay_jobs remove_all
    replay_jobs-held [] n w h = ground arith
    replay_jobs-held ((id, event) ∷ jobs) n w (h, hs) =
        let queue = bus.config.dead_letter_queue_name in
        >>=-ok (publish backend bus event)
          (λ _.
            ◌>>=◌ (on_world (backend.remove_job queue id))
              (λ _. replay_jobs backend bus jobs (n + 1)))
          (at_store es w i)
          (publish-duplicate backend bus event (at_store es w i) es
            (record { store = es; world = w }) idempotent refl
            (is_event_processed-held event.event_id w h))
        ∙ >>=-ok (on_world (backend.remove_job queue id))
            (λ _. replay_jobs backend bus jobs (n + 1)) (at_store es w i) (rw (removes id w) refl)
        ∙ replay_jobs-held jobs (n + 1) (removed id w) (AllHeld-removed id jobs w hs)
        ∙ ap (λ k. ok k (at_store es (remove_all removed jobs (removed id w)) i)) (omega arith)

    -- With Redis connected, idempotency on and a dead letter queue: if Redis has the mark of every event that a
    -- replay takes from the queue, which are marks that the removal of a job does not touch, the replay
    -- reports all of them as replayed and removes all of them from the queue, but runs no handler and
    -- queues no job: they are lost.
    pub replay_loses :
        (jobs : List (ℕ × DomainEvent P)) (limit : ℕ) (w v : W)
        → backend.has_queue bus.config.dead_letter_queue_name w ≡ true
        → backend.dead_letters bus.config.dead_letter_queue_name limit w ≡ ok jobs v
        → AllHeld jobs v
        → replay_dead_letter_events backend bus limit (at_store es w i)
          ≡ ok (length jobs) (at_store es (remove_all removed jobs v) i)
    unfolding replay_dead_letter_events
    replay_loses jobs limit w v there got h =
        let queue = bus.config.dead_letter_queue_name in
        if-true _ (ok 0 (at_store es w i)) there
        ∙ >>=-ok (on_world (backend.dead_letters queue limit))
            (λ jobs'. replay_jobs backend bus jobs' 0) (at_store es w i) (rw got refl)
        ∙ replay_jobs-held jobs 0 v h
        ∙ ap (λ k. ok k (at_store es (remove_all removed jobs v) i)) (omega arith)
