-- ===== src/Events/Bus/Jobs/Outcomes.antt =====
-- When a queued event is retried and dead-lettered.
use mathlib.Core.List.{append-nil, append_assoc}
use arcana_cloud_nodejs.Base.{
  ℕ, suc, ◌≤◌, ◌≡◌, refl, ◌∙◌, Bool, true, false, not, ◌&&◌, none, map, List, [], ◌∷◌, ◌++◌, keep,
  length, ◌==◌, ltb, arith, if◌then◌else◌,
}
use arcana_cloud_nodejs.Base.Exec.{Outcome, Exec, ok, err, after, catching, ◌>>=◌, ◌>>◌, >>=-ok}
use arcana_cloud_nodejs.Errors.{Throwable, message_of}
use arcana_cloud_nodejs.Events.Domain.{DomainEvent}
use arcana_cloud_nodejs.Events.Backend.{Backend, failed_job}
use arcana_cloud_nodejs.Events.Bus.{HandlerRegistration, EventBus}
use arcana_cloud_nodejs.Events.Bus.Pipeline.{handlers_for, is_async, is_empty_list}
use arcana_cloud_nodejs.Events.Bus.Pipeline.Delivery.{deliver}
use arcana_cloud_nodejs.Events.Bus.Jobs.{
  push_error, run_async, move_to_dead_letter, throw_first, process_async_event,
}

counted : (n m : ℕ) → (n == suc m && ltb 0 n) ≡ (n == suc m && true)
counted n m = ground arith

if-apply {ℓ κ} :
    {A : Type ℓ} {B : Type κ} (f g : A → B) (a : A) {b c : Bool}
    → b ≡ c
    → (if b then f else g) a ≡ (if c then f a else g a)
if-apply f g a {b = true} {c = c} h = rw (← h) refl
if-apply f g a {b = false} {c = c} h = rw (← h) refl

module _ {P W : Type 0} (backend : Backend P W) (bus : EventBus P W) where
  abbrev thrown : Outcome W (Unit {0}) → List Throwable
  thrown (ok a w) = []
  thrown (err e w) = e ∷ []

  -- what the handlers throw, run one after another
  abbrev pub failures : DomainEvent P → List (HandlerRegistration P W) → W → List Throwable
  failures event [] w = []
  failures event (h ∷ hs) w =
      thrown (h.handler event w) ++ failures event hs (after (h.handler event w))

  abbrev failed : Outcome W (Unit {0}) → Bool
  failed (ok a w) = false
  failed (err e w) = true

  -- whether every handler throws
  abbrev pub all_fail : DomainEvent P → List (HandlerRegistration P W) → W → Bool
  all_fail event [] w = true
  all_fail event (h ∷ hs) w =
      failed (h.handler event w) && all_fail event hs (after (h.handler event w))

  run_async-eq-deliver :
      (event : DomainEvent P) (hs : List (HandlerRegistration P W)) (errors : List Throwable)
      (w : W)
      → run_async backend bus event hs errors w
        ≡ ok (errors ++ failures event hs w) (deliver backend bus event hs w)
  unfolding run_async deliver
  run_async-eq-deliver event [] errors w = rw append-nil refl
  run_async-eq-deliver event (h ∷ hs) errors w =
      rest (h.handler event w) (run_async-eq-deliver event hs)
    where
      rest :
          (o : Outcome W (Unit {0}))
          → ((es : List Throwable) (v : W)
              → run_async backend bus event hs es v
                ≡ ok (es ++ failures event hs v) (deliver backend bus event hs v))
          → ◌>>=◌ {B = List Throwable}
              (catching (λ _. o))
              (λ e. run_async backend bus event hs (push_error backend bus errors e))
              w
            ≡ ok
                (errors ++ (thrown o ++ failures event hs (after o)))
                (deliver backend bus event hs (after o))
      rest (ok a v) ih = ih errors v
      rest (err e v) ih = ih (errors ++ e ∷ []) v ∙ rw append_assoc refl

  length-failures :
      (event : DomainEvent P) (hs : List (HandlerRegistration P W)) (w : W)
      → (length (failures event hs w) ≤ length hs)
        × ((length (failures event hs w) == length hs) ≡ all_fail event hs w)
  length-failures event [] w = (omega arith, ground arith)
  length-failures event (h ∷ hs) w = rest (h.handler event w) (length-failures event hs)
    where
      rest :
          (o : Outcome W (Unit {0}))
          → ((v : W)
              → (length (failures event hs v) ≤ length hs)
                × ((length (failures event hs v) == length hs) ≡ all_fail event hs v))
          → (length (thrown o ++ failures event hs (after o)) ≤ suc (length hs))
            × ((length (thrown o ++ failures event hs (after o)) == suc (length hs))
                ≡ (failed o && all_fail event hs (after o)))
      rest (ok a v) ih = let (few, same) = ih v in (omega arith, ground arith)
      rest (err e v) ih = let (few, same) = ih v in (omega arith, ground arith)

  all_failed :
      (event : DomainEvent P) (hs : List (HandlerRegistration P W)) (w : W)
      → (length (failures event hs w) == length hs && ltb 0 (length (failures event hs w)))
        ≡ (all_fail event hs w && not (is_empty_list hs))
  all_failed event [] w = refl
  all_failed event (h ∷ hs) w = both (length-failures event (h ∷ hs) w)
    where
      both :
          (length (failures event (h ∷ hs) w) ≤ length (h ∷ hs))
            × ((length (failures event (h ∷ hs) w) == length (h ∷ hs)) ≡ all_fail event (h ∷ hs) w)
          → (length (failures event (h ∷ hs) w) == length (h ∷ hs)
              && ltb 0 (length (failures event (h ∷ hs) w)))
            ≡ (all_fail event (h ∷ hs) w && true)
      both (few, same) = rw (← same) (counted (length (failures event (h ∷ hs) w)) (length hs))

  abbrev pub async_handlers : DomainEvent P → List (HandlerRegistration P W)
  async_handlers event = keep (is_async backend bus) (handlers_for backend bus event)

  -- how a job with these errors ends
  abbrev pub rejected : List Throwable → Exec W (Unit {0})
  rejected [] w = ok tt w
  rejected (e ∷ es) w = err e w

  throw_first-rejected : (es : List Throwable) → throw_first backend bus es ≡ rejected es
  throw_first-rejected [] = refl
  throw_first-rejected (e ∷ es) = refl

  -- All asynchronous handlers of a queued event run. If there are some and all of them throw, a job with the
  -- event and the messages of all the errors is added to the dead letter queue, if there is that queue, and
  -- then the job is rejected with the first error; where the addition throws, it is rejected with
  -- what that throws. If there is none, or one returns, the job is done, whatever the others threw, and
  -- the bus adds nothing to a queue.
  pub process_async_event_lem :
      (event : DomainEvent P) (w : W)
      → process_async_event backend bus event w ≡ (
          if all_fail event (async_handlers event) w && not (is_empty_list (async_handlers event))
          then ◌>>=◌ {B = Unit {0}}
              (λ v.
                if backend.has_queue bus.config.dead_letter_queue_name v
                then backend.add_job
                    (record {
                      queue = bus.config.dead_letter_queue_name;
                      name = "failed-event";
                      content =
                          failed_job event
                            (map message_of (failures event (async_handlers event) w));
                      priority = none;
                      job_id = none;
                    })
                    v
                else ok tt v)
              (λ _. rejected (failures event (async_handlers event) w))
              (deliver backend bus event (async_handlers event) w)
          else ok tt (deliver backend bus event (async_handlers event) w))
  unfolding process_async_event move_to_dead_letter
  process_async_event_lem event w =
      let hs = async_handlers event in
      rw⁻¹ (throw_first-rejected (failures event hs w)) (
        >>=-ok (run_async backend bus event hs [])
          (λ errors.
            if length errors == length hs && ltb 0 (length errors)
            then (◌>>◌ (move_to_dead_letter backend bus event errors)
                (throw_first backend bus errors))
            else λ w'. ok tt w')
          w (run_async-eq-deliver event hs [] w)
        ∙ if-apply
            (◌>>◌ (move_to_dead_letter backend bus event (failures event hs w))
              (throw_first backend bus (failures event hs w)))
            (λ w'. ok tt w') (deliver backend bus event hs w) (all_failed event hs w))
