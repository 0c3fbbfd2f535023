-- ===== src/Events/Bus/Pipeline.antt =====
-- The publication of an event: `publish`, `executeMiddleware`, `processLocalHandlers` and
-- `queueAsyncEvent` of src/events/event-bus.ts.
pub mod Delivery
use Prim.Native.String.{◌++◌ as concat}
use arcana_cloud_nodejs.Base.{
  ℕ, zero, suc, ◌+◌, String, Bool, true, false, not, ◌&&◌, Option, none, some, List, [], ◌∷◌, ◌++◌,
  keep, length, str_eq, if◌then◌else◌,
}
use arcana_cloud_nodejs.Base.Exec.{Outcome, ok, err, Exec, attempt, ◌>>=◌, ◌>>◌}
use arcana_cloud_nodejs.Events.Domain.{DomainEvent}
use arcana_cloud_nodejs.Events.Backend.{Backend, event_job}
use arcana_cloud_nodejs.Events.Store.{
  EventStore, Stored, is_event_processed, mark_event_processed, save_audit_log, publish_to_channel,
}
use arcana_cloud_nodejs.Events.Bus.{
  HandlerRegistration, EventMiddleware, EventBus, Run, handlers_of,
}

-- `priorities[eventType] ?? 1`
unfoldable pub get_event_priority : String → ℕ
get_event_priority t =
    if str_eq t "security.alert"
    then 10
    else if str_eq t "user.registered"
    then 8
    else if str_eq t "user.password_changed"
    then 8
    else if str_eq t "user.logged_in"
    then 5
    else if str_eq t "user.updated"
    then 3
    else if str_eq t "token.created"
    then 2
    else 1

abbrev pub is_empty_list {ℓ} : {A : Type ℓ} → List A → Bool
is_empty_list [] = true
is_empty_list (x ∷ xs) = false

module _ {W : Type 0} where
  abbrev in_run {κ} : {A : Type κ} → Run W → Outcome W A → Outcome (Run W) A
  in_run r (ok a w) = ok a (record r { world = w })
  in_run r (err e w) = err e (record r { world = w })

  -- an action on the world alone
  abbrev pub on_world {κ} : {A : Type κ} → Exec W A → Exec (Run W) A
  on_world m r = in_run r (m r.world)

  abbrev in_stored {κ} : {A : Type κ} → Run W → Outcome (Stored W) A → Outcome (Run W) A
  in_stored r (ok a s) = ok a (record r { store = some s.store; world = s.world })
  in_stored r (err e s) = err e (record r { store = some s.store; world = s.world })

  -- `if (flag && this.eventStore) await …`, with a result for the other case
  abbrev if_store_at {κ} :
      {A : Type κ} → A → Exec (Stored W) A → Run W → Option EventStore → Outcome (Run W) A
  if_store_at a m r none = ok a r
  if_store_at a m r (some es) = in_stored r (m (record { store = es; world = r.world }))

  abbrev pub if_store {κ} : {A : Type κ} → Bool → A → Exec (Stored W) A → Exec (Run W) A
  if_store flag a m r = if flag then if_store_at a m r r.store else ok a r

module _ {P W : Type 0} (backend : Backend P W) (bus : EventBus P W) where
  abbrev pub handlers_for : DomainEvent P → List (HandlerRegistration P W)
  handlers_for event = handlers_of event.event_type bus.handlers ++ bus.global_handlers

  abbrev pub is_sync : HandlerRegistration P W → Bool
  is_sync h = not h.async

  abbrev pub is_async : HandlerRegistration P W → Bool
  is_async h = h.async

  -- the loop over the synchronous handlers, which catches what each throws
  unfoldable pub run_sync : DomainEvent P → List (HandlerRegistration P W) → Exec W (Unit {0})
  run_sync event [] w = ok tt w
  run_sync event (h ∷ hs) w = (attempt (h.handler event) >>= λ _. run_sync event hs) w

  unfoldable pub queue_async_event : DomainEvent P → Exec W (Unit {0})
  unfolding get_event_priority
  queue_async_event event w =
      if backend.has_queue bus.config.async_queue_name w
      then backend.add_job
          (record {
            queue = bus.config.async_queue_name;
            name = event.event_type;
            content = event_job event;
            priority = some (get_event_priority event.event_type);
            job_id = some (concat "event-" event.event_id);
          })
          w
      else ok tt w

  unfoldable pub process_local_handlers : DomainEvent P → Exec W (Unit {0})
  process_local_handlers event = do
    run_sync event (keep is_sync (handlers_for event))
    λ w.
        if not (is_empty_list (keep is_async (handlers_for event))) && bus.config.enable_async
        then queue_async_event event w
        else ok tt w

  -- the argument `finalHandler` of `executeMiddleware`
  unfoldable pub final_handler : DomainEvent P → Exec (Run W) (Unit {0})
  final_handler event = do
    if_store bus.config.enable_audit_log tt (save_audit_log backend event)
    if_store bus.config.enable_idempotency tt (mark_event_processed backend event.event_id)
    if_store bus.config.enable_pub_sub tt (publish_to_channel backend event)
    on_world (process_local_handlers event)

  -- `this.middleware[index]`, while `index` is below the length
  abbrev middleware_at : ℕ → List (EventMiddleware P W) → Option (EventMiddleware P W)
  middleware_at i [] = none
  middleware_at zero (m ∷ ms) = some m
  middleware_at (suc i) (m ∷ ms) = middleware_at i ms

  -- The closure `next`. `depth` bounds how often it is nested: each call raises the shared `index`,
  -- so a call that is nested as deep as there are middlewares finds none left.
  unfoldable pub next_middleware :
      ℕ → DomainEvent P → Exec (Run W) (Unit {0}) → Exec (Run W) (Unit {0})
  next_middleware zero event final r = final (record r { index = r.index + 1 })
  next_middleware (suc depth) event final r =
      let r' = record r { index = r.index + 1 } in
      elim (middleware_at (r.index + 1) bus.middleware) [
        | some m ↦ m event (next_middleware depth event final) r'
        | none ↦ final r'
      ]

  abbrev first_middleware :
      List (EventMiddleware P W) → DomainEvent P → Exec (Run W) (Unit {0}) → Exec (Run W) (Unit {0})
  first_middleware [] event final r = final r
  first_middleware (m ∷ ms) event final r =
      m event (next_middleware (length ms) event final) (record r { index = 0 })

  unfoldable pub execute_middleware :
      DomainEvent P → Exec (Run W) (Unit {0}) → Exec (Run W) (Unit {0})
  execute_middleware = first_middleware bus.middleware

  unfoldable pub publish : DomainEvent P → Exec (Run W) (Unit {0})
  publish event = do
    is_processed ←
        if_store bus.config.enable_idempotency false (is_event_processed backend event.event_id)
    λ r. if is_processed then ok tt r else execute_middleware event (final_handler event) r
