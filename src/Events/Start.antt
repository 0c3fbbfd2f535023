-- ===== src/Events/Start.antt =====
-- The start of the event bus, its end and its instance: `configure`, `initialize`, `close` and the functions
-- after the class of src/events/event-bus.ts, and
-- `initializeEventSystem` of src/events/index.ts. The queues are those of src/tasks/queue.ts.
pub mod First
use arcana_cloud_nodejs.Base.{
  ℕ, String, Bool, true, false, ◌≡◌, refl, Option, none, some, List, [], ◌∷◌, if◌then◌else◌,
}
use arcana_cloud_nodejs.Base.Exec.{Outcome, ok, err, Exec, after, attempt, catching, ◌>>=◌, ◌>>◌}
use arcana_cloud_nodejs.Errors.{Throwable}
use arcana_cloud_nodejs.Events.Domain.{DomainEvent}
use arcana_cloud_nodejs.Events.Backend.{Backend, JobData}
use arcana_cloud_nodejs.Events.Store.{EventStore, event_channel}
use arcana_cloud_nodejs.Events.Bus.{EventBus, EventBusConfig, default_config}
use arcana_cloud_nodejs.Events.Handlers.{Handlers, register_all_handlers}
use arcana_cloud_nodejs.Tasks.Queue.{
  Bull, Registry, exponential, flag, last, has, create_queue, create_worker,
}

-- `Partial<EventBusConfig>`
pub record ConfigChange : Type 0 where
  pub enable_async : Option Bool
  pub enable_idempotency : Option Bool
  pub enable_pub_sub : Option Bool
  pub enable_audit_log : Option Bool
  pub async_queue_name : Option String
  pub dead_letter_queue_name : Option String
  pub max_retries : Option ℕ
  pub retry_delay : Option ℕ

abbrev or_before : {A : Type 0} → Option A → A → A
or_before none a = a
or_before (some b) a = b

-- `{ ...config, ...change }`
abbrev with_config : ConfigChange → EventBusConfig → EventBusConfig
with_config change config = record {
  enable_async = or_before change.enable_async config.enable_async;
  enable_idempotency = or_before change.enable_idempotency config.enable_idempotency;
  enable_pub_sub = or_before change.enable_pub_sub config.enable_pub_sub;
  enable_audit_log = or_before change.enable_audit_log config.enable_audit_log;
  async_queue_name = or_before change.async_queue_name config.async_queue_name;
  dead_letter_queue_name = or_before change.dead_letter_queue_name config.dead_letter_queue_name;
  max_retries = or_before change.max_retries config.max_retries;
  retry_delay = or_before change.retry_delay config.retry_delay;
}

-- A bus with the fields that change. `subscriber` is whether the store has its second connection.
pub record Instance (P W : Type 0) : Type 0 where
  pub bus : EventBus P W
  pub store : Option EventStore
  pub subscriber : Bool
  pub initialized : Bool
  pub has_prisma : Bool

record Starting (P W : Type 0) : Type 0 where
  pub instance : Instance P W
  pub registry : Registry W

-- `eventBusInstance`, and the queues
pub record Process (P W : Type 0) : Type 0 where
  pub event_bus_instance : Option (Instance P W)
  pub registry : Registry W

module _ {P W : Type 0} where
  abbrev new_event_bus : Bool → ConfigChange → Instance P W
  new_event_bus has_prisma change = record {
    bus = record {
      handlers = [];
      global_handlers = [];
      middleware = [];
      config = with_config change default_config;
    };
    store = none;
    subscriber = false;
    initialized = false;
    has_prisma = has_prisma;
  }

  unfoldable configure : ConfigChange → EventBus P W → EventBus P W
  configure change bus = record bus { config = with_config change bus.config }

  abbrev in_registry {κ} :
      {A : Type κ} → Starting P W → Outcome (Registry W) A → Outcome (Starting P W) A
  in_registry s (ok a r) = ok a (record s { registry = r })
  in_registry s (err e r) = err e (record s { registry = r })

  abbrev on_queues {κ} : {A : Type κ} → Exec (Registry W) A → Exec (Starting P W) A
  on_queues m s = in_registry s (m s.registry)

  abbrev in_outside {κ} : {A : Type κ} → Starting P W → Outcome W A → Outcome (Starting P W) A
  in_outside s (ok a w) = ok a (record s { registry = record s.registry { outside = w } })
  in_outside s (err e w) = err e (record s { registry = record s.registry { outside = w } })

  abbrev on_outside {κ} : {A : Type κ} → Exec W A → Exec (Starting P W) A
  on_outside m s = in_outside s (m s.registry.outside)

-- `url` is `config.redisUrl`.
module _ {P J K W : Type 0} (backend : Backend P W) (bull : Bull J K W) (url : Option String) where
  abbrev is_given : Option String → Bool
  is_given none = false
  is_given (some u) = true

  abbrev new_store : EventStore
  new_store = record { connected = is_given url; local_processed_events = []; rate_limit_hits = [] }

  -- What the subscription throws is logged there.
  abbrev subscribe_store : Exec (Starting P W) (Unit {0})
  subscribe_store s =
      if s.instance.subscriber
      then (attempt (on_outside (backend.subscribe event_channel)) >>= λ _ t. ok tt t) s
      else ok tt s

  abbrev start_store : Exec (Starting P W) (Unit {0})
  start_store s =
      if s.instance.has_prisma
      then (let t = record s {
        instance = record s.instance { store = some new_store; subscriber = is_given url };
      } in
          if s.instance.bus.config.enable_pub_sub then subscribe_store t else ok tt t)
      else ok tt s

  abbrev create_queues : EventBusConfig → Exec (Registry W) (Unit {0})
  create_queues config = do
    create_queue bull url (record {
      name = config.async_queue_name;
      attempts = some config.max_retries;
      backoff = some (exponential, config.retry_delay);
      remove_on_complete = some (last 100);
      remove_on_fail = some (last 50);
    })
    create_queue bull url (record {
      name = config.dead_letter_queue_name;
      attempts = none;
      backoff = none;
      remove_on_complete = some (flag false);
      remove_on_fail = some (flag false);
    })
    create_worker bull url config.async_queue_name (record { concurrency = some 5; limiter = none })

  -- the `catch` of `initialize`
  abbrev without_async : Option Throwable → Starting P W → Starting P W
  without_async none s = s
  without_async (some e) s = record s {
    instance = record s.instance {
      bus = record s.instance.bus {
        config = record s.instance.bus.config { enable_async = false };
      };
    };
  }

  abbrev start_queues : Exec (Starting P W) (Unit {0})
  start_queues s =
      if s.instance.bus.config.enable_async
      then (catching (on_queues (create_queues s.instance.bus.config)) >>= λ e t.
            ok tt (without_async e t))
          s
      else ok tt s

  abbrev set_initialized : Exec (Starting P W) (Unit {0})
  set_initialized s = ok tt (record s { instance = record s.instance { initialized = true } })

  unfoldable initialize : Exec (Starting P W) (Unit {0})
  unfolding create_queue create_worker
  initialize s =
      if s.instance.initialized then ok tt s else (start_store >> start_queues >> set_initialized) s

  -- `quit` closes a connection.
  module _ (quit : Exec W (Unit {0})) where
    abbrev quit_redis : EventStore → Exec (Starting P W) (Unit {0})
    quit_redis store s =
        if store.connected
        then (on_outside quit >>= λ _ t. ok tt (record t {
          instance = record t.instance { store = some (record store { connected = false }) };
        }))
            s
        else ok tt s

    abbrev quit_subscriber : Exec (Starting P W) (Unit {0})
    quit_subscriber s =
        if s.instance.subscriber
        then (on_outside quit >>= λ _ t.
              ok tt (record t { instance = record t.instance { subscriber = false } }))
            s
        else ok tt s

    abbrev close_store : Option EventStore → Exec (Starting P W) (Unit {0})
    close_store none = λ s. ok tt s
    close_store (some store) = quit_redis store >> quit_subscriber

    unfoldable close : Exec (Starting P W) (Unit {0})
    close = (λ s. close_store s.instance.store s) >>= λ _ t.
        ok tt (record t { instance = record t.instance { initialized = false } })

    -- the instance of the module after a method of it
    abbrev kept : Outcome (Starting P W) (Unit {0}) → Outcome (Process P W) (Unit {0})
    kept (ok _ s) = ok tt (record { event_bus_instance = some s.instance; registry = s.registry })
    kept (err e s) = err e (record { event_bus_instance = some s.instance; registry = s.registry })

    abbrev close_at : Option (Instance P W) → Exec (Process P W) (Unit {0})
    close_at none p = ok tt p
    close_at (some i) p = kept (close (record { instance = i; registry = p.registry }))

    abbrev close_instance : Exec (Process P W) (Unit {0})
    close_instance p = close_at p.event_bus_instance p

    abbrev initialize_new : Bool → ConfigChange → Exec (Process P W) (Unit {0})
    initialize_new has_prisma change p =
        kept (
          initialize (record { instance = new_event_bus has_prisma change; registry = p.registry }))

    unfoldable initialize_event_bus : Bool → ConfigChange → Exec (Process P W) (Unit {0})
    unfolding initialize close
    initialize_event_bus has_prisma change = close_instance >> initialize_new has_prisma change

    -- What the closing throws is dropped.
    unfoldable reset_event_bus : Process P W → Process P W
    unfolding close
    reset_event_bus p = record (after (close_instance p)) { event_bus_instance = none }

    abbrev no_change : ConfigChange
    no_change = record {
      enable_async = none;
      enable_idempotency = none;
      enable_pub_sub = none;
      enable_audit_log = none;
      async_queue_name = none;
      dead_letter_queue_name = none;
      max_retries = none;
      retry_delay = none;
    }

    abbrev bus_at : Option (Instance P W) → Instance P W
    bus_at none = new_event_bus false no_change
    bus_at (some i) = i

    unfoldable get_event_bus : Process P W → Instance P W × Process P W
    get_event_bus p =
        let i = bus_at p.event_bus_instance in (i, record p { event_bus_instance = some i })

    abbrev with_handlers : Handlers P W → ℕ → Process P W → Process P W
    with_handlers handlers id p =
        let (i, q) = get_event_bus p in
        record q {
          event_bus_instance = some (record i { bus = register_all_handlers handlers id i.bus });
        }

    unfoldable pub initialize_event_system :
        Handlers P W → ℕ → Bool → ConfigChange → Exec (Process P W) (Unit {0})
    unfolding initialize_event_bus get_event_bus register_all_handlers
    initialize_event_system handlers id has_prisma change = do
      initialize_event_bus has_prisma change
      λ p. ok tt (with_handlers handlers id p)
