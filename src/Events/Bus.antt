-- ===== src/Events/Bus.antt =====
-- `EventBus` of src/events/event-bus.ts: configuration, registration and its order. `Pipeline` has the
-- publication of an event, `Jobs` the work on queued events. A function object is a handler with a
-- number, by which `===` compares it.
pub mod Pipeline
pub mod Jobs
pub mod Order
pub mod Removal
use arcana_cloud_nodejs.Base.{
  ℕ, String, Bool, true, false, Option, none, some, List, [], ◌∷◌, ◌++◌, ◌==◌, str_eq,
  if◌then◌else◌,
}
use arcana_cloud_nodejs.Base.Int.{ℤ, pos, ltb_ℤ}
use arcana_cloud_nodejs.Base.Exec.{Exec}
use arcana_cloud_nodejs.Events.Domain.{DomainEvent}
use arcana_cloud_nodejs.Events.Store.{EventStore}

pub record HandlerRegistration (P W : Type 0) : Type 0 where
  pub handler_id : ℕ
  pub handler : DomainEvent P → Exec W (Unit {0})
  pub async : Bool
  pub priority : ℤ

pub record EventBusConfig : Type 0 where
  pub enable_async : Bool
  pub enable_idempotency : Bool
  pub enable_pub_sub : Bool
  pub enable_audit_log : Bool
  pub async_queue_name : String
  pub dead_letter_queue_name : String
  pub max_retries : ℕ
  pub retry_delay : ℕ

abbrev pub default_config : EventBusConfig
default_config = record {
  enable_async = true;
  enable_idempotency = true;
  enable_pub_sub = true;
  enable_audit_log = true;
  async_queue_name = "events";
  dead_letter_queue_name = "events-dlq";
  max_retries = 3;
  retry_delay = 1000;
}

-- What a running publication may change: the store, the rest of the world, and the variable `index`
-- of `executeMiddleware`.
pub record Run (W : Type 0) : Type 0 where
  pub store : Option EventStore
  pub world : W
  pub index : ℕ

-- A middleware is handed the event and `next`.
abbrev pub EventMiddleware : Type 0 → Type 0 → Type 0
EventMiddleware P W = DomainEvent P → Exec (Run W) (Unit {0}) → Exec (Run W) (Unit {0})

pub record EventBus (P W : Type 0) : Type 0 where
  pub handlers : List (String × List (HandlerRegistration P W))
  pub global_handlers : List (HandlerRegistration P W)
  pub middleware : List (EventMiddleware P W)
  pub config : EventBusConfig

-- the options of `on` and `onAll`
pub record HandlerOptions : Type 0 where
  pub async : Option Bool
  pub priority : Option ℤ

abbrev or_else {ℓ} : {A : Type ℓ} → Option A → A → A
or_else none d = d
or_else (some a) d = a

module _ {P W : Type 0} where
  -- `sort((a, b) => b.priority - a.priority)`, which is stable
  pub insert_sorted :
      HandlerRegistration P W → List (HandlerRegistration P W) → List (HandlerRegistration P W)
  insert_sorted r [] = r ∷ []
  insert_sorted r (x ∷ xs) =
      if ltb_ℤ r.priority x.priority then x ∷ insert_sorted r xs else r ∷ x ∷ xs

  unfoldable pub sort : List (HandlerRegistration P W) → List (HandlerRegistration P W)
  unfolding insert_sorted
  sort [] = []
  sort (x ∷ xs) = insert_sorted x (sort xs)

  -- `map.get(type) || []` and `map.set(type, handlers)`
  unfoldable pub handlers_of :
      String → List (String × List (HandlerRegistration P W)) → List (HandlerRegistration P W)
  handlers_of t [] = []
  handlers_of t ((u, hs) ∷ m) = if str_eq u t then hs else handlers_of t m

  unfoldable pub set_handlers :
      String
      → List (HandlerRegistration P W)
      → List (String × List (HandlerRegistration P W))
      → List (String × List (HandlerRegistration P W))
  set_handlers t hs [] = (t, hs) ∷ []
  set_handlers t hs ((u, gs) ∷ m) =
      if str_eq u t then (u, hs) ∷ m else (u, gs) ∷ set_handlers t hs m

  abbrev pub registration :
      ℕ → (DomainEvent P → Exec W (Unit {0})) → HandlerOptions → HandlerRegistration P W
  registration id handler options = record {
    handler_id = id;
    handler = handler;
    async = or_else options.async false;
    priority = or_else options.priority (pos 0);
  }

  unfoldable pub on :
      String
      → ℕ
      → (DomainEvent P → Exec W (Unit {0}))
      → HandlerOptions
      → EventBus P W
      → EventBus P W
  unfolding sort handlers_of set_handlers
  on t id handler options bus = record bus {
    handlers =
        set_handlers t (sort (handlers_of t bus.handlers ++ registration id handler options ∷ []))
          bus.handlers;
  }

  unfoldable pub on_all :
      ℕ → (DomainEvent P → Exec W (Unit {0})) → HandlerOptions → EventBus P W → EventBus P W
  unfolding sort
  on_all id handler options bus = record bus {
    global_handlers = sort (bus.global_handlers ++ registration id handler options ∷ []);
  }

  -- `findIndex` and `splice(index, 1)`: the first registration of the handler goes
  unfoldable pub remove_handler :
      ℕ → List (HandlerRegistration P W) → List (HandlerRegistration P W)
  remove_handler id [] = []
  remove_handler id (x ∷ xs) = if x.handler_id == id then xs else x ∷ remove_handler id xs

  -- an event type without handlers is left out of the map
  unfoldable pub remove_at :
      String
      → ℕ
      → List (String × List (HandlerRegistration P W))
      → List (String × List (HandlerRegistration P W))
  unfolding remove_handler
  remove_at t id [] = []
  remove_at t id ((u, hs) ∷ m) =
      if str_eq u t then (u, remove_handler id hs) ∷ m else (u, hs) ∷ remove_at t id m

  unfoldable pub off : String → ℕ → EventBus P W → EventBus P W
  unfolding remove_at
  off t id bus = record bus { handlers = remove_at t id bus.handlers }

  unfoldable pub use_middleware : EventMiddleware P W → EventBus P W → EventBus P W
  use_middleware m bus = record bus { middleware = bus.middleware ++ m ∷ [] }
