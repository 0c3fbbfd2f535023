-- ===== src/Tests/Events.antt =====
-- The event store and the event bus, over a world that keeps a list of what was done to it.
use arcana_cloud_nodejs.Base.{
  ℕ, String, ◌≡◌, refl, true, false, none, some, List, [], ◌∷◌, ◌++◌, arith,
}
use arcana_cloud_nodejs.Base.Int.{pos, negsuc}
use arcana_cloud_nodejs.Base.Exec.{Exec, ok, err, after}
use arcana_cloud_nodejs.Errors.{plain}
use arcana_cloud_nodejs.Events.Domain.{DomainEvent}
use arcana_cloud_nodejs.Events.Backend.{Backend}
use arcana_cloud_nodejs.Events.Store.{
  EventStore, Stored, remember, get_rate_limit_hits, is_event_processed, mark_event_processed,
  save_audit_log, publish_to_channel,
}
use arcana_cloud_nodejs.Events.Store.Marks.{IsMarks, remember-IsMarks, is_event_processed-mark}
use arcana_cloud_nodejs.Events.Store.Counters.{hit_times, get-hit_times}
use arcana_cloud_nodejs.Events.Bus.{
  HandlerOptions, EventBus, Run, default_config, on, off, handlers_of, registration,
}
use arcana_cloud_nodejs.Events.Bus.Order.{IsSorted, at_priority, on_lem}
use arcana_cloud_nodejs.Events.Bus.Removal.{off-on}
use arcana_cloud_nodejs.Events.Bus.Pipeline.{
  publish, process_local_handlers, run_sync, execute_middleware, final_handler, queue_async_event,
}
use arcana_cloud_nodejs.Events.Bus.Pipeline.Delivery.{at_store, deliver}
use arcana_cloud_nodejs.Events.Bus.Jobs.{process_async_event, replay_dead_letter_events}
use arcana_cloud_nodejs.Events.Bus.Jobs.Outcomes.{
  process_async_event_lem, rejected, failures, async_handlers,
}
use arcana_cloud_nodejs.Events.Bus.Jobs.Replay.{remove_all, replay_loses}

abbrev pub Trace : Type 0
Trace = List String

abbrev pub say : String → Exec Trace (Unit {0})
say line w = ok tt (w ++ line ∷ [])

abbrev pub crash : String → Exec Trace (Unit {0})
crash line w = err (plain line) (w ++ line ∷ [])

abbrev pub user_event : DomainEvent ℕ
user_event = record {
  event_id = "e1";
  event_type = "user.registered";
  version = 1;
  occurred_at = 0;
  correlation_id = none;
  causation_id = none;
  payload = 7;
}

abbrev pub recorder : Backend ℕ Trace
recorder = record {
  exists = λ key w. ok 0 w;
  setex = λ key ttl v. say "setex";
  incr = λ key w. ok 1 w;
  expire = λ key ttl. say "expire";
  get_number = λ key w. ok none w;
  publish_message = λ channel event. say "message";
  create_audit = λ row. say "audit";
  has_queue = λ q w. true;
  add_job = λ job. say "job";
  subscribe = λ channel. say "subscribe";
  dead_letters = λ q limit w. ok ((4, user_event) ∷ []) w;
  remove_job = λ q id. say "remove";
  payload_user = λ p. some p;
  payload_ip = λ p. none;
}

abbrev offline : EventStore
offline = record { connected = false; local_processed_events = []; rate_limit_hits = [] }

abbrev empty_bus : EventBus ℕ Trace
empty_bus = record { handlers = []; global_handlers = []; middleware = []; config = default_config }

abbrev plain_options : HandlerOptions
plain_options = record { async = none; priority = none }

-- a handler that throws, one that runs after it, one that is queued, and a global one
abbrev bus : EventBus ℕ Trace
bus = record {
  handlers =
      (
        "user.registered",
        registration 1 (λ e. crash "first") plain_options
            ∷ registration 2 (λ e. say "second") plain_options
            ∷ registration 3 (λ e. crash "queued") (record { async = some true; priority = none })
            ∷ [],
      )
      ∷ [];
  global_handlers =
      registration 4 (λ e. say "audit log")
        (record { async = some false; priority = some (negsuc 9) })
      ∷ [];
  middleware = [];
  config = default_config;
}

local_runs :
    process_local_handlers recorder bus user_event []
    ≡ ok tt ("first" ∷ "second" ∷ "audit log" ∷ "job" ∷ [])
unfolding process_local_handlers run_sync handlers_of queue_async_event
local_runs = refl

publish_runs :
    publish recorder bus user_event (at_store offline [] 0)
    ≡ ok tt (
        at_store
          (record offline { local_processed_events = "e1" ∷ [] })
          ("audit" ∷ "first" ∷ "second" ∷ "audit log" ∷ "job" ∷ [])
          0)
unfolding publish is_event_processed execute_middleware final_handler save_audit_log
    mark_event_processed publish_to_channel process_local_handlers run_sync handlers_of
    queue_async_event
publish_runs = refl

singleton-IsMarks : IsMarks ("e1" ∷ [])
singleton-IsMarks = record { distinct = (refl, tt); few = omega arith }

remember-IsMarks_example : IsMarks (remember "e2" ("e1" ∷ []))
remember-IsMarks_example = remember-IsMarks "e2" ("e1" ∷ []) singleton-IsMarks

abbrev one_mark : Stored Trace
one_mark = record { store = record offline { local_processed_events = "e1" ∷ [] }; world = [] }

is_event_processed-mark_example :
    is_event_processed recorder "e2" (after (mark_event_processed recorder "e2" one_mark))
    ≡ ok true (after (mark_event_processed recorder "e2" one_mark))
is_event_processed-mark_example =
    is_event_processed-mark recorder "e2" one_mark refl singleton-IsMarks

abbrev counting : Stored Trace
counting = record { store = offline; world = [] }

get-hit_times_example :
    (get_rate_limit_hits recorder "10.0.0.1" (hit_times recorder 3 "10.0.0.1" counting)
      ≡ ok 3 (hit_times recorder 3 "10.0.0.1" counting))
    × ((hit_times recorder 3 "10.0.0.1" counting).world ≡ [])
get-hit_times_example = get-hit_times recorder 3 "10.0.0.1" "10.0.0.1" counting refl

urgent : HandlerOptions
urgent = record { async = none; priority = some (pos 5) }

on_lem_example :
    IsSorted (
      handlers_of "user.registered"
        (on "user.registered" 9 (λ e. say "urgent") urgent bus).handlers)
    × (at_priority (pos 0) (
          handlers_of "user.registered"
            (on "user.registered" 9 (λ e. say "urgent") urgent bus).handlers)
        ≡ at_priority (pos 0) (
            handlers_of "user.registered" bus.handlers
            ++ registration 9 (λ e. say "urgent") urgent ∷ []))
    × (handlers_of "user.deleted" (on "user.registered" 9 (λ e. say "urgent") urgent bus).handlers
        ≡ handlers_of "user.deleted" bus.handlers)
on_lem_example =
    on_lem "user.registered" 9 (λ e. say "urgent") urgent bus (pos 0) "user.deleted" (λ h. cc)

off-on_example :
    handlers_of "user.registered"
      (off "user.registered" 9 (on "user.registered" 9 (λ e. say "urgent") urgent bus)).handlers
    ≡ handlers_of "user.registered" bus.handlers
unfolding handlers_of
off-on_example =
    off-on "user.registered" "user.registered" 9 (λ e. say "urgent") urgent bus
      ((refl, (refl, tt)), ((refl, tt), (tt, tt))) (refl, (refl, (refl, tt)))

abbrev once : Run Trace
once = after (publish recorder bus user_event (at_store offline [] 0))

-- the only asynchronous handler throws
process_async_event_lem_example :
    process_async_event recorder bus user_event []
    ≡ rejected recorder bus
        (failures recorder bus user_event (async_handlers recorder bus user_event) [])
        (deliver recorder bus user_event (async_handlers recorder bus user_event) [] ++ "job" ∷ [])
unfolding handlers_of
process_async_event_lem_example = process_async_event_lem recorder bus user_event []

abbrev removed : ℕ → Trace → Trace
removed id w = w ++ "remove" ∷ []

-- Redis has every mark
abbrev remembering : Backend ℕ Trace
remembering = record recorder { exists = λ key w. ok 1 w }

replay_loses_example :
    replay_dead_letter_events remembering bus 10
      (at_store (record offline { connected = true }) [] 0)
    ≡ ok 1 (
        at_store
          (record offline { connected = true })
          (remove_all removed ((4, user_event) ∷ []) [])
          0)
replay_loses_example =
    replay_loses remembering bus removed (λ id w. refl) (λ id event_id w h. refl)
      (record offline { connected = true }) 0 refl refl ((4, user_event) ∷ []) 10 [] [] refl refl
      (refl, tt)
