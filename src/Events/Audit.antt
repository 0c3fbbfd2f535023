-- ===== src/Events/Audit.antt =====
-- src/events/handlers/audit.queries.ts: the log of events in memory, and the queries that ask the event store
-- where there is one (`queryAuditLog` and `getAuditStats` of src/events/event-store.ts) and the log in
-- memory otherwise.
pub mod Bound
pub mod Selection
pub mod Answers
use arcana_cloud_nodejs.Base.{
  ℕ, zero, suc, ◌+◌, ◌-◌, ◌*◌, String, Bool, true, false, Option, none, some, List, [], ◌∷◌, ◌++◌,
  map, length, take, drop, keep, ltb, leb, str_eq, if◌then◌else◌,
}
use arcana_cloud_nodejs.Base.Exec.{Exec, ok, pure, ◌>>=◌}

pub record AuditLogEntry (P : Type 0) : Type 0 where
  pub id : String
  pub event_id : String
  pub event_type : String
  pub event_version : ℕ
  pub occurred_at : ℕ
  pub correlation_id : Option String
  pub payload : P
  pub processed_at : ℕ

pub record AuditQuery : Type 0 where
  pub event_type : Option String
  pub correlation_id : Option String
  pub user_id : Option ℕ
  pub from_date : Option ℕ
  pub to_date : Option ℕ
  pub limit : Option ℕ
  pub offset : Option ℕ

pub record AuditPage (P : Type 0) : Type 0 where
  pub items : List (AuditLogEntry P)
  pub total : ℕ

pub record AuditStats : Type 0 where
  pub total_events : ℕ
  pub events_by_type : List (String × ℕ)
  pub last_24_hours : ℕ

-- the synchronous statistics
pub record LogStats : Type 0 where
  pub total_events : ℕ
  pub events_by_type : List (String × ℕ)
  pub oldest_event : Option ℕ
  pub newest_event : Option ℕ

-- the `where` of a query of the store: what is `none` is not asked for
pub record AuditWhere : Type 0 where
  pub event_type : Option String
  pub correlation_id : Option String
  pub user_id : Option ℕ
  pub occurred_from : Option ℕ
  pub occurred_to : Option ℕ

-- The table `auditLog` of Prisma: `findMany` with `take` and `skip`, newest first, `count`, and `groupBy` of the type
-- with its count.
pub record AuditTable (P W : Type 0) : Type 0 where
  pub find_many : AuditWhere → ℕ → ℕ → Exec W (List (AuditLogEntry P))
  pub count : AuditWhere → Exec W ℕ
  pub count_by_type : Exec W (List (String × ℕ))

abbrev pub max_in_memory_size : ℕ
max_in_memory_size = 10000

-- a text or a number that JavaScript takes for true
abbrev pub filled_text : Option String → Option String
filled_text none = none
filled_text (some s) = if str_eq s "" then none else some s

abbrev positive : Option ℕ → Option ℕ
positive none = none
positive (some zero) = none
positive (some (suc n)) = some (suc n)

abbrev pub or_default : Option ℕ → ℕ → ℕ
or_default none d = d
or_default (some n) d = n

abbrev pub same_text : Option String → String → Bool
same_text none s = false
same_text (some t) s = str_eq t s

-- `eventsByType[type] = (eventsByType[type] || 0) + 1`
unfoldable pub count_type : String → List (String × ℕ) → List (String × ℕ)
count_type type [] = (type, 1) ∷ []
count_type type ((t, n) ∷ rest) =
    let others = count_type type rest in
    if str_eq t type then (t, n + 1) ∷ rest else (t, n) ∷ others

abbrev pub day : ℕ
day = 24 * 60 * 60 * 1000

module _ {P : Type 0} where
  unfoldable pub add_to_in_memory_audit_log :
      AuditLogEntry P → List (AuditLogEntry P) → List (AuditLogEntry P)
  add_to_in_memory_audit_log entry log =
      let pushed = log ++ entry ∷ [] in
      if ltb max_in_memory_size (length pushed)
      then drop (length pushed - max_in_memory_size) pushed
      else pushed

  -- one filter after another, each if its option is given
  abbrev pub filter_if :
      {A : Type 0}
      → (A → AuditLogEntry P → Bool)
      → Option A
      → List (AuditLogEntry P)
      → List (AuditLogEntry P)
  filter_if test none log = log
  filter_if test (some a) log = keep (test a) log

  unfoldable pub matching : AuditQuery → List (AuditLogEntry P) → List (AuditLogEntry P)
  matching q log =
      filter_if (λ t e. leb e.occurred_at t) q.to_date
        (filter_if (λ t e. leb t e.occurred_at) q.from_date
          (filter_if (λ s e. same_text e.correlation_id s) (filled_text q.correlation_id)
            (filter_if (λ s e. str_eq e.event_type s) (filled_text q.event_type) log)))

  -- `results.sort(…)`, which is stable: newest first, and the order of the log at equal times
  unfoldable pub insert_newest : AuditLogEntry P → List (AuditLogEntry P) → List (AuditLogEntry P)
  insert_newest x [] = x ∷ []
  insert_newest x (y ∷ ys) =
      let rest = insert_newest x ys in
      if leb y.occurred_at x.occurred_at then x ∷ y ∷ ys else y ∷ rest

  unfoldable pub newest_first : List (AuditLogEntry P) → List (AuditLogEntry P)
  unfolding insert_newest
  newest_first [] = []
  newest_first (x ∷ xs) = insert_newest x (newest_first xs)

  -- the part of `queryAuditLogAsync` without a store
  unfoldable pub query_in_memory : AuditQuery → List (AuditLogEntry P) → AuditPage P
  unfolding matching newest_first
  query_in_memory q log =
      let results = newest_first (matching q log) in
      record {
        items =
            take (or_default (positive q.limit) 100)
              (drop (or_default (positive q.offset) 0) results);
        total = length results;
      }

  -- `queryAuditLog`, whose options have no offset
  unfoldable pub query_audit_log : AuditQuery → List (AuditLogEntry P) → List (AuditLogEntry P)
  unfolding matching newest_first
  query_audit_log q log =
      let results = newest_first (matching q log) in
      elim (positive q.limit) [ none ↦ results | some n ↦ take n results ]

  unfoldable pub count_types : List (AuditLogEntry P) → List (String × ℕ) → List (String × ℕ)
  unfolding count_type
  count_types [] counts = counts
  count_types (e ∷ log) counts = count_types log (count_type e.event_type counts)

  -- the part of `getAuditStatsAsync` without a store, at a time
  unfoldable pub stats_in_memory : ℕ → List (AuditLogEntry P) → AuditStats
  unfolding count_types
  stats_in_memory now log = record {
    total_events = length log;
    events_by_type = count_types log [];
    last_24_hours = length (keep (λ e. leb (now - day) e.occurred_at) log);
  }

  abbrev first_time : List (AuditLogEntry P) → Option ℕ
  first_time [] = none
  first_time (e ∷ log) = some e.occurred_at

  abbrev last_time : List (AuditLogEntry P) → Option ℕ
  last_time [] = none
  last_time (e ∷ []) = some e.occurred_at
  last_time (e ∷ f ∷ log) = last_time (f ∷ log)

  unfoldable pub get_audit_stats : List (AuditLogEntry P) → LogStats
  unfolding count_types
  get_audit_stats log = record {
    total_events = length log;
    events_by_type = count_types log [];
    oldest_event = first_time log;
    newest_event = last_time log;
  }

module _ {P W : Type 0} (table : AuditTable P W) where
  abbrev audit_where : AuditQuery → AuditWhere
  audit_where q = record {
    event_type = filled_text q.event_type;
    correlation_id = filled_text q.correlation_id;
    user_id = positive q.user_id;
    occurred_from = q.from_date;
    occurred_to = q.to_date;
  }

  -- `EventStore.queryAuditLog`
  unfoldable pub query_store : AuditQuery → Exec W (AuditPage P)
  query_store q = do
    items ←
        table.find_many (audit_where q) (or_default (positive q.limit) 100)
          (or_default (positive q.offset) 0)
    total ← table.count (audit_where q)
    pure (record { items = items; total = total })

  abbrev since : Option ℕ → AuditWhere
  since time = record {
    event_type = none;
    correlation_id = none;
    user_id = none;
    occurred_from = time;
    occurred_to = none;
  }

  -- `EventStore.getAuditStats`, at a time
  unfoldable pub store_stats : ℕ → Exec W AuditStats
  store_stats now = do
    total_events ← table.count (since none)
    events_by_type ← table.count_by_type
    last_24_hours ← table.count (since (some (now - day)))
    pure (record {
      total_events = total_events;
      events_by_type = events_by_type;
      last_24_hours = last_24_hours;
    })

-- an entry as the query answers it: `item.correlationId || undefined`
abbrev answered_entry : {P : Type 0} → AuditLogEntry P → AuditLogEntry P
answered_entry item = record item { correlation_id = filled_text item.correlation_id }

unfoldable pub query_audit_log_async :
    {P W : Type 0}
    → Option (AuditTable P W)
    → AuditQuery
    → List (AuditLogEntry P)
    → Exec W (AuditPage P)
unfolding query_store query_in_memory
query_audit_log_async none q log = pure (query_in_memory q log)
query_audit_log_async (some table) q log = do
  result ← query_store table q
  pure (record { items = map answered_entry result.items; total = result.total })

unfoldable pub get_audit_stats_async :
    {P W : Type 0} → Option (AuditTable P W) → ℕ → List (AuditLogEntry P) → Exec W AuditStats
unfolding store_stats stats_in_memory
get_audit_stats_async none now log = pure (stats_in_memory now log)
get_audit_stats_async (some table) now log = store_stats table now

unfoldable pub clear_audit_log : {P : Type 0} → List (AuditLogEntry P) → List (AuditLogEntry P)
clear_audit_log log = []
