-- ===== src/Events/Store.antt =====
-- src/events/event-store.ts: idempotency marks, the audit log, the counters of rate limit hits and the
-- publication to other instances. `connected` says whether the Redis client is there; a failed
-- command falls back on the sets and maps in memory. A JavaScript `Set` or `Map` is a list in the
-- order of insertion.
pub mod Marks
pub mod Counters
use Prim.Native.String.{◌++◌ as concat}
use arcana_cloud_nodejs.Base.{
  ℕ, ◌+◌, ◌*◌, String, Bool, true, false, not, ◌||◌, Option, none, some, List, [], ◌∷◌, ◌++◌, keep,
  take, drop, length, ◌==◌, ltb, str_eq, if◌then◌else◌,
}
use arcana_cloud_nodejs.Base.Exec.{Outcome, ok, err, Exec, attempt, ◌>>=◌, ◌>>◌}
use arcana_cloud_nodejs.Events.Domain.{DomainEvent}
use arcana_cloud_nodejs.Events.Backend.{Backend, AuditRow}

pub record EventStore : Type 0 where
  pub connected : Bool
  pub local_processed_events : List String
  pub rate_limit_hits : List (String × ℕ)

abbrev pub idempotency_ttl : ℕ
idempotency_ttl = 24 * 60 * 60

abbrev pub security_metrics_ttl : ℕ
security_metrics_ttl = 60 * 60

abbrev pub event_channel : String
event_channel = "domain-events"

-- `set.has(id)` and `set.add(id)`
abbrev pub has : String → List String → Bool
has id [] = false
has id (x ∷ xs) = str_eq x id || has id xs

abbrev pub add : String → List String → List String
add id xs = if has id xs then xs else xs ++ id ∷ []

-- The loop that deletes the first `n` identifiers; the empty one is falsy, and stays.
abbrev pub is_empty : String → Bool
is_empty id = str_eq id ""

unfoldable pub trim_first : ℕ → List String → List String
trim_first n xs = keep is_empty (take n xs) ++ drop n xs

unfoldable pub remember : String → List String → List String
unfolding trim_first
remember id xs =
    let marked = add id xs in if ltb 10000 (length marked) then trim_first 1000 marked else marked

-- `map.get(key) || 0` and `map.set(key, n)`
abbrev pub hits_of : String → List (String × ℕ) → ℕ
hits_of key [] = 0
hits_of key ((k, n) ∷ m) = if str_eq k key then n else hits_of key m

abbrev pub set_hits : String → ℕ → List (String × ℕ) → List (String × ℕ)
set_hits key n [] = (key, n) ∷ []
set_hits key n ((k, i) ∷ m) = if str_eq k key then (k, n) ∷ m else (k, i) ∷ set_hits key n m

-- The store, and everything outside.
pub record Stored (W : Type 0) : Type 0 where
  pub store : EventStore
  pub world : W

module _ {W : Type 0} where
  abbrev keep_store {κ} : {A : Type κ} → EventStore → Outcome W A → Outcome (Stored W) A
  keep_store es (ok a w) = ok a (record { store = es; world = w })
  keep_store es (err e w) = err e (record { store = es; world = w })

  abbrev pub outside {κ} : {A : Type κ} → Exec W A → Exec (Stored W) A
  outside m s = keep_store s.store (m s.world)

module _ {P W : Type 0} (backend : Backend P W) where
  unfoldable pub is_event_processed : String → Exec (Stored W) Bool
  is_event_processed id s =
      if s.store.connected
      then (do
        reply ← attempt (outside (backend.exists (concat "event:processed:" id)))
        λ s'. elim reply [
          | some count ↦ ok (count == 1) s'
          | none ↦ ok (has id s'.store.local_processed_events) s'
        ])
          s
      else ok (has id s.store.local_processed_events) s

  mark_locally : String → Exec (Stored W) (Unit {0})
  unfolding remember
  mark_locally id s = ok tt (record s {
    store = record s.store { local_processed_events = remember id s.store.local_processed_events };
  })

  unfoldable pub mark_event_processed : String → Exec (Stored W) (Unit {0})
  unfolding mark_locally
  mark_event_processed id s =
      if s.store.connected
      then (do
        reply ← attempt (outside (backend.setex (concat "event:processed:" id) idempotency_ttl "1"))
        λ s'. elim reply [ some done ↦ ok tt s' | none ↦ mark_locally id s' ])
          s
      else mark_locally id s

  abbrev pub audit_row : DomainEvent P → AuditRow P
  audit_row event = record {
    id = concat "audit-" event.event_id;
    event_id = event.event_id;
    event_type = event.event_type;
    event_version = event.version;
    correlation_id = event.correlation_id;
    payload = event.payload;
    occurred_at = event.occurred_at;
    user_id = backend.payload_user event.payload;
    ip_address = backend.payload_ip event.payload;
  }

  -- a failure is logged, and does not reject
  unfoldable pub save_audit_log : DomainEvent P → Exec (Stored W) (Unit {0})
  save_audit_log event =
      attempt (outside (backend.create_audit (audit_row event))) >>= λ _ s. ok tt s

  increment_locally : String → Exec (Stored W) ℕ
  increment_locally ip s =
      let current = hits_of ip s.store.rate_limit_hits in
      ok (current + 1) (record s {
        store = record s.store {
          rate_limit_hits = set_hits ip (current + 1) s.store.rate_limit_hits;
        };
      })

  unfoldable pub increment_rate_limit_hit : String → Exec (Stored W) ℕ
  unfolding increment_locally
  increment_rate_limit_hit ip s =
      let key = concat "security:ratelimit:" ip in
      if s.store.connected
      then (do
        reply ← attempt (
            outside (do
              count ← backend.incr key
              λ w.
                  if count == 1
                  then (do backend.expire key security_metrics_ttl; λ w'. ok count w') w
                  else ok count w))
        λ s'. elim reply [ some count ↦ ok count s' | none ↦ increment_locally ip s' ])
          s
      else increment_locally ip s

  unfoldable pub get_rate_limit_hits : String → Exec (Stored W) ℕ
  get_rate_limit_hits ip s =
      if s.store.connected
      then (do
        reply ← attempt (outside (backend.get_number (concat "security:ratelimit:" ip)))
        λ s'. elim reply [
          | some none ↦ ok 0 s'
          | some (some count) ↦ ok count s'
          | none ↦ ok (hits_of ip s'.store.rate_limit_hits) s'
        ])
          s
      else ok (hits_of ip s.store.rate_limit_hits) s

  unfoldable pub publish_to_channel : DomainEvent P → Exec (Stored W) (Unit {0})
  publish_to_channel event s =
      if s.store.connected
      then (attempt (outside (backend.publish_message event_channel event)) >>= λ _ s'. ok tt s') s
      else ok tt s

  unfoldable pub clear_local_cache : Exec (Stored W) (Unit {0})
  clear_local_cache s = ok tt (record s { store = record s.store { local_processed_events = [] } })
