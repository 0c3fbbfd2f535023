-- ===== src/Events/Bus/Pipeline/Delivery.antt =====
-- What a publication does: duplicates are skipped, every synchronous handler runs once whatever the
-- others do, and an event is not delivered twice.
use Prim.Native.String.{◌++◌ as concat}
use arcana_cloud_nodejs.Base.{
  ℕ, String, ◌≡◌, refl, ap, ◌∙◌, Bool, true, false, Option, some, List, [], ◌∷◌, if◌then◌else◌,
  if-false,
}
use arcana_cloud_nodejs.Base.Exec.{ok, Exec, after, >>=-ok}
use arcana_cloud_nodejs.Events.Domain.{DomainEvent}
use arcana_cloud_nodejs.Events.Backend.{Backend}
use arcana_cloud_nodejs.Events.Store.{EventStore, Stored, has, remember, is_event_processed}
use arcana_cloud_nodejs.Events.Bus.{HandlerRegistration, EventBus, Run}
use arcana_cloud_nodejs.Events.Bus.Pipeline.{
  final_handler, execute_middleware, publish, if_store, if_store_at, in_stored,
}

module _ {W : Type 0} where
  -- a run with a store
  abbrev pub at_store : EventStore → W → ℕ → Run W
  at_store es w i = record { store = some es; world = w; index = i }

  if_store-some {κ} :
      {A : Type κ} (flag : Bool) (a : A) (m : Exec (Stored W) A) (r : Run W) (o : Option EventStore)
      {es : EventStore}
      → flag ≡ true
      → o ≡ some es
      → (if flag then if_store_at a m r o else ok a r)
        ≡ in_stored r (m (record { store = es; world = r.world }))
  if_store-some flag a m r o on there = rw (on, there) refl

  if_store-ok {κ} :
      {A : Type κ} (flag : Bool) (a : A) (m : Exec (Stored W) A) (r : Run W) {es : EventStore}
      {b : A} {s : Stored W}
      → flag ≡ true
      → r.store ≡ some es
      → m (record { store = es; world = r.world }) ≡ ok b s
      → if_store flag a m r ≡ ok b (record r { store = some s.store; world = s.world })
  if_store-ok flag a m r on there e = if_store-some flag a m r r.store on there ∙ ap (in_stored r) e

module _ {P W : Type 0} (backend : Backend P W) (bus : EventBus P W) where
  -- The world after each handler in turn has returned or thrown.
  unfoldable pub deliver : DomainEvent P → List (HandlerRegistration P W) → W → W
  deliver event [] w = w
  deliver event (h ∷ hs) w = deliver event hs (after (h.handler event w))

  -- A publication of an event that the store counts as processed returns, and does nothing but ask
  -- the store.
  pub publish-duplicate :
      (event : DomainEvent P) (r : Run W) (es : EventStore) (s : Stored W)
      → bus.config.enable_idempotency ≡ true
      → r.store ≡ some es
      → is_event_processed backend event.event_id (record { store = es; world = r.world })
        ≡ ok true s
      → publish backend bus event r ≡ ok tt (record r { store = some s.store; world = s.world })
  unfolding publish
  publish-duplicate event r es s on there processed =
      >>=-ok
        (if_store bus.config.enable_idempotency false (is_event_processed backend event.event_id))
        (λ done s'.
          if done
          then ok tt s'
          else execute_middleware backend bus event (final_handler backend bus event) s')
        r (if_store-ok _ false (is_event_processed backend event.event_id) r on there processed)

  -- the store in memory, after a mark
  abbrev pub marked : String → EventStore → EventStore
  marked id es = record es { local_processed_events = remember id es.local_processed_events }

  is_event_processed-local :
      (id : String) (es : EventStore) (w : W)
      → es.connected ≡ false
      → is_event_processed backend id (record { store = es; world = w })
        ≡ ok (has id es.local_processed_events) (record { store = es; world = w })
  unfolding is_event_processed
  is_event_processed-local id es w disconnected = if-false _ _ disconnected

  pub publish-marked :
      (event : DomainEvent P) (es : EventStore) (w : W) (i : ℕ)
      → es.connected ≡ false
      → bus.config.enable_idempotency ≡ true
      → has event.event_id es.local_processed_events ≡ true
      → publish backend bus event (at_store es w i) ≡ ok tt (at_store es w i)
  publish-marked event es w i disconnected idempotent h =
      publish-duplicate event (at_store es w i) es (record { store = es; world = w }) idempotent
        refl
        (is_event_processed-local event.event_id es w disconnected
          ∙ ap (λ b. ok b (record { store = es; world = w })) h)
