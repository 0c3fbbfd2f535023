-- ===== src/Events/Start/First.antt =====
-- The first start of the event system, as `main` of src/index.ts does it: without a Prisma client.
use arcana_cloud_nodejs.Events.Domain.{DomainEvent}
use arcana_cloud_nodejs.Events.Bus.Pipeline.{publish, on_world, process_local_handlers}
use arcana_cloud_nodejs.Base.{ℕ, ◌≡◌, Option, none, some}
use arcana_cloud_nodejs.Base.Exec.{Exec}
use arcana_cloud_nodejs.Events.Backend.{Backend}
use arcana_cloud_nodejs.Events.Handlers.{Handlers}
use arcana_cloud_nodejs.Events.Start.{Instance}

module _ {P W : Type 0} (backend : Backend P W) where
  -- an instance that, when it publishes the event in the world, does nothing but deliver it to its handlers
  abbrev pub OnlyDelivers : DomainEvent P → W → ℕ → Option (Instance P W) → Type 0
  OnlyDelivers event w k none = ⊥
  OnlyDelivers event w k (some i) =
      publish backend i.bus event (record { store = i.store; world = w; index = k })
      ≡ on_world (process_local_handlers backend i.bus event)
          (record { store = i.store; world = w; index = k })
