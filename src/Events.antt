-- ===== src/Events.antt =====
-- src/events/: domain events, the event store, the event bus with its handlers and its start, and the log of events in
-- memory.
pub mod Domain
pub mod Backend
pub mod Store
pub mod Bus
pub mod Audit
pub mod Handlers
pub mod Start
