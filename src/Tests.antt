-- ===== src/Tests.antt =====
-- The theorems at concrete inputs, and tests of the definitions.
mod Accounts
mod Http
mod Controllers
mod Communication
mod Tasks
mod Queues
mod Start
mod Events
