-- ===== src/Tasks.antt =====
-- src/tasks/: the distributed lock, the leader election, the queues, and the background and scheduled jobs.
pub mod Redis
pub mod Lock
pub mod Election
pub mod Queue
pub mod Background
pub mod Scheduled
