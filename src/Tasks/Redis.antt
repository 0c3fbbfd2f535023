-- ===== src/Tasks/Redis.antt =====
-- The commands of `ioredis` that src/tasks/distributed-lock.ts uses. The server is not part of the
-- repository: its state and its commands are parameters, and `IsRedis` states what the Redis
-- manual says of them. `entry` is a key's value and the time at which it expires, while the key
-- exists.
mod Memory
unfoldable pub use Memory.*
pub mod Interface
pub use Interface.*
