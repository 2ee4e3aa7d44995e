-- ===== src/Tasking.antt =====
-- The tasking system, pulpcore/tasking and pulpcore/app/models/task.py.
pub mod Task
pub mod Resources
pub mod Unblock
pub mod Redis
pub mod Locks
pub mod RedisWorker
