-- ===== src/Coro.antt =====
-- The waiting lists of the coroutine mutex and condition variable
-- (runtime/src/coro), their operations and the protocol of a lock.
pub mod Waiters
pub mod Mutex
pub mod Condition
pub mod Cancellation
mod Tests
