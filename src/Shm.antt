-- ===== src/Shm.antt =====
-- runtime/src/shm: the shared-memory ring buffer and the message channel over it.
pub mod Circular
pub mod Buffer
pub mod Channel
mod Tests
