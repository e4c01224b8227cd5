-- ===== src/Containers.antt =====
-- runtime/include/simple/containers and runtime/src/containers.
pub mod Buffer
pub mod TimerQueue
mod Tests
