-- ===== src/Core.antt =====
-- The coroutine core, src/coev.
pub mod Queue
pub mod Event
pub mod Async
pub mod Mutex
pub mod Channel
pub mod WaitGroup
mod Tests
