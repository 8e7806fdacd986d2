-- ===== src/Queue.antt =====
-- src/Queue.h: the queue that threads share, one call of its mutex, semaphore or std::queue at a
-- time.
pub mod Effects
pub mod System
pub mod Steps
pub mod Kept
pub mod Invariant
pub mod Safety
pub mod Order
pub mod Deadlock
pub mod Schedule
mod Tests
